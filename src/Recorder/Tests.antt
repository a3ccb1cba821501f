-- ===== src/Recorder/Tests.antt =====
-- The theorems about the market data recorder at concrete inputs.
mod Data
mod Threads
mod Timers
