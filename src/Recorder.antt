-- ===== src/Recorder.antt =====
-- The market data recorder of RealTime_Embedded_Systems/src.
pub mod Clock
pub mod Trade
pub mod Candle
pub mod Minutes
pub mod Average
pub mod Candles
pub mod Config
pub mod Setup
pub mod Worker
pub mod Tasks
pub mod Timed
pub mod Client
mod Tests
