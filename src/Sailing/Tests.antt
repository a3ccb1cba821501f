-- ===== src/Sailing/Tests.antt =====
-- Concrete lakes and games for the sailing game, and its theorems at them.
mod Boards
mod Ships
mod Rounds
mod Menus
mod Games
