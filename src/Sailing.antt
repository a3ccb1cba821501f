-- ===== src/Sailing.antt =====
-- The sailing game of Structured_Programming/main.c, one module for each part of it.
pub mod Lake
pub mod State
pub mod Ships
pub mod Wind
pub mod Screen
pub mod Course
pub mod Round
pub mod Turn
pub mod Match
pub mod Program
pub mod Setup
pub mod Menu
mod Tests
