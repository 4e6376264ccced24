-- ===== src/Terminal.antt =====
-- src/ice/include/ice/terminal.hpp and src/ice/src/ice/terminal.cpp: the word of a text format, the
-- escape sequences or console attributes that it selects, and the manager that takes them back.
pub mod Format
pub mod Manager
pub mod Windows
mod Tests
