-- ===== src/Driver.antt =====
-- src/driver.c: the command line of the engine.
mod Tests
pub mod Names
pub mod Main
