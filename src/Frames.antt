-- ===== src/Frames.antt =====
-- src/frames.c: the "frames" operation.
mod Tests
pub mod Template
pub mod Grab
pub mod Select
