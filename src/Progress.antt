-- ===== src/Progress.antt =====
-- src/progress.c: the progress side-channel, an emitter of records throttled by media time.
pub mod Emitter
pub mod Throttle
pub mod Totals
mod Tests
