-- ===== src/Process.antt =====
-- src/process.c: the "process" operation.
mod Tests
pub mod Timestamps
pub mod Mux
pub mod MapSpec
pub mod Window
pub mod Lanes
pub mod Graph
pub mod Copying
pub mod Run
pub mod Subs
pub mod Engine
pub mod Spec
pub mod Inputs
pub mod Setup
pub mod Streams
pub mod Metadata
pub mod Headers
