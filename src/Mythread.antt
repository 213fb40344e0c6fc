-- ===== src/Mythread.antt =====
-- 1.6/src: threads over clone(2), with join, detach and a reaper.
pub mod Flags
pub mod Protocol
pub mod Kernel
pub mod Create
pub mod Reaper
pub mod Programs
pub mod Lifecycle
mod Tests
