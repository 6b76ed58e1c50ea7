-- ===== src/Tests.antt =====
-- Concrete runs: the properties applied at inputs that exercise the code.
pub mod Device
pub mod Scheduling
pub mod Memory
pub mod Bytes
pub mod Regions
pub mod Barrier
pub mod Machine
pub mod Instructions
pub mod Frames
pub mod Threads
pub mod Lockstep
pub mod Loading
pub mod SystemCalls
