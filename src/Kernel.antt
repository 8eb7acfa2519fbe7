-- ===== src/Kernel.antt =====
-- The kernel, kernel/src.
pub mod Files
pub mod Heap
pub mod Requests
mod Tests
