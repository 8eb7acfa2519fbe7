-- ===== src/Memoria.antt =====
-- The memory process, memoria/src.
pub mod Types
pub mod Hash
pub mod Frames
pub mod Cache
pub mod Server
pub mod Connection
pub mod Tests
