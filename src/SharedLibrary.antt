-- ===== src/SharedLibrary.antt =====
-- The shared library, shared-library/shared-library.
pub mod Stream
pub mod Serializar
pub mod MemoryProt
pub mod FileSystemProt
mod Tests
