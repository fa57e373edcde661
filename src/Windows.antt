-- ===== src/Windows.antt =====
-- The Windows branches of legacy_compatible/legacy_support.cpp.
pub mod Calls
pub mod Semaphore
pub mod Net
pub mod Responser
