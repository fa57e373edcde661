-- ===== src/Programs.antt =====
-- The programs of examples/: how each builds a responder and runs it.
pub mod Platform
pub mod Legacy
pub mod WithCiUtils
pub mod Complex
pub mod AsioBase
