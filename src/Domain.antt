-- ===== src/Domain.antt =====
-- internal/domain: errors, files, requests and the cache interface.
pub mod Errors
pub mod File
pub mod Interfaces
pub mod Request
