-- ===== src/Storage.antt =====
-- internal/storage: decompression and file type detection.
pub mod Decompressor
pub mod Detector
