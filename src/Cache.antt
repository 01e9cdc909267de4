-- ===== src/Cache.antt =====
-- internal/cache: the cache on the file system and the one on Redis.
pub mod Disk
pub mod World
pub mod State
pub mod Upkeep
pub mod Filesystem
pub mod Redis
