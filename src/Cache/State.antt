-- ===== src/Cache/State.antt =====
-- internal/cache/filesystem.go: the state of the cache and its construction.
use verus_gateway.Base.{ℕ, ◌+◌, ◌*◌, ◌%◌, ◌^◌, Bool, false, none, some, nat_eq}
use verus_gateway.Base.Bytes.{Str, lit}
use verus_gateway.Base.Int.{ℤ, pos, ◌-ℤ◌, ltb_ℤ, wrap64, or_default}
use verus_gateway.Domain.Errors.{wrapped, Result, ok, err}
use verus_gateway.Cache.Disk.{Disk, total_size, total_items}
use verus_gateway.Cache.World.{Io}

-- The fields, the files below `base_dir`, and whether the channel `stopCleanup` is closed.
pub record FilesystemCache : Type 0 where
  pub base_dir : Str
  pub max_size : ℤ
  pub ttl : ℤ
  pub cleanup_interval : ℤ
  pub hits : ℕ
  pub misses : ℕ
  pub size : ℤ
  pub items : ℤ
  pub disk : Disk
  pub stopped : Bool

pub record FilesystemCacheConfig : Type 0 where
  pub base_dir : Str
  pub max_size : ℤ
  pub ttl : ℤ
  pub cleanup_interval : ℤ

-- Nanoseconds.
abbrev pub hour : ℕ
hour = 3600 * 10 ^ 9

-- `calculateSize`
unfoldable pub calculate_size : FilesystemCache → FilesystemCache
calculate_size c = record c {
  size = wrap64 (pos (total_size c.disk));
  items = wrap64 (pos (total_items c.disk));
}

-- `NewFilesystemCache`, over the files that the directory holds already.
unfoldable pub new_filesystem_cache : Io → FilesystemCacheConfig → Disk → Result FilesystemCache
unfolding calculate_size
new_filesystem_cache io cfg disk = elim io.mkdir_error [
  | some e ↦ err (wrapped (lit "failed to create cache directory") e)
  | none ↦ ok (
      calculate_size (record {
        base_dir = cfg.base_dir;
        max_size = or_default cfg.max_size (1024 * 1024 * 1024);
        ttl = or_default cfg.ttl (24 * hour);
        cleanup_interval = or_default cfg.cleanup_interval hour;
        hits = 0;
        misses = 0;
        size = pos 0;
        items = pos 0;
        disk = disk;
        stopped = false;
      }))
]

-- `Add(1)` on the unsigned counters.
abbrev pub count_miss : FilesystemCache → FilesystemCache
count_miss c = record c { misses = (c.misses + 1) % 2 ^ 64 }

abbrev pub count_hit : FilesystemCache → FilesystemCache
count_hit c = record c { hits = (c.hits + 1) % 2 ^ 64 }

-- `now.Sub(modTime) > c.ttl`
unfoldable pub is_expired : ℤ → ℕ → ℕ → Bool
is_expired ttl now mod_time = ltb_ℤ ttl (pos now -ℤ pos mod_time)
