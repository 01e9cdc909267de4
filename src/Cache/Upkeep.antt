-- ===== src/Cache/Upkeep.antt =====
-- internal/cache/filesystem.go: the eviction and the cleanup.
use verus_gateway.Base.{
  ℕ, zero, suc, ◌-◌, Bool, List, [], ◌∷◌, ◌++◌, ltb, nat_eq, if◌then◌else◌, length, take,
}
use verus_gateway.Base.Bytes.{Str, lit}
use verus_gateway.Base.Int.{ℤ, pos, leb_ℤ, add64, sub64}
use verus_gateway.Cache.Disk.{Disk, is_bin}
use verus_gateway.Cache.World.{Io, try_remove}
use verus_gateway.Cache.State.{FilesystemCache, is_expired}

-- `path[:len(path)-4] + ".meta"`
unfoldable pub meta_of : Str → Str
meta_of p = take (length p - 4) p ++ lit ".meta"

-- `fileInfo`
pub record FileInfo : Type 0 where
  pub path : Str
  pub size : ℕ
  pub mod_time : ℕ

-- The walks that keep the content files.
unfoldable pub collect : Disk → List FileInfo
collect [] = []
collect ((p, e) ∷ d) =
    let rest = collect d in
    if is_bin p
    then record { path = p; size = length e.content; mod_time = e.mod_time } ∷ rest
    else rest

-- The inner loop of the sort: `k` comparisons from the left.
unfoldable pub pass : ℕ → List FileInfo → List FileInfo
pass zero l = l
pass (suc k) [] = []
pass (suc k) (x ∷ []) = x ∷ []
pass (suc k) (x ∷ y ∷ l) =
    let after = ltb y.mod_time x.mod_time in
    (if after then y else x) ∷ pass k ((if after then x else y) ∷ l)

-- The outer loop, with `k` rounds to go; a round with `k` to go makes `k` comparisons.
unfoldable pub rounds : ℕ → List FileInfo → List FileInfo
rounds zero l = l
rounds (suc k) l = rounds k (pass (suc k) l)

unfoldable pub bubble_sort : List FileInfo → List FileInfo
bubble_sort l = rounds (length l - 1) l

-- Both files of an entry go, and the counters are lowered.
abbrev pub drop_file : (Str → Bool) → FileInfo → FilesystemCache → FilesystemCache
drop_file removes f c = record c {
  disk = try_remove removes (meta_of f.path) (try_remove removes f.path c.disk);
  size = sub64 c.size (pos f.size);
  items = sub64 c.items (pos 1);
}

unfoldable pub evict_loop : (Str → Bool) → ℤ → ℤ → List FileInfo → FilesystemCache → FilesystemCache
evict_loop removes needed freed [] c = c
evict_loop removes needed freed (f ∷ files) c =
    let rest = evict_loop removes needed (add64 freed (pos f.size)) files (drop_file removes f c) in
    if leb_ℤ needed freed then c else rest

-- `evictOldest`, which always returns nil.
unfoldable pub evict_oldest : (Str → Bool) → ℤ → FilesystemCache → FilesystemCache
evict_oldest removes needed c = evict_loop removes needed (pos 0) (bubble_sort (collect c.disk)) c

unfoldable pub cleanup_walk : (Str → Bool) → ℕ → List FileInfo → FilesystemCache → FilesystemCache
cleanup_walk removes now [] c = c
cleanup_walk removes now (f ∷ files) c =
    cleanup_walk removes now files
      (if is_expired c.ttl now f.mod_time then drop_file removes f c else c)

unfoldable pub cleanup : Io → FilesystemCache → FilesystemCache
cleanup io c = cleanup_walk io.removes io.now (collect c.disk) c

-- What the goroutine receives.
pub data Signal : Type 0 where
  stop : Signal
  tick : Io → Signal

unfoldable pub cleanup_loop : List Signal → FilesystemCache → FilesystemCache
cleanup_loop [] c = c
cleanup_loop (stop ∷ rest) c = c
cleanup_loop (tick io ∷ rest) c = cleanup_loop rest (cleanup io c)
