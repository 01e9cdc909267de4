-- ===== src/Cache/Filesystem.antt =====
-- internal/cache/filesystem.go
pub mod Sort
pub mod Paths
pub mod Present
pub mod Dropping
pub mod Eviction
pub mod Accounting
pub mod Storing
pub mod Deleting
pub mod Expiry
pub mod Reads
pub mod RoundTrip
pub mod Loss
pub mod Runs
use verus_gateway.Base.{
  ℕ, zero, suc, ◌+◌, ◌-◌, ◌*◌, ◌%◌, ◌^◌, Bool, true, false, not, Option, none, some, List, [], ◌∷◌,
  ◌++◌, ltb, leb, ◌==◌, nat_eq, if◌then◌else◌, length, take,
}
use verus_gateway.Base.Bytes.{Bytes, Str, lit}
use verus_gateway.Base.Int.{ℤ, pos, negsuc, ◌-ℤ◌, leb_ℤ, ltb_ℤ, wrap64, add64, sub64}
use verus_gateway.Domain.Errors.{Error, sentinel, cache_miss, wrapped, Result, ok, err}
use verus_gateway.Domain.File.{File, FileMetadata}
use verus_gateway.Domain.Interfaces.{CacheStats, Cache}
use verus_gateway.FilePath.{join}
use verus_gateway.Hex.{encode}
use verus_gateway.Cache.Disk.{Entry, Disk, find, is_bin, total_size, total_items}
use verus_gateway.Cache.World.{Codec, Io, Written, written, unopened, cut, apply_write, try_remove}
use verus_gateway.Cache.State.{
  FilesystemCache, FilesystemCacheConfig, hour, calculate_size, new_filesystem_cache, count_miss,
  count_hit, is_expired,
}
use verus_gateway.Cache.Upkeep.{
  meta_of, FileInfo, collect, pass, rounds, bubble_sort, drop_file, evict_loop, evict_oldest,
  cleanup_walk, cleanup, Signal, cleanup_loop, stop, tick,
}

-- `Close`; to close the channel once more is a panic, which is none.
unfoldable pub close : FilesystemCache → Option FilesystemCache
close c = if c.stopped then none else some (record c { stopped = true })

unfoldable pub stats : FilesystemCache → CacheStats
stats c =
    let total = (c.hits + c.misses) % 2 ^ 64 in
    record {
      hits = wrap64 (pos c.hits);
      misses = wrap64 (pos c.misses);
      size = c.size;
      items = c.items;
      hit_rate = if ltb 0 total then some (c.hits, total) else none;
    }

-- The eviction before a file of this many bytes is stored.
unfoldable pub make_room : Io → ℕ → FilesystemCache → FilesystemCache
make_room io file_size c =
    if ltb_ℤ c.max_size (add64 c.size (pos file_size))
    then evict_oldest io.removes (pos file_size) c
    else c

keep_if : (Str → Bool) → Disk → Disk
keep_if left [] = []
keep_if left ((p, e) ∷ d) = let rest = keep_if left d in if left p then (p, e) ∷ rest else rest

unfoldable pub clear : Io → FilesystemCache → FilesystemCache × Option Error
unfolding keep_if
clear io c = elim io.ctx [
  | some e ↦ (c, some e)
  | none ↦ elim io.remove_all_error [
    | some (e, left) ↦
        (record c { disk = keep_if left c.disk }, some (wrapped (lit "failed to clear cache") e))
    | none ↦ elim io.recreate_error [
      | some e ↦
          (record c { disk = [] }, some (wrapped (lit "failed to recreate cache directory") e))
      | none ↦ (record c { disk = []; size = pos 0; items = pos 0 }, none)
    ]
  ]
]

module _ (codec : Codec) where
  -- `getPaths`: the name of a key's files.
  unfoldable pub hash_name : Str → Str
  hash_name key = encode (codec.sha256 key)

  unfoldable pub content_path : Str → Str → Str
  content_path base_dir key =
      let filename = hash_name key in join base_dir (take 2 filename) (filename ++ lit ".bin")

  unfoldable pub meta_path : Str → Str → Str
  meta_path base_dir key =
      let filename = hash_name key in join base_dir (take 2 filename) (filename ++ lit ".meta")

  -- The metadata that `Get` reads: the zero value, if there is no file or it cannot be read.
  unfoldable pub read_meta : Io → Str → Disk → FileMetadata
  read_meta io path d =
      let zero_value : FileMetadata = record {
        filename = [];
        size = 0;
        content_type = [];
        extension = [];
        hash = [];
        compressed = false;
        encrypted = false;
        created_at = none;
      } in
      if io.meta_readable
      then elim (find path d) [ none ↦ zero_value | some m ↦ codec.unmarshal m.content ]
      else zero_value

  -- `Get`, from the first `os.Stat` on.
  unfoldable pub read_entry : Io → Str → FilesystemCache → FilesystemCache × Result File
  read_entry io key c =
      let path = content_path c.base_dir key in
      let meta = meta_path c.base_dir key in
      elim (find path c.disk) [
        | none ↦ (count_miss c, err (sentinel cache_miss))
        | some entry ↦
            if io.stat_fails
            then (count_miss c, err (sentinel cache_miss))
            else if is_expired c.ttl io.now entry.mod_time
            then (
              record (count_miss c) {
                disk = try_remove io.removes meta (try_remove io.removes path c.disk);
              },
              err (sentinel cache_miss),
            )
            else elim io.read_error [
              | some e ↦ (count_miss c, err (wrapped (lit "failed to read cache file") e))
              | none ↦ (
                count_hit c,
                ok (record {
                  txid = [];
                  chain_id = [];
                  content = entry.content;
                  metadata = some (read_meta io meta c.disk);
                  retrieved_at = io.now;
                }),
              )
            ]
      ]

  unfoldable pub get : Io → Str → FilesystemCache → FilesystemCache × Result File
  get io key c = elim io.ctx [ some e ↦ (c, err e) | none ↦ read_entry io key c ]

  -- The metadata file is written if there is metadata and it can be marshalled.
  unfoldable pub write_meta : Io → Str → File → Disk → Disk
  write_meta io path file d = elim file.metadata [
    | none ↦ d
    | some m ↦ elim (codec.marshal m) [
      | err e ↦ d
      | ok bytes ↦ apply_write io.meta_written path bytes io.now d
    ]
  ]

  -- `Set`, from the writing of the content on.
  unfoldable pub store_entry : Io → Str → File → FilesystemCache → FilesystemCache × Option Error
  store_entry io key file c =
      let path = content_path c.base_dir key in
      let meta = meta_path c.base_dir key in
      let disk = apply_write io.content_written path file.content io.now c.disk in
      elim io.content_written [
        | unopened e ↦
            (record c { disk = disk }, some (wrapped (lit "failed to write cache file") e))
        | cut n e ↦ (record c { disk = disk }, some (wrapped (lit "failed to write cache file") e))
        | written ↦ (
          record c {
            disk = write_meta io meta file disk;
            size = add64 c.size (pos (length file.content));
            items = add64 c.items (pos 1);
          },
          none,
        )
      ]

  -- `Set`; the argument `ttl` has no part in it.
  unfoldable pub set : Io → Str → File → ℤ → FilesystemCache → FilesystemCache × Option Error
  set io key file ttl c = elim io.ctx [
    | some e ↦ (c, some e)
    | none ↦
        let c' = make_room io (length file.content) c in
        elim io.mkdir_error [
          | some e ↦ (c', some (wrapped (lit "failed to create cache directory") e))
          | none ↦ store_entry io key file c'
        ]
  ]

  unfoldable pub delete : Io → Str → FilesystemCache → FilesystemCache × Option Error
  delete io key c = elim io.ctx [
    | some e ↦ (c, some e)
    | none ↦
        let path = content_path c.base_dir key in
        let meta = meta_path c.base_dir key in
        let disk = try_remove io.removes meta (try_remove io.removes path c.disk) in
        elim (find path c.disk) [
          | none ↦ (record c { disk = disk }, none)
          | some entry ↦ if io.stat_fails then (record c { disk = disk }, none) else (
            record c {
              disk = disk;
              size = sub64 c.size (pos (length entry.content));
              items = sub64 c.items (pos 1);
            },
            none,
          )
        ]
  ]

  -- The cache as the gateway sees it.
  abbrev pub filesystem_cache : Cache
  filesystem_cache = record {
    State = FilesystemCache;
    Call = Io;
    get = get;
    set = set;
    delete = delete;
    clear = clear;
    stats = λ io c. ok (stats c);
  }
