-- ===== src/Cache/Filesystem/Reads.antt =====
-- What a read returns after the other operations.
use verus_gateway.Base.{
  ℕ, ◌≡◌, ◌≢◌, refl, ◌∙◌, inl, inr, Option, none, some, [], arith, ◌==◌, list_eq, if◌then◌else◌,
  Bool-cases, Option-cases,
}
use verus_gateway.Base.Bytes.{Bytes, Str}
use verus_gateway.Base.Int.{ℤ}
use verus_gateway.Domain.Errors.{Result, Result-cases, ok, err, sentinel, cache_miss}
use verus_gateway.Domain.File.{File, FileMetadata}
use verus_gateway.Cache.Disk.{Entry, Disk, find}
use verus_gateway.Cache.World.{Codec, calm, apply_write}
use verus_gateway.Cache.State.{FilesystemCache, is_expired}
use verus_gateway.Cache.Filesystem.{
  content_path, meta_path, read_meta, read_entry, store_entry, write_meta, get,
}
use verus_gateway.Cache.Disk.{find-write_file}

module _ (codec : Codec) where
  -- The metadata that a read finds.
  abbrev pub meta_found : Option Entry → FileMetadata
  meta_found none = read_meta codec (calm 0) [] []
  meta_found (some m) = codec.unmarshal m.content

  -- A read that nothing disturbs, from the two files.
  abbrev pub outcome : ℤ → ℕ → Option Entry → Option Entry → Result File
  outcome ttl now none m = err (sentinel cache_miss)
  outcome ttl now (some e) m =
      if is_expired ttl now e.mod_time
      then err (sentinel cache_miss)
      else ok (record {
        txid = [];
        chain_id = [];
        content = e.content;
        metadata = some (meta_found m);
        retrieved_at = now;
      })

  read_meta-calm :
      (now : ℕ) (p : Str) (d : Disk) → read_meta codec (calm now) p d ≡ meta_found (find p d)
  unfolding read_meta find
  read_meta-calm now p d = elim (Option-cases (find p d)) [
    | inl h ↦ rw (h, read_meta) refl
    | inr (e, h) ↦ rw (h, read_meta) refl
  ]

  module _ (now : ℕ) (key : Str) (c : FilesystemCache) where
    pub get-calm :
        (get codec (calm now) key c).1
        ≡ outcome c.ttl now
            (find (content_path codec c.base_dir key) c.disk)
            (find (meta_path codec c.base_dir key) c.disk)
    unfolding get read_entry
    get-calm = elim (Option-cases (find (content_path codec c.base_dir key) c.disk)) [
      | inl h ↦ rw (h, read_entry) refl
      | inr (e, h) ↦ elim (Bool-cases (is_expired c.ttl now e.mod_time)) [
        | inl old ↦ rw (h, read_entry, old) refl
        | inr young ↦ rw (h, read_entry, young, read_meta-calm) refl
      ]
    ]

module _ (codec : Codec) (now : ℕ) where
  find-write_meta_ne :
      (q path : Str) (file : File) (d : Disk)
      → q ≢ path
      → find q (write_meta codec (calm now) path file d) ≡ find q d
  unfolding write_meta apply_write
  find-write_meta_ne q path file d n = elim (Option-cases file.metadata) [
    | inl h ↦ rw (h, write_meta) refl
    | inr (m, h) ↦ elim (Result-cases (codec.marshal m)) [
      | inr (e, k) ↦ rw (h, write_meta, k) refl
      | inl (bytes, k) ↦
          rw (h, write_meta, k)
            (ground (arith, find-write_file path (record { content = bytes; mod_time = now }) q d))
    ]
  ]

  find-write_meta_same :
      (path : Str) (file : File) (d : Disk) (m : FileMetadata) (bytes : Bytes)
      → file.metadata ≡ some m
      → codec.marshal m ≡ ok bytes
      → find path (write_meta codec (calm now) path file d)
        ≡ some (record { content = bytes; mod_time = now })
  unfolding write_meta apply_write
  find-write_meta_same path file d m bytes h k =
      rw (h, write_meta, k)
        (ground (arith, find-write_file path (record { content = bytes; mod_time = now }) path d))

  module _ (key : Str) (file : File) (c : FilesystemCache) where
    abbrev pub stored : FilesystemCache
    stored = (store_entry codec (calm now) key file c).0

    abbrev pub kept_entry : Entry
    kept_entry = record { content = file.content; mod_time = now }

    pub find-stored :
        (q : Str)
        → q ≢ meta_path codec c.base_dir key
        → find q stored.disk
          ≡ (if q == content_path codec c.base_dir key then some kept_entry else find q c.disk)
    unfolding store_entry apply_write
    find-stored q n =
        find-write_meta_ne q _ file _ n
        ∙ find-write_file (content_path codec c.base_dir key) kept_entry q c.disk

    pub find-stored_meta :
        (q : Str)
        → q ≢ content_path codec c.base_dir key
        → q ≢ meta_path codec c.base_dir key
        → find q stored.disk ≡ find q c.disk
    find-stored_meta q n k = ground (arith, find-stored q k)

    pub stored-metadata :
        (m : FileMetadata) (bytes : Bytes)
        → file.metadata ≡ some m
        → codec.marshal m ≡ ok bytes
        → find (meta_path codec c.base_dir key) stored.disk
          ≡ some (record { content = bytes; mod_time = now })
    unfolding store_entry apply_write
    stored-metadata m bytes h k = find-write_meta_same _ file _ m bytes h k

    pub stored-settings : (stored.base_dir ≡ c.base_dir) × (stored.ttl ≡ c.ttl)
    unfolding store_entry
    stored-settings = (refl, refl)
