-- ===== src/Cache/Filesystem/RoundTrip.antt =====
-- `Get` after `Set`, after `Delete`, and after anything.
use verus_gateway.Base.{
  ℕ, ◌≡◌, ◌≢◌, refl, sym, ◌∙◌, false, inl, inr, none, some, [], arith, list_eq, length,
  Option-cases,
}
use verus_gateway.Base.Bytes.{Bytes, Str}
use verus_gateway.Base.Int.{ℤ, pos, ◌-ℤ◌, ◌≤ℤ◌, ltb_ℤ, add64}
use verus_gateway.Domain.Errors.{ok, err, sentinel, cache_miss}
use verus_gateway.Domain.File.{File, FileMetadata}
use verus_gateway.Cache.Disk.{Entry, find}
use verus_gateway.Cache.World.{Codec, Io, calm}
use verus_gateway.Cache.State.{FilesystemCache, count_hit, is_expired}
use verus_gateway.Cache.Filesystem.{
  make_room, content_path, meta_path, read_entry, store_entry, set, delete, get,
}
use verus_gateway.Cache.Filesystem.Paths.{
  content_path-ne-meta_path, IsDigest, content_path-inj, meta_path-inj,
}
use verus_gateway.Cache.Filesystem.Dropping.{IsAccurate}
use verus_gateway.Cache.Filesystem.Accounting.{make_room-SameSettings}
use verus_gateway.Cache.Filesystem.Deleting.{delete-IsAccurate}
use verus_gateway.Cache.Filesystem.Reads.{
  get-calm, stored, find-stored, find-stored_meta, stored-metadata, stored-settings,
}

is_expired-eq-false :
    (ttl : ℤ) (now before : ℕ) → (pos now -ℤ pos before) ≤ℤ ttl → is_expired ttl now before ≡ false
unfolding is_expired
is_expired-eq-false ttl now before h = ground arith

is_expired-false-le :
    (ttl : ℤ) (now before : ℕ) → is_expired ttl now before ≡ false → (pos now -ℤ pos before) ≤ℤ ttl
unfolding is_expired
is_expired-false-le ttl now before h = ground arith

module _ (codec : Codec) (now : ℕ) (key : Str) (file : File) (c : FilesystemCache) (later : ℕ) where
  abbrev kept : FilesystemCache
  kept = stored codec now key file c

  get-stored :
      (m : FileMetadata) (bytes : Bytes)
      → file.metadata ≡ some m
      → codec.marshal m ≡ ok bytes
      → (pos later -ℤ pos now) ≤ℤ c.ttl
      → (get codec (calm later) key kept).1
        ≡ ok (record {
          txid = [];
          chain_id = [];
          content = file.content;
          metadata = some (codec.unmarshal bytes);
          retrieved_at = later;
        })
  get-stored m bytes has json young =
      let (base, ttl) = stored-settings codec now key file c in
      let path = content_path codec c.base_dir key in
      let here : find path kept.disk ≡ some (record { content = file.content; mod_time = now }) =
        find-stored codec now key file c path (content_path-ne-meta_path codec c.base_dir key key)
        ∙ ground arith in
      let fresh : is_expired c.ttl later now ≡ false = is_expired-eq-false c.ttl later now young in
      get-calm codec later key kept
      ∙ rw (base, ttl, here, stored-metadata codec now key file c m bytes has json, fresh) refl

  get-stored_other :
      (other : Str)
      → IsDigest codec
      → codec.sha256 other ≢ codec.sha256 key
      → (get codec (calm later) other kept).1 ≡ (get codec (calm later) other c).1
  get-stored_other other digest n =
      let b = c.base_dir in
      let (base, ttl) = stored-settings codec now key file c in
      let here : find (content_path codec b other) kept.disk
          ≡ find (content_path codec b other) c.disk =
        find-stored codec now key file c (content_path codec b other)
          (content_path-ne-meta_path codec b other key)
        ∙ ground (arith, content_path-inj codec b digest other key) in
      let meta : find (meta_path codec b other) kept.disk ≡ find (meta_path codec b other) c.disk =
        find-stored_meta codec now key file c (meta_path codec b other)
          (λ e. content_path-ne-meta_path codec b key other (sym e))
          (λ e. n (meta_path-inj codec b digest other key e)) in
      get-calm codec later other kept
      ∙ rw (base, ttl, here, meta) (sym (get-calm codec later other c))

module _ (codec : Codec) (now : ℕ) (key : Str) (file : File) (ttl : ℤ) (c : FilesystemCache) where
  abbrev room : FilesystemCache
  room = make_room (calm now) (length file.content) c

  abbrev after_set : FilesystemCache
  after_set = (set codec (calm now) key file ttl c).0

  -- After a `Set` in which nothing fails, and while the TTL of the cache lasts (whatever TTL the `Set`
  -- was given), `Get` returns the same content and the metadata as it went through JSON, but no
  -- TXID and no chain.
  pub get-set :
      (later : ℕ) (m : FileMetadata) (bytes : Bytes)
      → file.metadata ≡ some m
      → codec.marshal m ≡ ok bytes
      → (pos later -ℤ pos now) ≤ℤ c.ttl
      → (get codec (calm later) key after_set).1
        ≡ ok (record {
          txid = [];
          chain_id = [];
          content = file.content;
          metadata = some (codec.unmarshal bytes);
          retrieved_at = later;
        })
  unfolding set
  get-set later m bytes has json young =
      let r = make_room-SameSettings (calm now) (length file.content) c in
      get-stored codec now key file room later m bytes has json (rw r.ttl young)

  -- A `Set` in which nothing fails and that evicts nothing changes no other key, where SHA-256 tells
  -- the two keys apart: a `Get` of the other key answers as it would have before.
  pub get-set_other :
      (later : ℕ) (other : Str)
      → IsDigest codec
      → codec.sha256 other ≢ codec.sha256 key
      → ltb_ℤ c.max_size (add64 c.size (pos (length file.content))) ≡ false
      → (get codec (calm later) other after_set).1 ≡ (get codec (calm later) other c).1
  unfolding set make_room get read_entry find store_entry
  get-set_other later other digest n fits =
      rw fits (get-stored_other codec now key file c later other digest n)

delete-base_dir :
    (codec : Codec) (io : Io) (key : Str) (c : FilesystemCache)
    → (delete codec io key c).0.base_dir ≡ c.base_dir
unfolding delete
delete-base_dir codec io key c = ground arith

-- Where the counters tell what is on the disk, a `Get` after a `Delete` in which nothing fails finds nothing.
pub get-delete :
    (codec : Codec) (now later : ℕ) (key : Str) (c : FilesystemCache)
    → IsAccurate c
    → (get codec (calm later) key (delete codec (calm now) key c).0).1 ≡ err (sentinel cache_miss)
get-delete codec now later key c a =
    let (_, files) = delete-IsAccurate codec now key c a in
    let path = content_path codec c.base_dir key in
    let gone : find path (delete codec (calm now) key c).0.disk ≡ none =
      files path ∙ ground arith in
    get-calm codec later key (delete codec (calm now) key c).0 ∙ rw (delete-base_dir, gone) refl

module _ (codec : Codec) (io : Io) (key : Str) (c c' : FilesystemCache) (file : File) where
  get-absent :
      find (content_path codec c.base_dir key) c.disk ≡ none → get codec io key c ≢ (c', ok file)
  unfolding get read_entry
  get-absent none' h = ground arith

  get-present :
      (e : Entry)
      → find (content_path codec c.base_dir key) c.disk ≡ some e
      → get codec io key c ≡ (c', ok file)
      → (io.ctx ≡ none)
        × (file.content ≡ e.content)
        × ((pos io.now -ℤ pos e.mod_time) ≤ℤ c.ttl)
        × (c' ≡ count_hit c)
  unfolding get read_entry
  get-present e some' h = ground (arith, is_expired-false-le c.ttl io.now e.mod_time)

-- Whatever happens around it, a `Get` returns a file only if its context is not done and the disk holds,
-- under the key's path, that content in a file that is no older than the TTL. It counts one hit then.
pub get-eq-ok :
    (codec : Codec) (io : Io) (key : Str) (c c' : FilesystemCache) (file : File)
    → get codec io key c ≡ (c', ok file)
    → (io.ctx ≡ none)
      × ((e : Entry) × (find (content_path codec c.base_dir key) c.disk ≡ some e)
          × (file.content ≡ e.content)
          × ((pos io.now -ℤ pos e.mod_time) ≤ℤ c.ttl))
      × (c' ≡ count_hit c)
get-eq-ok codec io key c c' file h =
    elim (Option-cases (find (content_path codec c.base_dir key) c.disk)) [
      | inl none' ↦ absurd (get-absent codec io key c c' file none' h)
      | inr (e, some') ↦
          let (calm', same, young, hit) = get-present codec io key c c' file e some' h in
          (calm', (e, some', same, young), hit)
    ]
