-- ===== src/Cache/Filesystem/Runs/Writes.antt =====
-- A `Set` that succeeds, and what loses files, against the abstract map.
use verus_gateway.Base.{
  ℕ, ◌≡◌, ◌≢◌, ◌⊎◌, refl, ap, ◌∙◌, true, false, inl, inr, none, some, arith, ◌==◌, list_eq, nat_eq,
  if◌then◌else◌, Bool-cases, Option-cases, take,
}
use verus_gateway.Base.Bytes.{Bytes, Str}
use verus_gateway.Base.Int.{ℤ}
use verus_gateway.Domain.Errors.{Result-cases}
use verus_gateway.Domain.File.{File}
use verus_gateway.Cache.Disk.{Entry, Disk, find, write_file, IsTree, find-write_file}
use verus_gateway.Cache.Disk.Totals.{write_file-IsTree}
use verus_gateway.Cache.World.{Codec, Io, Written, written, unopened, cut, apply_write}
use verus_gateway.Cache.State.{FilesystemCache}
use verus_gateway.Cache.Filesystem.{content_path, meta_path, write_meta, store_entry}
use verus_gateway.Cache.Filesystem.Paths.{content_path-ne-meta_path, IsDigest, content_path-inj}
use verus_gateway.Cache.Filesystem.Loss.{Loses}
use verus_gateway.Cache.Filesystem.Runs.{Value}

module _ (p : Str) (bytes : Bytes) (now : ℕ) (d : Disk) where
  apply_write-IsTree : (w : Written) → IsTree d → IsTree (apply_write w p bytes now d)
  unfolding apply_write
  apply_write-IsTree written t = write_file-IsTree p _ d t
  apply_write-IsTree (unopened e) t = t
  apply_write-IsTree (cut n e) t = write_file-IsTree p _ d t

  find-apply_write_ne :
      (w : Written) (q : Str) → q ≢ p → find q (apply_write w p bytes now d) ≡ find q d
  unfolding apply_write
  find-apply_write_ne written q n =
      ground (arith, find-write_file p (record { content = bytes; mod_time = now }) q d)
  find-apply_write_ne (unopened e) q n = refl
  find-apply_write_ne (cut k e) q n =
      ground (arith, find-write_file p (record { content = take k bytes; mod_time = now }) q d)

module _ (codec : Codec) (io : Io) (path : Str) (file : File) (d : Disk) where
  write_meta-IsTree : IsTree d → IsTree (write_meta codec io path file d)
  unfolding write_meta
  write_meta-IsTree t = elim (Option-cases file.metadata) [
    | inl h ↦ rw (write_meta, h) t
    | inr (m, h) ↦ elim (Result-cases (codec.marshal m)) [
      | inr (e, k) ↦ rw (write_meta, h, k) t
      | inl (bytes, k) ↦
          rw (write_meta, h, k) (apply_write-IsTree path bytes io.now d io.meta_written t)
    ]
  ]

  find-write_meta_ne : (q : Str) → q ≢ path → find q (write_meta codec io path file d) ≡ find q d
  unfolding write_meta
  find-write_meta_ne q n = elim (Option-cases file.metadata) [
    | inl h ↦ rw (write_meta, h) refl
    | inr (m, h) ↦ elim (Result-cases (codec.marshal m)) [
      | inr (e, k) ↦ rw (write_meta, h, k) refl
      | inl (bytes, k) ↦
          rw (write_meta, h, k) (find-apply_write_ne path bytes io.now d io.meta_written q n)
    ]
  ]

module _ (codec : Codec) (digest : IsDigest codec) (base : Str) (ttl : ℤ) (asked : Str) where
  abbrev pub place : Str
  place = content_path codec base asked

  -- The cache has, under the key, the value of the abstract map or nothing.
  pub record Holds (v : Value) (c : FilesystemCache) : Type 0 where
    pub base_dir : c.base_dir ≡ base
    pub same_ttl : c.ttl ≡ ttl
    pub tree : IsTree c.disk
    pub found :
        (find place c.disk ≡ none)
        ⊎ ((e : Entry) × (find place c.disk ≡ some e) × (v ≡ some (e.content, e.mod_time)))

  pub Loses-Holds : {c c' : FilesystemCache} (v : Value) → Loses c c' → Holds v c → Holds v c'
  Loses-Holds v l h = record {
    base_dir = l.base_dir ∙ h.base_dir;
    same_ttl = l.ttl ∙ h.same_ttl;
    tree = l.tree h.tree;
    found = elim (l.fewer h.tree place) [
      | inl gone ↦ inl gone
      | inr same ↦ elim h.found [
        | inl none' ↦ inl (same ∙ none')
        | inr (e, k, w) ↦ inr (e, same ∙ k, w)
      ]
    ];
  }

  pub same_key : (key : Str) → (asked == key) ≡ true → asked ≡ key
  same_key key h = ground arith

  other_place :
      (key : Str)
      → (codec.sha256 asked ≡ codec.sha256 key → asked ≡ key)
      → (asked == key) ≡ false
      → (place == content_path codec base key) ≡ false
  other_place key apart h = ground (arith, content_path-inj codec base digest asked key)

  same_place : (key : Str) → (asked == key) ≡ true → (place == content_path codec base key) ≡ true
  same_place key h = ground (arith, ap (content_path codec base) (same_key key h))

  module _ (io : Io) (key : Str) (file : File) (c : FilesystemCache) where
    abbrev pub stored : FilesystemCache
    stored = (store_entry codec io key file c).0

    abbrev entry : Entry
    entry = record { content = file.content; mod_time = io.now }

    stored_disk :
        io.content_written ≡ written
        → stored.disk
          ≡ write_meta codec io
              (meta_path codec c.base_dir key)
              file
              (write_file (content_path codec c.base_dir key) entry c.disk)
    unfolding store_entry apply_write
    stored_disk w = ground arith

    stored_settings : (stored.base_dir ≡ c.base_dir) × (stored.ttl ≡ c.ttl)
    unfolding store_entry
    stored_settings = ground arith

    find-stored :
        c.base_dir ≡ base
        → io.content_written ≡ written
        → find place stored.disk
          ≡ (if place == content_path codec base key then some entry else find place c.disk)
    find-stored b w =
        rw (stored_disk w, b)
          (find-write_meta_ne codec io (meta_path codec base key) file _ place
              (content_path-ne-meta_path codec base asked key)
            ∙ find-write_file (content_path codec base key) entry place c.disk)

    pub stored-Holds :
        (v : Value)
        → io.content_written ≡ written
        → (codec.sha256 asked ≡ codec.sha256 key → asked ≡ key)
        → Holds v c
        → Holds (if asked == key then some (file.content, io.now) else v) stored
    stored-Holds v w apart h =
        let (b, t) = stored_settings in
        record {
          base_dir = b ∙ h.base_dir;
          same_ttl = t ∙ h.same_ttl;
          tree =
              rw (stored_disk w)
                (write_meta-IsTree codec io _ file _ (write_file-IsTree _ entry c.disk h.tree));
          found = elim (Bool-cases (asked == key)) [
            | inl same ↦
                inr (entry, find-stored h.base_dir w ∙ rw (same_place key same) refl, rw same refl)
            | inr other ↦ rw (find-stored h.base_dir w, other_place key apart other, other) h.found
          ];
        }
