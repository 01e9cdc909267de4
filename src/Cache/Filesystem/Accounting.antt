-- ===== src/Cache/Filesystem/Accounting.antt =====
-- What each operation makes of the counters `size` and `items`.
use mathlib.Core.Path.{subst}
use verus_gateway.Base.{
  ℕ, ◌+◌, ◌^◌, ◌≤◌, ◌<◌, ◌≡◌, ◌⊎◌, refl, ap, ◌∙◌, Bool, false, inl, inr, List, [], ◌∷◌, arith,
  list_eq, length, Bool-cases, Option-cases,
}
use verus_gateway.Base.Bytes.{Bytes, Str}
use verus_gateway.Base.Int.{ℤ, pos, ◌≤ℤ◌, ltb_ℤ, add64, add64_pos}
use verus_gateway.Domain.Errors.{Result-cases}
use verus_gateway.Domain.File.{File}
use verus_gateway.Cache.Disk.{Entry, Disk, write_file, is_bin, total_size, total_items, IsTree}
use verus_gateway.Cache.Disk.Totals.{old_size, old_items, total-write_file, write_file-IsTree}
use verus_gateway.Cache.World.{Codec, Io, calm, apply_write, written}
use verus_gateway.Cache.State.{FilesystemCache}
use verus_gateway.Cache.Upkeep.{FileInfo, drop_file, evict_loop, evict_oldest}
use verus_gateway.Cache.Filesystem.{make_room, content_path, meta_path, store_entry, write_meta}
use verus_gateway.Cache.Filesystem.Paths.{is_bin-content_path, is_bin-meta_path}
use verus_gateway.Cache.Filesystem.Present.{
  sum_sizes, sum_sizes-collect, sum_sizes-perm, sum_sizes-append, sum_sizes-nil,
}
use verus_gateway.Cache.Filesystem.Dropping.{always, IsAccurate}
use verus_gateway.Cache.Filesystem.Eviction.{evict_oldest-EvictsOldest}

-- An eviction moves no directory and no limit.
pub record SameSettings (c c' : FilesystemCache) : Type 0 where
  pub base_dir : c'.base_dir ≡ c.base_dir
  pub max_size : c'.max_size ≡ c.max_size
  pub ttl : c'.ttl ≡ c.ttl

evict_loop-SameSettings :
    (removes : Str → Bool) (needed freed : ℤ) (files : List FileInfo) (c : FilesystemCache)
    → SameSettings c (evict_loop removes needed freed files c)
unfolding evict_loop
evict_loop-SameSettings removes needed freed [] c = record {
  base_dir = refl;
  max_size = refl;
  ttl = refl;
}
evict_loop-SameSettings removes needed freed (f ∷ files) c = ground (
  arith,
  evict_loop-SameSettings removes needed (add64 freed (pos f.size)) files (drop_file removes f c),
)

evict_oldest-SameSettings :
    (removes : Str → Bool) (needed : ℤ) (c : FilesystemCache)
    → SameSettings c (evict_oldest removes needed c)
unfolding evict_oldest
evict_oldest-SameSettings removes needed c = evict_loop-SameSettings removes needed (pos 0) _ c

pub make_room-SameSettings :
    (io : Io) (n : ℕ) (c : FilesystemCache) → SameSettings c (make_room io n c)
unfolding make_room
make_room-SameSettings io n c = ground (arith, evict_oldest-SameSettings io.removes (pos n) c)

module _ (now n : ℕ) (c : FilesystemCache) (a : IsAccurate c) where
  pub make_room-IsAccurate : IsAccurate (make_room (calm now) n c)
  unfolding make_room
  make_room-IsAccurate = elim (Bool-cases (ltb_ℤ c.max_size (add64 c.size (pos n)))) [
    | inl over ↦ rw over ((evict_oldest-EvictsOldest n c a).evicts.accurate)
    | inr fits ↦ rw fits a
  ]

  evicted_room :
      (total_size (evict_oldest always (pos n) c).disk + n ≤ total_size c.disk)
      ⊎ (total_size (evict_oldest always (pos n) c).disk ≡ 0)
  evicted_room =
      let v = evict_oldest-EvictsOldest n c a in
      let w = v.evicts in
      elim w.enough [
        | inl e ↦ inl (omega (arith, w.total))
        | inr e ↦ inr (
            omega (
              arith,
              w.total,
              sum_sizes-perm v.all_files,
              sum_sizes-collect c.disk,
              ap sum_sizes w.split,
              sum_sizes-append w.gone w.kept,
              ap sum_sizes e,
              sum_sizes-nil,
            ))
      ]

  -- After the eviction the file fits, or no content file is left.
  pub make_room-fits :
      n < 2 ^ 62
      → c.size ≤ℤ c.max_size
      → (pos (total_size (make_room (calm now) n c).disk + n) ≤ℤ c.max_size)
        ⊎ (total_size (make_room (calm now) n c).disk ≡ 0)
  unfolding make_room
  make_room-fits small within =
      let w : pos (total_size c.disk) ≤ℤ c.max_size = subst (λ z. z ≤ℤ c.max_size) a.size within in
      let sum : add64 c.size (pos n) ≡ pos (total_size c.disk + n) =
        ap (λ z. add64 z (pos n)) a.size
        ∙ add64_pos (total_size c.disk) n (omega (arith, a.size_bound)) in
      elim (Bool-cases (ltb_ℤ c.max_size (add64 c.size (pos n)))) [
        | inl over ↦ rw over (elim evicted_room [ inl e ↦ inl (omega arith) | inr e ↦ inr e ])
        | inr fits ↦ rw fits (inl (ground (arith, sum)))
      ]

-- A write in calm surroundings.
pub apply_write-calm :
    (p : Str) (bytes : Bytes) (now : ℕ) (d : Disk)
    → apply_write written p bytes now d
      ≡ write_file p (record { content = bytes; mod_time = now }) d
unfolding apply_write
apply_write-calm p bytes now d = refl

module _ (codec : Codec) (now : ℕ) where
  -- The metadata file has no part in the totals.
  pub total-write_meta :
      (path : Str) (file : File) (d : Disk)
      → is_bin path ≡ false
      → (total_size (write_meta codec (calm now) path file d) ≡ total_size d)
        × (total_items (write_meta codec (calm now) path file d) ≡ total_items d)
  unfolding write_meta apply_write
  total-write_meta path file d meta = elim (Option-cases file.metadata) [
    | inl h ↦ rw (h, write_meta) (refl, refl)
    | inr (m, h) ↦ elim (Result-cases (codec.marshal m)) [
      | inr (e, k) ↦ rw (h, write_meta, k) (refl, refl)
      | inl (bytes, k) ↦
          rw (h, write_meta, k)
            (ground (arith, total-write_file path (record { content = bytes; mod_time = now }) d))
    ]
  ]

  write_meta-IsTree :
      (path : Str) (file : File) (d : Disk)
      → IsTree d
      → IsTree (write_meta codec (calm now) path file d)
  unfolding write_meta apply_write
  write_meta-IsTree path file d t = elim (Option-cases file.metadata) [
    | inl h ↦ rw (h, write_meta) t
    | inr (m, h) ↦ elim (Result-cases (codec.marshal m)) [
      | inr (e, k) ↦ rw (h, write_meta, k) t
      | inl (bytes, k) ↦ rw (h, write_meta, k) (write_file-IsTree path _ d t)
    ]
  ]

  module _ (key : Str) (file : File) (c : FilesystemCache) (a : IsAccurate c)
      (small : length file.content < 2 ^ 62) where
    abbrev stored : FilesystemCache
    stored = (store_entry codec (calm now) key file c).0

    abbrev path : Str
    path = content_path codec c.base_dir key

    -- `Set` counts the new file without the one that it replaces.
    pub store_entry-accounting :
        (stored.size ≡ pos (total_size stored.disk + old_size path c.disk))
        × (stored.items ≡ pos (total_items stored.disk + old_items path c.disk))
        × IsTree stored.disk
        × (stored.size ≡ pos (total_size c.disk + length file.content))
    unfolding store_entry apply_write
    store_entry-accounting =
        let e : Entry = record { content = file.content; mod_time = now } in
        let meta = meta_path codec c.base_dir key in
        let (s, i) = total-write_file path e c.disk in
        let (s', i') =
          total-write_meta meta file (write_file path e c.disk)
            (is_bin-meta_path codec c.base_dir key) in
        let bin = is_bin-content_path codec c.base_dir key in
        (
          ap (λ z. add64 z (pos (length file.content))) a.size
              ∙ add64_pos _ _ (omega (arith, a.size_bound))
              ∙ ap pos (ground (arith, s, s', bin)),
          ap (λ z. add64 z (pos 1)) a.items
              ∙ add64_pos _ _ (omega (arith, a.items_bound))
              ∙ ap pos (ground (arith, i, i', bin)),
          write_meta-IsTree meta file _ (write_file-IsTree path e c.disk a.tree),
          ap (λ z. add64 z (pos (length file.content))) a.size
              ∙ add64_pos _ _ (omega (arith, a.size_bound)),
        )
