-- ===== src/Cache/Filesystem/Storing.antt =====
-- `Set`: the counters, and the limit on the size.
use mathlib.Core.Path.{subst}
use verus_gateway.Base.{
  ℕ, ◌+◌, ◌^◌, ◌<◌, ◌≡◌, ◌⊎◌, refl, ap, inl, inr, none, arith, list_eq, length,
}
use verus_gateway.Base.Bytes.{Str}
use verus_gateway.Base.Int.{ℤ, pos, ◌≤ℤ◌}
use verus_gateway.Domain.File.{File}
use verus_gateway.Cache.Disk.{total_size, total_items}
use verus_gateway.Cache.Disk.Totals.{old_size, old_items}
use verus_gateway.Cache.World.{Codec, calm}
use verus_gateway.Cache.State.{FilesystemCache}
use verus_gateway.Cache.Filesystem.{make_room, content_path, store_entry, set}
use verus_gateway.Cache.Filesystem.Dropping.{IsAccurate}
use verus_gateway.Cache.Filesystem.Accounting.{
  make_room-SameSettings, make_room-IsAccurate, make_room-fits, store_entry-accounting,
}

module _ (codec : Codec) (now : ℕ) (key : Str) (file : File) (ttl : ℤ) (c : FilesystemCache) where
  abbrev pub room : FilesystemCache
  room = make_room (calm now) (length file.content) c

  abbrev pub after_set : FilesystemCache
  after_set = (set codec (calm now) key file ttl c).0

  set-calm : set codec (calm now) key file ttl c ≡ store_entry codec (calm now) key file room
  unfolding set
  set-calm = refl

  store_entry-none : (s : FilesystemCache) → (store_entry codec (calm now) key file s).1 ≡ none
  unfolding store_entry
  store_entry-none s = refl

  -- Where the counters tell what is on the disk, a `Set` in which nothing fails reports no error and
  -- leaves `size` and `items` above what is on the disk by exactly the file that stood under the
  -- same key after the eviction (by nothing, if there was none).
  pub set-accounting :
      IsAccurate c
      → length file.content < 2 ^ 62
      → ((set codec (calm now) key file ttl c).1 ≡ none)
        × (after_set.size
            ≡ pos (
                total_size after_set.disk + old_size (content_path codec c.base_dir key) room.disk))
        × (after_set.items
            ≡ pos (
                total_items after_set.disk
                + old_items (content_path codec c.base_dir key) room.disk))
  unfolding set
  set-accounting a small =
      let r = make_room-IsAccurate now (length file.content) c a in
      let same = (make_room-SameSettings (calm now) (length file.content) c).base_dir in
      let (s, i, _, _) = store_entry-accounting codec now key file room r small in
      (
        store_entry-none room,
        subst
            (λ b.
              after_set.size
              ≡ pos (total_size after_set.disk + old_size (content_path codec b key) room.disk))
            same s,
        subst
            (λ b.
              after_set.items
              ≡ pos (total_items after_set.disk + old_items (content_path codec b key) room.disk))
            same i,
      )

  -- Where the counters tell what is on the disk and `size` is within the limit, a `Set` in which
  -- nothing fails leaves `size` within the limit, or the new file is the only one that is counted.
  pub set-within :
      IsAccurate c
      → length file.content < 2 ^ 62
      → c.size ≤ℤ c.max_size
      → (after_set.size ≤ℤ c.max_size) ⊎ (after_set.size ≡ pos (length file.content))
  set-within a small within =
      let n = length file.content in
      let r = make_room-IsAccurate now n c a in
      let (_, _, _, e) = store_entry-accounting codec now key file room r small in
      rw (after_set, set-calm, e)
        (elim (make_room-fits now n c a small within) [
          | inl h ↦ inl h
          | inr z ↦ inr (ap pos (omega (arith, z)))
        ])
