-- ===== src/Cache/Filesystem/Deleting.antt =====
-- `Delete`: the counters and the files.
use verus_gateway.Base.{
  ℕ, ◌-◌, ◌≡◌, refl, ap, sym, ◌∙◌, inl, inr, none, some, arith, ◌==◌, list_eq, if◌then◌else◌,
  length, Option-cases,
}
use verus_gateway.Base.Bytes.{Str}
use verus_gateway.Base.Int.{pos, sub64, sub64_pos}
use verus_gateway.Cache.Disk.{Entry, find, remove, total_size, total_items, find-remove}
use verus_gateway.Cache.Disk.Totals.{old_size, old_items, total-remove, remove-IsTree}
use verus_gateway.Cache.World.{Codec, calm, try_remove}
use verus_gateway.Cache.State.{FilesystemCache}
use verus_gateway.Cache.Filesystem.{content_path, meta_path, delete}
use verus_gateway.Cache.Filesystem.Paths.{is_bin-content_path, is_bin-meta_path}
use verus_gateway.Cache.Filesystem.Dropping.{IsAccurate}

module _ (codec : Codec) (now : ℕ) (key : Str) (c : FilesystemCache) where
  abbrev content : Str
  content = content_path codec c.base_dir key

  abbrev meta : Str
  meta = meta_path codec c.base_dir key

  abbrev pub after_delete : FilesystemCache
  after_delete = (delete codec (calm now) key c).0

  delete_absent :
      find content c.disk ≡ none
      → delete codec (calm now) key c
        ≡ (record c { disk = remove meta (remove content c.disk) }, none)
  unfolding delete try_remove
  delete_absent h = rw (h, delete) refl

  delete_present :
      (e : Entry)
      → find content c.disk ≡ some e
      → delete codec (calm now) key c ≡ (
        record c {
          disk = remove meta (remove content c.disk);
          size = sub64 c.size (pos (length e.content));
          items = sub64 c.items (pos 1);
        },
        none,
      )
  unfolding delete try_remove
  delete_present e h = rw (h, delete) refl

  delete_disk : after_delete.disk ≡ remove meta (remove content c.disk)
  delete_disk = elim (Option-cases (find content c.disk)) [
    | inl h ↦ ap (λ r. r.0.disk) (delete_absent h)
    | inr (e, h) ↦ ap (λ r. r.0.disk) (delete_present e h)
  ]

  delete_counters :
      IsAccurate c
      → (after_delete.size ≡ pos (total_size c.disk - old_size content c.disk))
        × (after_delete.items ≡ pos (total_items c.disk - old_items content c.disk))
  delete_counters a =
      let (s, i) = total-remove content c.disk in
      let bin = is_bin-content_path codec c.base_dir key in
      elim (Option-cases (find content c.disk)) [
        | inl h ↦ (
          ap (λ r. r.0.size) (delete_absent h) ∙ a.size ∙ ap pos (ground arith),
          ap (λ r. r.0.items) (delete_absent h) ∙ a.items ∙ ap pos (ground arith),
        )
        | inr (e, h) ↦ (
          ap (λ r. r.0.size) (delete_present e h)
              ∙ ap (λ z. sub64 z (pos (length e.content))) a.size
              ∙ sub64_pos (total_size c.disk) (length e.content) (ground arith)
                  (omega (arith, a.size_bound))
              ∙ ap pos (ground arith),
          ap (λ r. r.0.items) (delete_present e h)
              ∙ ap (λ z. sub64 z (pos 1)) a.items
              ∙ sub64_pos (total_items c.disk) 1 (ground arith) (omega (arith, a.items_bound))
              ∙ ap pos (ground arith),
        )
      ]

  -- Where the counters tell what is on the disk, they tell it after a `Delete` in which nothing
  -- fails, too. Both files of the key are gone then, and all others are as they were.
  pub delete-IsAccurate :
      IsAccurate c
      → IsAccurate after_delete
        × ((q : Str)
            → find q after_delete.disk
              ≡ (if q == meta then none else if q == content then none else find q c.disk))
  delete-IsAccurate a =
      let (s, i) = total-remove content c.disk in
      let (s', i') = total-remove meta (remove content c.disk) in
      let bin = is_bin-meta_path codec c.base_dir key in
      let t = remove-IsTree content c.disk a.tree in
      let size_eq : total_size (remove meta (remove content c.disk))
          ≡ total_size c.disk - old_size content c.disk =
        ground arith in
      let items_eq : total_items (remove meta (remove content c.disk))
          ≡ total_items c.disk - old_items content c.disk =
        ground arith in
      (
        record {
          tree = rw delete_disk (remove-IsTree meta _ t);
          size = (delete_counters a).0 ∙ ap pos (sym size_eq ∙ ap total_size (sym delete_disk));
          items = (delete_counters a).1 ∙ ap pos (sym items_eq ∙ ap total_items (sym delete_disk));
          size_bound = rw delete_disk (omega (arith, a.size_bound));
          items_bound = rw delete_disk (omega (arith, a.items_bound));
        },
        λ q. rw delete_disk (
            ground (
              arith,
              find-remove meta q (remove content c.disk) t,
              find-remove content q c.disk a.tree,
            )),
      )
