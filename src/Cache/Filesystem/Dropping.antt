-- ===== src/Cache/Filesystem/Dropping.antt =====
-- Counters that tell what is on the disk, and the removal of one entry's files.
use verus_gateway.Base.{
  ◌+◌, ◌^◌, ◌<◌, ◌≡◌, ◌≢◌, ap, ◌∙◌, Bool, true, none, arith, ◌==◌, list_eq, if◌then◌else◌,
}
use verus_gateway.Base.Bytes.{Str}
use verus_gateway.Base.Int.{pos, sub64, sub64_pos}
use verus_gateway.Cache.Disk.{
  Disk, find, remove, is_bin, total_size, total_items, IsTree, find-remove,
}
use verus_gateway.Cache.Disk.Totals.{total-remove, remove-IsTree}
use verus_gateway.Cache.World.{try_remove}
use verus_gateway.Cache.State.{FilesystemCache}
use verus_gateway.Cache.Upkeep.{FileInfo, meta_of, drop_file}
use verus_gateway.Cache.Filesystem.Paths.{is_bin-meta_of}
use verus_gateway.Cache.Filesystem.Present.{Present}

-- Every removal succeeds.
abbrev pub always : Str → Bool
always p = true

-- The counters tell what is on the disk, and stay far from the ends of int64.
pub record IsAccurate (c : FilesystemCache) : Type 0 where
  pub tree : IsTree c.disk
  pub size : c.size ≡ pos (total_size c.disk)
  pub items : c.items ≡ pos (total_items c.disk)
  pub size_bound : total_size c.disk < 2 ^ 62
  pub items_bound : total_items c.disk < 2 ^ 62

-- Without its two files a disk holds less by the content file.
abbrev pub without : FileInfo → Disk → Disk
without f d = remove (meta_of f.path) (remove f.path d)

pub find-without :
    (f : FileInfo) (q : Str) (d : Disk)
    → IsTree d
    → find q (without f d)
      ≡ (if q == meta_of f.path then none else if q == f.path then none else find q d)
find-without f q d t = ground (
  arith,
  find-remove (meta_of f.path) q (remove f.path d) (remove-IsTree f.path d t),
  find-remove f.path q d t,
)

pub total-without :
    (f : FileInfo) (d : Disk)
    → Present d f
    → (total_size (without f d) + f.size ≡ total_size d)
      × (total_items (without f d) + 1 ≡ total_items d)
total-without f d (bin, (e, h, k, l)) = ground (
  arith,
  total-remove f.path d,
  total-remove (meta_of f.path) (remove f.path d),
  is_bin-meta_of f.path,
)

module _ (f : FileInfo) (c : FilesystemCache) where
  abbrev pub dropped : FilesystemCache
  dropped = drop_file always f c

  pub dropped-IsTree : IsTree c.disk → IsTree dropped.disk
  unfolding try_remove
  dropped-IsTree t = remove-IsTree (meta_of f.path) _ (remove-IsTree f.path c.disk t)

  pub dropped-IsAccurate : IsAccurate c → Present c.disk f → IsAccurate dropped
  unfolding try_remove
  dropped-IsAccurate a p =
      let (s, i) = total-without f c.disk p in
      record {
        tree = remove-IsTree (meta_of f.path) _ (remove-IsTree f.path c.disk a.tree);
        size =
            ap (λ z. sub64 z (pos f.size)) a.size
            ∙ sub64_pos (total_size c.disk) f.size (omega arith) (omega (arith, a.size_bound))
            ∙ ap pos (omega arith);
        items =
            ap (λ z. sub64 z (pos 1)) a.items
            ∙ sub64_pos (total_items c.disk) 1 (omega arith) (omega (arith, a.items_bound))
            ∙ ap pos (omega arith);
        size_bound = omega (arith, a.size_bound);
        items_bound = omega (arith, a.items_bound);
      }

  pub find-dropped :
      (q : Str)
      → IsTree c.disk
      → find q dropped.disk
        ≡ (if q == meta_of f.path then none else if q == f.path then none else find q c.disk)
  unfolding try_remove
  find-dropped q t = find-without f q c.disk t

  pub find-dropped_ne :
      (q : Str) → IsTree c.disk → is_bin q ≡ true → f.path ≢ q → find q dropped.disk ≡ find q c.disk
  find-dropped_ne q t bin n = ground (arith, find-dropped q t, is_bin-meta_of f.path)

  pub Present-dropped :
      (g : FileInfo) → IsTree c.disk → f.path ≢ g.path → Present c.disk g → Present dropped.disk g
  Present-dropped g t n (bin, (e, h, k, m)) = (bin, (e, find-dropped_ne g.path t bin n ∙ h, k, m))
