-- ===== src/Cache/Filesystem/Eviction.antt =====
-- Which files an eviction removes, and that the counters follow.
use mathlib.Core.List.Permᴰ
use mathlib.Core.List.{Permᴰ}
use mathlib.Core.Path.{subst}
use verus_gateway.Base.{
  ℕ, ◌+◌, ◌^◌, ◌≤◌, ◌<◌, ◌≡◌, ◌≢◌, ◌⊎◌, refl, ap, ◌∙◌, Bool, true, false, inl, inr, none, List, [],
  ◌∷◌, ◌++◌, arith, list_eq, All, All-append_right, All-map, All-zip, All-tabulate, Bool-cases,
}
use verus_gateway.Base.Bytes.{Str}
use verus_gateway.Base.Int.{ℤ, pos, leb_ℤ, add64, add64_pos}
use verus_gateway.Cache.Disk.{find, total_size, IsTree}
use verus_gateway.Cache.World.{try_remove}
use verus_gateway.Cache.State.{FilesystemCache}
use verus_gateway.Cache.Upkeep.{FileInfo, collect, bubble_sort, drop_file, evict_loop, evict_oldest}
use verus_gateway.Cache.Filesystem.Sort.{IsSorted, bubble_sort-IsSorted}
use verus_gateway.Cache.Filesystem.Present.{
  Present, Distinct, sum_sizes, collect-Present, collect-Distinct, sum_sizes-collect, All-perm,
  Distinct-perm, sum_sizes-perm,
}
use verus_gateway.Cache.Filesystem.Dropping.{
  always, IsAccurate, total-without, dropped, dropped-IsAccurate, find-dropped, find-dropped_ne,
  dropped-IsTree, Present-dropped,
}

-- The last of the files that were removed was needed: those before it free too little.
abbrev pub IsLean : ℕ → ℕ → List FileInfo → Type 0
IsLean needed freed gone =
    (gone ≡ [])
    ⊎ ((before : List FileInfo) × (last : FileInfo) × (gone ≡ before ++ (last ∷ []))
        × (freed + sum_sizes before < needed))

-- The loop of the eviction over `files`, from the state `c` with some bytes freed, ends in `c'`.
pub record Evicts (needed freed : ℕ) (files : List FileInfo) (c c' : FilesystemCache) : Type 0 where
  pub gone : List FileInfo
  pub kept : List FileInfo
  pub split : files ≡ gone ++ kept
  pub removed : All (λ f. find f.path c'.disk ≡ none) gone
  pub left : All (λ f. find f.path c'.disk ≡ find f.path c.disk) kept
  pub enough : (needed ≤ freed + sum_sizes gone) ⊎ (kept ≡ [])
  pub lean : IsLean needed freed gone
  pub accurate : IsAccurate c'
  pub total : total_size c'.disk + sum_sizes gone ≡ total_size c.disk

module _ (removes : Str → Bool) (needed freed : ℤ) (f : FileInfo) (files : List FileInfo) where
  evict_loop_stop :
      (c : FilesystemCache)
      → leb_ℤ needed freed ≡ true
      → evict_loop removes needed freed (f ∷ files) c ≡ c
  unfolding evict_loop
  evict_loop_stop c h = rw h

  evict_loop_go :
      (c : FilesystemCache)
      → leb_ℤ needed freed ≡ false
      → evict_loop removes needed freed (f ∷ files) c
        ≡ evict_loop removes needed (add64 freed (pos f.size)) files (drop_file removes f c)
  unfolding evict_loop
  evict_loop_go c h = rw h

-- What is gone stays gone.
evict_loop-none :
    (needed freed : ℤ) (files : List FileInfo) (c : FilesystemCache) (q : Str)
    → IsTree c.disk
    → find q c.disk ≡ none
    → find q (evict_loop always needed freed files c).disk ≡ none
unfolding evict_loop
evict_loop-none needed freed [] c q t h = h
evict_loop-none needed freed (f ∷ files) c q t h = elim (Bool-cases (leb_ℤ needed freed)) [
  | inl done ↦ rw (evict_loop_stop always needed freed f files c done) h
  | inr more ↦ rw (evict_loop_go always needed freed f files c more) (
      evict_loop-none needed (add64 freed (pos f.size)) files (dropped f c) q (dropped-IsTree f c t)
        (ground (arith, find-dropped f c q t)))
]

module _ (needed freed : ℕ) (f : FileInfo) (files : List FileInfo) (c : FilesystemCache) where
  Evicts-stop : IsAccurate c → needed ≤ freed → Evicts needed freed (f ∷ files) c c
  unfolding sum_sizes
  Evicts-stop a h = record {
    gone = [];
    kept = f ∷ files;
    split = refl;
    removed = tt;
    left = (refl, All-tabulate (λ g. find g.path c.disk ≡ find g.path c.disk) files (λ g. refl));
    enough = inl (omega arith);
    lean = inl refl;
    accurate = a;
    total = omega arith;
  }

  IsLean-cons :
      (gone : List FileInfo)
      → freed < needed
      → IsLean needed (freed + f.size) gone
      → IsLean needed freed (f ∷ gone)
  unfolding sum_sizes
  IsLean-cons gone h (inl e) = inr ([], f, ap (◌∷◌ f) e, omega arith)
  IsLean-cons gone h (inr (before, last, e, k)) = inr (f ∷ before, last, ap (◌∷◌ f) e, omega arith)

  Evicts-cons :
      (c' : FilesystemCache)
      → IsAccurate c
      → freed < needed
      → Present c.disk f
      → All (Present c.disk) files
      → All (λ g. f.path ≢ g.path) files
      → find f.path c'.disk ≡ none
      → Evicts needed (freed + f.size) files (dropped f c) c'
      → Evicts needed freed (f ∷ files) c c'
  unfolding sum_sizes try_remove
  Evicts-cons c' a h p ps ns none' v = record {
    gone = f ∷ v.gone;
    kept = v.kept;
    split = ap (◌∷◌ f) v.split;
    removed = (none', v.removed);
    left =
        All-map
          (λ g.
            (find g.path c'.disk ≡ find g.path (dropped f c).disk)
            × (Present c.disk g × (f.path ≢ g.path)))
          (λ g. find g.path c'.disk ≡ find g.path c.disk) v.kept
          (λ g k. k.0 ∙ find-dropped_ne f c g.path a.tree k.1.0.0 k.1.1)
          (All-zip _ _ v.kept v.left (
            All-append_right _ v.gone v.kept (
              subst (All (λ g. Present c.disk g × (f.path ≢ g.path))) v.split
                (All-zip (Present c.disk) (λ g. f.path ≢ g.path) files ps ns))));
    enough = elim v.enough [ inl e ↦ inl (omega arith) | inr e ↦ inr e ];
    lean = IsLean-cons v.gone h v.lean;
    accurate = v.accurate;
    total = omega (arith, v.total, total-without f c.disk p);
  }

evict_loop-Evicts :
    (needed freed : ℕ) (files : List FileInfo) (c : FilesystemCache)
    → IsAccurate c
    → All (Present c.disk) files
    → Distinct files
    → freed + sum_sizes files < 2 ^ 63
    → Evicts needed freed files c (evict_loop always (pos needed) (pos freed) files c)
unfolding evict_loop sum_sizes
evict_loop-Evicts needed freed [] c a p d b = record {
  gone = [];
  kept = [];
  split = refl;
  removed = tt;
  left = tt;
  enough = inr refl;
  lean = inl refl;
  accurate = a;
  total = omega arith;
}
evict_loop-Evicts needed freed (f ∷ files) c a (p, ps) (n, d) b =
    elim (Bool-cases (leb_ℤ (pos needed) (pos freed))) [
      | inl done ↦
          rw (evict_loop_stop always (pos needed) (pos freed) f files c done)
            (Evicts-stop needed freed f files c a (ground arith))
      | inr more ↦
          let kept =
            All-map (λ g. (f.path ≢ g.path) × Present c.disk g) (Present (dropped f c).disk) files
              (λ g k. Present-dropped f c g a.tree k.0 k.1)
              (All-zip (λ g. f.path ≢ g.path) (Present c.disk) files n ps) in
          rw
            (
              evict_loop_go always (pos needed) (pos freed) f files c more,
              add64_pos freed f.size (omega arith),
            )
            (Evicts-cons needed freed f files c _ a (ground arith) p ps n
              (evict_loop-none (pos needed) (pos (freed + f.size)) files (dropped f c) f.path
                (dropped-IsTree f c a.tree) (ground (arith, find-dropped f c f.path a.tree)))
              (evict_loop-Evicts needed (freed + f.size) files (dropped f c)
                (dropped-IsAccurate f c a p) kept d (omega arith)))
    ]

sorted_split :
    (gone kept : List FileInfo)
    → IsSorted (gone ++ kept)
    → All (λ g. All (λ k. g.mod_time ≤ k.mod_time) kept) gone
sorted_split [] kept s = tt
sorted_split (g ∷ gone) kept (h, s) = (All-append_right _ gone kept h, sorted_split gone kept s)

-- An eviction that takes `c` to `c'`: it goes through all content files of the disk, and no file that
-- is gone is newer than one that is kept.
pub record EvictsOldest (needed : ℕ) (c c' : FilesystemCache) : Type 0 where
  pub files : List FileInfo
  pub all_files : Permᴰ files (collect c.disk)
  pub evicts : Evicts needed 0 files c c'
  pub oldest : All (λ g. All (λ k. g.mod_time ≤ k.mod_time) evicts.kept) evicts.gone

-- Where the counters tell what is on the disk and no removal fails, an eviction removes the oldest
-- content files, as many as free the bytes that are needed and no more, or all of them. The other
-- content files stay as they are, and the counters tell what is left.
pub evict_oldest-EvictsOldest :
    (needed : ℕ) (c : FilesystemCache)
    → IsAccurate c
    → EvictsOldest needed c (evict_oldest always (pos needed) c)
unfolding evict_oldest
evict_oldest-EvictsOldest needed c a =
    let files = bubble_sort (collect c.disk) in
    let (sorted, perm) = bubble_sort-IsSorted (collect c.disk) in
    let v =
      evict_loop-Evicts needed 0 files c a
        (All-perm (Present c.disk) (Permᴰ.symm perm) (collect-Present c.disk a.tree))
        (Distinct-perm (Permᴰ.symm perm) (collect-Distinct c.disk a.tree))
        (omega (arith, sum_sizes-perm perm, sum_sizes-collect c.disk, a.size_bound)) in
    record {
      files = files;
      all_files = perm;
      evicts = v;
      oldest = sorted_split v.gone v.kept (subst IsSorted v.split sorted);
    }
