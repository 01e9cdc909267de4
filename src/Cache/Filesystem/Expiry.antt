-- ===== src/Cache/Filesystem/Expiry.antt =====
-- The cleanup of expired files.
use verus_gateway.Base.{
  ℕ, ◌≡◌, ◌≢◌, refl, ◌∙◌, Bool, true, false, inl, inr, none, some, List, [], ◌∷◌, arith, ◌==◌,
  list_eq, if◌then◌else◌, All, All-map, All-zip, Bool-cases, Option-cases,
}
use verus_gateway.Base.Bytes.{Str}
use verus_gateway.Base.Int.{ℤ}
use verus_gateway.Cache.Disk.{Disk, find, is_bin}
use verus_gateway.Cache.World.{calm}
use verus_gateway.Cache.State.{FilesystemCache, is_expired}
use verus_gateway.Cache.Upkeep.{FileInfo, drop_file, cleanup, cleanup_walk, collect}
use verus_gateway.Cache.Filesystem.Paths.{is_bin-meta_of}
use verus_gateway.Cache.Filesystem.Present.{Present, Distinct, collect-Present, collect-Distinct}
use verus_gateway.Cache.Filesystem.Dropping.{
  always, IsAccurate, dropped, dropped-IsAccurate, find-dropped, Present-dropped,
}

-- Whether the walk over `files` meets `q` and finds it expired.
expired_in : ℤ → ℕ → Str → List FileInfo → Bool
expired_in ttl now q [] = false
expired_in ttl now q (f ∷ files) =
    let rest = expired_in ttl now q files in
    if q == f.path then is_expired ttl now f.mod_time else rest

module _ (ttl : ℤ) (now : ℕ) where
  expired_in-absent :
      (q : Str) (files : List FileInfo)
      → All (λ g. q ≢ g.path) files
      → expired_in ttl now q files ≡ false
  unfolding expired_in
  expired_in-absent q [] n = refl
  expired_in-absent q (f ∷ files) (n, ns) = ground (arith, expired_in-absent q files ns)

  expired_in-collect :
      (q : Str) (d : Disk)
      → is_bin q ≡ true
      → expired_in ttl now q (collect d)
        ≡ elim (find q d) [ none ↦ false | some e ↦ is_expired ttl now e.mod_time ]
  unfolding expired_in collect find
  expired_in-collect q [] bin = refl
  expired_in-collect q ((p, e) ∷ d) bin = ground (arith, expired_in-collect q d bin)

module _ (removes : Str → Bool) (now : ℕ) (f : FileInfo) (files : List FileInfo)
    (c : FilesystemCache) where
  cleanup_walk_old :
      is_expired c.ttl now f.mod_time ≡ true
      → cleanup_walk removes now (f ∷ files) c
        ≡ cleanup_walk removes now files (drop_file removes f c)
  unfolding cleanup_walk
  cleanup_walk_old h = rw h refl

  cleanup_walk_young :
      is_expired c.ttl now f.mod_time ≡ false
      → cleanup_walk removes now (f ∷ files) c ≡ cleanup_walk removes now files c
  unfolding cleanup_walk
  cleanup_walk_young h = rw h refl

module _ (now : ℕ) where
  cleanup_walk-lem :
      (files : List FileInfo) (c : FilesystemCache)
      → IsAccurate c
      → All (Present c.disk) files
      → Distinct files
      → IsAccurate (cleanup_walk always now files c)
        × ((q : Str)
            → is_bin q ≡ true
            → find q (cleanup_walk always now files c).disk
              ≡ (if expired_in c.ttl now q files then none else find q c.disk))
  unfolding cleanup_walk expired_in
  cleanup_walk-lem [] c a p d = (a, λ q bin. refl)
  cleanup_walk-lem (f ∷ files) c a (p, ps) (n, d) =
      elim (Bool-cases (is_expired c.ttl now f.mod_time)) [
        | inl old ↦
            let kept =
              All-map (λ g. (f.path ≢ g.path) × Present c.disk g) (Present (dropped f c).disk) files
                (λ g k. Present-dropped f c g a.tree k.0 k.1)
                (All-zip (λ g. f.path ≢ g.path) (Present c.disk) files n ps) in
            let (a', rest) =
              cleanup_walk-lem files (dropped f c) (dropped-IsAccurate f c a p) kept d in
            rw (cleanup_walk_old always now f files c old) (
              a',
              λ q bin.
                  rest q bin
                  ∙ ground (
                    arith,
                    find-dropped f c q a.tree,
                    is_bin-meta_of f.path,
                    expired_in-absent c.ttl now f.path files n,
                  ),
            )
        | inr young ↦
            let (a', rest) = cleanup_walk-lem files c a ps d in
            rw (cleanup_walk_young always now f files c young)
              (a', λ q bin. rest q bin ∙ ground (arith, expired_in-absent c.ttl now f.path files n))
      ]

  -- Where the counters tell what is on the disk, they tell it after a cleanup in which no removal
  -- fails, too. Exactly the content files older than the TTL are gone, and the others are as they were.
  pub cleanup-IsAccurate :
      (c : FilesystemCache)
      → IsAccurate c
      → IsAccurate (cleanup (calm now) c)
        × ((q : Str)
            → is_bin q ≡ true
            → find q (cleanup (calm now) c).disk ≡ elim (find q c.disk) [
              | none ↦ none
              | some e ↦ if is_expired c.ttl now e.mod_time then none else some e
            ])
  unfolding cleanup
  cleanup-IsAccurate c a =
      let (a', rest) =
        cleanup_walk-lem (collect c.disk) c a (collect-Present c.disk a.tree)
          (collect-Distinct c.disk a.tree) in
      (
        a',
        λ q bin. rest q bin ∙ elim (Option-cases (find q c.disk)) [
          | inl h ↦ rw (expired_in-collect c.ttl now q c.disk bin, h) refl
          | inr (e, h) ↦ rw (expired_in-collect c.ttl now q c.disk bin, h) refl
        ],
      )
