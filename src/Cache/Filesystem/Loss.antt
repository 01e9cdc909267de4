-- ===== src/Cache/Filesystem/Loss.antt =====
-- What an operation leaves of the content files where it stores none, whatever fails in its course.
use verus_gateway.Base.{
  ℕ, ◌≡◌, ◌⊎◌, refl, ap, ◌∙◌, Bool, inl, inr, none, List, [], ◌∷◌, arith, list_eq, if◌then◌else◌,
  Bool-cases, Option-cases,
}
use verus_gateway.Base.Bytes.{Str}
use verus_gateway.Base.Int.{ℤ, pos, ltb_ℤ, leb_ℤ, add64}
use verus_gateway.Cache.Disk.{Disk, find, IsTree, find-remove}
use verus_gateway.Cache.Disk.Totals.{remove-IsTree}
use verus_gateway.Cache.World.{Codec, Io, try_remove}
use verus_gateway.Cache.State.{FilesystemCache, is_expired}
use verus_gateway.Cache.Upkeep.{
  FileInfo, meta_of, drop_file, evict_loop, evict_oldest, cleanup_walk, cleanup, collect,
}
use verus_gateway.Cache.Filesystem.{
  keep_if, make_room, clear, get, read_entry, delete, content_path, meta_path,
}

-- Each file is as it was, or gone.
abbrev pub Fewer : Disk → Disk → Type 0
Fewer d d' = (q : Str) → (find q d' ≡ none) ⊎ (find q d' ≡ find q d)

pub record Loses (c c' : FilesystemCache) : Type 0 where
  pub base_dir : c'.base_dir ≡ c.base_dir
  pub ttl : c'.ttl ≡ c.ttl
  pub tree : IsTree c.disk → IsTree c'.disk
  pub fewer : IsTree c.disk → Fewer c.disk c'.disk

pub Loses-refl : (c : FilesystemCache) → Loses c c
Loses-refl c = record { base_dir = refl; ttl = refl; tree = λ t. t; fewer = λ t q. inr refl }

pub Loses-trans : {c c' c'' : FilesystemCache} → Loses c c' → Loses c' c'' → Loses c c''
Loses-trans l m = record {
  base_dir = m.base_dir ∙ l.base_dir;
  ttl = m.ttl ∙ l.ttl;
  tree = λ t. m.tree (l.tree t);
  fewer = λ t q. elim (m.fewer (l.tree t) q) [
    | inl gone ↦ inl gone
    | inr same ↦ elim (l.fewer t q) [
      | inl gone ↦ inl (same ∙ gone)
      | inr same' ↦ inr (same ∙ same')
    ]
  ];
}

module _ (removes : Str → Bool) (p : Str) (d : Disk) (t : IsTree d) where
  try_remove-IsTree : IsTree (try_remove removes p d)
  unfolding try_remove
  try_remove-IsTree = elim (Bool-cases (removes p)) [
    | inl done ↦ rw done (remove-IsTree p d t)
    | inr failed ↦ rw failed t
  ]

  try_remove-Fewer : Fewer d (try_remove removes p d)
  unfolding try_remove
  try_remove-Fewer q = ground (arith, find-remove p q d t)

-- A state whose disk has lost two files, and whose counters may have changed.
removed-Loses :
    (removes : Str → Bool) (p p' : Str) (c c' : FilesystemCache)
    → c'.base_dir ≡ c.base_dir
    → c'.ttl ≡ c.ttl
    → c'.disk ≡ try_remove removes p' (try_remove removes p c.disk)
    → Loses c c'
removed-Loses removes p p' c c' b s e = record {
  base_dir = b;
  ttl = s;
  tree = λ t. rw e (try_remove-IsTree removes p' _ (try_remove-IsTree removes p c.disk t));
  fewer = λ t q.
      let t' = try_remove-IsTree removes p c.disk t in
      rw e (elim (try_remove-Fewer removes p' (try_remove removes p c.disk) t' q) [
        | inl gone ↦ inl gone
        | inr same ↦ elim (try_remove-Fewer removes p c.disk t q) [
          | inl gone ↦ inl (same ∙ gone)
          | inr same' ↦ inr (same ∙ same')
        ]
      ]);
}

drop_file-Loses :
    (removes : Str → Bool) (f : FileInfo) (c : FilesystemCache) → Loses c (drop_file removes f c)
drop_file-Loses removes f c = removed-Loses removes f.path (meta_of f.path) c _ refl refl refl

evict_loop-Loses :
    (removes : Str → Bool) (needed freed : ℤ) (files : List FileInfo) (c : FilesystemCache)
    → Loses c (evict_loop removes needed freed files c)
unfolding evict_loop
evict_loop-Loses removes needed freed [] c = Loses-refl c
evict_loop-Loses removes needed freed (f ∷ files) c = elim (Bool-cases (leb_ℤ needed freed)) [
  | inl enough ↦ rw enough (Loses-refl c)
  | inr more ↦ rw more (
      Loses-trans (drop_file-Loses removes f c)
        (evict_loop-Loses removes needed (add64 freed (pos f.size)) files (drop_file removes f c)))
]

pub make_room-Loses : (io : Io) (n : ℕ) (c : FilesystemCache) → Loses c (make_room io n c)
unfolding make_room evict_oldest
make_room-Loses io n c = elim (Bool-cases (ltb_ℤ c.max_size (add64 c.size (pos n)))) [
  | inl over ↦ rw over (evict_loop-Loses io.removes (pos n) (pos 0) _ c)
  | inr fits ↦ rw fits (Loses-refl c)
]

cleanup_walk-Loses :
    (removes : Str → Bool) (now : ℕ) (files : List FileInfo) (c : FilesystemCache)
    → Loses c (cleanup_walk removes now files c)
unfolding cleanup_walk
cleanup_walk-Loses removes now [] c = Loses-refl c
cleanup_walk-Loses removes now (f ∷ files) c = elim (Bool-cases (is_expired c.ttl now f.mod_time)) [
  | inl old ↦ rw old (
      Loses-trans (drop_file-Loses removes f c)
        (cleanup_walk-Loses removes now files (drop_file removes f c)))
  | inr young ↦ rw young (cleanup_walk-Loses removes now files c)
]

pub cleanup-Loses : (io : Io) (c : FilesystemCache) → Loses c (cleanup io c)
unfolding cleanup
cleanup-Loses io c = cleanup_walk-Loses io.removes io.now (collect c.disk) c

module _ (left : Str → Bool) where
  keep_if-find :
      (q : Str) (d : Disk) → find q (keep_if left d) ≡ (if left q then find q d else none)
  unfolding keep_if find
  keep_if-find q [] = ground arith
  keep_if-find q ((p, e) ∷ d) = ground (arith, keep_if-find q d)

  keep_if-IsTree : (d : Disk) → IsTree d → IsTree (keep_if left d)
  unfolding keep_if
  keep_if-IsTree [] t = tt
  keep_if-IsTree ((p, e) ∷ d) (fresh, t) = elim (Bool-cases (left p)) [
    | inl stays ↦ rw stays (keep_if-find p d ∙ rw (stays, fresh) refl, keep_if-IsTree d t)
    | inr goes ↦ rw goes (keep_if-IsTree d t)
  ]

  kept-Loses : (c : FilesystemCache) → Loses c (record c { disk = keep_if left c.disk })
  kept-Loses c = record {
    base_dir = refl;
    ttl = refl;
    tree = λ t. keep_if-IsTree c.disk t;
    fewer = λ t q. ground (arith, keep_if-find q c.disk);
  }

pub find-nil : (q : Str) → find q [] ≡ none
unfolding find
find-nil q = refl

emptied-Loses :
    (c : FilesystemCache) (size items : ℤ)
    → Loses c (record c { disk = []; size = size; items = items })
emptied-Loses c size items = record {
  base_dir = refl;
  ttl = refl;
  tree = λ t. tt;
  fewer = λ t q. inl (find-nil q);
}

pub clear-Loses : (io : Io) (c : FilesystemCache) → Loses c (clear io c).0
unfolding clear
clear-Loses io c = elim (Option-cases io.ctx) [
  | inr (e, h) ↦ rw (clear, h) (Loses-refl c)
  | inl h ↦ elim (Option-cases io.remove_all_error) [
    | inr ((e, left), k) ↦ rw (clear, h, k) (kept-Loses left c)
    | inl k ↦ elim (Option-cases io.recreate_error) [
      | inr (e, l) ↦ rw (clear, h, k, l) (emptied-Loses c c.size c.items)
      | inl l ↦ rw (clear, h, k, l) (emptied-Loses c (pos 0) (pos 0))
    ]
  ]
]

module _ (codec : Codec) (io : Io) (key : Str) (c : FilesystemCache) where
  abbrev content : Str
  content = content_path codec c.base_dir key

  abbrev meta : Str
  meta = meta_path codec c.base_dir key

  abbrev removed : Disk
  removed = try_remove io.removes meta (try_remove io.removes content c.disk)

  -- The disk after a `Get` or a `Delete` is that before it, or has both files removed as far as the
  -- system lets it.
  get_disk :
      ((get codec io key c).0.base_dir ≡ c.base_dir)
      × ((get codec io key c).0.ttl ≡ c.ttl)
      × (((get codec io key c).0.disk ≡ c.disk) ⊎ ((get codec io key c).0.disk ≡ removed))
  unfolding get read_entry
  get_disk = ground arith

  delete_disk :
      ((delete codec io key c).0.base_dir ≡ c.base_dir)
      × ((delete codec io key c).0.ttl ≡ c.ttl)
      × (((delete codec io key c).0.disk ≡ c.disk) ⊎ ((delete codec io key c).0.disk ≡ removed))
  unfolding delete
  delete_disk = ground arith

  kept_or_removed-Loses :
      (c' : FilesystemCache)
      → c'.base_dir ≡ c.base_dir
      → c'.ttl ≡ c.ttl
      → (c'.disk ≡ c.disk) ⊎ (c'.disk ≡ removed)
      → Loses c c'
  kept_or_removed-Loses c' b s (inl e) = record {
    base_dir = b;
    ttl = s;
    tree = λ t. rw e t;
    fewer = λ t q. inr (ap (find q) e);
  }
  kept_or_removed-Loses c' b s (inr e) = removed-Loses io.removes content meta c c' b s e

  pub get-Loses : Loses c (get codec io key c).0
  get-Loses = let (b, s, d) = get_disk in kept_or_removed-Loses _ b s d

  pub delete-Loses : Loses c (delete codec io key c).0
  delete-Loses = let (b, s, d) = delete_disk in kept_or_removed-Loses _ b s d
