-- ===== src/Cache/Disk.antt =====
-- The files below the cache's directory, by path, in the order in which `filepath.Walk` meets them.
pub mod Totals
use mathlib.Core.List.{lookup}
use verus_gateway.Base.{
  ℕ, zero, suc, ◌+◌, ◌≤◌, ◌≡◌, ◌≢◌, inl, inr, refl, ap, sym, ◌∙◌, Bool, true, false, Option, none,
  some, List, [], ◌∷◌, ◌++◌, arith, ◌==◌, nat_eq, list_eq, ltb, if◌then◌else◌, length, All,
  Bool-cases, Option-cases,
}
use verus_gateway.Base.Bytes.{Bytes, Str, lit}
use verus_gateway.FilePath.{ext}

pub record Entry : Type 0 where
  pub content : Bytes
  pub mod_time : ℕ

abbrev pub Disk : Type 0
Disk = List (Str × Entry)

-- `os.Stat` and `os.ReadFile`
unfoldable pub find : Str → Disk → Option Entry
unfolding lookup
find = lookup list_eq.dec

-- The order of paths.
unfoldable pub str_ltb : Str → Str → Bool
str_ltb [] [] = false
str_ltb [] (d ∷ t) = true
str_ltb (c ∷ s) [] = false
str_ltb (c ∷ s) (d ∷ t) = if ltb c d then true else if c == d then str_ltb s t else false

unfoldable pub replace : Str → Entry → Disk → Disk
replace p e [] = []
replace p e ((q, f) ∷ d) = if p == q then (q, e) ∷ d else (q, f) ∷ replace p e d

unfoldable pub insert : Str → Entry → Disk → Disk
insert p e [] = (p, e) ∷ []
insert p e ((q, f) ∷ d) = if str_ltb p q then (p, e) ∷ (q, f) ∷ d else (q, f) ∷ insert p e d

-- `os.WriteFile`, done in full.
unfoldable pub write_file : Str → Entry → Disk → Disk
write_file p e d = elim (find p d) [ none ↦ insert p e d | some _ ↦ replace p e d ]

-- `os.Remove`; a path that is not there is an error that the callers ignore.
unfoldable pub remove : Str → Disk → Disk
remove p [] = []
remove p ((q, f) ∷ d) = if p == q then d else (q, f) ∷ remove p d

-- `filepath.Ext(path) == ".bin"`
unfoldable pub is_bin : Str → Bool
is_bin p = ext p == lit ".bin"

-- The bytes and the number of the content files.
unfoldable pub total_size : Disk → ℕ
total_size [] = 0
total_size ((p, e) ∷ d) = (if is_bin p then length e.content else 0) + total_size d

unfoldable pub total_items : Disk → ℕ
total_items [] = 0
total_items ((p, e) ∷ d) = (if is_bin p then 1 else 0) + total_items d

-- No path stands twice.
abbrev pub IsTree : Disk → Type 0
IsTree [] = Unit
IsTree ((p, _) ∷ d) = (find p d ≡ none) × IsTree d

module _ (p : Str) (e : Entry) where
  find-insert :
      (q : Str) (d : Disk)
      → find p d ≡ none
      → find q (insert p e d) ≡ (if q == p then some e else find q d)
  unfolding find insert
  find-insert q [] h = ground arith
  find-insert q ((r, f) ∷ d) h = ground (arith, find-insert q d)

  find-replace :
      (q : Str) (d : Disk) (old : Entry)
      → find p d ≡ some old
      → find q (replace p e d) ≡ (if q == p then some e else find q d)
  unfolding find replace
  find-replace q [] old h = ground arith
  find-replace q ((r, f) ∷ d) old h = ground (arith, find-replace q d old)

  -- A file that was written is there, and no other path has changed.
  pub find-write_file :
      (q : Str) (d : Disk) → find q (write_file p e d) ≡ (if q == p then some e else find q d)
  unfolding write_file
  find-write_file q d = elim (Option-cases (find p d)) [
    | inl h ↦ rw (h, write_file) (find-insert q d h)
    | inr (old, h) ↦ rw (h, write_file) (find-replace q d old h)
  ]

pub find-remove :
    (p q : Str) (d : Disk) → IsTree d → find q (remove p d) ≡ (if q == p then none else find q d)
unfolding find remove
find-remove p q [] t = ground arith
find-remove p q ((r, f) ∷ d) (fresh, t) = ground (arith, find-remove p q d t)
