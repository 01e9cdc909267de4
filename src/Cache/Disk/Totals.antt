-- ===== src/Cache/Disk/Totals.antt =====
-- What writing and removing a file make of the totals, and that no path comes to stand twice.
use verus_gateway.Base.{
  ℕ, ◌+◌, ◌≡◌, inl, inr, none, some, [], ◌∷◌, arith, nat_eq, list_eq, if◌then◌else◌, length,
  Option-cases,
}
use verus_gateway.Base.Bytes.{Str}
use verus_gateway.Cache.Disk.{
  Entry, Disk, find, replace, insert, write_file, remove, is_bin, total_size, total_items, IsTree,
  find-insert, find-replace, find-remove,
}

-- The part of one file in the totals.
abbrev pub size_of : Str → Entry → ℕ
size_of p e = if is_bin p then length e.content else 0

abbrev pub item_of : Str → ℕ
item_of p = if is_bin p then 1 else 0

-- What stood at a path before.
abbrev pub old_size : Str → Disk → ℕ
old_size p d = elim (find p d) [ none ↦ 0 | some e ↦ size_of p e ]

abbrev pub old_items : Str → Disk → ℕ
old_items p d = elim (find p d) [ none ↦ 0 | some e ↦ item_of p ]

module _ (p : Str) (e : Entry) where
  total-insert :
      (d : Disk)
      → (total_size (insert p e d) ≡ size_of p e + total_size d)
        × (total_items (insert p e d) ≡ item_of p + total_items d)
  unfolding insert total_size total_items
  total-insert [] = (omega arith, omega arith)
  total-insert ((q, f) ∷ d) = ground (arith, total-insert d)

  total-replace :
      (d : Disk) (old : Entry)
      → find p d ≡ some old
      → (total_size (replace p e d) + size_of p old ≡ total_size d + size_of p e)
        × (total_items (replace p e d) ≡ total_items d)
  unfolding find replace total_size total_items
  total-replace [] old h = ground arith
  total-replace ((q, f) ∷ d) old h = ground (arith, total-replace d old)

  IsTree-insert : (d : Disk) → find p d ≡ none → IsTree d → IsTree (insert p e d)
  unfolding find insert
  IsTree-insert [] h t = ground arith
  IsTree-insert ((q, f) ∷ d) h (fresh, t) = ground (arith, find-insert p e q d, IsTree-insert d)

  IsTree-replace :
      (d : Disk) (old : Entry) → find p d ≡ some old → IsTree d → IsTree (replace p e d)
  unfolding find replace
  IsTree-replace [] old h t = ground arith
  IsTree-replace ((q, f) ∷ d) old h (fresh, t) =
      ground (arith, find-replace p e q d old, IsTree-replace d old)

  pub write_file-IsTree : (d : Disk) → IsTree d → IsTree (write_file p e d)
  unfolding write_file
  write_file-IsTree d t = elim (Option-cases (find p d)) [
    | inl h ↦ rw (h, write_file) (IsTree-insert d h t)
    | inr (old, h) ↦ rw (h, write_file) (IsTree-replace d old h t)
  ]

  -- The new file counts, and the one that it replaces does not.
  pub total-write_file :
      (d : Disk)
      → (total_size (write_file p e d) + old_size p d ≡ total_size d + size_of p e)
        × (total_items (write_file p e d) + old_items p d ≡ total_items d + item_of p)
  unfolding write_file
  total-write_file d = elim (Option-cases (find p d)) [
    | inl h ↦ ground (arith, total-insert d)
    | inr (old, h) ↦ ground (arith, total-replace d old h)
  ]

pub total-remove :
    (p : Str) (d : Disk)
    → (total_size (remove p d) + old_size p d ≡ total_size d)
      × (total_items (remove p d) + old_items p d ≡ total_items d)
unfolding find remove total_size total_items
total-remove p [] = (omega arith, omega arith)
total-remove p ((q, f) ∷ d) = ground (arith, total-remove p d)

pub remove-IsTree : (p : Str) (d : Disk) → IsTree d → IsTree (remove p d)
unfolding find remove
remove-IsTree p [] t = t
remove-IsTree p ((q, f) ∷ d) (fresh, t) = ground (arith, find-remove p q d t, remove-IsTree p d t)
