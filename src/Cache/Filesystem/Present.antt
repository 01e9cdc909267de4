-- ===== src/Cache/Filesystem/Present.antt =====
-- The list of content files that a walk collects, against the disk.
use mathlib.Core.List.{Permᴰ}
use mathlib.Core.Logic.{if_pos}
use mathlib.Core.Path.{subst}
use verus_gateway.Base.{
  ℕ, ◌+◌, ◌≡◌, ◌≢◌, refl, ap, sym, ◌∙◌, true, inl, inr, none, some, List, [], ◌∷◌, ◌++◌, arith,
  list_eq, length, All, All-map, Bool-cases,
}
use verus_gateway.Base.Bytes.{Str}
use verus_gateway.Cache.Disk.{Entry, Disk, find, is_bin, total_size, total_items, IsTree}
use verus_gateway.Cache.Upkeep.{FileInfo, collect}

-- The disk holds a content file as the walk saw it.
abbrev pub Present : Disk → FileInfo → Type 0
Present d f =
    (is_bin f.path ≡ true)
    × ((e : Entry) × (find f.path d ≡ some e)
        × (length e.content ≡ f.size)
        × (e.mod_time ≡ f.mod_time))

abbrev pub Distinct : List FileInfo → Type 0
Distinct [] = Unit
Distinct (f ∷ fs) = All (λ g. f.path ≢ g.path) fs × Distinct fs

unfoldable pub sum_sizes : List FileInfo → ℕ
sum_sizes [] = 0
sum_sizes (f ∷ fs) = f.size + sum_sizes fs

Present-cons :
    (p : Str) (e : Entry) (d : Disk)
    → find p d ≡ none
    → (f : FileInfo) → Present d f
    → Present ((p, e) ∷ d) f
unfolding find
Present-cons p e d fresh f (bin, (g, h, k, l)) = (bin, (g, ground arith, k, l))

other_path : (p : Str) (d : Disk) → find p d ≡ none → (f : FileInfo) → Present d f → p ≢ f.path
other_path p d fresh f (bin, (g, h, k, l)) same = ground arith

pub collect-Present : (d : Disk) → IsTree d → All (Present d) (collect d)
unfolding collect find
collect-Present [] _ = tt
collect-Present ((p, e) ∷ d) (fresh, t) = elim (Bool-cases (is_bin p)) [
  | inl bin ↦ rw bin (
    (bin, (e, if_pos (list_eq.dec p p) refl _ _, refl, refl)),
    All-map (Present d) (Present ((p, e) ∷ d)) (collect d) (Present-cons p e d fresh)
        (collect-Present d t),
  )
  | inr other ↦ rw other (
      All-map (Present d) (Present ((p, e) ∷ d)) (collect d) (Present-cons p e d fresh)
        (collect-Present d t))
]

pub collect-Distinct : (d : Disk) → IsTree d → Distinct (collect d)
unfolding collect
collect-Distinct [] _ = tt
collect-Distinct ((p, e) ∷ d) (fresh, t) = elim (Bool-cases (is_bin p)) [
  | inl bin ↦ rw bin (
    All-map (Present d) (λ f. p ≢ f.path) (collect d) (other_path p d fresh) (collect-Present d t),
    collect-Distinct d t,
  )
  | inr other ↦ rw other (collect-Distinct d t)
]

pub sum_sizes-collect : (d : Disk) → sum_sizes (collect d) ≡ total_size d
unfolding collect sum_sizes total_size
sum_sizes-collect [] = refl
sum_sizes-collect ((p, e) ∷ d) = ground (arith, sum_sizes-collect d)

pub length-collect : (d : Disk) → length (collect d) ≡ total_items d
unfolding collect total_items
length-collect [] = refl
length-collect ((p, e) ∷ d) = ground (arith, length-collect d)

-- What holds of a list of files, and of any of its orders.
pub All-perm : (P : FileInfo → Type 0) {l m : List FileInfo} → Permᴰ l m → All P l → All P m
All-perm P Permᴰ.nil h = tt
All-perm P (Permᴰ.cons e p) (h, hs) = (subst P e h, All-perm P p hs)
All-perm P (Permᴰ.swap e f) (h, (h', hs)) = (subst P f h', (subst P e h, hs))
All-perm P (Permᴰ.trans p q) h = All-perm P q (All-perm P p h)

pub Distinct-perm : {l m : List FileInfo} → Permᴰ l m → Distinct l → Distinct m
Distinct-perm Permᴰ.nil h = tt
Distinct-perm (Permᴰ.cons {l₂ = m} e p) (h, hs) =
    (subst (λ x. All (λ g. x.path ≢ g.path) m) e (All-perm _ p h), Distinct-perm p hs)
Distinct-perm (Permᴰ.swap {b = b} {b' = b'} {l = l} e f) ((n, na), (nb, hs)) =
    subst (λ x. Distinct (x ∷ b' ∷ l)) f
      (subst (λ y. Distinct (b ∷ y ∷ l)) e (((λ q. n (sym q)), nb), (na, hs)))
Distinct-perm (Permᴰ.trans p q) h = Distinct-perm q (Distinct-perm p h)

pub sum_sizes-perm : {l m : List FileInfo} → Permᴰ l m → sum_sizes l ≡ sum_sizes m
unfolding sum_sizes
sum_sizes-perm Permᴰ.nil = refl
sum_sizes-perm (Permᴰ.cons e p) = omega (arith, ap (λ x. x.size) e, sum_sizes-perm p)
sum_sizes-perm (Permᴰ.swap e f) = omega (arith, ap (λ x. x.size) e, ap (λ x. x.size) f)
sum_sizes-perm (Permᴰ.trans p q) = sum_sizes-perm p ∙ sum_sizes-perm q

pub sum_sizes-append : (l m : List FileInfo) → sum_sizes (l ++ m) ≡ sum_sizes l + sum_sizes m
unfolding sum_sizes
sum_sizes-append [] m = omega arith
sum_sizes-append (f ∷ l) m = omega (arith, sum_sizes-append l m)

pub sum_sizes-nil : sum_sizes [] ≡ 0
unfolding sum_sizes
sum_sizes-nil = refl
