-- ===== src/Cache/Filesystem/Sort.antt =====
-- The bubble sort of `evictOldest` orders the files by their times.
use mathlib.Core.List.Permᴰ
use mathlib.Core.List.{Permᴰ, append-nil}
use mathlib.Core.Path.{subst}
use verus_gateway.Base.{
  ℕ, zero, suc, ◌-◌, ◌≤◌, ◌≡◌, refl, ap, sym, ◌∙◌, inl, inr, List, [], ◌∷◌, ◌++◌, ltb, arith,
  if◌then◌else◌, length, All, All-zip, All-tabulate, Bool-cases,
}
use verus_gateway.Cache.Upkeep.{FileInfo, pass, rounds, bubble_sort}

abbrev older : FileInfo → FileInfo → FileInfo
older x y = if ltb y.mod_time x.mod_time then y else x

abbrev newer : FileInfo → FileInfo → FileInfo
newer x y = if ltb y.mod_time x.mod_time then x else y

-- What a pass over `x ∷ l` leaves before its newest element, and that element.
front : FileInfo → List FileInfo → List FileInfo
front x [] = []
front x (y ∷ l) = older x y ∷ front (newer x y) l

newest : FileInfo → List FileInfo → FileInfo
newest x [] = x
newest x (y ∷ l) = newest (newer x y) l

-- The files stand from the oldest to the newest.
abbrev pub IsSorted : List FileInfo → Type 0
IsSorted [] = Unit
IsSorted (x ∷ l) = All (λ y. x.mod_time ≤ y.mod_time) l × IsSorted l

pass_lem :
    (x : FileInfo) (l rest : List FileInfo)
    → pass (length l) (x ∷ l ++ rest) ≡ front x l ++ (newest x l ∷ rest)
unfolding pass front newest
pass_lem x [] rest = refl
pass_lem x (y ∷ l) rest = ap (◌∷◌ (older x y)) (pass_lem (newer x y) l rest)

length-front : (x : FileInfo) (l : List FileInfo) → length (front x l) ≡ length l
unfolding front
length-front x [] = refl
length-front x (y ∷ l) = ap suc (length-front (newer x y) l)

-- A pass keeps what holds of all files.
front-All :
    (P : FileInfo → Type 0) (x : FileInfo) (l : List FileInfo)
    → P x
    → All P l
    → All P (front x l) × P (newest x l)
unfolding front newest
front-All P x [] p _ = (tt, p)
front-All P x (y ∷ l) p (q, ps) = elim (Bool-cases (ltb y.mod_time x.mod_time)) [
  | inl after ↦ rw after (let (f, n) = front-All P x l p ps in ((q, f), n))
  | inr not_after ↦ rw not_after (let (f, n) = front-All P y l q ps in ((p, f), n))
]

le-newest : (x : FileInfo) (l : List FileInfo) → x.mod_time ≤ (newest x l).mod_time
unfolding newest
le-newest x [] = omega arith
le-newest x (y ∷ l) = ground (arith, le-newest x l, le-newest y l)

front-le-newest :
    (x : FileInfo) (l : List FileInfo) → All (λ y. y.mod_time ≤ (newest x l).mod_time) (front x l)
unfolding front newest
front-le-newest x [] = tt
front-le-newest x (y ∷ l) = (ground (arith, le-newest (newer x y) l), front-le-newest (newer x y) l)

-- The invariant of the outer loop: behind the part to be sorted stand the newest files, in order.
rounds-IsSorted :
    (k : ℕ) (part rest : List FileInfo)
    → length part ≡ suc k
    → IsSorted rest
    → All (λ x. All (λ y. x.mod_time ≤ y.mod_time) rest) part
    → IsSorted (rounds k (part ++ rest))
unfolding rounds
rounds-IsSorted k [] rest n s h = absurd (omega arith)
rounds-IsSorted zero (x ∷ []) rest n s h = (h.0, s)
rounds-IsSorted zero (x ∷ y ∷ part) rest n s h = absurd (omega arith)
rounds-IsSorted (suc k) (x ∷ l) rest n s h =
    let e : length l ≡ suc k = omega arith in
    let (fs, last) = front-All (λ x. All (λ y. x.mod_time ≤ y.mod_time) rest) x l h.0 h.1 in
    let step : pass (suc k) (x ∷ l ++ rest) ≡ front x l ++ (newest x l ∷ rest) =
      ap (λ m. pass m (x ∷ l ++ rest)) (sym e) ∙ pass_lem x l rest in
    subst (λ z. IsSorted (rounds k z)) (sym step)
      (rounds-IsSorted k (front x l) (newest x l ∷ rest) (length-front x l ∙ e) (last, s)
        (All-zip (λ y. y.mod_time ≤ (newest x l).mod_time) _ (front x l) (front-le-newest x l) fs))

pass-perm : (k : ℕ) (l : List FileInfo) → Permᴰ (pass k l) l
unfolding pass
pass-perm zero l = Permᴰ.refl l
pass-perm (suc k) [] = Permᴰ.nil
pass-perm (suc k) (x ∷ []) = Permᴰ.refl (x ∷ [])
pass-perm (suc k) (x ∷ y ∷ l) = elim (Bool-cases (ltb y.mod_time x.mod_time)) [
  | inl after ↦
      rw after (Permᴰ.trans (Permᴰ.cons refl (pass-perm k (x ∷ l))) (Permᴰ.swap refl refl))
  | inr not_after ↦ rw not_after (Permᴰ.cons refl (pass-perm k (y ∷ l)))
]

rounds-perm : (k : ℕ) (l : List FileInfo) → Permᴰ (rounds k l) l
unfolding rounds
rounds-perm zero l = Permᴰ.refl l
rounds-perm (suc k) l = Permᴰ.trans (rounds-perm k (pass (suc k) l)) (pass-perm (suc k) l)

-- The sort puts the files in the order of their times, oldest first, and neither drops a file nor
-- repeats one.
pub bubble_sort-IsSorted : (l : List FileInfo) → IsSorted (bubble_sort l) × Permᴰ (bubble_sort l) l
unfolding bubble_sort rounds
bubble_sort-IsSorted l = (sorted l, rounds-perm (length l - 1) l)
  where
    sorted : (m : List FileInfo) → IsSorted (rounds (length m - 1) m)
    sorted [] = tt
    sorted (x ∷ m) =
        let e : length (x ∷ m) - 1 ≡ length m = omega arith in
        rw e (
          rw append-nil at (
            rounds-IsSorted (length m) (x ∷ m) [] refl tt
              (All-tabulate (λ _. Unit) (x ∷ m) (λ _. tt))))
