-- ===== src/Base/Bytes.antt =====
-- Go strings and byte slices as lists of bytes, with the `strings` functions that the source uses.
use Prim.Native.Char.{code}
use Prim.Native.String.{String}
use verus_gateway.Base.{
  ℕ, ◌≡◌, refl, ap, inl, inr, Bool, true, false, ◌&&◌, ◌||◌, List, [], ◌∷◌, ◌++◌, arith, ◌==◌,
  nat_eq, if◌then◌else◌, Bool-cases, length, drop,
}

abbrev pub Byte : Type 0
Byte = ℕ

abbrev pub Bytes : Type 0
Bytes = List Byte

-- A Go string is a read-only slice of bytes.
abbrev pub Str : Type 0
Str = List Byte

-- The bytes of a literal that is written in ASCII.
unfoldable pub lit : String → Str
lit String.[] = []
lit (String.◌∷◌ c s) = code c ∷ lit s

-- `strings.HasPrefix(s, t)` and `bytes.HasPrefix`, the prefix first.
unfoldable pub has_prefix : Str → Str → Bool
has_prefix [] s = true
has_prefix (c ∷ t) [] = false
has_prefix (c ∷ t) (d ∷ s) = d == c && has_prefix t s

-- `strings.Contains` and `bytes.Contains`, the part first.
unfoldable pub contains : Str → Str → Bool
unfolding has_prefix
contains t [] = has_prefix t []
contains t (c ∷ s) = has_prefix t (c ∷ s) || contains t s

-- `strings.TrimPrefix(s, t)`, the prefix first.
unfoldable pub trim_prefix : Str → Str → Str
unfolding has_prefix
trim_prefix t s = if has_prefix t s then drop (length t) s else s

pub has_prefix-append : (t s : Str) → has_prefix t (t ++ s) ≡ true
unfolding has_prefix
has_prefix-append [] s = refl
has_prefix-append (c ∷ t) s = ground (arith, has_prefix-append t s)

pub has_prefix_split : (t s : Str) → has_prefix t s ≡ true → (r : Str) × (s ≡ t ++ r)
unfolding has_prefix
has_prefix_split [] s h = (s, refl)
has_prefix_split (c ∷ t) [] h = cc
has_prefix_split (c ∷ t) (d ∷ s) h =
    let (r, e) = has_prefix_split t s (ground arith) in (r, ground arith)

-- A part is found exactly where the text splits around it.
pub contains_split : (t s : Str) → contains t s ≡ true → (a : Str) × (b : Str) × (s ≡ a ++ (t ++ b))
unfolding contains
contains_split t [] h = let (r, e) = has_prefix_split t [] h in ([], r, e)
contains_split t (c ∷ s) h = elim (Bool-cases (has_prefix t (c ∷ s))) [
  | inl here ↦ let (r, e) = has_prefix_split t (c ∷ s) here in ([], r, e)
  | inr later ↦ let (a, b, e) = contains_split t s (ground arith) in (c ∷ a, b, ap (◌∷◌ c) e)
]

pub contains-append : (t a b : Str) → contains t (a ++ (t ++ b)) ≡ true
unfolding contains
contains-append [] [] [] = refl
contains-append [] [] (c ∷ b) = refl
contains-append (d ∷ t) [] b = rw (has_prefix-append (d ∷ t) b)
contains-append t (c ∷ a) b = ground (arith, contains-append t a b)
