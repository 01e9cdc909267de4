-- ===== src/Base/Utf8.antt =====
-- `utf8.ValidString` of Go's standard library.
use verus_gateway.Base.{
  ℕ, ◌≡◌, refl, Bool, true, false, ◌&&◌, Option, none, some, List, [], ◌∷◌, arith, leb, ◌==◌,
  nat_eq, if◌then◌else◌, every,
}
use verus_gateway.Base.Bytes.{Byte, Str}
use verus_gateway.Base.Decimal.{decimal, decimal-every}

-- The first and the last byte of a range.
abbrev pub Range : Type 0
Range = ℕ × ℕ

abbrev continuation : Range
continuation = (0x80, 0xBF)

-- The ranges of the bytes that follow a first byte, none if it begins no character.
unfoldable pub following : Byte → Option (List Range)
following c =
    if leb c 0x7F
    then some []
    else if leb 0xC2 c && leb c 0xDF
    then some (continuation ∷ [])
    else if c == 0xE0
    then some ((0xA0, 0xBF) ∷ continuation ∷ [])
    else if c == 0xED
    then some ((0x80, 0x9F) ∷ continuation ∷ [])
    else if leb 0xE1 c && leb c 0xEF
    then some (continuation ∷ continuation ∷ [])
    else if c == 0xF0
    then some ((0x90, 0xBF) ∷ continuation ∷ continuation ∷ [])
    else if leb 0xF1 c && leb c 0xF3
    then some (continuation ∷ continuation ∷ continuation ∷ [])
    else if c == 0xF4
    then some ((0x80, 0x8F) ∷ continuation ∷ continuation ∷ [])
    else none

-- The text of characters that follows some bytes of one that is not over.
unfoldable pub follows : List Range → Str → Bool
unfolding following
follows [] [] = true
follows (range ∷ ranges) [] = false
follows [] (c ∷ s) = elim (following c) [ none ↦ false | some ranges ↦ follows ranges s ]
follows ((low, high) ∷ ranges) (c ∷ s) =
    let rest = follows ranges s in leb low c && leb c high && rest

unfoldable pub valid_string : Str → Bool
valid_string = follows []

pub every-valid_string : (s : Str) → every (λ c. leb c 0x7F) s ≡ true → valid_string s ≡ true
unfolding every valid_string follows following
every-valid_string [] h = refl
every-valid_string (c ∷ s) h = ground (arith, every-valid_string s)

pub decimal-valid_string : (n : ℕ) → valid_string (decimal n) ≡ true
decimal-valid_string n = every-valid_string (decimal n) (decimal-every n)
