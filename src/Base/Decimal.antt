-- ===== src/Base/Decimal.antt =====
-- `%d`: the decimal form of an integer.
use verus_gateway.Base.{
  ℕ, zero, suc, ◌+◌, ◌/◌, ◌%◌, ◌≡◌, refl, [], ◌∷◌, arith, true, every, leb, ltb, if◌then◌else◌,
}
use verus_gateway.Base.Bytes.{Str, lit}
use verus_gateway.Base.Int.{ℤ, pos, negsuc}

-- The digits of `n` before those in `tail`; a number has at most as many digits as the fuel.
digits_before : ℕ → ℕ → Str → Str
digits_before zero n tail = tail
digits_before (suc fuel) n tail =
    let digit = b'0' + n % 10 in
    let more = digits_before fuel (n / 10) (digit ∷ tail) in if ltb n 10 then digit ∷ tail else more

digits_before-every :
    (fuel n : ℕ) (tail : Str)
    → every (λ c. leb c 0x7F) tail ≡ true
    → every (λ c. leb c 0x7F) (digits_before fuel n tail) ≡ true
unfolding digits_before every
digits_before-every zero n tail h = h
digits_before-every (suc fuel) n tail h =
    let digit = b'0' + n % 10 in
    let small : leb digit 0x7F ≡ true = ground arith in
    ground (arith, small, digits_before-every fuel (n / 10) (digit ∷ tail) (ground (arith, small)))

unfoldable pub decimal : ℕ → Str
unfolding digits_before
decimal n = digits_before (n + 1) n []

-- A decimal form is ASCII text.
pub decimal-every : (n : ℕ) → every (λ c. leb c 0x7F) (decimal n) ≡ true
unfolding decimal every
decimal-every n = digits_before-every (n + 1) n [] refl

unfoldable pub decimal_ℤ : ℤ → Str
unfolding decimal
decimal_ℤ (pos n) = decimal n
decimal_ℤ (negsuc n) = b'-' ∷ decimal (n + 1)

decimal_runs : decimal_ℤ (pos 104857600) ≡ lit "104857600"
unfolding decimal_ℤ lit
decimal_runs = refl
