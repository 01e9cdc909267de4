-- ===== src/Hex.antt =====
-- Go's encoding/hex, which internal/crypto/decrypt.go and internal/cache/filesystem.go call.
use verus_gateway.Base.{
  ℕ, ◌+◌, ◌-◌, ◌*◌, ◌/◌, ◌%◌, ◌<◌, ◌≡◌, refl, ap, sym, ◌∙◌, ◌↔◌, Option, none, some, [], ◌∷◌, map,
  arith, ltb, leb, ◌&&◌, if◌then◌else◌, length, All,
}
use verus_gateway.Base.Bytes.{Byte, Bytes, Str, lit}
use verus_gateway.Domain.Errors.{Error, plain, Result, ok, err, ◌>>=◌, ok-parts}
use mathlib.Core.Path.{subst}

-- `hextable[v]`, for a value below 16.
unfoldable pub hex_digit : ℕ → Byte
hex_digit v = if ltb v 10 then b'0' + v else b'a' + (v - 10)

-- `hex.EncodeToString`
unfoldable pub encode : Bytes → Str
unfolding hex_digit
encode [] = []
encode (b ∷ bs) = hex_digit (b / 16) ∷ hex_digit (b % 16) ∷ encode bs

-- `fromHexChar`
unfoldable pub from_hex_char : Byte → Option ℕ
from_hex_char c =
    if leb b'0' c && leb c b'9'
    then some (c - b'0')
    else if leb b'a' c && leb c b'f'
    then some (c - b'a' + 10)
    else if leb b'A' c && leb c b'F'
    then some (c - b'A' + 10)
    else none

-- The two errors; the text of the first goes on with the byte, which is left out.
abbrev pub invalid_byte : Error
invalid_byte = plain (lit "encoding/hex: invalid byte")

abbrev pub odd_length : Error
odd_length = plain (lit "encoding/hex: odd length hex string")

unfoldable pub nibble : Byte → Result ℕ
unfolding from_hex_char
nibble c = elim (from_hex_char c) [ none ↦ err invalid_byte | some v ↦ ok v ]

-- `hex.DecodeString`
unfoldable pub decode : Str → Result Bytes
decode [] = ok []
decode (c ∷ []) = do _ ← nibble c; err odd_length
decode (c ∷ d ∷ s) =
    let rest = decode s in do a ← nibble c; b ← nibble d; bs ← rest; ok ((a * 16 + b) ∷ bs)

abbrev pub IsByte : ℕ → Type 0
IsByte b = b < 256

-- The lower-case form of a hexadecimal digit.
abbrev pub lower : Byte → Byte
lower c = if leb b'A' c && leb c b'F' then c + 32 else c

pub length-encode : (bs : Bytes) → length (encode bs) ≡ 2 * length bs
unfolding encode
length-encode [] = refl
length-encode (b ∷ bs) = omega (arith, length-encode bs)

from_hex_char-hex_digit : (v : ℕ) → v < 16 → from_hex_char (hex_digit v) ≡ some v
unfolding from_hex_char hex_digit
from_hex_char-hex_digit v h = ground arith

hex_digit-from_hex_char :
    (c : Byte) (v : ℕ) → from_hex_char c ≡ some v → (v < 16) × (hex_digit v ≡ lower c)
unfolding from_hex_char hex_digit
hex_digit-from_hex_char c v h = ground arith

nibble-hex_digit : (v : ℕ) → v < 16 → nibble (hex_digit v) ≡ ok v
unfolding nibble
nibble-hex_digit v h = ground (arith, from_hex_char-hex_digit v h)

nibble_ok : (c : Byte) (v : ℕ) → nibble c ≡ ok v → (v < 16) × (hex_digit v ≡ lower c)
unfolding nibble
nibble_ok c v h = ground (arith, hex_digit-from_hex_char c v)

-- Decoding gives back whatever bytes were encoded.
pub decode-encode : (bs : Bytes) → All IsByte bs → decode (encode bs) ≡ ok bs
unfolding encode decode
decode-encode [] _ = refl
decode-encode (b ∷ bs) (p, ps) = ground (
  arith,
  nibble-hex_digit (b / 16) (omega arith),
  nibble-hex_digit (b % 16) (omega arith),
  decode-encode bs ps,
)

nibble-lower : (c : Byte) → nibble (lower c) ≡ nibble c
unfolding nibble
nibble-lower c = ground arith

decode-lower : (s : Str) → decode (map lower s) ≡ decode s
unfolding decode
decode-lower [] = refl
decode-lower (c ∷ []) = rw nibble-lower
decode-lower (c ∷ d ∷ s) = rw (nibble-lower c, nibble-lower d, decode-lower s)

encode_pair :
    (c d : Byte) (s : Str) (a b : ℕ) (bs : Bytes)
    → nibble c ≡ ok a
    → nibble d ≡ ok b
    → All IsByte bs × (encode bs ≡ map lower s)
    → All IsByte ((a * 16 + b) ∷ bs) × (encode ((a * 16 + b) ∷ bs) ≡ map lower (c ∷ d ∷ s))
unfolding encode
encode_pair c d s a b bs p q (r, e) =
    let (a16, ea) = nibble_ok c a p in
    let (b16, eb) = nibble_ok d b q in
    let high : (a * 16 + b) / 16 ≡ a = omega arith in
    let low : (a * 16 + b) % 16 ≡ b = omega arith in ((omega arith, r), rw (high, low, ea, eb, e))

decode_ok : (s : Str) (bs : Bytes) → decode s ≡ ok bs → All IsByte bs × (encode bs ≡ map lower s)
unfolding decode encode
decode_ok [] [] h = (tt, refl)
decode_ok [] (b ∷ bs) h = absurd (ground arith)
decode_ok (c ∷ []) bs h = ground arith
decode_ok (c ∷ d ∷ s) bs h =
    let (a, h1, p) = ok-parts _ _ (nibble c) h in
    let (b, h2, q) = ok-parts _ _ (nibble d) h1 in
    let (rest, h3, r) = ok-parts _ _ (decode s) h2 in
    let k : (a * 16 + b) ∷ rest ≡ bs = ground arith in
    subst (λ l. All IsByte l × (encode l ≡ map lower (c ∷ d ∷ s))) k
      (encode_pair c d s a b rest p q (decode_ok s rest r))

-- A text decodes to some bytes exactly if, with its letters in lower case, it is what those bytes
-- are encoded as.
pub decode-eq-ok_iff :
    (s : Str) (bs : Bytes) → (decode s ≡ ok bs) ↔ (All IsByte bs × (encode bs ≡ map lower s))
decode-eq-ok_iff s bs =
    (decode_ok s bs, λ (p, e). sym (decode-lower s) ∙ ap decode (sym e) ∙ decode-encode bs p)
