-- ===== src/Domain/Request/Grammar.antt =====
-- What `Validate` accepts, stated without its tests.
use mathlib.Core.Option.{or_else}
use mathlib.Core.Path.{subst}
use verus_gateway.Domain.Errors.{Error}
use verus_gateway.Base.{
  ◌+◌, ◌≤◌, ◌<◌, ◌≡◌, refl, ap, ◌∙◌, ◌↔◌, ◌⊎◌, inl, inr, Bool, true, false, Option, none, [], ◌∷◌,
  ◌++◌, arith, nat_eq, Bool-cases, length, drop, All, every, every_iff, All-map, All-append_right,
}
use verus_gateway.Base.Bytes.{
  Byte, Str, lit, has_prefix-append, has_prefix_split, contains, contains_split, contains-append,
}
use verus_gateway.Domain.Request.{
  FileRequest, is_hex, is_alphanumeric, is_filename_char, is_chain_char, txid_pattern, evk_pattern,
  filename_pattern, chain_id_pattern, check_txid, check_chain_id, check_filename, check_evk,
  validate,
}

abbrev pub IsDigit : Byte → Type 0
IsDigit c = (b'0' ≤ c) × (c ≤ b'9')

abbrev pub IsLetter : Byte → Type 0
IsLetter c = ((b'a' ≤ c) × (c ≤ b'z')) ⊎ ((b'A' ≤ c) × (c ≤ b'Z'))

abbrev pub IsHex : Byte → Type 0
IsHex c = ((b'a' ≤ c) × (c ≤ b'f')) ⊎ ((b'A' ≤ c) × (c ≤ b'F')) ⊎ IsDigit c

abbrev pub IsChainChar : Byte → Type 0
IsChainChar c = IsLetter c ⊎ IsDigit c ⊎ (c ≡ b'_') ⊎ (c ≡ b'-')

abbrev pub IsFilenameChar : Byte → Type 0
IsFilenameChar c =
    IsLetter c
    ⊎ IsDigit c
    ⊎ (c ≡ b'.')
    ⊎ (c ≡ b'_')
    ⊎ (c ≡ b'-')
    ⊎ (c ≡ b'(')
    ⊎ (c ≡ b')')
    ⊎ (c ≡ b' ')
    ⊎ (c ≡ b'[')
    ⊎ (c ≡ b']')

abbrev pub IsTxid : Str → Type 0
IsTxid s = (length s ≡ 64) × All IsHex s

abbrev pub IsChainId : Str → Type 0
IsChainId s = (0 < length s) × (length s ≤ 32) × All IsChainChar s

-- No name climbs out of its directory: `..` stands nowhere in it.
abbrev pub IsFilename : Str → Type 0
IsFilename s =
    (length s ≤ 255)
    × All IsFilenameChar s
    × ((before after : Str) → ¬ (s ≡ before ++ (lit ".." ++ after)))

abbrev pub IsEvk : Str → Type 0
IsEvk s =
    (s ≡ [])
    ⊎ ((rest : Str) × (s ≡ lit "zxviews" ++ rest)
        × (90 ≤ length rest)
        × (length s ≤ 500)
        × All (λ c. IsLetter c ⊎ IsDigit c) rest)

pub record IsWellFormed (r : FileRequest) : Type 0 where
  pub txid : IsTxid r.txid
  pub chain_id : IsChainId r.chain_id
  pub filename : IsFilename r.filename
  pub evk : IsEvk r.evk

is_hex_iff : (c : Byte) → (is_hex c ≡ true) ↔ IsHex c
unfolding is_hex
is_hex_iff c = ground arith

is_alphanumeric_iff : (c : Byte) → (is_alphanumeric c ≡ true) ↔ (IsLetter c ⊎ IsDigit c)
unfolding is_alphanumeric
is_alphanumeric_iff c = ground arith

is_chain_char_iff : (c : Byte) → (is_chain_char c ≡ true) ↔ IsChainChar c
unfolding is_chain_char
is_chain_char_iff c = ground arith

is_filename_char_iff : (c : Byte) → (is_filename_char c ≡ true) ↔ IsFilenameChar c
unfolding is_filename_char
is_filename_char_iff c = ground arith

module _ (p : Byte → Bool) (P : Byte → Type 0) (e : (c : Byte) → (p c ≡ true) ↔ P c) where
  pub every-All : (s : Str) → (every p s ≡ true) ↔ All P s
  every-All s = (
    λ h. All-map (λ c. p c ≡ true) P s (λ c. (e c).0) ((every_iff p s).0 h),
    λ h. (every_iff p s).1 (All-map P (λ c. p c ≡ true) s (λ c. (e c).1) h),
  )

pub txid_pattern_iff : (s : Str) → (txid_pattern s ≡ true) ↔ IsTxid s
unfolding txid_pattern
txid_pattern_iff s = ground (arith, every-All is_hex IsHex is_hex_iff s)

pub check_txid_iff : (s : Str) → (check_txid s ≡ none) ↔ IsTxid s
unfolding check_txid txid_pattern
check_txid_iff [] = (λ h. cc, λ h. absurd (omega arith))
check_txid_iff (c ∷ s) = ground (arith, every-All is_hex IsHex is_hex_iff (c ∷ s))

pub check_chain_id_iff : (s : Str) → (check_chain_id s ≡ none) ↔ IsChainId s
unfolding check_chain_id chain_id_pattern
check_chain_id_iff [] = (λ h. cc, λ h. absurd (omega arith))
check_chain_id_iff (c ∷ s) =
    ground (arith, every-All is_chain_char IsChainChar is_chain_char_iff (c ∷ s))

contains_absent :
    (d : Byte) (P : Byte → Type 0) (s : Str) → All P s → ¬ P d → contains (d ∷ []) s ≡ false
contains_absent d P s h n = elim (Bool-cases (contains (d ∷ []) s)) [
  | inl found ↦
      let (a, b, e) = contains_split (d ∷ []) s found in
      absurd (n (All-append_right P a (d ∷ b) (subst (All P) e h)).0)
  | inr fine ↦ fine
]

-- A text of file name characters holds no separator.
no_separator :
    (s : Str)
    → All IsFilenameChar s
    → (contains (lit "/") s ≡ false) × (contains (lit "\\") s ≡ false)
unfolding lit
no_separator s h = (
  contains_absent b'/' IsFilenameChar s h (λ p. ground arith),
  contains_absent b'\\' IsFilenameChar s h (λ p. ground arith),
)

contains_iff : (t s : Str) → (contains t s ≡ false) ↔ ((a b : Str) → ¬ (s ≡ a ++ (t ++ b)))
contains_iff t s = (
  λ h a b e. cc (contains-append t a b, e),
  λ h. elim (Bool-cases (contains t s)) [
    | inl found ↦ let (a, b, e) = contains_split t s found in absurd (h a b e)
    | inr fine ↦ fine
  ],
)

dots_nil : (a b : Str) → ¬ ([] ≡ a ++ (lit ".." ++ b))
unfolding lit
dots_nil [] b e = cc
dots_nil (c ∷ a) b e = cc

pub check_filename_iff : (s : Str) → (check_filename s ≡ none) ↔ IsFilename s
unfolding check_filename filename_pattern
check_filename_iff [] = (λ h. (omega arith, tt, dots_nil), λ h. refl)
check_filename_iff (c ∷ s) = (
  λ h. (
    ground arith,
    (every-All is_filename_char IsFilenameChar is_filename_char_iff (c ∷ s)).0 (ground arith),
    (contains_iff (lit "..") (c ∷ s)).0 (ground arith),
  ),
  λ (short, safe, flat). ground (
    arith,
    no_separator (c ∷ s) safe,
    (every-All is_filename_char IsFilenameChar is_filename_char_iff (c ∷ s)).1 safe,
    (contains_iff (lit "..") (c ∷ s)).1 flat,
  ),
)

abbrev EvkPattern : Str → Type 0
EvkPattern s =
    (rest : Str) × (s ≡ lit "zxviews" ++ rest)
    × (90 ≤ length rest)
    × All (λ c. IsLetter c ⊎ IsDigit c) rest

pub drop_zxviews : (rest : Str) → drop 7 (lit "zxviews" ++ rest) ≡ rest
unfolding lit
drop_zxviews rest = refl

evk_pattern_iff : (s : Str) → (evk_pattern s ≡ true) ↔ EvkPattern s
unfolding evk_pattern
evk_pattern_iff s = (
  λ h.
      let (rest, e) = has_prefix_split (lit "zxviews") s (ground arith) in
      let d : drop 7 s ≡ rest = ap (drop 7) e ∙ drop_zxviews rest in
      (rest, e, ground arith, (every-All _ _ is_alphanumeric_iff rest).0 (ground arith)),
  λ (rest, e, long, safe).
      rw (e, drop_zxviews)
        (ground (
          arith,
          has_prefix-append (lit "zxviews") rest,
          (every-All _ _ is_alphanumeric_iff rest).1 safe,
        )),
)

length_zxviews : (rest : Str) → length (lit "zxviews" ++ rest) ≡ 7 + length rest
unfolding lit
length_zxviews rest = omega arith

pub check_evk_iff : (s : Str) → (check_evk s ≡ none) ↔ IsEvk s
unfolding check_evk
check_evk_iff [] = (λ h. inl refl, λ h. refl)
check_evk_iff (c ∷ s) = (
  λ h.
      let (rest, e, long, safe) = (evk_pattern_iff (c ∷ s)).0 (ground arith) in
      inr (rest, e, long, ground arith, safe),
  go,
)
  where
    go : IsEvk (c ∷ s) → check_evk (c ∷ s) ≡ none
    go (inl e) = cc
    go (inr (rest, e, long, short, safe)) = ground (
      arith,
      ap length e ∙ length_zxviews rest,
      (evk_pattern_iff (c ∷ s)).1 (rest, e, long, safe),
    )

or_else-none : (a b : Option Error) → (or_else a b ≡ none) ↔ ((a ≡ none) × (b ≡ none))
unfolding or_else
or_else-none a b = ground arith

-- `Validate` returns nil for exactly the requests of the grammar.
pub validate-IsWellFormed : (r : FileRequest) → (validate r ≡ none) ↔ IsWellFormed r
unfolding validate
validate-IsWellFormed r = (
  λ h. record {
    txid = (check_txid_iff r.txid).0 (ground arith);
    chain_id = (check_chain_id_iff r.chain_id).0 (ground arith);
    filename = (check_filename_iff r.filename).0 (ground arith);
    evk = (check_evk_iff r.evk).0 (ground arith);
  },
  λ w. ground (
    arith,
    (check_txid_iff r.txid).1 w.txid,
    (check_chain_id_iff r.chain_id).1 w.chain_id,
    (check_filename_iff r.filename).1 w.filename,
    (check_evk_iff r.evk).1 w.evk,
  ),
)
