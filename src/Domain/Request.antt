-- ===== src/Domain/Request.antt =====
-- internal/domain/file.go: a request for a file, its validation and its cache key.
pub mod Grammar
pub mod Keys
pub mod Refusals
use mathlib.Core.Option.{or_else}
use verus_gateway.Base.{
  ℕ, ◌-◌, ◌≤◌, ◌≡◌, Bool, true, false, not, ◌&&◌, ◌||◌, Option, none, some, List, [], ◌∷◌, ◌++◌,
  ◌==◌, nat_eq, ltb, leb, if◌then◌else◌, length, drop, every,
}
use verus_gateway.Base.Bytes.{Byte, Str, lit, has_prefix, contains}
use verus_gateway.Domain.Errors.{Error, new_invalid_input_error}

pub record FileRequest : Type 0 where
  pub txid : Str
  pub evk : Str
  pub chain_id : Str
  pub filename : Str
  pub use_cache : Bool

-- `s == ""`
abbrev pub is_empty : Str → Bool
is_empty [] = true
is_empty (c ∷ s) = false

abbrev pub is_digit : Byte → Bool
is_digit c = leb b'0' c && leb c b'9'

abbrev pub is_letter : Byte → Bool
is_letter c = leb b'a' c && leb c b'z' || leb b'A' c && leb c b'Z'

-- `[a-fA-F0-9]`
unfoldable pub is_hex : Byte → Bool
is_hex c = leb b'a' c && leb c b'f' || leb b'A' c && leb c b'F' || is_digit c

-- `[a-zA-Z0-9]`
unfoldable pub is_alphanumeric : Byte → Bool
is_alphanumeric c = is_letter c || is_digit c

-- `[a-zA-Z0-9._\-() \[\]]`
unfoldable pub is_filename_char : Byte → Bool
unfolding is_alphanumeric
is_filename_char c =
    is_alphanumeric c
    || c == b'.'
    || c == b'_'
    || c == b'-'
    || c == b'('
    || c == b')'
    || c == b' '
    || c == b'['
    || c == b']'

-- `[a-zA-Z0-9_\-]`
unfoldable pub is_chain_char : Byte → Bool
unfolding is_alphanumeric
is_chain_char c = is_alphanumeric c || c == b'_' || c == b'-'

-- `^[a-fA-F0-9]{64}$`
unfoldable pub txid_pattern : Str → Bool
txid_pattern s = length s == 64 && every is_hex s

-- `^zxviews[a-zA-Z0-9]{90,}$`
unfoldable pub evk_pattern : Str → Bool
evk_pattern s =
    let rest = drop 7 s in
    has_prefix (lit "zxviews") s && leb 90 (length rest) && every is_alphanumeric rest

-- `^[a-zA-Z0-9._\-() \[\]]+$`
unfoldable pub filename_pattern : Str → Bool
filename_pattern s = not (is_empty s) && every is_filename_char s

-- `^[a-zA-Z0-9_\-]+$`
unfoldable pub chain_id_pattern : Str → Bool
chain_id_pattern s = not (is_empty s) && every is_chain_char s

abbrev pub invalid : Str → Str → Option Error
invalid field reason = some (new_invalid_input_error field reason)

unfoldable pub check_txid : Str → Option Error
check_txid txid =
    if is_empty txid
    then invalid (lit "txid") (lit "txid is required")
    else if not (length txid == 64)
    then invalid (lit "txid") (lit "txid must be exactly 64 characters")
    else if not (txid_pattern txid)
    then invalid (lit "txid") (lit "txid must be valid hex (0-9, a-f)")
    else none

unfoldable pub check_chain_id : Str → Option Error
check_chain_id chain_id =
    if is_empty chain_id
    then invalid (lit "chain_id") (lit "chain_id is required")
    else if ltb 32 (length chain_id)
    then invalid (lit "chain_id") (lit "chain_id too long (max 32 characters)")
    else if not (chain_id_pattern chain_id)
    then invalid (lit "chain_id") (lit "chain_id contains invalid characters")
    else none

unfoldable pub check_filename : Str → Option Error
check_filename filename =
    if is_empty filename
    then none
    else if ltb 255 (length filename)
    then invalid (lit "filename") (lit "filename too long (max 255 characters)")
    else if contains (lit "..") filename
        || contains (lit "/") filename
        || contains (lit "\\") filename
    then invalid (lit "filename") (lit "filename contains invalid path characters")
    else if not (filename_pattern filename)
    then invalid (lit "filename") (lit "filename contains invalid characters")
    else none

unfoldable pub check_evk : Str → Option Error
check_evk evk =
    if is_empty evk
    then none
    else if ltb (length evk) 95 || ltb 500 (length evk)
    then invalid (lit "evk") (lit "viewing key has invalid length (must be 95-500 characters)")
    else if not (evk_pattern evk)
    then invalid (lit "evk") (lit "viewing key has invalid format (must start with 'zxviews')")
    else none

-- The four blocks of checks in their order; the first error is returned, and none is nil.
unfoldable pub validate : FileRequest → Option Error
unfolding or_else
validate r =
    or_else (check_txid r.txid)
      (or_else (check_chain_id r.chain_id) (or_else (check_filename r.filename) (check_evk r.evk)))

unfoldable pub cache_key : FileRequest → Str
cache_key r =
    if is_empty r.evk
    then r.chain_id ++ (lit ":" ++ r.txid)
    else r.chain_id ++ (lit ":" ++ (r.txid ++ lit ":encrypted"))
