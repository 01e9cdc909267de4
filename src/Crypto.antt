-- ===== src/Crypto.antt =====
-- internal/crypto/decrypt.go: the checks before a decryption, and the call of the node.
pub mod Contract
use verus_gateway.Base.{
  ℕ, ◌≡◌, Bool, ◌&&◌, ◌||◌, Option, none, some, List, [], ◌∷◌, ◌==◌, nat_eq, leb, if◌then◌else◌,
  not, length, drop, every,
}
use verus_gateway.Base.Bytes.{Byte, Bytes, Str, lit, has_prefix}
use verus_gateway.Domain.Errors.{
  Error, sentinel, invalid_txid, invalid_evk, wrapped, Result, ok, err, error_text,
  new_invalid_input_error, new_decryption_error,
}
use verus_gateway.Domain.Request.{is_empty, is_digit, txid_pattern}
use verus_gateway.Hex.{decode}

-- `[0-9a-z]`
unfoldable pub is_lower_alphanumeric : Byte → Bool
is_lower_alphanumeric c = is_digit c || leb b'a' c && leb c b'z'

-- `^zxviews[0-9a-z]+$`
unfoldable pub re_evk : Str → Bool
re_evk s =
    let rest = drop 7 s in
    has_prefix (lit "zxviews") s && not (is_empty rest) && every is_lower_alphanumeric rest

-- The pattern `reTXID` is that of the domain package.
unfoldable pub validate_txid : Str → Option Error
validate_txid txid = if not (txid_pattern txid) then some (sentinel invalid_txid) else none

unfoldable pub validate_evk : Str → Option Error
validate_evk evk = if not (re_evk evk) then some (sentinel invalid_evk) else none

unfoldable pub decode_reply : Str → Str → Result Bytes
decode_reply txid hex_data = elim (decode hex_data) [
  | err e ↦ err (new_decryption_error txid (wrapped (lit "failed to decode hex data") e))
  | ok bytes ↦ ok bytes
]

-- `DecryptData`; the client's method of that name is the argument `client`.
unfoldable pub decrypt_data : (Str → Str → Result Str) → Str → Str → Result Bytes
unfolding decode_reply
decrypt_data client txid evk = elim (validate_txid txid) [
  | some e ↦ err (new_invalid_input_error (lit "txid") (error_text e))
  | none ↦ elim (validate_evk evk) [
    | some e ↦ err (new_invalid_input_error (lit "evk") (error_text e))
    | none ↦ elim (client txid evk) [
      | err e ↦ err (new_decryption_error txid e)
      | ok hex_data ↦ decode_reply txid hex_data
    ]
  ]
]
