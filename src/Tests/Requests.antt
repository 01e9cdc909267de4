-- ===== src/Tests/Requests.antt =====
-- Requests, decryption and detection.
use verus_gateway.Base.{
  ◌≡◌, ◌⊎◌, ◌↔◌, refl, true, false, none, some, [], ◌∷◌, every, list_eq, nat_eq, ℕ_discrete,
}
use verus_gateway.Base.Bytes.{Bytes, Str, lit, has_prefix}
use verus_gateway.Base.Int.{pos}
use verus_gateway.Domain.Errors.{
  error_text, sentinel, invalid_txid, http_status, unwrap, Error, Result, ok, err, plain,
  new_invalid_input_error,
}
use verus_gateway.Domain.Request.{
  FileRequest, validate, cache_key, is_empty, check_txid, is_hex, txid_pattern, is_alphanumeric,
}
use verus_gateway.Domain.Request.Grammar.{IsTxid, IsWellFormed, validate-IsWellFormed}
use verus_gateway.Domain.Request.Refusals.{Blames, FirstFault, validate-FirstFault}
use verus_gateway.Domain.Request.Keys.{cache_key-eq_iff}
use verus_gateway.Crypto.{
  decrypt_data, validate_txid, validate_evk, decode_reply, re_evk, is_lower_alphanumeric,
}
use verus_gateway.Hex.{decode, nibble, from_hex_char}
use verus_gateway.Base.Decimal.{decimal}
use verus_gateway.Rpc.Message.{
  marshal_request, info_request, new_request, encode_params, quote, is_plain,
}
use verus_gateway.Crypto.Contract.{
  Decrypts, decrypt_data-eq-ok_iff, decrypt_data_blame, IsLowerEvk, NodeFails,
}
use verus_gateway.Storage.Decompressor.{Decompressor, GzipReader, reads, is_gzipped, decompress}
use verus_gateway.Storage.Decompressor.Limit.{Inflates, decompress-eq-ok_iff}
use verus_gateway.Tests.Inputs.{
  request, other_request, request-IsWellFormed, other_request-IsWellFormed, txid, evk,
}

validate-IsWellFormed_example : (validate request ≡ none) ↔ IsWellFormed request
validate-IsWellFormed_example = validate-IsWellFormed request

-- A request without a transaction.
abbrev nameless : FileRequest
nameless = record request { txid = [] }

nameless_refused :
    validate nameless ≡ some (new_invalid_input_error (lit "txid") (lit "txid is required"))
unfolding validate check_txid
nameless_refused = refl

validate-FirstFault_example :
    FirstFault nameless (new_invalid_input_error (lit "txid") (lit "txid is required"))
validate-FirstFault_example =
    validate-FirstFault nameless (new_invalid_input_error (lit "txid") (lit "txid is required"))
      nameless_refused

cache_key-eq_iff_example : (cache_key request ≡ cache_key other_request) ↔ (
    (request.chain_id ≡ other_request.chain_id)
    × (request.txid ≡ other_request.txid)
    × (is_empty request.evk ≡ is_empty other_request.evk))
cache_key-eq_iff_example =
    cache_key-eq_iff request other_request request-IsWellFormed other_request-IsWellFormed

abbrev pub node : Str → Str → Result Str
node t k = ok (lit "0a")

abbrev reader : Bytes → GzipReader
reader content = reads ((1 ∷ 2 ∷ []) ∷ (3 ∷ []) ∷ []) none

abbrev limited : Decompressor
limited = record { max_size = pos 4 }

abbrev packed : Bytes
packed = 0x1F ∷ 0x8B ∷ []

decompress-eq-ok_iff_example : (decompress reader limited packed ≡ ok (1 ∷ 2 ∷ 3 ∷ [])) ↔ (
    ((is_gzipped packed ≡ false) × (1 ∷ 2 ∷ 3 ∷ [] ≡ packed))
    ⊎ ((is_gzipped packed ≡ true) × Inflates reader limited packed (1 ∷ 2 ∷ 3 ∷ [])))
decompress-eq-ok_iff_example = decompress-eq-ok_iff reader limited packed (1 ∷ 2 ∷ 3 ∷ [])

abbrev failing_node : Str → Str → Result Str
failing_node t k = err (plain (lit "down"))

abbrev bad_txid : Error
bad_txid = new_invalid_input_error (lit "txid") (error_text (sentinel invalid_txid))

decrypt_data-bad_txid : decrypt_data failing_node [] evk ≡ err bad_txid
unfolding decrypt_data validate_txid verus_gateway.Domain.Request.txid_pattern ℕ_discrete
decrypt_data-bad_txid = refl

decrypt_data_blame_example :
    (Blames (lit "txid") bad_txid × (¬ IsTxid []))
    ⊎ (Blames (lit "evk") bad_txid × IsTxid [] × (¬ IsLowerEvk evk))
    ⊎ ((c : Error) × IsTxid []
        × IsLowerEvk evk
        × (http_status bad_txid ≡ some 500)
        × (unwrap bad_txid ≡ some c)
        × NodeFails failing_node [] evk c)
decrypt_data_blame_example = decrypt_data_blame failing_node [] evk bad_txid decrypt_data-bad_txid

-- The texts of the calls.
info_request_text :
    marshal_request (λ s. s) info_request
    ≡ lit "{\"jsonrpc\":\"2.0\",\"id\":1,\"method\":\"getinfo\",\"params\":null}"
unfolding marshal_request info_request new_request encode_params quote is_plain is_alphanumeric lit
    every decimal ℕ_discrete
info_request_text = refl

answered_ten : decrypt_data node txid evk ≡ ok (10 ∷ [])
unfolding decrypt_data validate_txid validate_evk decode_reply decode nibble from_hex_char re_evk
    is_lower_alphanumeric txid_pattern is_hex every has_prefix lit ℕ_discrete
answered_ten = refl

pub ten-Decrypts : Decrypts node txid evk (10 ∷ [])
ten-Decrypts = (decrypt_data-eq-ok_iff node txid evk (10 ∷ [])).0 answered_ten
