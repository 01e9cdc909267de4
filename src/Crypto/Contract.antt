-- ===== src/Crypto/Contract.antt =====
-- When a decryption succeeds, and whose fault a failure is.
use mathlib.Core.Path.{subst}
use verus_gateway.Base.{
  ◌≤◌, ◌<◌, ◌≡◌, refl, ap, ◌∙◌, ◌↔◌, ◌⊎◌, inl, inr, true, none, some, [], ◌∷◌, ◌++◌, map, arith,
  Option-cases, length, drop, All,
}
use verus_gateway.Base.Bytes.{Byte, Bytes, Str, lit, has_prefix_split, has_prefix-append}
use verus_gateway.Domain.Errors.{
  Error, Result-cases, wrapped, Result, ok, err, error_text, unwrap, http_status,
  new_decryption_error,
}
use verus_gateway.Domain.Request.Grammar.{
  IsDigit, IsTxid, txid_pattern_iff, every-All, drop_zxviews,
}
use verus_gateway.Domain.Request.Refusals.{Blames, invalid_input-Blames}
use verus_gateway.Hex.{decode, IsByte, lower, encode, decode-eq-ok_iff}
use verus_gateway.Crypto.{
  is_lower_alphanumeric, re_evk, validate_txid, validate_evk, decode_reply, decrypt_data,
}

-- The viewing keys that a decryption takes: `zxviews` and at least one lower-case letter or digit.
abbrev pub IsLowerEvk : Str → Type 0
IsLowerEvk s =
    (rest : Str) × (s ≡ lit "zxviews" ++ rest)
    × (0 < length rest)
    × All (λ c. IsDigit c ⊎ ((b'a' ≤ c) × (c ≤ b'z'))) rest

is_lower_alphanumeric_iff :
    (c : Byte) → (is_lower_alphanumeric c ≡ true) ↔ (IsDigit c ⊎ ((b'a' ≤ c) × (c ≤ b'z')))
unfolding is_lower_alphanumeric
is_lower_alphanumeric_iff c = ground arith

nonempty : (s : Str) (c : Byte) (r : Str) → s ≡ c ∷ r → 0 < length s
nonempty [] c r e = ground arith
nonempty (d ∷ s) c r e = omega arith

re_evk_iff : (s : Str) → (re_evk s ≡ true) ↔ IsLowerEvk s
unfolding re_evk
re_evk_iff s = (to, from)
  where
    to : re_evk s ≡ true → IsLowerEvk s
    to h =
        let (rest, e) = has_prefix_split (lit "zxviews") s (ground arith) in
        let d : drop 7 s ≡ rest = ap (drop 7) e ∙ drop_zxviews rest in
        (rest, e, ground arith, (every-All _ _ is_lower_alphanumeric_iff rest).0 (ground arith))

    from : IsLowerEvk s → re_evk s ≡ true
    from (rest, e, long, safe) =
        rw (e, drop_zxviews)
          (ground (
            arith,
            has_prefix-append (lit "zxviews") rest,
            (every-All _ _ is_lower_alphanumeric_iff rest).1 safe,
          ))

validate_txid_iff : (s : Str) → (validate_txid s ≡ none) ↔ IsTxid s
unfolding validate_txid
validate_txid_iff s = ground (arith, txid_pattern_iff s)

validate_evk_iff : (s : Str) → (validate_evk s ≡ none) ↔ IsLowerEvk s
unfolding validate_evk
validate_evk_iff s = (λ h. (re_evk_iff s).0 (ground arith), λ w. ground (arith, (re_evk_iff s).1 w))

decode_reply-eq-ok_iff :
    (txid reply : Str) (bytes : Bytes)
    → (decode_reply txid reply ≡ ok bytes) ↔ (decode reply ≡ ok bytes)
unfolding decode_reply
decode_reply-eq-ok_iff txid reply bytes = ground arith

-- What a successful decryption says.
abbrev pub Decrypts : (Str → Str → Result Str) → Str → Str → Bytes → Type 0
Decrypts client txid evk bytes =
    IsTxid txid
    × IsLowerEvk evk
    × ((reply : Str) × (client txid evk ≡ ok reply)
        × All IsByte bytes
        × (encode bytes ≡ map lower reply))

module _ (client : Str → Str → Result Str) (txid evk : Str) where
  decrypts :
      (bytes : Bytes) → decrypt_data client txid evk ≡ ok bytes → Decrypts client txid evk bytes
  unfolding decrypt_data
  decrypts bytes h = elim (Result-cases (client txid evk)) [
    | inr (e, c) ↦ absurd (ground arith)
    | inl (reply, c) ↦
        let d : decode reply ≡ ok bytes =
          (decode_reply-eq-ok_iff txid reply bytes).0 (ground arith) in
        let (b, e) = (decode-eq-ok_iff reply bytes).0 d in
        (
          (validate_txid_iff txid).0 (ground arith),
          (validate_evk_iff evk).0 (ground arith),
          (reply, c, b, e),
        )
  ]

  pub decrypt_data-eq-ok_iff :
      (bytes : Bytes) → (decrypt_data client txid evk ≡ ok bytes) ↔ Decrypts client txid evk bytes
  unfolding decrypt_data
  decrypt_data-eq-ok_iff bytes = (
    decrypts bytes,
    λ (t, k, (reply, c, b, e)). ground (
      arith,
      (validate_txid_iff txid).1 t,
      (validate_evk_iff evk).1 k,
      (decode_reply-eq-ok_iff txid reply bytes).1 ((decode-eq-ok_iff reply bytes).1 (b, e)),
    ),
  )

  -- The node's part in a failure: its error, or an answer that is no encoding.
  abbrev pub NodeFails : Error → Type 0
  NodeFails c =
      (client txid evk ≡ err c)
      ⊎ ((reply : Str) × (d : Error) × (client txid evk ≡ ok reply)
          × (decode reply ≡ err d)
          × (c ≡ wrapped (lit "failed to decode hex data") d))

  decryption_error-status : (c : Error) → http_status (new_decryption_error txid c) ≡ some 500
  unfolding new_decryption_error http_status
  decryption_error-status c = refl

  unwrap-decryption_error : (c : Error) → unwrap (new_decryption_error txid c) ≡ some c
  unfolding new_decryption_error unwrap
  unwrap-decryption_error c = refl

  decode_reply-eq-err :
      (reply : Str) (e : Error)
      → decode_reply txid reply ≡ err e
      → (d : Error) × (decode reply ≡ err d)
        × (e ≡ new_decryption_error txid (wrapped (lit "failed to decode hex data") d))
  unfolding decode_reply
  decode_reply-eq-err reply e h = ground arith

  valid-eq-err :
      (e : Error)
      → validate_txid txid ≡ none
      → validate_evk evk ≡ none
      → decrypt_data client txid evk ≡ err e
      → (c : Error) × (e ≡ new_decryption_error txid c) × NodeFails c
  unfolding decrypt_data
  valid-eq-err e p q h = elim (Result-cases (client txid evk)) [
    | inr (c, failed) ↦ (c, ground arith, inl failed)
    | inl (reply, answered) ↦
        let (d, undecoded, same) = decode_reply-eq-err reply e (ground arith) in
        (
          wrapped (lit "failed to decode hex data") d,
          same,
          inr (reply, d, answered, undecoded, refl),
        )
  ]

  -- A decryption that fails blames the request, with status 400, where the transaction or the
  -- viewing key is not of its form. Otherwise the error has status 500, and what it wraps is the
  -- node's error, or that of the decoding.
  pub decrypt_data_blame :
      (e : Error)
      → decrypt_data client txid evk ≡ err e
      → (Blames (lit "txid") e × (¬ IsTxid txid))
        ⊎ (Blames (lit "evk") e × IsTxid txid × (¬ IsLowerEvk evk))
        ⊎ ((c : Error) × IsTxid txid
            × IsLowerEvk evk
            × (http_status e ≡ some 500)
            × (unwrap e ≡ some c)
            × NodeFails c)
  unfolding decrypt_data
  decrypt_data_blame e h = elim (Option-cases (validate_txid txid)) [
    | inr (b, p) ↦ inl (
      subst (Blames (lit "txid")) (ground arith) (invalid_input-Blames (lit "txid") (error_text b)),
      λ t. cc ((validate_txid_iff txid).1 t, p),
    )
    | inl p ↦ elim (Option-cases (validate_evk evk)) [
      | inr (b, q) ↦ inr (
          inl (
            subst (Blames (lit "evk")) (ground arith)
                (invalid_input-Blames (lit "evk") (error_text b)),
            (validate_txid_iff txid).0 p,
            λ k. cc ((validate_evk_iff evk).1 k, q),
          ))
      | inl q ↦
          let (c, same, failed) = valid-eq-err e p q h in
          inr (
            inr (
              c,
              (validate_txid_iff txid).0 p,
              (validate_evk_iff evk).0 q,
              ap http_status same ∙ decryption_error-status c,
              ap unwrap same ∙ unwrap-decryption_error c,
              failed,
            ))
    ]
  ]
