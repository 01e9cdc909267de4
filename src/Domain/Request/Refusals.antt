-- ===== src/Domain/Request/Refusals.antt =====
-- What `Validate` reports.
use verus_gateway.Base.{
  ◌≡◌, refl, ◌⊎◌, inl, inr, Option, none, some, arith, list_eq, list_dec, ℕ_discrete, Option-cases,
  ◌↔◌,
}
use verus_gateway.Base.Bytes.{Str, lit}
use verus_gateway.Domain.Errors.{
  Error, invalid_input, text, sentinel, unwrap, http_status, detail, new_invalid_input_error,
}
use verus_gateway.Domain.Request.{
  FileRequest, check_txid, check_chain_id, check_filename, check_evk, validate,
}
use verus_gateway.Domain.Request.Grammar.{
  IsTxid, IsChainId, IsFilename, IsEvk, check_txid_iff, check_chain_id_iff, check_filename_iff,
  check_evk_iff,
}

-- An error that blames a field of the request, with the status of a client's fault.
pub record Blames (name : Str) (e : Error) : Type 0 where
  pub kind : unwrap e ≡ some (sentinel invalid_input)
  pub status : http_status e ≡ some 400
  pub field : detail (lit "field") e ≡ some (text name)

pub invalid_input-Blames : (name reason : Str) → Blames name (new_invalid_input_error name reason)
unfolding new_invalid_input_error unwrap http_status detail lit list_dec ℕ_discrete
invalid_input-Blames name reason = record { kind = refl; status = refl; field = refl }

module _ (s : Str) (e : Error) where
  check_txid-Blames : check_txid s ≡ some e → Blames (lit "txid") e
  unfolding check_txid
  check_txid-Blames h = ground (
    arith,
    invalid_input-Blames (lit "txid") (lit "txid is required"),
    invalid_input-Blames (lit "txid") (lit "txid must be exactly 64 characters"),
    invalid_input-Blames (lit "txid") (lit "txid must be valid hex (0-9, a-f)"),
  )

  check_chain_id-Blames : check_chain_id s ≡ some e → Blames (lit "chain_id") e
  unfolding check_chain_id
  check_chain_id-Blames h = ground (
    arith,
    invalid_input-Blames (lit "chain_id") (lit "chain_id is required"),
    invalid_input-Blames (lit "chain_id") (lit "chain_id too long (max 32 characters)"),
    invalid_input-Blames (lit "chain_id") (lit "chain_id contains invalid characters"),
  )

  check_filename-Blames : check_filename s ≡ some e → Blames (lit "filename") e
  unfolding check_filename
  check_filename-Blames h = ground (
    arith,
    invalid_input-Blames (lit "filename") (lit "filename too long (max 255 characters)"),
    invalid_input-Blames (lit "filename") (lit "filename contains invalid path characters"),
    invalid_input-Blames (lit "filename") (lit "filename contains invalid characters"),
  )

  check_evk-Blames : check_evk s ≡ some e → Blames (lit "evk") e
  unfolding check_evk
  check_evk-Blames h = ground (
    arith,
    invalid_input-Blames (lit "evk")
        (lit "viewing key has invalid length (must be 95-500 characters)"),
    invalid_input-Blames (lit "evk")
        (lit "viewing key has invalid format (must start with 'zxviews')"),
  )

-- The first of the four fields that is not of its form, and the error that blames it.
abbrev pub FirstFault : FileRequest → Error → Type 0
FirstFault r e =
    (Blames (lit "txid") e × (¬ IsTxid r.txid))
    ⊎ (Blames (lit "chain_id") e × IsTxid r.txid × (¬ IsChainId r.chain_id))
    ⊎ (Blames (lit "filename") e × IsTxid r.txid × IsChainId r.chain_id × (¬ IsFilename r.filename))
    ⊎ (Blames (lit "evk") e
        × IsTxid r.txid
        × IsChainId r.chain_id
        × IsFilename r.filename
        × (¬ IsEvk r.evk))

some_not {ℓ} :
    {A : Type 0} {P : Type ℓ} (o : Option A) {a : A} → ((o ≡ none) ↔ P) → o ≡ some a → ¬ P
some_not o i e p = cc (i.1 p, e)

-- Every error of `Validate` is an invalid-input error with status 400, and blames the first of the
-- transaction, the chain, the file name and the viewing key that is not of its form.
pub validate-FirstFault : (r : FileRequest) (e : Error) → validate r ≡ some e → FirstFault r e
unfolding validate
validate-FirstFault r e h = elim (Option-cases (check_txid r.txid)) [
  | inr (e1, h1) ↦
      inl (check_txid-Blames r.txid e (ground arith), some_not _ (check_txid_iff r.txid) h1)
  | inl h1 ↦ elim (Option-cases (check_chain_id r.chain_id)) [
    | inr (e2, h2) ↦ inr (
        inl (
          check_chain_id-Blames r.chain_id e (ground arith),
          (check_txid_iff r.txid).0 h1,
          some_not _ (check_chain_id_iff r.chain_id) h2,
        ))
    | inl h2 ↦ elim (Option-cases (check_filename r.filename)) [
      | inr (e3, h3) ↦ inr (
          inr (
            inl (
              check_filename-Blames r.filename e (ground arith),
              (check_txid_iff r.txid).0 h1,
              (check_chain_id_iff r.chain_id).0 h2,
              some_not _ (check_filename_iff r.filename) h3,
            )))
      | inl h3 ↦
          let h4 : check_evk r.evk ≡ some e = ground arith in
          inr (
            inr (
              inr (
                check_evk-Blames r.evk e h4,
                (check_txid_iff r.txid).0 h1,
                (check_chain_id_iff r.chain_id).0 h2,
                (check_filename_iff r.filename).0 h3,
                some_not _ (check_evk_iff r.evk) h4,
              )))
    ]
  ]
]
