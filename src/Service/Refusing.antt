-- ===== src/Service/Refusing.antt =====
-- The errors of a request for a file.
use verus_gateway.Base.{ℕ, ◌≡◌, ◌⊎◌, refl, inl, inr, Option, none, some, arith, Option-cases}
use verus_gateway.Base.Bytes.{Bytes, Str, lit}
use verus_gateway.Domain.Errors.{Error, Result, err-parts, err, http_status, new_chain_error}
use verus_gateway.Domain.Interfaces.{Cache}
use verus_gateway.Domain.Request.{FileRequest, validate}
use verus_gateway.Domain.Request.Refusals.{FirstFault, validate-FirstFault}
use verus_gateway.Chain.{Manager, get_chain, get_default_chain}
use verus_gateway.Rpc.{Client}
use verus_gateway.Crypto.{decrypt_data}
use verus_gateway.Crypto.Contract.{decrypt_data_blame}
use verus_gateway.Storage.Decompressor.{Decompressor, GzipReader}
use verus_gateway.Service.{FileService, Pending, get_client, fetch, get_file}

-- An error that carries the status of a client's fault, or that of the server's own.
abbrev pub HasStatus : Error → Type 0
HasStatus e = (http_status e ≡ some 400) ⊎ (http_status e ≡ some 500)

pub FirstFault-status : (r : FileRequest) (e : Error) → FirstFault r e → http_status e ≡ some 400
FirstFault-status r e (inl (b, _)) = b.status
FirstFault-status r e (inr (inl (b, _, _))) = b.status
FirstFault-status r e (inr (inr (inl (b, _, _, _)))) = b.status
FirstFault-status r e (inr (inr (inr (b, _, _, _, _)))) = b.status

chain_error-status :
    (chain_id reason : Str) → http_status (new_chain_error chain_id reason) ≡ some 400
unfolding new_chain_error http_status
chain_error-status chain_id reason = refl

get_chain-HasStatus : (m : Manager) (id : Str) (e : Error) → get_chain m id ≡ err e → HasStatus e
unfolding get_chain
get_chain-HasStatus m id e h = ground (arith, chain_error-status id (lit "chain not found"))

get_client-HasStatus : (m : Manager) (id : Str) (e : Error) → get_client m id ≡ err e → HasStatus e
unfolding get_client get_default_chain
get_client-HasStatus m id e h =
    ground (arith, get_chain-HasStatus m id e, get_chain-HasStatus m m.default_chain e)

decrypt_data-HasStatus :
    (client : Str → Str → Result Str) (txid evk : Str) (e : Error)
    → decrypt_data client txid evk ≡ err e
    → HasStatus e
decrypt_data-HasStatus client txid evk e h = elim (decrypt_data_blame client txid evk e h) [
  | inl (b, _) ↦ inl b.status
  | inr (inl (b, _, _)) ↦ inl b.status
  | inr (inr (c, _, _, status, _, _)) ↦ inr status
]

module _ (gunzip : Bytes → GzipReader) (sniff : Bytes → Str) (rpc : Client → Str → Str → Result Str)
    (now : ℕ) where
  fetch-HasStatus :
      (m : Manager) (d : Decompressor) (req : FileRequest) (e : Error)
      → fetch gunzip sniff rpc now m d req ≡ err e
      → HasStatus e
  unfolding fetch
  fetch-HasStatus m d req e h = elim (err-parts _ e (get_client m req.chain_id) h) [
    | inl refused ↦ get_client-HasStatus m req.chain_id e refused
    | inr (client, rest) ↦ elim (err-parts _ e (decrypt_data (rpc client) req.txid req.evk) rest) [
      | inl refused ↦ decrypt_data-HasStatus (rpc client) req.txid req.evk e refused
      | inr (data', none_left) ↦ absurd (cc none_left)
    ]
  ]

  -- Each error of a request for a file is a domain error with status 400 or 500, whichever step it
  -- comes from, and leaves nothing to store.
  pub get_file-HasStatus :
      (C : Cache) (io : C.Call) (req : FileRequest) (s s' : FileService C) (e : Error)
      (p : Option Pending)
      → get_file gunzip sniff rpc now C io req s ≡ (s', err e, p)
      → HasStatus e × (p ≡ none)
  unfolding get_file
  get_file-HasStatus C io req s s' e p h = elim (Option-cases (validate req)) [
    | inr (v, k) ↦
        let status = FirstFault-status req v (validate-FirstFault req v k) in ground arith
    | inl k ↦ ground (arith, fetch-HasStatus s.chain_manager s.decompressor req e)
  ]
