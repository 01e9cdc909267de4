-- ===== src/Service/Ended.antt =====
-- Requests whose context has ended before they reach the service.
use verus_gateway.Base.{ℕ, ◌≡◌, refl, inl, inr, Option, none, some, arith, Option-cases, Bool-cases}
use verus_gateway.Base.Bytes.{Bytes, Str}
use verus_gateway.Domain.Errors.{Error, Result, fails_of, ok-parts, ok, err}
use verus_gateway.Domain.Interfaces.{Cache}
use verus_gateway.Domain.Request.{FileRequest, validate, cache_key}
use verus_gateway.Chain.{Manager}
use verus_gateway.Cache.World.{Codec, Io}
use verus_gateway.Cache.Filesystem.{filesystem_cache, get}
use verus_gateway.Rpc.{Client, Response, Attempt}
use verus_gateway.Rpc
use verus_gateway.Rpc.Ended.{IsEnded, decrypt_data-ended}
use verus_gateway.Crypto
use verus_gateway.Storage.Decompressor.{Decompressor, GzipReader}
use verus_gateway.Service.{FileService, get_client, fetch, look_up, get_file}

Crypto-fails :
    (client : Str → Str → Result Str) (txid evk : Str)
    → (e : Error) × (client txid evk ≡ err e)
    → (b : Bytes) → ¬ (Crypto.decrypt_data client txid evk ≡ ok b)
unfolding Crypto.decrypt_data
Crypto-fails client txid evk (e, h) b k = ground arith

module _ (gunzip : Bytes → GzipReader) (sniff : Bytes → Str) (rpc : Client → Str → Str → Result Str)
    (now : ℕ)
    (fails : (client : Client) (txid evk : Str) → (e : Error) × (rpc client txid evk ≡ err e)) where
  fetch-fails :
      (m : Manager) (d : Decompressor) (req : FileRequest)
      → (e : Error) × (fetch gunzip sniff rpc now m d req ≡ err e)
  unfolding fetch
  fetch-fails m d req = fails_of _ λ file h.
      let (client, rest, _) = ok-parts _ file (get_client m req.chain_id) h in
      let (bytes, _, k) =
        ok-parts _ file (Crypto.decrypt_data (rpc client) req.txid req.evk) rest in
      Crypto-fails (rpc client) req.txid req.evk (fails client req.txid req.evk) bytes k

  -- A cache that answers an ended context with its error, and is left as it is.
  module _ (C : Cache) (io : C.Call)
      (gone : (key : Str) (c : C.State) → (e : Error) × (C.get io key c ≡ (c, err e))) where
    look_up-gone :
        (req : FileRequest) (cache : Option C.State) → look_up C io req cache ≡ (cache, none)
    unfolding look_up
    look_up-gone req none = refl
    look_up-gone req (some c) = elim (Bool-cases req.use_cache) [
      | inl on ↦ let (e, h) = gone (cache_key req) c in simp (on, h)
      | inr off ↦ simp off
    ]

    get_file-gone :
        (req : FileRequest) (s : FileService C)
        → (e : Error) × (get_file gunzip sniff rpc now C io req s ≡ (s, err e, none))
    unfolding get_file
    get_file-gone req s =
        let (e, h) = fetch-fails s.chain_manager s.decompressor req in
        elim (Option-cases (validate req)) [
          | inr (v, k) ↦ (v, rw (get_file, k) refl)
          | inl k ↦ (e, ground (arith, look_up-gone req s.cache))
        ]

-- A request whose context has ended gets an error, whatever it asks for and whatever the cache holds:
-- the filesystem cache and the node are refused by the context, nothing is stored, and the service
-- stays as it is.
pub get_file-ended :
    (codec : Codec) (io : Io) (ctx : Error)
    → io.ctx ≡ some ctx
    → (unmarshal : Bytes → Result Response) (first_object : Bytes → Result (Option (Option Str)))
      (attempts : ℕ → Attempt)
    → IsEnded ctx attempts
    → (gunzip : Bytes → GzipReader) (sniff : Bytes → Str) (now : ℕ) (req : FileRequest)
      (s : FileService (filesystem_cache codec))
    → (e : Error) × (get_file gunzip sniff
          (λ client txid evk. (Rpc.decrypt_data unmarshal first_object attempts client).1)
          now
          (filesystem_cache codec)
          io
          req
          s
        ≡ (s, err e, none))
unfolding get
get_file-ended codec io ctx done unmarshal first_object attempts ended gunzip sniff now req s =
    get_file-gone gunzip sniff _ now
      (λ client txid evk. decrypt_data-ended unmarshal ctx attempts ended first_object client)
      (filesystem_cache codec) io (λ key c. (ctx, rw done refl)) req s
