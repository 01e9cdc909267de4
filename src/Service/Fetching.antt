-- ===== src/Service/Fetching.antt =====
-- Where the file of a request comes from.
use verus_gateway.Base.{
  ℕ, ◌*◌, ◌^◌, true, false, Bool-cases, ◌≡◌, ◌⊎◌, refl, ap, sym, ◌∙◌, inl, inr, Option, none, some,
  arith, Option-cases,
}
use verus_gateway.Base.Bytes.{Bytes, Str}
use verus_gateway.Domain.Errors.{Error, Result, Result-cases, ok, err, ok-parts}
use verus_gateway.Domain.File.{File}
use verus_gateway.Domain.Interfaces.{Cache}
use verus_gateway.Base.Int.{pos}
use verus_gateway.Domain.Request.{FileRequest, validate, cache_key}
use verus_gateway.Domain.Request.Grammar.{IsWellFormed, validate-IsWellFormed}
use verus_gateway.Chain.{Manager}
use verus_gateway.Rpc.{Client}
use verus_gateway.Crypto.{decrypt_data}
use verus_gateway.Crypto.Contract.{Decrypts, decrypt_data-eq-ok_iff}
use verus_gateway.Storage.Decompressor.{Decompressor, GzipReader}
use verus_gateway.Storage.Detector.{detect_type}
use verus_gateway.Service.{
  FileService, Pending, get_client, content_of, fetch, look_up, to_store, get_file,
}

module _ (gunzip : Bytes → GzipReader) (sniff : Bytes → Str) (rpc : Client → Str → Str → Result Str)
    (now : ℕ) where
  -- The file that is made of the decrypted data.
  abbrev pub file_of : Decompressor → FileRequest → Bytes → File
  file_of d req encrypted_data =
      let content = content_of gunzip d encrypted_data in
      record {
        txid = req.txid;
        chain_id = req.chain_id;
        content = content;
        metadata = some (detect_type sniff content req.filename);
        retrieved_at = now;
      }

  -- A node of the request's chain decrypts its data, and the file is made of them.
  pub record Fetched (m : Manager) (d : Decompressor) (req : FileRequest) (file : File)
      : Type 0 where
    pub client : Client
    pub found : get_client m req.chain_id ≡ ok client
    pub encrypted_data : Bytes
    pub decrypts : Decrypts (rpc client) req.txid req.evk encrypted_data
    pub made : file ≡ file_of d req encrypted_data

  fetch-Fetched :
      (m : Manager) (d : Decompressor) (req : FileRequest) (file : File)
      → fetch gunzip sniff rpc now m d req ≡ ok file
      → Fetched m d req file
  unfolding fetch
  fetch-Fetched m d req file h =
      let (client, rest, found) = ok-parts _ file (get_client m req.chain_id) h in
      let (data', made, decrypted) =
        ok-parts _ file (decrypt_data (rpc client) req.txid req.evk) rest in
      record {
        client = client;
        found = found;
        encrypted_data = data';
        decrypts = (decrypt_data-eq-ok_iff (rpc client) req.txid req.evk data').0 decrypted;
        made = ground (arith, made);
      }

  pub Fetched-fetch :
      (m : Manager) (d : Decompressor) (req : FileRequest) (file : File)
      → Fetched m d req file
      → fetch gunzip sniff rpc now m d req ≡ ok file
  unfolding fetch
  Fetched-fetch m d req file f =
      rw
        (
          f.found,
          (decrypt_data-eq-ok_iff (rpc f.client) req.txid req.evk f.encrypted_data).1 f.decrypts,
        )
        (ap ok (sym f.made))

  module _ (C : Cache) (io : C.Call) (req : FileRequest) (s : FileService C) where
    abbrev found : Option C.State × Option File
    found = look_up C io req s.cache

    abbrev after : FileService C
    after = record s { cache = found.0 }

    abbrev outcome : FileService C × Result File × Option Pending
    outcome = get_file gunzip sniff rpc now C io req s

    get_file-invalid : (e : Error) → validate req ≡ some e → outcome ≡ (s, err e, none)
    unfolding get_file
    get_file-invalid e v = rw (v, get_file) refl

    module _ (v : validate req ≡ none) where
      pub get_file-found : (f : File) → found.1 ≡ some f → outcome ≡ (after, ok f, none)
      unfolding get_file
      get_file-found f l = rw (v, l, get_file) refl

      get_file-failed :
          (e : Error)
          → found.1 ≡ none
          → fetch gunzip sniff rpc now s.chain_manager s.decompressor req ≡ err e
          → outcome ≡ (after, err e, none)
      unfolding get_file
      get_file-failed e l f = rw (v, l, f, get_file) refl

      pub get_file-fetched :
          (f : File)
          → found.1 ≡ none
          → fetch gunzip sniff rpc now s.chain_manager s.decompressor req ≡ ok f
          → outcome ≡ (after, ok f, to_store C req found.0 f)
      unfolding get_file
      get_file-fetched f l h = rw (v, l, h, get_file) refl

    get_file-parts :
        (s' : FileService C) (file : File) (p : Option Pending)
        → get_file gunzip sniff rpc now C io req s ≡ (s', ok file, p)
        → IsWellFormed req
          × (s' ≡ after)
          × (((look_up C io req s.cache).1 ≡ some file) × (p ≡ none)
              ⊎ ((look_up C io req s.cache).1 ≡ none)
                × Fetched s.chain_manager s.decompressor req file
                × (p ≡ to_store C req s'.cache file))
    get_file-parts s' file p h = elim (Option-cases (validate req)) [
      | inr (e, v) ↦ absurd (cc (get_file-invalid e v, h))
      | inl v ↦
          let w = (validate-IsWellFormed req).0 v in
          elim (Option-cases found.1) [
            | inr (f, l) ↦
                let same = sym (get_file-found v f l) ∙ h in
                (w, ap (λ r. r.0) (sym same), inl (l ∙ ap some (cc same), cc same))
            | inl l ↦
                elim (Result-cases
                  (fetch gunzip sniff rpc now s.chain_manager s.decompressor req)) [
                    | inr (e, f) ↦ absurd (cc (get_file-failed v e l f, h))
                    | inl (f, k) ↦
                        let same = sym (get_file-fetched v f l k) ∙ h in
                        let same_file : f ≡ file = cc same in
                        (
                          w,
                          ap (λ r. r.0) (sym same),
                          inr (
                            l,
                            fetch-Fetched s.chain_manager s.decompressor req file
                                (k ∙ ap ok same_file),
                            sym (ap (λ r. r.2) same)
                                ∙ (ap (λ c. to_store C req c f) (ap (λ r. r.0.cache) same)
                                    ∙ ap (to_store C req s'.cache) same_file),
                          ),
                        )
                  ]
          ]
    ]

    module _ (s' : FileService C) (file : File) (p : Option Pending) where
      -- The file under the request's key in a cache that the request wants.
      abbrev pub IsCached : Type 0
      IsCached =
          (c : C.State) × (c' : C.State) × (s.cache ≡ some c)
          × (req.use_cache ≡ true)
          × (C.get io (cache_key req) c ≡ (c', ok file))
          × (s' ≡ record s { cache = some c' })
          × (p ≡ none)

      -- No cache, a request that wants none, or a cache that has nothing under the request's key; only
      -- then the file is left to be stored, under that key and for a day.
      abbrev pub IsNew : Type 0
      IsNew =
          (s.cache ≡ none) × (s' ≡ s) × (p ≡ none)
          ⊎ ((req.use_cache ≡ false) × (s' ≡ s) × (p ≡ none)
              ⊎ ((c : C.State) × (c' : C.State) × (e : Error) × (s.cache ≡ some c)
                  × (req.use_cache ≡ true)
                  × (C.get io (cache_key req) c ≡ (c', err e))
                  × (s' ≡ record s { cache = some c' })
                  × (p
                      ≡ some (record {
                        key = cache_key req;
                        file = file;
                        ttl = pos (24 * (3600 * 10 ^ 9));
                      }))))

      -- Where the cache of the service is known, what the look-up says.
      module _ (same : s' ≡ after) where
        found-IsCached : found.1 ≡ some file → p ≡ none → IsCached
        unfolding look_up
        found-IsCached l q = elim (Option-cases s.cache) [
          | inl n ↦ absurd (ground arith)
          | inr (c, k) ↦ elim (Bool-cases req.use_cache) [
            | inr off ↦ absurd (ground arith)
            | inl on ↦ elim (Result-cases (C.get io (cache_key req) c).1) [
              | inr (e, g) ↦ absurd (ground arith)
              | inl (f, g) ↦
                  let f_file : f ≡ file = ground arith in
                  (
                    c,
                    (C.get io (cache_key req) c).0,
                    k,
                    on,
                    λ i. ((C.get io (cache_key req) c).0, (g ∙ ap ok f_file) i),
                    same ∙ ap (λ o. record s { cache = o }) (ground arith),
                    q,
                  )
            ]
          ]
        ]

        missed-IsNew : found.1 ≡ none → p ≡ to_store C req s'.cache file → IsNew
        unfolding look_up to_store
        missed-IsNew l q = elim (Option-cases s.cache) [
          | inl n ↦
              let unchanged : s' ≡ s = same ∙ ap (λ o. record s { cache = o }) (ground arith) in
              inl (n, unchanged, ground arith)
          | inr (c, k) ↦ elim (Bool-cases req.use_cache) [
            | inr off ↦
                let unchanged : s' ≡ s = same ∙ ap (λ o. record s { cache = o }) (ground arith) in
                inr (inl (off, unchanged, ground arith))
            | inl on ↦ elim (Result-cases (C.get io (cache_key req) c).1) [
              | inl (f, g) ↦ absurd (ground arith)
              | inr (e, g) ↦
                  let kept : s' ≡ record s { cache = some (C.get io (cache_key req) c).0 } =
                    same ∙ ap (λ o. record s { cache = o }) (ground arith) in
                  inr (
                    inr (
                      c,
                      (C.get io (cache_key req) c).0,
                      e,
                      k,
                      on,
                      λ i. ((C.get io (cache_key req) c).0, g i),
                      kept,
                      ground (arith, ap (λ x. x.cache) kept),
                    ))
            ]
          ]
        ]

      -- A file is returned only for a well-formed request. If there is a cache, the request wants it
      -- and its Get under the request's key gives a file, it is that file, and nothing is stored.
      -- Otherwise it is made of what a node of the request's chain decrypts with its viewing key,
      -- and is left to be stored, under that key and for a day, exactly if there is a cache that
      -- the request wants. Of the service, only the cache changes, as its Get leaves it.
      pub get_file-ok :
          get_file gunzip sniff rpc now C io req s ≡ (s', ok file, p)
          → IsWellFormed req
            × (IsCached ⊎ (IsNew × Fetched s.chain_manager s.decompressor req file))
      get_file-ok h =
          let (w, same, parts) = get_file-parts s' file p h in
          elim parts [
            | inl (l, q) ↦ (w, inl (found-IsCached same l q))
            | inr (l, fetched, q) ↦ (w, inr (missed-IsNew same l q, fetched))
          ]
