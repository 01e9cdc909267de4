-- ===== src/Http/Server/Files.antt =====
-- Requests for files through the whole server: its middlewares around the handlers of files, the service
-- and the node.
pub mod Late
pub mod InTime
use mathlib.Core.Path.{subst}
use verus_gateway.Base.{
  ℕ, suc, ◌≡◌, ◌⊎◌, refl, ap, sym, ◌∙◌, inl, inr, true, false, Option, none, some, List, arith,
  Option-cases, Bool-cases,
}
use verus_gateway.Base.Bytes.{Str, lit}
use verus_gateway.Config.Settings.{Settings}
use verus_gateway.Http.Middleware.{Request, Writer, returned, Handler, status_of}
use verus_gateway.Http.FileHandler.Serving.{Answers}
use verus_gateway.Http.Server.{Arrival, innermost, setup_middleware}
use verus_gateway.Http.Server.Panics.{arrived, greeted, inner}
use verus_gateway.Http.Server.Served.{
  setup_middleware-returned, setup_middleware-unlabelled, HasLabelText-cases,
}
use verus_gateway.Observability.Metrics.Recording.{HasLabels}

-- What chi's compression and the CORS handler do for a GET request: it is passed on, and the status is
-- that of the handler behind.
abbrev pub Relays : (Handler → Handler) → Type 0
Relays f =
    (next : Handler) (r : Request) (n : ℕ)
    → r.method ≡ lit "GET"
    → Answers next r n
    → Answers (f next) r n

module _ (cors compress : Handler → Handler) (cors_relays : Relays cors)
    (compress_relays : Relays compress) where
  innermost-Answers :
      (cfg : Settings) (next : Handler) (r : Request) (n : ℕ)
      → r.method ≡ lit "GET"
      → Answers next r n
      → Answers (innermost cors compress cfg next) r n
  unfolding innermost
  innermost-Answers cfg next r n get h w unsent =
      let compressed = compress_relays next r n get h in
      elim (Bool-cases cfg.security.cors.enabled) [
        | inl on ↦ rw on (cors_relays (compress next) r n get compressed w unsent)
        | inr off ↦ rw off (compressed w unsent)
      ]

  sent-some :
      (w : Writer) (n : ℕ)
      → status_of w ≡ suc n
      → (first : ℕ × List (Str × Str)) × (w.sent ≡ some first)
  unfolding status_of
  sent-some w n h = elim (Option-cases w.sent) [
    | inl e ↦ absurd (ground arith)
    | inr (first, e) ↦ (first, e)
  ]

  status_of-sent : (v w : Writer) → v.sent ≡ w.sent → status_of v ≡ status_of w
  unfolding status_of
  status_of-sent v w h = rw h refl

  -- The status of a handler's answer to the request that arrives there is the one that the client gets,
  -- also where the metrics panic on their labels.
  pub setup_middleware-Answers :
      (cfg : Settings) (a : Arrival) (next : Handler) (r : Request) (n : ℕ) (w : Writer)
      → r.method ≡ lit "GET"
      → w.sent ≡ none
      → HasLabels w.metrics
      → Answers next (arrived a r cfg) (suc n)
      → (out : Writer) × (setup_middleware cors compress cfg true a next r w ≡ returned out)
        × (status_of out ≡ suc n)
  setup_middleware-Answers cfg a next r n w get unsent labels h =
      let (w', run, status, kept) =
        innermost-Answers cfg next (arrived a r cfg) (suc n) get h (greeted a r w) unsent in
      let (first, sent_first) = sent-some w' n status in
      elim (HasLabelText-cases r) [
        | inl text ↦
            let (out, same, sent, _, _, _, _) =
              setup_middleware-returned cors compress cfg a next r w w'
                (subst HasLabels (sym kept) labels) text run in
            (out, same, status_of-sent out w' sent ∙ status)
        | inr none_left ↦
            let (out, same, sent, _, _, _) =
              setup_middleware-unlabelled cors compress cfg a next r w w' first sent_first none_left
                run in
            (out, same, status_of-sent out w' sent ∙ status)
      ]
