-- ===== src/Http/Audit/Lines.antt =====
-- Which lines the audit writes, and which requests the limit on the URI lets through.
use verus_gateway.Base.{
  ℕ, ◌≡◌, ◌⊎◌, inl, inr, refl, ap, not, Option, none, some, List, [], ◌∷◌, ◌++◌, arith, leb, ◌==◌,
  nat_eq, if◌then◌else◌,
}
use verus_gateway.Base.Bytes.{Str, lit}
use verus_gateway.Base.Int.{ℤ}
use verus_gateway.Domain.Request.{is_empty}
use verus_gateway.Http.Middleware.{
  Request, Writer, Outcome, returned, panicked, Handler, LogEvent, processed, unauthorized_access,
  rate_limit_exceeded, server_error,
}
use verus_gateway.Http.Audit.{audited_status, security_events, audit_log}

-- The line on a status that concerns security.
abbrev pub alarms : Request → ℕ → List LogEvent
alarms r status =
    if leb 500 status
    then server_error r.path status ∷ []
    else if status == 429
    then rate_limit_exceeded r.remote_addr ∷ []
    else if status == 401
    then unauthorized_access r.path r.remote_addr (r.headers (lit "User-Agent")) ∷ []
    else []

security_events-alarms :
    (r : Request) (status : ℕ) (w : Writer)
    → security_events r status w ≡ record w { log = alarms r status ++ w.log }
unfolding security_events
security_events-alarms r status w = ground arith

audited_status-elim : (o : Option ℕ) → audited_status o ≡ elim o [ none ↦ 200 | some n ↦ n ]
unfolding audited_status
audited_status-elim none = refl
audited_status-elim (some n) = refl

Outcome-cases :
    (o : Outcome)
    → ((w : Writer) × (o ≡ returned w)) ⊎ ((value : Str) × (w : Writer) × (o ≡ panicked value w))
Outcome-cases (returned w) = inl (w, refl)
Outcome-cases (panicked value w) = inr (value, w, refl)

-- A response goes through the audit as it is. The log gets a line on the request, with its method, path,
-- sender, user agent, referer and duration, and whether it brought credentials, and behind it one
-- alarm for a status of 401, of 429, or from 500 on, and none otherwise. The status is the last one
-- that the handler wrote, and 200 if it wrote none. Of a request whose handler panics there is no line.
pub audit_log_lem :
    (duration : ℤ) (next : Handler) (r : Request) (w : Writer)
    → audit_log duration next r w ≡ elim (next r (record w { last_status = none })) [
      | panicked value w' ↦ panicked value w'
      | returned w' ↦
          let status : ℕ = elim w'.last_status [ none ↦ 200 | some n ↦ n ] in
          returned (record w' {
            log =
                alarms r status
                ++ (processed r.method r.path r.remote_addr
                      (r.headers (lit "User-Agent"))
                      (r.headers (lit "Referer"))
                      (not (is_empty (r.headers (lit "Authorization"))))
                      (not (is_empty (r.headers (lit "X-API-Key"))))
                      status
                      duration
                    ∷ w'.log);
          })
    ]
unfolding audit_log
audit_log_lem duration next r w = elim (Outcome-cases (next r (record w { last_status = none }))) [
  | inr (value, w', h) ↦ rw (audit_log, h) refl
  | inl (w', h) ↦
      rw (audit_log, h, ← audited_status-elim w'.last_status)
        (ap returned (security_events-alarms r (audited_status w'.last_status) _))
]
