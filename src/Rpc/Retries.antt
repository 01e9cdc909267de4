-- ===== src/Rpc/Retries.antt =====
-- When a call with retries is answered.
use verus_gateway.Base.{
  ℕ, suc, ◌+◌, ◌≤◌, ◌<◌, ◌≡◌, ◌≢◌, ◌⊎◌, refl, ap, sym, ◌∙◌, true, false, inl, inr, Option, none,
  some, Bool-cases, Option-cases,
}
use verus_gateway.Base.Bytes.{Bytes}
use verus_gateway.Domain.Errors.{Error, Result}
use verus_gateway.Rpc.{
  Client, RpcError, Response, Attempt, Reply, answered, refused, failed, read_exchange, call,
  is_final, call_loop, as_error, wait,
}

module _ (unmarshal : Bytes → Result Response) where
  -- A turn whose failure leads to another one.
  abbrev pub Retries : Attempt → Type 0
  Retries a =
      (a.ctx ≡ none)
      × (((e : Error) × (read_exchange unmarshal a.exchange ≡ failed e))
          ⊎ ((e : RpcError) × (read_exchange unmarshal a.exchange ≡ refused e)
              × (is_final e ≡ false)))

  abbrev pub IsReached : (ℕ → Attempt) → ℕ → Type 0
  IsReached attempts n = 0 < n → (attempts n).interrupted ≡ none

  -- Of the `k` turns from `n` on, one is answered, and all before it fail in a way that is retried.
  pub record Succeeds (attempts : ℕ → Attempt) (k n : ℕ) (result : Bytes) : Type 0 where
    pub turn : ℕ
    pub within : turn < k
    pub before : (i : ℕ) → i < turn → Retries (attempts (n + i))
    pub reached : (i : ℕ) → i ≤ turn → IsReached attempts (n + i)
    pub answer : read_exchange unmarshal (attempts (n + turn)).exchange ≡ answered result

  pub Reply-cases :
      (r : Reply)
      → ((b : Bytes) × (r ≡ answered b))
        ⊎ (((e : RpcError) × (r ≡ refused e)) ⊎ ((e : Error) × (r ≡ failed e)))
  Reply-cases (answered b) = inl (b, refl)
  Reply-cases (refused e) = inr (inl (e, refl))
  Reply-cases (failed e) = inr (inr (e, refl))

  module _ (attempts : ℕ → Attempt) (k n : ℕ) (last : Option Error) (c : Client) where
    abbrev a : Attempt
    a = attempts n

    abbrev after : Client
    after = (call unmarshal a c).0

    pub replied : {r : Reply} → read_exchange unmarshal a.exchange ≡ r → (call unmarshal a c).1 ≡ r
    unfolding call
    replied h = h

    pub step_interrupted :
        (e : Error)
        → wait n a ≡ some e
        → call_loop unmarshal (suc k) n attempts last c ≡ (c, failed e)
    unfolding call_loop
    step_interrupted e h = rw (h, call_loop) refl

    module _ (h : wait n a ≡ none) where
      pub step_answered :
          (b : Bytes)
          → read_exchange unmarshal a.exchange ≡ answered b
          → call_loop unmarshal (suc k) n attempts last c ≡ (after, answered b)
      unfolding call_loop
      step_answered b r = rw (h, replied r, call_loop) refl

      pub step_ctx :
          (e : Error)
          → ((b : Bytes) → read_exchange unmarshal a.exchange ≢ answered b)
          → a.ctx ≡ some e
          → call_loop unmarshal (suc k) n attempts last c ≡ (after, failed e)
      unfolding call_loop
      step_ctx e none' x = elim (Reply-cases (read_exchange unmarshal a.exchange)) [
        | inl (b, r) ↦ absurd (none' b r)
        | inr (inl (f, r)) ↦ rw (h, replied r, x, call_loop) refl
        | inr (inr (f, r)) ↦ rw (h, replied r, x, call_loop) refl
      ]

      pub step_final :
          (e : RpcError)
          → read_exchange unmarshal a.exchange ≡ refused e
          → a.ctx ≡ none
          → is_final e ≡ true
          → call_loop unmarshal (suc k) n attempts last c ≡ (after, refused e)
      unfolding call_loop
      step_final e r x f = rw (h, replied r, x, f, call_loop) refl

      pub step_retry :
          Retries a
          → (e : Error) × (call_loop unmarshal (suc k) n attempts last c
              ≡ call_loop unmarshal k (suc n) attempts (some e) after)
      unfolding call_loop
      step_retry (x, inl (e, r)) = (e, rw (h, replied r, x, call_loop) refl)
      step_retry (x, inr (e, r, f)) = (as_error e, rw (h, replied r, x, f, call_loop) refl)

  -- Whether this turn ends the loop, or the rest of the loop decides.
  unfoldable pub Turn :
      (attempts : ℕ → Attempt) (k n : ℕ) (last : Option Error) (c : Client) (b : Bytes) → Type 0
  Turn attempts k n last c b =
      ((wait n (attempts n) ≡ none) × (read_exchange unmarshal (attempts n).exchange ≡ answered b))
      ⊎ ((wait n (attempts n) ≡ none)
          × Retries (attempts n)
          × ((e : Error) × ((call_loop unmarshal k (suc n) attempts (some e)
                  (call unmarshal (attempts n) c).0).1
                ≡ answered b)))

  pub reply_ne {ℓ} : {A : Type ℓ} {r s t : Reply} → r ≡ s → s ≢ t → r ≡ t → A
  reply_ne h k l = absurd (k (sym h ∙ l))

  module _ (attempts : ℕ → Attempt) (k n : ℕ) (last : Option Error) (c : Client) (b : Bytes) where
    pub Turn-answered :
        (call_loop unmarshal (suc k) n attempts last c).1 ≡ answered b → Turn attempts k n last c b
    unfolding Turn
    Turn-answered h = elim (Option-cases (wait n (attempts n))) [
      | inr (e, w) ↦ reply_ne (ap (λ r. r.1) (step_interrupted attempts k n last c e w)) (λ q. cc) h
      | inl w ↦ elim (Reply-cases (read_exchange unmarshal (attempts n).exchange)) [
        | inl (b', r) ↦
            inl (w, r ∙ (sym (ap (λ z. z.1) (step_answered attempts k n last c w b' r)) ∙ h))
        | inr (inl (e, r)) ↦ elim (Option-cases (attempts n).ctx) [
          | inr (x, i) ↦
              reply_ne (ap (λ z. z.1) (step_ctx attempts k n last c w x (λ b' q. cc) i)) (λ q. cc) h
          | inl i ↦ elim (Bool-cases (is_final e)) [
            | inl f ↦
                reply_ne (ap (λ z. z.1) (step_final attempts k n last c w e r i f)) (λ q. cc) h
            | inr f ↦
                let again : Retries (attempts n) = (i, inr (e, r, f)) in
                let (e', step) = step_retry attempts k n last c w again in
                inr (w, again, (e', sym (ap (λ z. z.1) step) ∙ h))
          ]
        ]
        | inr (inr (e, r)) ↦ elim (Option-cases (attempts n).ctx) [
          | inr (x, i) ↦
              reply_ne (ap (λ z. z.1) (step_ctx attempts k n last c w x (λ b' q. cc) i)) (λ q. cc) h
          | inl i ↦
              let again : Retries (attempts n) = (i, inl (e, r)) in
              let (e', step) = step_retry attempts k n last c w again in
              inr (w, again, (e', sym (ap (λ z. z.1) step) ∙ h))
        ]
      ]
    ]
