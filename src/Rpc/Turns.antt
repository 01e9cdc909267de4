-- ===== src/Rpc/Turns.antt =====
-- The turns that the loop of `Call` takes, and where it ends.
use mathlib.Core.Path.{subst}
use verus_gateway.Base.{
  ℕ, zero, suc, ◌+◌, ◌≤◌, ◌<◌, ◌≡◌, ◌⊎◌, refl, ap, inl, inr, none, some, ltb, arith, Bool-cases,
}
use verus_gateway.Base.Bytes.{Bytes}
use verus_gateway.Domain.Errors.{Error, Result}
use verus_gateway.Rpc.{Response, Attempt, wait}
use verus_gateway.Rpc.Retries.{Retries, IsReached}

module _ (unmarshal : Bytes → Result Response) (attempts : ℕ → Attempt) where
  -- The loop makes `calls` requests where it may take the `k` turns from `n` on: it comes to each of
  -- them, each but the last fails in a way that is retried, and it ends there since no turn is left,
  -- since the wait for the next one is interrupted, or since the last is not retried.
  pub record Makes (k n calls : ℕ) : Type 0 where
    pub within : calls ≤ k
    pub reached : (i : ℕ) → i < calls → IsReached unmarshal attempts (n + i)
    pub before : (i : ℕ) → suc i < calls → Retries unmarshal (attempts (n + i))
    pub over :
        (calls ≡ k)
        ⊎ ((¬ IsReached unmarshal attempts (n + calls))
            ⊎ ((i : ℕ) × (calls ≡ suc i) × (¬ Retries unmarshal (attempts (n + i)))))

  pub Makes-none : (k n : ℕ) → ((0 ≡ k) ⊎ (¬ IsReached unmarshal attempts n)) → Makes k n 0
  Makes-none k n stop = record {
    within = omega arith;
    reached = λ i l. absurd (omega arith);
    before = λ i l. absurd (omega arith);
    over = elim stop [
      | inl e ↦ inl e
      | inr e ↦ inr (inl (subst (λ m. ¬ IsReached unmarshal attempts m) (omega arith) e))
    ];
  }

  pub wait-IsReached : (n : ℕ) → wait n (attempts n) ≡ none → IsReached unmarshal attempts n
  unfolding wait
  wait-IsReached n h l = ground arith

  pub wait-eq-some :
      (n : ℕ) (e : Error) → wait n (attempts n) ≡ some e → ¬ IsReached unmarshal attempts n
  unfolding wait
  wait-eq-some n e h reached = elim (Bool-cases (ltb 0 n)) [
    | inl l ↦ absurd (ground (arith, l, reached (ground (arith, l))))
    | inr l ↦ absurd (ground (arith, l))
  ]

  pub Makes-one :
      (k n : ℕ)
      → IsReached unmarshal attempts n
      → (¬ Retries unmarshal (attempts n))
      → Makes (suc k) n 1
  Makes-one k n reached stop = record {
    within = omega arith;
    reached = λ i l. subst (IsReached unmarshal attempts) (omega arith) reached;
    before = λ i l. absurd (omega arith);
    over = inr (inr (0, refl, subst (λ m. ¬ Retries unmarshal (attempts m)) (omega arith) stop));
  }

  pub Makes-more :
      (k n calls : ℕ)
      → IsReached unmarshal attempts n
      → Retries unmarshal (attempts n)
      → Makes k (suc n) calls
      → Makes (suc k) n (suc calls)
  Makes-more k n calls here again more = record {
    within = omega (arith, more.within);
    reached = reached;
    before = before;
    over = elim more.over [
      | inl e ↦ inl (ap suc e)
      | inr (inl e) ↦ inr (inl (subst (λ m. ¬ IsReached unmarshal attempts m) (omega arith) e))
      | inr (inr (i, e, stop)) ↦
          inr (
            inr (suc i, ap suc e, subst (λ m. ¬ Retries unmarshal (attempts m)) (omega arith) stop))
    ];
  }
    where
      reached : (i : ℕ) → i < suc calls → IsReached unmarshal attempts (n + i)
      reached zero l = subst (IsReached unmarshal attempts) (omega arith) here
      reached (suc i) l =
          subst (IsReached unmarshal attempts) (omega arith) (more.reached i (omega arith))

      before : (i : ℕ) → suc i < suc calls → Retries unmarshal (attempts (n + i))
      before zero l = subst (λ m. Retries unmarshal (attempts m)) (omega arith) again
      before (suc i) l =
          subst (λ m. Retries unmarshal (attempts m)) (omega arith) (more.before i (omega arith))
