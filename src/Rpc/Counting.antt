-- ===== src/Rpc/Counting.antt =====
-- What a call with retries counts.
use mathlib.Core.Path.{subst}
use verus_gateway.Base.{
  ℕ, zero, suc, ◌+◌, ◌-◌, ◌^◌, ◌%◌, ◌≤◌, ◌<◌, ◌≡◌, ◌⊎◌, refl, ap, sym, inl, inr, Option, none, some,
  true, leb, arith, if◌then◌else◌, Bool-cases, Option-cases,
}
use verus_gateway.Base.Bytes.{Bytes}
use verus_gateway.Base.Int.{ℤ, pos, negsuc, ◌+ℤ◌, pos_part}
use verus_gateway.Domain.Errors.{Error, Result}
use verus_gateway.Rpc.{
  Client, RpcError, Response, Attempt, Reply, answered, refused, failed, read_exchange, call,
  is_final, turns, call_loop, call_all, wait, record_metrics, exhausted,
}
use verus_gateway.Rpc.Turns.{Makes, Makes-none, Makes-one, Makes-more, wait-IsReached, wait-eq-some}
use verus_gateway.Rpc.Retries.{
  Retries, IsReached, step_retry, Reply-cases, step_final, step_ctx, step_interrupted,
  step_answered,
}

-- A result is no error.
abbrev pub won : Reply → ℕ
won (answered b) = 1
won (refused e) = 0
won (failed e) = 0

won-le : (r : Reply) → won r ≤ 1
won-le (answered b) = omega arith
won-le (refused e) = omega arith
won-le (failed e) = omega arith

module _ (unmarshal : Bytes → Result Response) (attempts : ℕ → Attempt) where
  -- Each of the requests from `c` to `c'` is counted, and each is an error but the one that is answered.
  pub record Counts (k n : ℕ) (c c' : Client) (r : Reply) : Type 0 where
    pub calls : ℕ
    pub makes : Makes unmarshal attempts k n calls
    pub requests : c'.request_count ≡ (c.request_count + calls) % 2 ^ 64
    pub errors : c'.error_count ≡ (c.error_count + calls - won r) % 2 ^ 64
    pub answer : won r ≤ calls

-- Counters of 64 bits.
abbrev pub IsCounted : Client → Type 0
IsCounted c = (c.request_count < 2 ^ 64) × (c.error_count < 2 ^ 64)

module _ (unmarshal : Bytes → Result Response) where
  call-counts :
      (a : Attempt) (c : Client) (r : Reply)
      → read_exchange unmarshal a.exchange ≡ r
      → ((call unmarshal a c).0.request_count ≡ (c.request_count + 1) % 2 ^ 64)
        × ((call unmarshal a c).0.error_count
            ≡ (if leb 1 (won r) then c.error_count else (c.error_count + 1) % 2 ^ 64))
  unfolding call record_metrics
  call-counts a c (answered b) h = rw (h, call) (refl, refl)
  call-counts a c (refused e) h = rw (h, call) (refl, refl)
  call-counts a c (failed e) h = rw (h, call) (refl, refl)

  call-IsCounted : (a : Attempt) (c : Client) → IsCounted c → IsCounted (call unmarshal a c).0
  call-IsCounted a c (h, h') =
      let (n, m) = call-counts a c (read_exchange unmarshal a.exchange) refl in
      (omega (arith, n), ground (arith, m, won-le (read_exchange unmarshal a.exchange)))

  answered-stops :
      (a : Attempt) (b : Bytes)
      → read_exchange unmarshal a.exchange ≡ answered b
      → ¬ Retries unmarshal a
  answered-stops a b h (x, inl (e, k)) = cc (h, k)
  answered-stops a b h (x, inr (e, k, f)) = cc (h, k)

  final-stops :
      (a : Attempt) (e : RpcError)
      → read_exchange unmarshal a.exchange ≡ refused e
      → is_final e ≡ true
      → ¬ Retries unmarshal a
  final-stops a e h f (x, inl (e', k)) = cc (h, k)
  final-stops a e h f (x, inr (e', k, g)) =
      let same : e ≡ e' = cc (h, k) in cc (f, g, ap is_final same)

  ctx-stops : (a : Attempt) (e : Error) → a.ctx ≡ some e → ¬ Retries unmarshal a
  ctx-stops a e h (x, again) = cc (h, x)

  module _ (attempts : ℕ → Attempt) where
    Counts-none :
        (k n : ℕ) (c : Client) (r : Reply)
        → ((0 ≡ k) ⊎ (¬ IsReached unmarshal attempts n))
        → IsCounted c
        → won r ≡ 0
        → Counts unmarshal attempts k n c c r
    Counts-none k n c r stop (h, h') w = record {
      calls = 0;
      makes = Makes-none unmarshal attempts k n stop;
      requests = omega arith;
      errors = omega arith;
      answer = omega arith;
    }

    Counts-one :
        (k n : ℕ) (c : Client) (r s : Reply)
        → IsCounted c
        → wait n (attempts n) ≡ none
        → (¬ Retries unmarshal (attempts n))
        → read_exchange unmarshal (attempts n).exchange ≡ r
        → won s ≡ won r
        → Counts unmarshal attempts (suc k) n c (call unmarshal (attempts n) c).0 s
    Counts-one k n c r s (h, h') reached stop e w =
        let (q, m) = call-counts (attempts n) c r e in
        record {
          calls = 1;
          makes =
              Makes-one unmarshal attempts k n (wait-IsReached unmarshal attempts n reached) stop;
          requests = q;
          errors = ground (arith, m, won-le r);
          answer = omega (arith, won-le r);
        }

    Counts-more :
        (k n : ℕ) (c c' : Client) (r s : Reply)
        → wait n (attempts n) ≡ none
        → Retries unmarshal (attempts n)
        → read_exchange unmarshal (attempts n).exchange ≡ r
        → won r ≡ 0
        → Counts unmarshal attempts k (suc n) (call unmarshal (attempts n) c).0 c' s
        → Counts unmarshal attempts (suc k) n c c' s
    Counts-more k n c c' r s reached again e w more =
        let (q, m) = call-counts (attempts n) c r e in
        let one : (call unmarshal (attempts n) c).0.error_count ≡ (c.error_count + 1) % 2 ^ 64 =
          ground (arith, m) in
        record {
          calls = suc more.calls;
          makes =
              Makes-more unmarshal attempts k n more.calls
                (wait-IsReached unmarshal attempts n reached) again more.makes;
          requests = omega (arith, more.requests, q);
          errors = omega (arith, more.errors, one, more.answer);
          answer = omega (arith, more.answer);
        }

    -- What a run of the loop counts.
    abbrev LoopCounts : (k n : ℕ) (last : Option Error) (c : Client) → Type 0
    LoopCounts k n last c =
        let o = call_loop unmarshal k n attempts last c in Counts unmarshal attempts k n c o.0 o.1

    step_to :
        (k n : ℕ) (last : Option Error) (c : Client) (o : Client × Reply)
        → call_loop unmarshal k n attempts last c ≡ o
        → Counts unmarshal attempts k n c o.0 o.1
        → LoopCounts k n last c
    step_to k n last c o e h = subst (λ z. Counts unmarshal attempts k n c z.0 z.1) (sym e) h

    call_loop-Counts :
        (k n : ℕ) (last : Option Error) (c : Client) → IsCounted c → LoopCounts k n last c
    unfolding call_loop exhausted
    call_loop-Counts zero n none c h = Counts-none 0 n c _ (inl refl) h refl
    call_loop-Counts zero n (some e) c h = Counts-none 0 n c _ (inl refl) h refl
    call_loop-Counts (suc k) n last c h =
        let a = attempts n in
        let go : (r : Reply)
            → read_exchange unmarshal a.exchange ≡ r
            → won r ≡ 0
            → wait n a ≡ none
            → Retries unmarshal a
            → LoopCounts (suc k) n last c =
          λ r q z w again.
            let (e', step) = step_retry unmarshal attempts k n last c w again in
            step_to (suc k) n last c _ step (
              Counts-more k n c _ r _ w again q z (
                call_loop-Counts k (suc n) (some e') (call unmarshal a c).0
                  (call-IsCounted a c h))) in
        elim (Option-cases (wait n a)) [
          | inr (e, w) ↦
              step_to (suc k) n last c _ (step_interrupted unmarshal attempts k n last c e w)
                (Counts-none (suc k) n c _ (inr (wait-eq-some unmarshal attempts n e w)) h refl)
          | inl w ↦ elim (Reply-cases unmarshal (read_exchange unmarshal a.exchange)) [
            | inl (b, r) ↦
                step_to (suc k) n last c _ (step_answered unmarshal attempts k n last c w b r)
                  (Counts-one k n c _ _ h w (answered-stops a b r) r refl)
            | inr (inl (e, r)) ↦ elim (Option-cases a.ctx) [
              | inr (x, i) ↦
                  step_to (suc k) n last c _
                    (step_ctx unmarshal attempts k n last c w x (λ b' q. cc) i)
                    (Counts-one k n c _ _ h w (ctx-stops a x i) r refl)
              | inl i ↦ elim (Bool-cases (is_final e)) [
                | inl f ↦
                    step_to (suc k) n last c _ (step_final unmarshal attempts k n last c w e r i f)
                      (Counts-one k n c _ _ h w (final-stops a e r f) r refl)
                | inr f ↦ go (refused e) r refl w (i, inr (e, r, f))
              ]
            ]
            | inr (inr (e, r)) ↦ elim (Option-cases a.ctx) [
              | inr (x, i) ↦
                  step_to (suc k) n last c _
                    (step_ctx unmarshal attempts k n last c w x (λ b' q. cc) i)
                    (Counts-one k n c _ _ h w (ctx-stops a x i) r refl)
              | inl i ↦ go (failed e) r refl w (i, inl (e, r))
            ]
          ]
        ]

    turns_limit : (m : ℤ) → turns m ≡ pos_part (m +ℤ pos 1)
    unfolding turns ◌+ℤ◌
    turns_limit (pos n) = ground arith
    turns_limit (negsuc n) = ground arith

    -- A `Call` takes turns until one is not retried, the wait for the next one is interrupted, or it has
    -- taken `maxRetries + 1` of them, none for a negative number. Each turn makes one request:
    -- `requestCount` counts each of them, and `errorCount` each but the one that is answered, on
    -- 64 bits.
    pub call_all-Counts :
        (c : Client)
        → IsCounted c
        → Counts unmarshal attempts
            (pos_part (c.max_retries +ℤ pos 1))
            0
            c
            (call_all unmarshal attempts c).0
            (call_all unmarshal attempts c).1
    unfolding call_all
    call_all-Counts c h =
        subst
          (λ k.
            Counts unmarshal attempts k 0 c
              (call_loop unmarshal (turns c.max_retries) 0 attempts none c).0
              (call_loop unmarshal (turns c.max_retries) 0 attempts none c).1)
          (turns_limit c.max_retries) (call_loop-Counts (turns c.max_retries) 0 none c h)
