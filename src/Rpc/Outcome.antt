-- ===== src/Rpc/Outcome.antt =====
-- The outcome of a call with retries.
use mathlib.Core.Path.{subst}
use verus_gateway.Base.{
  refl, ℕ, zero, suc, ◌+◌, ◌≤◌, ◌<◌, ◌≡◌, ◌≢◌, ◌↔◌, ap, ◌∙◌, inl, inr, Option, none, some, arith,
}
use verus_gateway.Base.Bytes.{Bytes, Str}
use verus_gateway.Base.Int.{ℤ}
use verus_gateway.Domain.Errors.{Error, Result, ok}
use verus_gateway.Rpc.{
  Client, Response, Attempt, answered, read_exchange, call, turns, call_loop, call_all, wait,
  exhausted, decrypt_data,
}
use verus_gateway.Rpc.Retries.{
  Retries, IsReached, Succeeds, step_answered, step_retry, Turn-answered, Turn,
}

module _ (unmarshal : Bytes → Result Response) (attempts : ℕ → Attempt) where
  wait_iff : (n : ℕ) → (wait n (attempts n) ≡ none) ↔ (0 < n → (attempts n).interrupted ≡ none)
  unfolding wait
  wait_iff n = (λ h le. ground arith, λ h. ground (arith, h))

  exhausted_ne : (m : ℤ) (last : Option Error) (b : Bytes) → exhausted m last ≢ answered b
  unfolding exhausted
  exhausted_ne m none b h = cc
  exhausted_ne m (some e) b h = cc

  abbrev at : (P : ℕ → Type 0) {i j : ℕ} → i ≡ j → P i → P j
  at P e h = subst P e h

  Succeeds-now :
      (k n : ℕ) (b : Bytes)
      → wait n (attempts n) ≡ none
      → read_exchange unmarshal (attempts n).exchange ≡ answered b
      → Succeeds unmarshal attempts (suc k) n b
  Succeeds-now k n b w r = record {
    turn = 0;
    within = omega arith;
    before = λ i lt. absurd (omega arith);
    reached = λ i le pos'.
        at (λ j. (attempts j).interrupted ≡ none) {i = n} (omega arith)
          ((wait_iff n).0 w (omega arith));
    answer =
        at (λ j. read_exchange unmarshal (attempts j).exchange ≡ answered b) {i = n} (omega arith)
          r;
  }

  Succeeds-later :
      (k n : ℕ) (b : Bytes)
      → wait n (attempts n) ≡ none
      → Retries unmarshal (attempts n)
      → Succeeds unmarshal attempts k (suc n) b
      → Succeeds unmarshal attempts (suc k) n b
  Succeeds-later k n b w r s = record {
    turn = suc s.turn;
    within = omega (arith, s.within);
    before = λ i lt. before' i lt;
    reached = λ i le p. reached' i le p;
    answer =
        at (λ j. read_exchange unmarshal (attempts j).exchange ≡ answered b) {i = suc n + s.turn}
          (omega arith) s.answer;
  }
    where
      before' : (i : ℕ) → i < suc s.turn → Retries unmarshal (attempts (n + i))
      before' zero lt = at (λ j. Retries unmarshal (attempts j)) {i = n} (omega arith) r
      before' (suc i) lt =
          at (λ j. Retries unmarshal (attempts j)) {i = suc n + i} (omega arith)
            (s.before i (omega arith))

      reached' : (i : ℕ) → i ≤ suc s.turn → IsReached unmarshal attempts (n + i)
      reached' zero le = at (IsReached unmarshal attempts) {i = n} (omega arith) ((wait_iff n).0 w)
      reached' (suc i) le =
          at (IsReached unmarshal attempts) {i = suc n + i} (omega arith)
            (s.reached i (omega arith))

  call_loop-Succeeds :
      (k n : ℕ) (last : Option Error) (c : Client) (b : Bytes)
      → (call_loop unmarshal k n attempts last c).1 ≡ answered b
      → Succeeds unmarshal attempts k n b
  unfolding call_loop Turn
  call_loop-Succeeds zero n last c b h = absurd (exhausted_ne c.max_retries last b h)
  call_loop-Succeeds (suc k) n last c b h = elim (Turn-answered unmarshal attempts k n last c b h) [
    | inl (w, r) ↦ Succeeds-now k n b w r
    | inr (w, r, (e, rest)) ↦
        Succeeds-later k n b w r
          (call_loop-Succeeds k (suc n) (some e) (call unmarshal (attempts n) c).0 b rest)
  ]

  call_loop-answered :
      (k n : ℕ) (last : Option Error) (c : Client) (b : Bytes) (turn : ℕ)
      → turn < k
      → ((i : ℕ) → i < turn → Retries unmarshal (attempts (n + i)))
      → ((i : ℕ) → i ≤ turn → IsReached unmarshal attempts (n + i))
      → read_exchange unmarshal (attempts (n + turn)).exchange ≡ answered b
      → (call_loop unmarshal k n attempts last c).1 ≡ answered b
  call_loop-answered zero n last c b turn lt before reached r = absurd (omega arith)
  call_loop-answered (suc k) n last c b zero lt before reached r =
      let w =
        (wait_iff n).1
          (at (IsReached unmarshal attempts) {i = n + 0} (omega arith) (reached 0 (omega arith))) in
      ap (λ z. z.1)
        (step_answered unmarshal attempts k n last c w b (
          at (λ j. read_exchange unmarshal (attempts j).exchange ≡ answered b) {i = n + 0}
            (omega arith) r))
  call_loop-answered (suc k) n last c b (suc turn) lt before reached r =
      let w =
        (wait_iff n).1
          (at (IsReached unmarshal attempts) {i = n + 0} (omega arith) (reached 0 (omega arith))) in
      let again =
        at (λ j. Retries unmarshal (attempts j)) {i = n + 0} (omega arith)
          (before 0 (omega arith)) in
      let (e, step) = step_retry unmarshal attempts k n last c w again in
      ap (λ z. z.1) step
      ∙ call_loop-answered k (suc n) (some e) (call unmarshal (attempts n) c).0 b turn (omega arith)
          (λ i l.
            at (λ j. Retries unmarshal (attempts j)) {i = n + suc i} (omega arith)
              (before (suc i) (omega arith)))
          (λ i l.
            at (IsReached unmarshal attempts) {i = n + suc i} (omega arith)
              (reached (suc i) (omega arith)))
          (at (λ j. read_exchange unmarshal (attempts j).exchange ≡ answered b) {i = n + suc turn}
            (omega arith) r)

  -- `Call` returns a result exactly where, within its turns, one exchange is answered with it, every
  -- exchange before fails without ending the context and without a code from -32099 to -32000, and no
  -- wait before these turns is interrupted.
  pub call_all-answered_iff :
      (c : Client) (b : Bytes)
      → ((call_all unmarshal attempts c).1 ≡ answered b)
        ↔ Succeeds unmarshal attempts (turns c.max_retries) 0 b
  unfolding call_all
  call_all-answered_iff c b = (
    call_loop-Succeeds (turns c.max_retries) 0 none c b,
    λ s.
        call_loop-answered (turns c.max_retries) 0 none c b s.turn s.within s.before s.reached
          s.answer,
  )

  -- A call that is answered, with an object that carries data.
  pub decrypt_data-answered :
      (first_object : Bytes → Result (Option (Option Str))) (c : Client) (b : Bytes) (text : Str)
      → Succeeds unmarshal attempts (turns c.max_retries) 0 b
      → first_object b ≡ ok (some (some text))
      → (decrypt_data unmarshal first_object attempts c).1 ≡ ok text
  unfolding decrypt_data
  decrypt_data-answered first_object c b text s h =
      rw ((call_all-answered_iff c b).1 s, h, decrypt_data) refl
