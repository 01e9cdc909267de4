-- ===== src/Rpc/Ended.antt =====
-- Calls on a context that has ended.
use verus_gateway.Base.{ℕ, zero, suc, ◌≡◌, refl, Option, none, some, arith}
use verus_gateway.Base.Bytes.{Bytes, Str, lit}
use verus_gateway.Domain.Errors.{Error, wrapped, Result, err}
use verus_gateway.Rpc.{
  Client, Response, Attempt, not_sent, failed, read_exchange, call, turns, call_loop, call_all,
  wait, exhausted, decrypt_data,
}

-- Every turn meets an ended context, on which net/http sends nothing.
pub record IsEnded (ctx : Error) (attempts : ℕ → Attempt) : Type 0 where
  pub unsent : (n : ℕ) → (e : Error) × ((attempts n).exchange ≡ not_sent e)
  pub over : (n : ℕ) → (attempts n).ctx ≡ some ctx

module _ (unmarshal : Bytes → Result Response) (ctx : Error) (attempts : ℕ → Attempt)
    (ended : IsEnded ctx attempts) where
  call_loop-ended :
      (k : ℕ) (last : Option Error) (c : Client)
      → (e : Error) × ((call_loop unmarshal k 0 attempts last c).1 ≡ failed e)
  unfolding call_loop call read_exchange wait exhausted
  call_loop-ended zero none c = (_, refl)
  call_loop-ended zero (some e) c = (_, refl)
  call_loop-ended (suc k) last c =
      let (e, unsent) = ended.unsent 0 in (ctx, ground (arith, ended.over 0))

  pub decrypt_data-ended :
      (first_object : Bytes → Result (Option (Option Str))) (c : Client)
      → (e : Error) × ((decrypt_data unmarshal first_object attempts c).1 ≡ err e)
  unfolding decrypt_data call_all
  decrypt_data-ended first_object c =
      let (e, h) = call_loop-ended (turns c.max_retries) none c in
      (wrapped (lit "decryptdata failed") e, ground arith)
