-- ===== src/Rpc.antt =====
-- pkg/verusrpc/client.go: a JSON-RPC call with its retries. What net/http and encoding/json answer
-- stands in one `Attempt` for each turn of the loop.
pub mod Retries
pub mod Outcome
pub mod Turns
pub mod Counting
pub mod Ended
pub mod Stats
pub mod Message
use verus_gateway.Base.{
  ℕ, zero, suc, ◌+◌, ◌*◌, ◌^◌, ◌%◌, ◌≡◌, refl, Bool, true, false, ◌&&◌, not, Option, none, some,
  List, [], ◌∷◌, ◌++◌, arith, ltb, leb, ◌==◌, nat_eq, if◌then◌else◌,
}
use verus_gateway.Base.Bytes.{Bytes, Str, lit}
use verus_gateway.Base.Int.{ℤ, pos, negsuc, ◌+ℤ◌, leb_ℤ, wrap64, add64, or_default}
use verus_gateway.Base.Decimal.{decimal, decimal_ℤ}
use verus_gateway.Domain.Errors.{Error, plain, wrapped, Result, ok, err}

-- Durations are nanoseconds, and `total_duration` is microseconds.
pub record Client : Type 0 where
  pub url : Str
  pub user : Str
  pub password : Str
  pub timeout : ℤ
  pub max_retries : ℤ
  pub retry_delay : ℤ
  pub request_count : ℕ
  pub error_count : ℕ
  pub total_duration : ℤ

pub record Config : Type 0 where
  pub url : Str
  pub user : Str
  pub password : Str
  pub timeout : ℤ
  pub tls_insecure : Bool
  pub max_retries : ℤ
  pub retry_delay : ℤ

unfoldable pub new_client : Config → Client
new_client cfg = record {
  url = cfg.url;
  user = cfg.user;
  password = cfg.password;
  timeout = or_default cfg.timeout (30 * 10 ^ 9);
  max_retries = or_default cfg.max_retries 3;
  retry_delay = or_default cfg.retry_delay (500 * 10 ^ 6);
  request_count = 0;
  error_count = 0;
  total_duration = pos 0;
}

pub record RpcError : Type 0 where
  pub code : ℤ
  pub message : Str

pub record Response : Type 0 where
  pub result : Bytes
  pub error : Option RpcError

-- How far one exchange with the node comes: the errors of `json.Marshal`, `http.NewRequestWithContext`,
-- `Do` and `io.ReadAll`, or a status and a body.
pub data Exchange : Type 0 where
  not_marshalled : Error → Exchange
  not_created : Error → Exchange
  not_sent : Error → Exchange
  not_read : Error → Exchange
  received : ℕ → Bytes → Exchange

-- One turn of the loop: `ctx.Err()` if the context ends the wait before it, the exchange, its duration
-- in microseconds, and `ctx.Err()` after it.
pub record Attempt : Type 0 where
  pub interrupted : Option Error
  pub exchange : Exchange
  pub micros : ℤ
  pub ctx : Option Error

-- A result, an `*RPCError`, or another error.
pub data Reply : Type 0 where
  answered : Bytes → Reply
  refused : RpcError → Reply
  failed : Error → Reply

-- `RPCError.Error`
unfoldable pub rpc_error_text : RpcError → Str
rpc_error_text e = lit "rpc error " ++ (decimal_ℤ e.code ++ (lit ": " ++ e.message))

abbrev count_error : Client → Client
count_error c = record c { error_count = (c.error_count + 1) % 2 ^ 64 }

-- `recordMetrics`; the error that it is called with is nil.
unfoldable pub record_metrics : ℤ → Client → Client
record_metrics micros c = record c { total_duration = add64 c.total_duration micros }

-- `-32099 <= code && code <= -32000`
unfoldable pub is_final : RpcError → Bool
is_final e = leb_ℤ (negsuc 32098) e.code && leb_ℤ e.code (negsuc 31999)

-- The number of turns that the loop may take.
unfoldable pub turns : ℤ → ℕ
turns (pos n) = suc n
turns (negsuc n) = 0

-- The error of a reply, as `lastErr` keeps it.
abbrev as_error : RpcError → Error
as_error e = plain (rpc_error_text e)

-- The error behind the last turn; `%w` of a nil error is spelled out.
exhausted : ℤ → Option Error → Reply
exhausted max_retries last =
    let head =
      lit "rpc call failed after " ++ (decimal_ℤ (add64 max_retries (pos 1)) ++ lit " attempts") in
    elim last [
      | none ↦ failed (plain (head ++ lit ": %!w(<nil>)"))
      | some e ↦ failed (wrapped head e)
    ]

-- How the wait before a turn ends; there is none before the first.
unfoldable pub wait : ℕ → Attempt → Option Error
wait n a = if ltb 0 n then a.interrupted else none

module _ (unmarshal : Bytes → Result Response) where
  -- What the body of `call` makes of an exchange.
  unfoldable pub read_exchange : Exchange → Reply
  read_exchange (not_marshalled e) = failed (wrapped (lit "failed to marshal request") e)
  read_exchange (not_created e) = failed (wrapped (lit "failed to create request") e)
  read_exchange (not_sent e) = failed (wrapped (lit "http request failed") e)
  read_exchange (not_read e) = failed (wrapped (lit "failed to read response") e)
  read_exchange (received status body) =
      if not (status == 200)
      then failed (plain (lit "http error " ++ (decimal status ++ (lit ": " ++ body))))
      else elim (unmarshal body) [
        | err e ↦ failed (wrapped (lit "failed to unmarshal response") e)
        | ok response ↦ elim response.error [ some e ↦ refused e | none ↦ answered response.result ]
      ]

  -- `call`: the request is counted first, each failure once, and the duration at the end.
  unfoldable pub call : Attempt → Client → Client × Reply
  call a c =
      let counted = record c { request_count = (c.request_count + 1) % 2 ^ 64 } in
      let reply = read_exchange a.exchange in
      (
        record_metrics a.micros (elim reply [
          | answered bytes ↦ counted
          | refused e ↦ count_error counted
          | failed e ↦ count_error counted
        ]),
        reply,
      )

  -- The loop of `Call`, with `k` turns to go; `attempts n` is what the turn `n` meets.
  unfoldable pub call_loop : ℕ → ℕ → (ℕ → Attempt) → Option Error → Client → Client × Reply
  unfolding exhausted
  call_loop zero n attempts last c = (c, exhausted c.max_retries last)
  call_loop (suc k) n attempts last c =
      let a = attempts n in
      let (c', reply) = call a c in
      let retry : Error → Client × Reply = λ e. call_loop k (suc n) attempts (some e) c' in
      elim (wait n a) [
        | some e ↦ (c, failed e)
        | none ↦ elim reply [
          | answered bytes ↦ (c', answered bytes)
          | refused e ↦ elim a.ctx [
            | some ctx ↦ (c', failed ctx)
            | none ↦ if is_final e then (c', refused e) else retry (as_error e)
          ]
          | failed e ↦ elim a.ctx [ some ctx ↦ (c', failed ctx) | none ↦ retry e ]
        ]
      ]

  -- `Call`
  unfoldable pub call_all : (ℕ → Attempt) → Client → Client × Reply
  call_all attempts c = call_loop (turns c.max_retries) 0 attempts none c

  -- `DecryptData`: `first_object` is what `json.Unmarshal` finds in the result: none for an empty array,
  -- and the `objectdata` of the first object, which may be absent.
  unfoldable pub decrypt_data :
      (Bytes → Result (Option (Option Str))) → (ℕ → Attempt) → Client → Client × Result Str
  decrypt_data first_object attempts c =
      let (c', reply) = call_all attempts c in
      (
        c',
        elim reply [
          | failed e ↦ err (wrapped (lit "decryptdata failed") e)
          | refused e ↦ err (wrapped (lit "decryptdata failed") (as_error e))
          | answered result ↦ elim (first_object result) [
            | err e ↦ err (wrapped (lit "failed to parse decryptdata result array") e)
            | ok none ↦ err (plain (lit "decryptdata returned empty result"))
            | ok (some none) ↦ err (plain (lit "objectdata field not found or not a string"))
            | ok (some (some object_data)) ↦ ok object_data
          ]
        ],
      )

  -- `GetInfo`, of which a caller uses whether it fails.
  unfoldable pub get_info {ℓ} :
      {Info : Type ℓ} → (Bytes → Result Info) → (ℕ → Attempt) → Client → Client × Result Info
  get_info parse attempts c =
      let (c', reply) = call_all attempts c in
      (
        c',
        elim reply [
          | failed e ↦ err (wrapped (lit "getinfo failed") e)
          | refused e ↦ err (wrapped (lit "getinfo failed") (as_error e))
          | answered result ↦ elim (parse result) [
            | err e ↦ err (wrapped (lit "failed to parse getinfo result") e)
            | ok info ↦ ok info
          ]
        ],
      )
