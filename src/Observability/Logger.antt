-- ===== src/Observability/Logger.antt =====
-- internal/observability/logger/logger.go. The levels of zerolog are known by `parse`, the result of
-- `zerolog.ParseLevel`, and `open_file` is the error of `os.OpenFile`.
pub mod Masking
use verus_gateway.Base.{
  ◌-◌, ◌≡◌, Bool, true, false, Option, none, some, List, [], ◌∷◌, ◌++◌, arith, leb, ◌==◌, nat_eq,
  list_eq, if◌then◌else◌, length, take, drop,
}
use verus_gateway.Base.Bytes.{Str, lit}
use verus_gateway.Domain.Errors.{Error, Result, ok, err}
use verus_gateway.Domain.Request.{is_empty}

pub record Config : Type 0 where
  pub level : Str
  pub format : Str
  pub output : Str
  pub file_path : Str

pub data Output : Type 0 where
  stdout : Output
  stderr : Output
  file : Str → Output

-- A logger under the global level `A`; a console writer tells whether it goes without colours. `caller` is
-- whether lines have their place in the source, and `fields` are the strings in them, the first first.
pub record Logger {ℓ} (A : Type ℓ) : Type ℓ where
  pub level : A
  pub output : Output
  pub console : Option Bool
  pub caller : Bool
  pub fields : List (Str × Str)

unfoldable pub file_name : Config → Str
file_name cfg = if is_empty cfg.file_path then lit "verus-gateway.log" else cfg.file_path

module _ {ℓ} {A : Type ℓ} (parse : Str → Result A) (info : A) (open_file : Str → Option Error) where
  unfoldable pub level_of : Str → A
  level_of level = elim (parse level) [ err e ↦ info | ok l ↦ l ]

  unfoldable pub open_output : Config → Result Output
  open_output cfg =
      if cfg.output == lit "stderr"
      then ok stderr
      else if cfg.output == lit "file"
      then elim (open_file (file_name cfg)) [ some e ↦ err e | none ↦ ok (file (file_name cfg)) ]
      else ok stdout

  unfoldable pub new : Config → Result (Logger A)
  new cfg = elim (open_output cfg) [
    | err e ↦ err e
    | ok output ↦ ok (record {
      level = level_of cfg.level;
      output = output;
      console = if cfg.format == lit "text" then some (cfg.output == lit "file") else none;
      caller = true;
      fields = [];
    })
  ]

module _ {ℓ} {A : Type ℓ} where
  with_field : Str → Str → Logger A → Logger A
  with_field key value logger = record logger { fields = logger.fields ++ ((key, value) ∷ []) }

  -- `AddRequestID`
  unfoldable pub add_request_id : Logger A → Str → Logger A
  unfolding with_field
  add_request_id logger request_id = with_field (lit "request_id") request_id logger

  -- `AddChain`
  unfoldable pub add_chain : Logger A → Str → Logger A
  unfolding with_field
  add_chain logger chain_id = with_field (lit "chain") chain_id logger

  -- `AddTXID`
  unfoldable pub add_txid : Logger A → Str → Logger A
  unfolding with_field
  add_txid logger txid = with_field (lit "txid") txid logger

  -- `WithContext`, on what a context holds under `LoggerKey`.
  unfoldable pub with_context : Option (Logger A) → Logger A → Option (Logger A)
  with_context ctx logger = some logger

  -- `FromContext`; a new logger on the standard output is there for a context without one.
  unfoldable pub from_context : A → Option (Logger A) → Logger A
  from_context level none = record {
    level = level;
    output = stdout;
    console = none;
    caller = false;
    fields = [];
  }
  from_context level (some logger) = logger

-- `MaskSensitiveData`
unfoldable pub mask_sensitive_data : Str → Str
mask_sensitive_data s =
    if leb (length s) 4 then lit "****" else take 2 s ++ (lit "****" ++ drop (length s - 2) s)
