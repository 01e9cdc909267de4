-- ===== src/Tests/Composed.antt =====
-- Requests for files through the service, its handlers and the server.
use mathlib.Core.Path.{subst}
use verus_gateway.Base.{
  ℕ, zero, suc, ◌*◌, ◌^◌, ◌≡◌, ◌⊎◌, refl, ap, sym, true, false, inr, Option, none, some, [], ◌∷◌,
  arith, list_eq, nat_eq, every, ℕ_discrete, if◌then◌else◌,
}
use verus_gateway.Base.Bytes.{Bytes, Str, lit}
use verus_gateway.Base.Int.{pos, leb_ℤ, ◌-ℤ◌}
use verus_gateway.Domain.Errors.{Error, plain, Result, ok, err, new_chain_error}
use verus_gateway.Domain.File.{File}
use verus_gateway.Domain.Request.{is_hex, cache_key}
use verus_gateway.Domain.Request.Grammar.{IsWellFormed}
use verus_gateway.Cache.World.{Io, calm}
use verus_gateway.Cache.Filesystem.{filesystem_cache}
use verus_gateway.Rpc.{Response, Attempt, received, not_sent}
use verus_gateway.Rpc
use verus_gateway.Http.Server.Files.InTime
use verus_gateway.Storage.Decompressor.{GzipReader, reads}
use verus_gateway.Service.{FileService, Pending, get_file, get_client, fetch, look_up}
use verus_gateway.Chain.{ChainConfig, Chain, new_chain, get_chain, entry}
use verus_gateway.Service.Refusing.{HasStatus, get_file-HasStatus}
use verus_gateway.Service.Caching.{stored_service}
use verus_gateway.Config.Settings.{set_defaults}
use verus_gateway.Observability.Metrics.Recording.{new-HasLabels}
use verus_gateway.Http.FileHandler.{FileCall, Body, file_request, is_hex_string}
use verus_gateway.Http.FileHandler.Serving.{serve_file}
use verus_gateway.Http.FileHandler.Stored.{Shows, serve_file-stored}
use verus_gateway.Http.Middleware.{Request, Writer, returned, status_of}
use verus_gateway.Http.Server.{setup_middleware}
use verus_gateway.Http.Server.Deadline.{IsLost}
use verus_gateway.Http.Server.Files.{Relays}
use verus_gateway.Http.Server.Files.Late.{EndsContexts, file_server, file_server-late}
use verus_gateway.Tests.Exchanges.{arrival, untouched, same}
use verus_gateway.Tests.Inputs.{
  txid, codec, cache, file, metadata, request, request_valid, request-IsWellFormed,
}

abbrev asked : Request
asked = record {
  method = lit "GET";
  path = lit "/c/v/file/a";
  request_uri = lit "/c/v/file/a";
  remote_addr = lit "10.0.0.1";
  content_length = pos 0;
  tls = false;
  headers = λ name. [];
  request_id = none;
  deadline = none;
  body_limits = [];
}

same-Relays : Relays same
same-Relays next r n get h = h

abbrev json : Body → Bytes
json body = lit "{}"

abbrev gunzip : Bytes → GzipReader
gunzip b = reads [] none

abbrev sniff : Bytes → Str
sniff b = lit "application/octet-stream"

abbrev too_late : Error
too_late = plain (lit "context deadline exceeded")

-- A context is done from its deadline on.
abbrev ctx_of : Request → Option Error
ctx_of r = elim r.deadline [
  | none ↦ none
  | some x ↦ if leb_ℤ x (pos 100) then some too_late else none
]

abbrev io : Request → Io
io r = record (calm 30) { ctx = ctx_of r }

abbrev attempts : Request → ℕ → Attempt
attempts r n = record {
  interrupted = none;
  exchange = elim (ctx_of r) [ none ↦ received 200 [] | some e ↦ not_sent e ];
  micros = pos 1;
  ctx = ctx_of r;
}

attempts-EndsContexts : EndsContexts 100 io attempts
attempts-EndsContexts r x set passed =
    let done : ctx_of r ≡ some too_late = ground arith in
    (
      too_late,
      done,
      record { unsent = λ n. (too_late, rw (done, attempts) refl); over = λ n. done },
    )

abbrev unmarshal : Bytes → Result Response
unmarshal b = err too_late

abbrev first_object : Bytes → Result (Option (Option Str))
first_object b = ok none

abbrev service : FileService (filesystem_cache codec)
service = record {
  chain_manager = record { chains = []; default_chain = [] };
  cache = some cache;
  decompressor = record { max_size = pos 100 };
}

abbrev call : FileCall
call = record { chain = b'v' ∷ []; path_param = txid; query = λ name. request.evk }

-- The default read time-out is lost.
ten_seconds-IsLost : IsLost (10 * 10 ^ 9)
ten_seconds-IsLost = inr (ground arith)

file_server-late_example :
    (out : Writer) × (setup_middleware same same set_defaults true arrival
        (file_server json gunzip sniff 30 codec unmarshal first_object io attempts
          (λ r. call)
          service)
        asked
        untouched
      ≡ returned out)
    × ((status_of out ≡ 400) ⊎ (status_of out ≡ 500))
unfolding set_defaults
file_server-late_example =
    file_server-late json gunzip sniff 30 codec unmarshal first_object io attempts (λ r. call)
      service same same same-Relays same-Relays set_defaults (10 * 10 ^ 9) refl ten_seconds-IsLost
      arrival attempts-EndsContexts asked untouched refl refl refl (new-HasLabels (lit "gateway"))

file_request-call : file_request call ≡ request
unfolding file_request is_hex_string is_hex every ℕ_discrete
file_request-call = refl

call-IsWellFormed : IsWellFormed (file_request call)
call-IsWellFormed = subst IsWellFormed (sym file_request-call) request-IsWellFormed

abbrev read_back : File
read_back = record {
  txid = [];
  chain_id = [];
  content = file.content;
  metadata = some metadata;
  retrieved_at = 60;
}

serve_file-stored_example :
    (out : Writer) × (serve_file json gunzip sniff
        (λ r client t k. err too_late)
        60
        (filesystem_cache codec)
        (λ r. calm 60)
        (λ r. call)
        (stored_service codec request (file_request call) 30 60 cache file service)
        asked
        untouched
      ≡ returned out)
    × Shows read_back metadata untouched out
unfolding ◌-ℤ◌
serve_file-stored_example =
    serve_file-stored codec request 30 60 cache file service call json gunzip sniff
      (λ r client t k. err too_late) 60 metadata [] asked untouched refl refl refl refl
      (omega arith) call-IsWellFormed (ap cache_key file_request-call) refl

-- A service without a chain or a cache.
abbrev unchained : FileService (filesystem_cache codec)
unchained = record service { cache = none }

abbrev no_chain : Error
no_chain = new_chain_error request.chain_id (lit "chain not found")

abbrev nothing : Option Pending
nothing = none

missing_run :
    get_file gunzip sniff
      (λ client t k. err too_late)
      60
      (filesystem_cache codec)
      (calm 60)
      request
      unchained
    ≡ (unchained, err no_chain, none)
unfolding get_file get_client get_chain entry look_up fetch new_chain_error
missing_run = rw (request_valid, get_file) refl

get_file-HasStatus_example : HasStatus no_chain × (nothing ≡ none)
get_file-HasStatus_example =
    get_file-HasStatus gunzip sniff (λ client t k. err too_late) 60 (filesystem_cache codec)
      (calm 60) request unchained unchained no_chain none missing_run

-- A node that is reached at the second turn.
abbrev chain_config : ChainConfig
chain_config = record {
  name = [];
  enabled = true;
  rpc_url = [];
  rpc_user = [];
  rpc_password = [];
  rpc_timeout = pos 0;
  tls_insecure = false;
  max_retries = pos 0;
  retry_delay = pos 0;
}

abbrev chain : Chain
chain = new_chain request.chain_id chain_config

abbrev chained : FileService (filesystem_cache codec)
chained = record service {
  chain_manager = record {
    chains = (request.chain_id, chain) ∷ [];
    default_chain = request.chain_id;
  };
  cache = none;
}

abbrev second_turn : ℕ → Attempt
second_turn zero = record {
  interrupted = none;
  exchange = not_sent too_late;
  micros = pos 1;
  ctx = none;
}
second_turn (suc n) = record {
  interrupted = none;
  exchange = received 200 [];
  micros = pos 1;
  ctx = none;
}

abbrev answer_of : Bytes → Result Response
answer_of b = ok (record { result = b; error = none })

abbrev ten_text : Bytes → Result (Option (Option Str))
ten_text b = ok (some (some (lit "0a")))
