-- ===== src/Tests/Handling.antt =====
-- The handlers of files.
use verus_gateway.Base.{◌≡◌, refl, ap, none, some, [], ◌∷◌, every, list_eq, list_dec, ℕ_discrete}
use verus_gateway.Base.Bytes.{Bytes, Str, lit, has_prefix, contains}
use verus_gateway.Base.Int.{pos}
use verus_gateway.Domain.Errors.{plain, Result, ok, err}
use verus_gateway.Domain.File.{File}
use verus_gateway.Domain.Interfaces.{Cache}
use verus_gateway.Domain.Request.{
  cache_key, is_hex, FileRequest, txid_pattern, check_txid, check_chain_id, check_filename,
  check_evk, chain_id_pattern, filename_pattern, evk_pattern, is_chain_char, is_filename_char,
  is_alphanumeric,
}
use verus_gateway.Domain.Request.Grammar.{IsWellFormed}
use verus_gateway.Rpc.{Client}
use verus_gateway.Storage.Decompressor.{GzipReader, reads}
use verus_gateway.Cache.Redis.{CacheEntry, get, redis_cache}
use verus_gateway.Service.{look_up, FileService, get_file}
use verus_gateway.Http.FileHandler.{
  file_headers, file_response, FileCall, Response, content, file_request, handle_file,
  is_hex_string,
}
use verus_gateway.Service.Fetching.{get_file-found}
use verus_gateway.Http.FileHandler.Statuses.{handle_file-content}
use verus_gateway.Tests.Inputs.{txid, file, metadata}
use verus_gateway.Tests.Redis.{server, marshal, unmarshal, redis}

abbrev reader : Bytes → GzipReader
reader bytes = reads [] none

abbrev binary : Bytes → Str
binary bytes = lit "application/octet-stream"

abbrev node : Client → Str → Str → Result Str
node client t k = err (plain [])

abbrev Redis : Cache
Redis = redis_cache server marshal unmarshal

-- A cache that holds a file under the key of the request below.
abbrev call : FileCall
call = record { chain = b'v' ∷ []; path_param = txid; query = λ name. [] }

abbrev service : FileService Redis
service = record {
  chain_manager = record { chains = []; default_chain = [] };
  cache = some (record redis { store = (cache_key (file_request call), 3 ∷ file.content) });
  decompressor = record { max_size = pos 100 };
}

-- A JSON that is always the entry of one file.
abbrev constant : Bytes → Result CacheEntry
constant bytes = ok (record { content = file.content; metadata = some metadata; retrieved_at = 3 })

abbrev Filled : Cache
Filled = redis_cache server marshal constant

abbrev filled : FileService Filled
filled = record {
  chain_manager = record { chains = []; default_chain = [] };
  cache = some (record redis { store = (cache_key (file_request call), []) });
  decompressor = record { max_size = pos 100 };
}

call_valid : verus_gateway.Domain.Request.validate (file_request call) ≡ none
unfolding file_request is_hex_string verus_gateway.Domain.Request.validate check_txid check_chain_id
    check_filename check_evk txid_pattern chain_id_pattern filename_pattern evk_pattern is_hex
    is_chain_char is_filename_char is_alphanumeric every has_prefix lit contains ℕ_discrete
call_valid = refl

abbrev held : File
held = record {
  txid = [];
  chain_id = [];
  content = file.content;
  metadata = some metadata;
  retrieved_at = 3;
}

filled_found : (look_up Filled 5 (file_request call) filled.cache).1 ≡ some held
unfolding look_up get file_request is_hex_string txid_pattern is_hex every ℕ_discrete list_dec
    cache_key lit
filled_found = refl

abbrev after_call : FileService Filled
after_call = record filled { cache = (look_up Filled 5 (file_request call) filled.cache).0 }

abbrev shown : Response
shown = record {
  status = 200;
  headers = file_headers [] file.content metadata;
  body = content file.content;
}

handle_file_run :
    handle_file reader binary node 5 Filled 5 [] call filled ≡ (after_call, some shown, none)
unfolding handle_file file_response file_request is_hex_string is_hex every ℕ_discrete
handle_file_run =
    ap (λ r. (r.0, file_response [] (file_request call) r.1, r.2))
      (get_file-found reader binary node 5 Filled 5 (file_request call) filled call_valid held
        filled_found)

handle_file-content_example :
    IsWellFormed (file_request call)
    × (shown.status ≡ 200)
    × ((f : File) × (get_file reader binary node 5 Filled 5 (file_request call) filled
          ≡ (after_call, ok f, none))
        × (f.content ≡ file.content))
handle_file-content_example =
    handle_file-content reader binary node 5 Filled 5 [] call filled after_call shown none
      file.content handle_file_run refl
