-- ===== src/Http/Server/Files/InTime.antt =====
-- Files that a node serves in time.
use verus_gateway.Base.{ℕ, ◌≡◌, Option, some, All, map}
use verus_gateway.Base.Bytes.{Bytes, Str}
use verus_gateway.Domain.Errors.{Result, ok}
use verus_gateway.Domain.File.{File}
use verus_gateway.Domain.Interfaces.{Cache}
use verus_gateway.Domain.Request.{FileRequest}
use verus_gateway.Hex.{IsByte, encode, lower}
use verus_gateway.Crypto.Contract.{IsLowerEvk}
use verus_gateway.Rpc.{Client, Response, Attempt, turns}
use verus_gateway.Rpc
use verus_gateway.Rpc.Retries.{Succeeds}
use verus_gateway.Storage.Decompressor.{GzipReader}
use verus_gateway.Storage.Detector.{detect_type}
use verus_gateway.Chain.{Manager}
use verus_gateway.Service.{FileService, get_client}
use verus_gateway.Service.Fetching.{file_of}
use verus_gateway.Config.Settings.{Settings}
use verus_gateway.Http.FileHandler.{FileCall, Body, file_request}
use verus_gateway.Http.FileHandler
use verus_gateway.Http.FileHandler.Serving.{serve_file}
use verus_gateway.Http.FileHandler.Stored.{Shows}
use verus_gateway.Http.Middleware.{Request, Writer, Handler}

-- The chain of a request is there, one of the turns of the call to its node is answered, and the answer
-- is, in hexadecimal digits, some bytes.
pub record NodeServes (unmarshal : Bytes → Result Response)
    (first_object : Bytes → Result (Option (Option Str))) (attempts : ℕ → Attempt) (m : Manager)
    (req : FileRequest) (bytes : Bytes) : Type 0 where
  pub client : Client
  pub found : get_client m req.chain_id ≡ ok client
  pub key : IsLowerEvk req.evk
  pub result : Bytes
  pub succeeds : Succeeds unmarshal attempts (turns client.max_retries) 0 result
  pub text : Str
  pub named : first_object result ≡ ok (some (some text))
  pub are_bytes : All IsByte bytes
  pub encodes : encode bytes ≡ map lower text

module _ (json : Body → Bytes) (gunzip : Bytes → GzipReader) (sniff : Bytes → Str) (now : ℕ)
    (C : Cache) (unmarshal : Bytes → Result Response)
    (first_object : Bytes → Result (Option (Option Str))) (io : Request → C.Call)
    (attempts : Request → ℕ → Attempt) (call_of : Request → FileCall) (s : FileService C) where
  abbrev rpc : Request → Client → Str → Str → Result Str
  rpc r client txid evk = (Rpc.decrypt_data unmarshal first_object (attempts r) client).1

  -- `GetFile` over any cache and the JSON-RPC client.
  abbrev pub file_server : Handler
  file_server = serve_file json gunzip sniff rpc now C io call_of s

  module _ (r : Request) where
    abbrev pub req : FileRequest
    req = file_request (call_of r)

    module _ (bytes : Bytes) where
      -- The file that the data make.
      abbrev pub served : File
      served = file_of gunzip sniff (rpc r) now s.decompressor req bytes

      -- What the client sees of the file.
      abbrev pub ShowsServed : Writer → Writer → Type 0
      ShowsServed = Shows served (detect_type sniff served.content req.filename)
