-- ===== src/Tests/Inputs.antt =====
-- The inputs of the tests.
use mathlib.Core.List.{lookup}
use verus_gateway.Base.{
  ℕ, zero, suc, ◌%◌, ◌≡◌, refl, true, false, none, some, [], ◌∷◌, arith, list_eq, nat_eq, list_dec,
  ℕ_discrete, every,
}
use verus_gateway.Base.Bytes.{Bytes, Str, lit, has_prefix, contains}
use verus_gateway.Base.Int.{pos}
use verus_gateway.Domain.Errors.{ok}
use verus_gateway.Domain.File.{File, FileMetadata}
use verus_gateway.Domain.Request.{
  FileRequest, validate, check_txid, check_chain_id, check_filename, check_evk, txid_pattern,
  chain_id_pattern, filename_pattern, evk_pattern, is_hex, is_chain_char, is_filename_char,
  is_alphanumeric,
}
use verus_gateway.Domain.Request.Grammar.{IsWellFormed, validate-IsWellFormed}
use verus_gateway.Cache.Disk.{Disk, find, is_bin, total_size, total_items}
use verus_gateway.Cache.World.{Codec}
use verus_gateway.Cache.State.{FilesystemCache}
use verus_gateway.Cache.Filesystem.Paths.{IsDigest}
use verus_gateway.Cache.Filesystem.Dropping.{IsAccurate}

abbrev pub many : ℕ → ℕ → Str
many zero c = []
many (suc n) c = c ∷ many n c

abbrev pub txid : Str
txid = many 64 b'a'

abbrev pub evk : Str
evk = b'z' ∷ b'x' ∷ b'v' ∷ b'i' ∷ b'e' ∷ b'w' ∷ b's' ∷ many 90 b'k'

-- A request that names no file and carries a viewing key.
abbrev pub request : FileRequest
request = record { txid = txid; evk = evk; chain_id = b'v' ∷ []; filename = []; use_cache = true }

-- The same with another viewing key.
abbrev pub other_request : FileRequest
other_request = record request {
  evk = b'z' ∷ b'x' ∷ b'v' ∷ b'i' ∷ b'e' ∷ b'w' ∷ b's' ∷ many 90 b'j';
}

pub request_valid : validate request ≡ none
unfolding validate check_txid check_chain_id check_filename check_evk txid_pattern chain_id_pattern
    filename_pattern evk_pattern is_hex is_chain_char is_filename_char is_alphanumeric every
    has_prefix lit contains ℕ_discrete
request_valid = refl

pub other_request_valid : validate other_request ≡ none
unfolding validate check_txid check_chain_id check_filename check_evk txid_pattern chain_id_pattern
    filename_pattern evk_pattern is_hex is_chain_char is_filename_char is_alphanumeric every
    has_prefix lit contains ℕ_discrete
other_request_valid = refl

pub request-IsWellFormed : IsWellFormed request
request-IsWellFormed = (validate-IsWellFormed request).0 request_valid

pub other_request-IsWellFormed : IsWellFormed other_request
other_request-IsWellFormed = (validate-IsWellFormed other_request).0 other_request_valid

abbrev pub metadata : FileMetadata
metadata = record {
  filename = [];
  size = 2;
  content_type = b'x' ∷ [];
  extension = b'x' ∷ [];
  hash = [];
  compressed = false;
  encrypted = false;
  created_at = none;
}

abbrev pub file : File
file = record {
  txid = txid;
  chain_id = b'v' ∷ [];
  content = 1 ∷ 2 ∷ [];
  metadata = some metadata;
  retrieved_at = 7;
}

-- A hash that tells texts apart by their last bytes, and a JSON that is empty.
abbrev last : ℕ → Bytes → ℕ
last n [] = n
last n (b ∷ bs) = last b bs

abbrev pub codec : Codec
codec = record {
  sha256 = λ b. last 0 b % 256 ∷ many 31 0;
  marshal = λ m. ok [];
  unmarshal = λ b. metadata;
}

pub codec-IsDigest : IsDigest codec
codec-IsDigest b = (refl, ground arith)

-- Two content files.
abbrev pub disk : Disk
disk =
    (lit "/c/01/01.bin", record { content = 1 ∷ 2 ∷ 3 ∷ []; mod_time = 20 })
    ∷ (lit "/c/02/02.bin", record { content = 4 ∷ []; mod_time = 10 })
    ∷ []

abbrev pub cache : FilesystemCache
cache = record {
  base_dir = b'/' ∷ b'c' ∷ [];
  max_size = pos 100;
  ttl = pos 50;
  cleanup_interval = pos 5;
  hits = 0;
  misses = 0;
  size = pos 4;
  items = pos 2;
  disk = disk;
  stopped = false;
}

pub cache-IsAccurate : IsAccurate cache
unfolding list_dec total_size total_items find lookup lit is_bin ℕ_discrete
    verus_gateway.FilePath.ext verus_gateway.FilePath.ext_from
cache-IsAccurate = record {
  tree = (refl, (refl, tt));
  size = refl;
  items = refl;
  size_bound = ground arith;
  items_bound = ground arith;
}
