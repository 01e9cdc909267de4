-- ===== src/Tests/Storing.antt =====
-- The cache and the service.
use mathlib.Core.List.{lookup}
use verus_gateway.Base.{
  ℕ, ◌+◌, ◌≡◌, ◌⊎◌, refl, true, false, Option, none, some, List, [], ◌∷◌, arith, length, ◌==◌,
  list_eq, nat_eq, list_dec, every, ℕ_discrete, if◌then◌else◌,
}
use verus_gateway.Base.Bytes.{Bytes, Str, lit, has_prefix}
use verus_gateway.Base.Int.{pos, ◌-ℤ◌, ◌≤ℤ◌}
use verus_gateway.Domain.Errors.{Result, ok}
use verus_gateway.Domain.File.{File}
use verus_gateway.Domain.Request.{txid_pattern, is_hex, cache_key}
use verus_gateway.Domain.Request.Grammar.{IsWellFormed}
use verus_gateway.Domain.Interfaces.{Cache}
use verus_gateway.Hex.{decode, nibble, from_hex_char, encode, hex_digit}
use verus_gateway.FilePath.{join}
use verus_gateway.Rpc.{Client}
use verus_gateway.Chain.{ChainConfig, Manager, new_chain, entry, get_chain}
use verus_gateway.Crypto.{
  decrypt_data, validate_txid, validate_evk, decode_reply, re_evk, is_lower_alphanumeric,
}
use verus_gateway.Crypto.Contract.{decrypt_data-eq-ok_iff}
use verus_gateway.Storage.Decompressor.{GzipReader, reads}
use verus_gateway.Cache.Disk.{find, is_bin, total_size, total_items}
use verus_gateway.Cache.Disk.Totals.{old_size, old_items}
use verus_gateway.Cache.World.{calm}
use verus_gateway.Cache.State.{FilesystemCache, is_expired, count_hit}
use verus_gateway.Cache.Upkeep.{FileInfo, evict_oldest, cleanup}
use verus_gateway.Cache.Filesystem.{
  set, get, delete, make_room, content_path, meta_path, filesystem_cache, read_meta, read_entry,
  hash_name,
}
use verus_gateway.Cache.Filesystem.Dropping.{always, IsAccurate}
use verus_gateway.Cache.Filesystem.Eviction.{EvictsOldest, evict_oldest-EvictsOldest}
use verus_gateway.Cache.Filesystem.Storing.{set-accounting, set-within}
use verus_gateway.Cache.Filesystem.Deleting.{delete-IsAccurate}
use verus_gateway.Cache.Filesystem.Expiry.{cleanup-IsAccurate}
use verus_gateway.Cache.Filesystem.RoundTrip.{get-set}
use verus_gateway.Service.{
  get_client, fetch, FileService, Pending, get_file, look_up, to_store, run_pending,
}
use verus_gateway.Service.Fetching.{
  Fetched, IsCached, IsNew, get_file-ok, get_file-fetched, Fetched-fetch, file_of,
}
use verus_gateway.Service.Caching.{get_file-stored}
use verus_gateway.Tests.Inputs.{
  request, other_request, request_valid, other_request-IsWellFormed, txid, evk, codec, cache,
  cache-IsAccurate, file, metadata,
}

abbrev files : List FileInfo
files =
    record { path = []; size = 1; mod_time = 2 } ∷ record { path = []; size = 3; mod_time = 1 } ∷ []

evict_oldest-EvictsOldest_example : EvictsOldest 1 cache (evict_oldest always (pos 1) cache)
evict_oldest-EvictsOldest_example = evict_oldest-EvictsOldest 1 cache cache-IsAccurate

abbrev key : Str
key = lit "k"

abbrev after_set : FilesystemCache
after_set = (set codec (calm 30) key file (pos 0) cache).0

set-accounting_example :
    ((set codec (calm 30) key file (pos 0) cache).1 ≡ none)
    × (after_set.size
        ≡ pos (
            total_size after_set.disk
            + old_size (content_path codec cache.base_dir key) (make_room (calm 30) 2 cache).disk))
    × (after_set.items
        ≡ pos (
            total_items after_set.disk
            + old_items (content_path codec cache.base_dir key) (make_room (calm 30) 2 cache).disk))
set-accounting_example =
    set-accounting codec 30 key file (pos 0) cache cache-IsAccurate (omega arith)

set-within_example :
    (after_set.size ≤ℤ cache.max_size) ⊎ (after_set.size ≡ pos (length file.content))
set-within_example =
    set-within codec 30 key file (pos 0) cache cache-IsAccurate (omega arith) (omega arith)

delete-IsAccurate_example :
    IsAccurate (delete codec (calm 30) key cache).0
    × ((q : Str)
        → find q (delete codec (calm 30) key cache).0.disk ≡ (
            if q == meta_path codec cache.base_dir key
            then none
            else if q == content_path codec cache.base_dir key
            then none
            else find q cache.disk))
delete-IsAccurate_example = delete-IsAccurate codec 30 key cache cache-IsAccurate

cleanup-IsAccurate_example :
    IsAccurate (cleanup (calm 65) cache)
    × ((q : Str)
        → is_bin q ≡ true
        → find q (cleanup (calm 65) cache).disk ≡ elim (find q cache.disk) [
          | none ↦ none
          | some e ↦ if is_expired cache.ttl 65 e.mod_time then none else some e
        ])
cleanup-IsAccurate_example = cleanup-IsAccurate 65 cache cache-IsAccurate

abbrev read_back : ℕ → File
read_back later = record {
  txid = [];
  chain_id = [];
  content = file.content;
  metadata = some metadata;
  retrieved_at = later;
}

get-set_example : (get codec (calm 40) key after_set).1 ≡ ok (read_back 40)
unfolding ◌-ℤ◌
get-set_example = get-set codec 30 key file (pos 0) cache 40 metadata [] refl refl (omega arith)

-- A cache that holds a file under the key's path, and what a read returns of it.
abbrev filled : FilesystemCache
filled = record cache {
  disk = (content_path codec cache.base_dir key, record { content = 9 ∷ []; mod_time = 30 }) ∷ [];
}

abbrev nine : File
nine = record {
  txid = [];
  chain_id = [];
  content = 9 ∷ [];
  metadata = some (read_meta codec (calm 40) (meta_path codec cache.base_dir key) filled.disk);
  retrieved_at = 40;
}

get_nine : get codec (calm 40) key filled ≡ (count_hit filled, ok nine)
unfolding get read_entry is_expired find lookup list_dec ℕ_discrete ◌-ℤ◌ content_path hash_name
    encode hex_digit join lit
get_nine = refl

abbrev Disk_cache : Cache
Disk_cache = filesystem_cache codec

abbrev service : FileService Disk_cache
service = record {
  chain_manager = record { chains = []; default_chain = [] };
  cache = some cache;
  decompressor = record { max_size = pos 100 };
}

abbrev reader : Bytes → GzipReader
reader content = reads [] none

abbrev binary : Bytes → Str
binary content = lit "application/octet-stream"

abbrev node : Client → Str → Str → Result Str
node client t k = ok (lit "0a")

get_file-stored_example :
    (get_file reader binary node 60 Disk_cache
      (calm 60)
      other_request
      (run_pending Disk_cache (calm 30) (to_store Disk_cache request (some cache) file) service)).1
    ≡ ok (read_back 60)
unfolding ◌-ℤ◌ cache_key
get_file-stored_example =
    get_file-stored codec request other_request 30 60 cache file service reader binary node 60
      metadata [] refl refl refl refl (omega arith) other_request-IsWellFormed refl refl

abbrev config : ChainConfig
config = record {
  name = [];
  enabled = true;
  rpc_url = [];
  rpc_user = [];
  rpc_password = [];
  rpc_timeout = pos 0;
  tls_insecure = false;
  max_retries = pos 0;
  retry_delay = pos 0;
}

abbrev manager : Manager
manager = record {
  chains = (request.chain_id, new_chain request.chain_id config) ∷ [];
  default_chain = request.chain_id;
}

-- A service without a cache.
abbrev uncached : FileService Disk_cache
uncached = record service { chain_manager = manager; cache = none }

abbrev fetched : File
fetched = file_of reader binary node 60 uncached.decompressor request (10 ∷ [])

decrypt_ten : decrypt_data (node (new_chain request.chain_id config).client) txid evk ≡ ok (10 ∷ [])
unfolding decrypt_data validate_txid validate_evk decode_reply decode nibble from_hex_char re_evk
    is_lower_alphanumeric txid_pattern is_hex every has_prefix lit ℕ_discrete
decrypt_ten = refl

get_fetched :
    get_file reader binary node 60 Disk_cache (calm 60) request uncached
    ≡ (uncached, ok fetched, none)
unfolding look_up to_store fetch get_client get_chain entry lookup list_dec ℕ_discrete
get_fetched =
    get_file-fetched reader binary node 60 Disk_cache (calm 60) request uncached request_valid
      fetched refl
      (Fetched-fetch reader binary node 60 manager uncached.decompressor request fetched (record {
        client = (new_chain request.chain_id config).client;
        found = refl;
        encrypted_data = 10 ∷ [];
        decrypts =
            (decrypt_data-eq-ok_iff (node (new_chain request.chain_id config).client) txid evk
                (10 ∷ [])).0
              decrypt_ten;
        made = refl;
      }))

abbrev nothing_left : Option Pending
nothing_left = none

get_file-ok_example :
    IsWellFormed request
    × (IsCached reader binary node 60 Disk_cache
          (calm 60)
          request
          uncached
          uncached
          fetched
          nothing_left
        ⊎ (IsNew reader binary node 60 Disk_cache
              (calm 60)
              request
              uncached
              uncached
              fetched
              nothing_left
            × Fetched reader binary node 60 manager uncached.decompressor request fetched))
get_file-ok_example =
    get_file-ok reader binary node 60 Disk_cache (calm 60) request uncached uncached fetched
      nothing_left get_fetched
