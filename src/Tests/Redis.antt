-- ===== src/Tests/Redis.antt =====
-- The Redis cache.
use verus_gateway.Base.{ℕ, none, some, [], ◌∷◌, if◌then◌else◌, list_eq, ◌==◌}
use verus_gateway.Base.Bytes.{Bytes, Str}
use verus_gateway.Base.Int.{pos}
use verus_gateway.Domain.Errors.{plain, Result, ok, err}
use verus_gateway.Domain.File.{File}
use verus_gateway.Cache.Redis.{RedisClient, CacheEntry, RedisCache, get, set}
use verus_gateway.Tests.Inputs.{file}

-- A server that keeps one value and forgets nothing.
abbrev pub server : RedisClient
server = record {
  State = Str × Bytes;
  Call = ℕ;
  now = λ t. t;
  get = λ t key st. ok (if key == st.0 then some st.1 else none);
  set = λ t key bytes ttl st. ((key, bytes), none);
  del = λ t key st. (st, none);
  flush_db = λ t st. (st, none);
  info = λ t st. none;
  db_size = λ t st. some (pos 1);
}

-- It evicts nothing.
abbrev Never : ℕ → ℕ → Str → Type 0
Never io later key = ⊥

-- A JSON of entries without metadata.
pub marshal : CacheEntry → Result Bytes
marshal e = elim e.metadata [ none ↦ ok (e.retrieved_at ∷ e.content) | some m ↦ err (plain []) ]

pub unmarshal : Bytes → Result CacheEntry
unmarshal [] = err (plain [])
unmarshal (t ∷ bytes) = ok (record { content = bytes; metadata = none; retrieved_at = t })

abbrev plain_file : File
plain_file = record file { metadata = none }

abbrev pub redis : RedisCache server
redis = record { store = ([], []); ttl = pos 10; hits = 0; misses = 0 }

abbrev key : Str
key = b'k' ∷ []

abbrev redis_after : RedisCache server
redis_after = record redis { store = (key, 3 ∷ file.content) }

abbrev stored_entry : CacheEntry
stored_entry = record {
  content = plain_file.content;
  metadata = plain_file.metadata;
  retrieved_at = 3;
}
