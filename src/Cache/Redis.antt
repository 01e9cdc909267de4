-- ===== src/Cache/Redis.antt =====
-- internal/cache/redis.go, over a client of go-redis and encoding/json as arguments.
pub mod Stored
pub mod Connection
use verus_gateway.Base.{
  ℕ, zero, suc, ◌+◌, ◌*◌, ◌%◌, ◌^◌, ◌≡◌, refl, Bool, true, false, Option, none, some, List, [], ◌∷◌,
  ◌++◌, arith, ltb, if◌then◌else◌,
}
use verus_gateway.Base.Bytes.{Bytes, Str, lit}
use verus_gateway.Base.Int.{ℤ, pos, negsuc, wrap64}
use verus_gateway.Domain.Errors.{Error, sentinel, cache_miss, wrapped, Result, ok, err}
use verus_gateway.Domain.File.{File, FileMetadata}
use verus_gateway.Domain.Interfaces.{Cache, CacheStats}

-- The commands that the cache sends. A `Call` is what the server and the clock answer in the course of
-- one; a `get` of a key that is not there is none, and `set` takes the time to live.
pub record RedisClient : Type 1 where
  pub State : Type 0
  pub Call : Type 0
  pub now : Call → ℕ
  pub get : Call → Str → State → Result (Option Bytes)
  pub set : Call → Str → Bytes → ℤ → State → State × Option Error
  pub del : Call → Str → State → State × Option Error
  pub flush_db : Call → State → State × Option Error
  pub info : Call → State → Option Error
  pub db_size : Call → State → Option ℤ

pub record CacheEntry : Type 0 where
  pub content : Bytes
  pub metadata : Option FileMetadata
  pub retrieved_at : ℕ

pub record RedisCache (R : RedisClient) : Type 0 where
  pub store : R.State
  pub ttl : ℤ
  pub hits : ℕ
  pub misses : ℕ

module _ (R : RedisClient) (marshal : CacheEntry → Result Bytes)
    (unmarshal : Bytes → Result CacheEntry) where
  abbrev count_miss : RedisCache R → RedisCache R
  count_miss c = record c { misses = (c.misses + 1) % 2 ^ 64 }

  abbrev pub count_hit : RedisCache R → RedisCache R
  count_hit c = record c { hits = (c.hits + 1) % 2 ^ 64 }

  unfoldable pub get : R.Call → Str → RedisCache R → RedisCache R × Result File
  get io key c = elim (R.get io key c.store) [
    | err e ↦ (count_miss c, err (wrapped (lit "redis get failed") e))
    | ok none ↦ (count_miss c, err (sentinel cache_miss))
    | ok (some bytes) ↦ elim (unmarshal bytes) [
      | err e ↦ (count_miss c, err (wrapped (lit "failed to unmarshal cache entry") e))
      | ok entry ↦ (
        count_hit c,
        ok (record {
          txid = [];
          chain_id = [];
          content = entry.content;
          metadata = entry.metadata;
          retrieved_at = entry.retrieved_at;
        }),
      )
    ]
  ]

  -- A time to live of 0 is that of the cache.
  abbrev pub life : ℤ → RedisCache R → ℤ
  life (pos zero) c = c.ttl
  life (pos (suc n)) c = pos (suc n)
  life (negsuc n) c = negsuc n

  unfoldable pub set : R.Call → Str → File → ℤ → RedisCache R → RedisCache R × Option Error
  set io key file ttl c =
      let entry : CacheEntry = record {
        content = file.content;
        metadata = file.metadata;
        retrieved_at = R.now io;
      } in
      elim (marshal entry) [
        | err e ↦ (c, some (wrapped (lit "failed to marshal cache entry") e))
        | ok bytes ↦
            let (store, failure) = R.set io key bytes (life ttl c) c.store in
            (
              record c { store = store },
              elim failure [ none ↦ none | some e ↦ some (wrapped (lit "redis set failed") e) ],
            )
      ]

  unfoldable pub delete : R.Call → Str → RedisCache R → RedisCache R × Option Error
  delete io key c =
      let (store, failure) = R.del io key c.store in
      (
        record c { store = store },
        elim failure [ none ↦ none | some e ↦ some (wrapped (lit "redis del failed") e) ],
      )

  unfoldable pub clear : R.Call → RedisCache R → RedisCache R × Option Error
  clear io c =
      let (store, failure) = R.flush_db io c.store in
      (
        record c { store = store },
        elim failure [ none ↦ none | some e ↦ some (wrapped (lit "redis flushdb failed") e) ],
      )

  unfoldable pub stats : R.Call → RedisCache R → Result CacheStats
  stats io c = elim (R.info io c.store) [
    | some e ↦ err (wrapped (lit "redis info failed") e)
    | none ↦
        let total = (c.hits + c.misses) % 2 ^ 64 in
        ok (record {
          hits = wrap64 (pos c.hits);
          misses = wrap64 (pos c.misses);
          size = pos 0;
          items = elim (R.db_size io c.store) [ none ↦ pos 0 | some n ↦ n ];
          hit_rate = if ltb 0 total then some (c.hits, total) else none;
        })
  ]

  -- The cache as the gateway sees it.
  abbrev pub redis_cache : Cache
  redis_cache = record {
    State = RedisCache R;
    Call = R.Call;
    get = get;
    set = set;
    delete = delete;
    clear = clear;
    stats = stats;
  }
