-- ===== src/Cache/Redis/Stored.antt =====
-- A read after a write.
use verus_gateway.Base.{◌≡◌, ◌≤◌, ◌⊎◌, none, some}
use verus_gateway.Base.Bytes.{Bytes, Str}
use verus_gateway.Base.Int.{ℤ, pos, ◌-ℤ◌, ◌<ℤ◌}
use verus_gateway.Domain.Errors.{Error, Result, ok, err}
use verus_gateway.Domain.File.{File}
use verus_gateway.Cache.Redis.{RedisClient, CacheEntry, RedisCache, get, set}

-- What SET and GET document: while its time to live lasts, a value that was set is what a GET returns that
-- does not fail, unless the server has evicted the key between the two calls. Where its policy is
-- `noeviction`, it never does.
abbrev pub Keeps : (R : RedisClient) → (R.Call → R.Call → Str → Type 0) → Type 0
Keeps R Evicts =
    (io later : R.Call) (key : Str) (bytes : Bytes) (ttl : ℤ) (st st' : R.State)
    → R.set io key bytes ttl st ≡ (st', none)
    → R.now io ≤ R.now later
    → (pos (R.now later) -ℤ pos (R.now io)) <ℤ ttl
    → (R.get later key st' ≡ ok (some bytes))
      ⊎ (((e : Error) × (R.get later key st' ≡ err e))
          ⊎ ((R.get later key st' ≡ ok none) × Evicts io later key))

module _ (R : RedisClient) (marshal : CacheEntry → Result Bytes)
    (unmarshal : Bytes → Result CacheEntry) where
  module _ (io : R.Call) (key : Str) (file : File) (ttl : ℤ) (c c' : RedisCache R) where
    abbrev pub entry_of : CacheEntry
    entry_of = record { content = file.content; metadata = file.metadata; retrieved_at = R.now io }
