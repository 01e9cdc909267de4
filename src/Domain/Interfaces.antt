-- ===== src/Domain/Interfaces.antt =====
-- internal/domain/interfaces.go: the interface of a cache.
use verus_gateway.Base.{ℕ, Option}
use verus_gateway.Base.Bytes.{Str}
use verus_gateway.Base.Int.{ℤ}
use verus_gateway.Domain.Errors.{Error, Result}
use verus_gateway.Domain.File.{File}

-- The hit rate is the exact quotient of a pair, and none is 0.
pub record CacheStats : Type 0 where
  pub hits : ℤ
  pub misses : ℤ
  pub size : ℤ
  pub items : ℤ
  pub hit_rate : Option (ℕ × ℕ)

-- A method returns the state that it leaves beside its result. `Call` is what the surroundings answer
-- in the course of one call: the time, and the failures of the storage.
pub record Cache : Type 1 where
  pub State : Type 0
  pub Call : Type 0
  pub get : Call → Str → State → State × Result File
  pub set : Call → Str → File → ℤ → State → State × Option Error
  pub delete : Call → Str → State → State × Option Error
  pub clear : Call → State → State × Option Error
  pub stats : Call → State → Result CacheStats
