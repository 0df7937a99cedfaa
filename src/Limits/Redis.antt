-- ===== src/Limits/Redis.antt =====
-- The Redis client that internal/limits uses: a parameter, with the documented behaviour of INCRBY
-- and EXPIRE. INCR and DECR are INCRBY by 1 and by -1. A call that fails may leave any store.
use Prim.Native.Nat.{ℕ}
use Prim.Native.String.{String}
use mathlib.Core.Path.{◌≡◌}
use mathlib.Core.Logic.{◌≢◌}
use open_model_gateway.Base.{ℤ, pos, ◌+ℤ◌, Result, ok}

-- `plain k` is the key k, and `window k n` is fmt.Sprintf("%s:%d", k, n).
pub data RedisKey : Type 0 where
  plain : String → RedisKey
  window : String → ℕ → RedisKey

pub record Redis : Type 1 where
  pub Store : Type 0
  -- The number that GET shows, 0 for a missing key.
  pub counter : RedisKey → Store → ℤ
  pub incr_by : RedisKey → ℤ → Store → Result ℤ × Store
  pub expire : RedisKey → ℕ → Store → Store
  -- The time to live of a key runs out.
  pub lapse : RedisKey → Store → Store
  pub incr_by-value :
      (k : RedisKey) (d : ℤ) (s : Store) {v : ℤ}
      → (incr_by k d s).0 ≡ ok v
      → (v ≡ counter k s +ℤ d) × (counter k (incr_by k d s).1 ≡ v)
  pub incr_by-other :
      (k j : RedisKey) (d : ℤ) (s : Store) {v : ℤ}
      → (incr_by k d s).0 ≡ ok v
      → k ≢ j
      → counter j (incr_by k d s).1 ≡ counter j s
  pub counter-expire :
      (k j : RedisKey) (ttl : ℕ) (s : Store) → counter j (expire k ttl s) ≡ counter j s
  pub counter-lapse : (k : RedisKey) (s : Store) → counter k (lapse k s) ≡ pos 0
