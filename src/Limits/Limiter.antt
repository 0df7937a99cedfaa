-- ===== src/Limits/Limiter.antt =====
-- internal/limits/limiter.go. `connected` is false where the limiter or its client is nil; `now` is
-- time.Now().UTC().Unix(). Counters stay far below 2^63, so `int` and `int64` are unbounded.
use open_model_gateway.Base.{
  ℕ, ◌/◌, String, Bool, false, not, ℤ, pos, negsuc, neg, ltb_ℤ, is_pos, ok, Error, Act, ◌>>=◌, ◌>>◌,
  return, fail, ignore, if◌then◌else◌,
}
use Prim.Native.String.{◌++◌}
use open_model_gateway.Base.{nat_beq}
use open_model_gateway.Limits.Redis.{Redis, RedisKey, plain, window}

pub record LimitConfig : Type 0 where
  pub requests_per_minute : ℤ
  pub tokens_per_minute : ℤ
  pub parallel_requests : ℤ

-- cnt == k
abbrev pub equals : ℤ → ℤ → Bool
equals (pos a) (pos b) = nat_beq a b
equals (negsuc a) (negsuc b) = nat_beq a b
equals (pos a) (negsuc b) = false
equals (negsuc a) (pos b) = false

abbrev pub minute : ℕ
minute = 60

abbrev pub rpm_key : String → String
rpm_key key = "rpm:" ++ key

abbrev pub sem_key : String → RedisKey
sem_key key = plain ("sem:" ++ key)

abbrev pub tpm_key : String → ℕ → RedisKey
tpm_key key now = window ("tpm:" ++ key) (now / minute)

module _ (redis : Redis) where
  open redis use {Store, incr_by, expire}

  -- The reply of EXPIRE is not read.
  abbrev pub expire_if : Bool → RedisKey → ℕ → Act Store (Unit {0})
  expire_if fresh key ttl s = (ok tt, if fresh then expire key ttl s else s)

  unfoldable pub count_check : String → ℕ → ℤ → ℕ → Act Store (Unit {0})
  count_check key ttl limit now = do
    let redis_key = window key (now / ttl)
    cnt ← incr_by redis_key (pos 1)
    expire_if (equals cnt (pos 1)) redis_key ttl
    if ltb_ℤ limit cnt then fail Error.limit_exceeded else return tt

  unfoldable pub semaphore_acquire : RedisKey → ℤ → Act Store (Unit {0})
  semaphore_acquire key max = do
    cnt ← incr_by key (pos 1)
    expire_if (equals cnt (pos 1)) key 300
    if ltb_ℤ max cnt
        then (do ignore (incr_by key (negsuc 0)); fail Error.limit_exceeded)
        else return tt

  -- The reply of DECR is not read.
  unfoldable pub semaphore_release : RedisKey → Store → Store
  semaphore_release key s = (incr_by key (negsuc 0) s).1

  unfoldable pub allow : Bool → String → LimitConfig → ℕ → Act Store (Unit {0})
  allow connected key cfg now = if not connected then return tt else (do
    if is_pos cfg.requests_per_minute
        then count_check (rpm_key key) minute cfg.requests_per_minute now
        else return tt
    if is_pos cfg.parallel_requests
        then semaphore_acquire (sem_key key) cfg.parallel_requests
        else return tt
    return tt)

  unfoldable pub release : Bool → String → LimitConfig → Store → Store
  release connected key cfg s =
      if not connected
      then s
      else (if is_pos cfg.parallel_requests then semaphore_release (sem_key key) s else s)

  -- `l.client` is used with no test for nil.
  unfoldable pub token_allowance : Bool → String → ℤ → LimitConfig → ℕ → Act Store (Unit {0})
  token_allowance connected key tokens cfg now =
      if not (is_pos cfg.tokens_per_minute)
      then return tt
      else (if not connected then fail Error.nil_pointer else (do
        let redis_key = tpm_key key now
        used ← incr_by redis_key tokens
        expire_if (equals used tokens) redis_key minute
        if ltb_ℤ cfg.tokens_per_minute used
            then (do ignore (incr_by redis_key (neg tokens)); fail Error.limit_exceeded)
            else return tt))
