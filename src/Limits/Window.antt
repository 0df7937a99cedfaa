-- ===== src/Limits/Window.antt =====
-- The fixed windows of `count_check` and `token_allowance`.
use open_model_gateway.Base.{
  ℕ, ◌/◌, ◌≡◌, refl, Bool, true, false, String, ℤ, pos, neg, ◌+ℤ◌, ltb_ℤ, is_pos, ok, err, Error,
  arith, if◌then◌else◌,
}
use open_model_gateway.Limits.Redis.{Redis, RedisKey, window}
use open_model_gateway.Limits.Limiter.{
  LimitConfig, count_check, token_allowance, tpm_key, minute, expire_if,
}
use open_model_gateway.Limits.Counters.{Up, incr_by-ok, counter-incr_by, add-neg}

module _ (redis : Redis) (up : Up redis) where
  open redis use {Store, counter, incr_by, expire, counter-expire}

  counter-expire_if :
      (j k : RedisKey) (fresh : Bool) (ttl : ℕ) (s : Store)
      → counter j (expire_if redis fresh k ttl s).1 ≡ counter j s
  counter-expire_if j k true ttl s = counter-expire k j ttl s
  counter-expire_if j k false ttl s = refl

  -- A check counts the request whether or not it is admitted, and admits it exactly when the
  -- new count is within the limit.
  pub count_check_lem :
      (key : String) (ttl : ℕ) (limit : ℤ) (now : ℕ) (s : Store)
      → let k = window key (now / ttl) in
        let r = count_check redis key ttl limit now s in
        (counter k r.1 ≡ counter k s +ℤ pos 1)
        × (r.0 ≡ (if ltb_ℤ limit (counter k s +ℤ pos 1) then err Error.limit_exceeded else ok tt))
  unfolding count_check
  count_check_lem key ttl limit now s =
      let k = window key (now / ttl) in
      rw (incr_by-ok redis up k (pos 1) s) (
        ground (
          arith,
          counter-expire k k ttl (incr_by k (pos 1) s).1,
          counter-incr_by redis up k (pos 1) s,
        ))

  -- While Redis answers and the limit is positive, a token charge is admitted exactly when the
  -- counter stays within the limit, and a charge that is refused is taken back.
  pub token_allowance_lem :
      (key : String) (tokens : ℤ) (cfg : LimitConfig) (now : ℕ) (s : Store)
      → is_pos cfg.tokens_per_minute ≡ true
      → let k = tpm_key key now in
        let used = counter k s +ℤ tokens in
        let r = token_allowance redis true key tokens cfg now s in
        let over = ltb_ℤ cfg.tokens_per_minute used in
        (counter k r.1 ≡ (if over then counter k s else used))
        × (r.0 ≡ (if over then err Error.limit_exceeded else ok tt))
  unfolding token_allowance
  token_allowance_lem key tokens cfg now s h =
      let k = tpm_key key now in
      let s₁ = (incr_by k tokens s).1 in
      rw (h, incr_by-ok redis up k tokens s)
        (ground (
          arith,
          counter-expire k k minute s₁,
          counter-incr_by redis up k tokens s,
          counter-incr_by redis up k (neg tokens) s₁,
          counter-incr_by redis up k (neg tokens) (expire k minute s₁),
          add-neg (counter k s) tokens,
        ))
