-- ===== src/Limits/Semaphore.antt =====
-- The concurrency slots: what `semaphore_acquire`, `allow` and `release` do to every counter that
-- holds slots.
use open_model_gateway.Base.{
  ℕ, ◌/◌, ◌≡◌, refl, Bool, true, false, not, ◌&&◌, String, ℤ, pos, negsuc, ◌+ℤ◌, ltb_ℤ, is_pos, ok,
  err, Error, is_ok, arith, if◌then◌else◌, Bool-cases, inl, inr, ◌==◌, string_eq, nat_eq, ◌↔◌,
}
use text.Mathlib.TextEquality.{eq_iff}
use open_model_gateway.Limits.Redis.{Redis, RedisKey, plain, window}
use open_model_gateway.Limits.Limiter.{
  LimitConfig, count_check, semaphore_acquire, semaphore_release, allow, release, sem_key, rpm_key,
  minute, expire_if,
}
use open_model_gateway.Limits.Counters.{
  Up, incr_by-ok, counter-incr_by, counter-incr_by_ne, dec-inc,
}

abbrev pub key_beq : RedisKey → RedisKey → Bool
key_beq (plain a) (plain b) = a == b
key_beq (window a m) (window b n) = a == b && m == n
key_beq (plain a) (window b n) = false
key_beq (window a m) (plain b) = false

pub key_beq_iff : (a b : RedisKey) → (key_beq a b ≡ true) ↔ (a ≡ b)
key_beq_iff (plain a) (plain b) = ground (arith, eq_iff a b)
key_beq_iff (window a m) (window b n) = ground (arith, eq_iff a b)
key_beq_iff (plain a) (window b n) = ground arith
key_beq_iff (window a m) (plain b) = ground arith

-- The count with `d` more in it, where the test holds.
abbrev pub shift : Bool → ℤ → ℤ → ℤ
shift hit d c = if hit then c +ℤ d else c

module _ (redis : Redis) (up : Up redis) where
  open redis use {Store, counter, incr_by, expire, counter-expire}

  pub counter-incr_by_any :
      (k j : RedisKey) (d : ℤ) (s : Store)
      → counter j (incr_by k d s).1 ≡ shift (key_beq k j) d (counter j s)
  counter-incr_by_any k j d s = elim (Bool-cases (key_beq k j)) [
    | inl e ↦ rw (e, ← (key_beq_iff k j).0 e) (counter-incr_by redis up k d s)
    | inr e ↦ rw e (counter-incr_by_ne redis up k j d s (λ p. cc (e, (key_beq_iff k j).1 p)))
  ]

  counter-expire_if :
      (j k : RedisKey) (fresh : Bool) (ttl : ℕ) (s : Store)
      → counter j (expire_if redis fresh k ttl s).1 ≡ counter j s
  counter-expire_if j k true ttl s = counter-expire k j ttl s
  counter-expire_if j k false ttl s = refl

  -- While Redis answers, a slot is taken exactly when there is room for it, and a refused attempt
  -- leaves every counter as it was.
  pub semaphore_acquire_lem :
      (k j : RedisKey) (max : ℤ) (s : Store)
      → let r = semaphore_acquire redis k max s in
        let over = ltb_ℤ max (counter k s +ℤ pos 1) in
        (r.0 ≡ (if over then err Error.limit_exceeded else ok tt))
        × (counter j r.1 ≡ shift (not over && key_beq k j) (pos 1) (counter j s))
  unfolding semaphore_acquire
  semaphore_acquire_lem k j max s =
      let s₁ = (incr_by k (pos 1) s).1 in
      rw (incr_by-ok redis up k (pos 1) s) (
        ground (
          arith,
          counter-expire k j 300 s₁,
          counter-incr_by_any k j (pos 1) s,
          counter-incr_by_any k j (negsuc 0) s₁,
          counter-incr_by_any k j (negsuc 0) (expire k 300 s₁),
          dec-inc (counter j s),
        ))

  semaphore_release_lem :
      (k j : RedisKey) (s : Store)
      → counter j (semaphore_release redis k s) ≡ shift (key_beq k j) (negsuc 0) (counter j s)
  unfolding semaphore_release
  semaphore_release_lem k j s = counter-incr_by_any k j (negsuc 0) s

  count_check-plain :
      (key name : String) (limit : ℤ) (now : ℕ) (s : Store)
      → counter (plain name) (count_check redis key minute limit now s).1 ≡ counter (plain name) s
  unfolding count_check
  count_check-plain key name limit now s =
      let k = window key (now / minute) in
      let s₁ = (incr_by k (pos 1) s).1 in
      rw (incr_by-ok redis up k (pos 1) s) (
        ground (
          arith,
          counter-expire k (plain name) minute s₁,
          counter-incr_by_any k (plain name) (pos 1) s,
        ))

  -- While Redis answers, `allow` takes one slot of its key if it succeeds and slots are limited;
  -- otherwise it leaves every slot counter as it was.
  pub allow-slots :
      (connected : Bool) (key name : String) (cfg : LimitConfig) (now : ℕ) (s : Store)
      → let r = allow redis connected key cfg now s in
        counter (plain name) r.1
        ≡ shift
            (connected
              && is_ok r.0
              && is_pos cfg.parallel_requests
              && key_beq (sem_key key) (plain name))
            (pos 1)
            (counter (plain name) s)
  unfolding allow
  allow-slots false key name cfg now s = refl
  allow-slots true key name cfg now s =
      let s₁ = (count_check redis (rpm_key key) minute cfg.requests_per_minute now s).1 in
      ground (
        arith,
        count_check-plain (rpm_key key) name cfg.requests_per_minute now s,
        semaphore_acquire_lem (sem_key key) (plain name) cfg.parallel_requests s,
        semaphore_acquire_lem (sem_key key) (plain name) cfg.parallel_requests s₁,
      )

  -- `release` gives the slot back.
  pub release-slots :
      (connected : Bool) (key name : String) (cfg : LimitConfig) (s : Store)
      → counter (plain name) (release redis connected key cfg s)
        ≡ shift
            (connected && is_pos cfg.parallel_requests && key_beq (sem_key key) (plain name))
            (negsuc 0)
            (counter (plain name) s)
  unfolding release
  release-slots false key name cfg s = refl
  release-slots true key name cfg s =
      ground (arith, semaphore_release_lem (sem_key key) (plain name) s)

pub key_beq_refl : (k : RedisKey) → key_beq k k ≡ true
key_beq_refl k = (key_beq_iff k k).1 refl
