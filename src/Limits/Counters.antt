-- ===== src/Limits/Counters.antt =====
-- What one Redis call does to the counters while Redis answers.
use open_model_gateway.Base.{
  ◌≡◌, refl, ◌∙◌, ap, true, ℤ, pos, negsuc, neg, ◌+ℤ◌, Result, ok, err, is_ok, ◌≢◌, int_laws,
}
use open_model_gateway.Limits.Redis.{Redis, RedisKey}

-- Redis answers every call.
abbrev pub Up : Redis → Type 0
Up redis = (k : RedisKey) (d : ℤ) (s : redis.Store) → is_ok (redis.incr_by k d s).0 ≡ true

ok_of_is_ok : (r : Result ℤ) → is_ok r ≡ true → (v : ℤ) × (r ≡ ok v)
ok_of_is_ok (ok v) h = (v, refl)
ok_of_is_ok (err e) h = cc

module _ (redis : Redis) (up : Up redis) where
  open redis use {Store, counter, incr_by, incr_by-value, incr_by-other}

  pub incr_by-ok : (k : RedisKey) (d : ℤ) (s : Store) → (incr_by k d s).0 ≡ ok (counter k s +ℤ d)
  incr_by-ok k d s =
      let (v, e) = ok_of_is_ok (incr_by k d s).0 (up k d s) in e ∙ ap ok (incr_by-value k d s e).0

  pub counter-incr_by :
      (k : RedisKey) (d : ℤ) (s : Store) → counter k (incr_by k d s).1 ≡ counter k s +ℤ d
  counter-incr_by k d s = (incr_by-value k d s (incr_by-ok k d s)).1

  pub counter-incr_by_ne :
      (k j : RedisKey) (d : ℤ) (s : Store) → k ≢ j → counter j (incr_by k d s).1 ≡ counter j s
  counter-incr_by_ne k j d s h = incr_by-other k j d s (incr_by-ok k d s) h

pub add-neg : (a b : ℤ) → a +ℤ b +ℤ neg b ≡ a
add-neg a b = omega int_laws

pub dec-inc : (a : ℤ) → a +ℤ pos 1 +ℤ negsuc 0 ≡ a
dec-inc a = omega int_laws
