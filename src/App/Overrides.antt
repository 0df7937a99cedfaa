-- ===== src/App/Overrides.antt =====
-- How stored settings and overrides come back: internal/app/ratelimits.go and container.go.
use open_model_gateway.Base.{
  ℕ, ◌<◌, String, true, ◌≡◌, refl, ℤ, pos, negsuc, is_pos, Option, none, some, lookup,
  lookup-insert, lookup-delete, ◌==◌, string_eq, nat_eq, arith, ok, is_ok, if◌then◌else◌,
  Bool-cases, inl, inr, pos_part,
}
use open_model_gateway.Limits.Limiter.{LimitConfig}
use open_model_gateway.App.RateLimits.{
  RateLimitConfig, RateLimits, Defaults, to_int32, stored_or, merged, rate_limit_config_from_record,
  update_defaults, update_tenant_rate_limit, effective_rate_limits, all_positive,
}

abbrev pub IsInt32 : ℤ → Type 0
IsInt32 a = pos_part a < 2147483648

stored_or-to_int32 : (a base : ℤ) → is_pos a ≡ true → IsInt32 a → stored_or (to_int32 a) base ≡ a
unfolding stored_or to_int32
stored_or-to_int32 (pos n) base p b = ground arith
stored_or-to_int32 (negsuc n) base p b = ground arith

all_positive-parts :
    (req : RateLimitConfig)
    → all_positive req ≡ true
    → (is_pos req.default_requests_per_minute ≡ true)
      × (is_pos req.default_tokens_per_minute ≡ true)
      × (is_pos req.default_parallel_requests_key ≡ true)
      × (is_pos req.default_parallel_requests_tenant ≡ true)
unfolding all_positive
all_positive-parts req h = ground arith

-- Defaults that `update_defaults` accepts, each below 2^31, are read back from the stored row as
-- they were set, whatever the configuration file says.
pub update_defaults-roundtrip :
    (req base : RateLimitConfig) (s : Defaults)
    → is_ok (update_defaults true (ok tt) req s).0 ≡ true
    → IsInt32 req.default_requests_per_minute
    → IsInt32 req.default_tokens_per_minute
    → IsInt32 req.default_parallel_requests_key
    → IsInt32 req.default_parallel_requests_tenant
    → let s' = (update_defaults true (ok tt) req s).1 in
      (rate_limit_config_from_record base s'.stored ≡ req) × (s'.config ≡ req)
unfolding update_defaults rate_limit_config_from_record
update_defaults-roundtrip req base s h a b c d = elim (Bool-cases (all_positive req)) [
  | inr no_good ↦ cc (rw no_good at h)
  | inl good ↦
      let (p, q, r, t) = all_positive-parts req good in
      rw
        (
          good,
          stored_or-to_int32 _ base.default_requests_per_minute p a,
          stored_or-to_int32 _ base.default_tokens_per_minute q b,
          stored_or-to_int32 _ base.default_parallel_requests_key r c,
          stored_or-to_int32 _ base.default_parallel_requests_tenant t d,
        )
        (refl, refl)
]

-- Setting a tenant's override or clearing it changes the limits of that tenant alone: its limits
-- are then the defaults merged with the override, or the defaults.
pub effective-update_tenant :
    (c : RateLimits) (key_prefix : String) (tenant other : ℕ) (cfg : Option LimitConfig)
    → effective_rate_limits (update_tenant_rate_limit c tenant cfg) key_prefix other ≡ (
      merged c.default_key_limit (lookup key_prefix c.key_rate_limits),
      merged c.default_tenant_limit
          (if tenant == other then cfg else lookup other c.tenant_rate_limits),
    )
unfolding effective_rate_limits update_tenant_rate_limit
effective-update_tenant c key_prefix tenant other none =
    rw (lookup-delete tenant other c.tenant_rate_limits)
effective-update_tenant c key_prefix tenant other (some cfg) =
    rw (lookup-insert tenant other cfg c.tenant_rate_limits)
