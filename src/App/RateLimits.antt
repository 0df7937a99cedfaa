-- ===== src/App/RateLimits.antt =====
-- Rate limit settings: internal/app/ratelimits.go, the limit maps of internal/app/container.go and
-- internal/services/adminratelimit/service.go. A tenant id is the number of its UUID; a pgtype.UUID
-- is `none` where it is not valid. Go's `int` is unbounded, and int32 conversions wrap.
use open_model_gateway.Base.{
  ℕ, ◌-◌, ◌%◌, String, Bool, not, ◌&&◌, ℤ, pos, negsuc, ltb_ℤ, is_pos, ltb, Option, none, some,
  List, [], ◌∷◌, GoMap, lookup, insert, delete, trim_space, ◌==◌, string_eq, nat_eq, Result, ok,
  err, Error, Act, if◌then◌else◌, trim_space,
}
use open_model_gateway.Limits.Limiter.{LimitConfig}

pub record RateLimitConfig : Type 0 where
  pub default_requests_per_minute : ℤ
  pub default_tokens_per_minute : ℤ
  pub default_parallel_requests_key : ℤ
  pub default_parallel_requests_tenant : ℤ

-- db.RateLimitDefault: the stored row, of int32 columns.
pub record RateLimitDefault : Type 0 where
  pub requests_per_minute : ℤ
  pub tokens_per_minute : ℤ
  pub parallel_requests_key : ℤ
  pub parallel_requests_tenant : ℤ

-- int32(n)
abbrev pub int32_of : ℕ → ℤ
int32_of m = if ltb m 2147483648 then pos m else negsuc (4294967295 - m)

unfoldable pub to_int32 : ℤ → ℤ
to_int32 (pos n) = int32_of (n % 4294967296)
to_int32 (negsuc n) = int32_of (4294967295 - n % 4294967296)

-- base, or the stored value where it is not negative
unfoldable pub stored_or : ℤ → ℤ → ℤ
stored_or stored base = if ltb_ℤ stored (pos 0) then base else stored

unfoldable pub rate_limit_config_from_record : RateLimitConfig → RateLimitDefault → RateLimitConfig
rate_limit_config_from_record base row = record {
  default_requests_per_minute = stored_or row.requests_per_minute base.default_requests_per_minute;
  default_tokens_per_minute = stored_or row.tokens_per_minute base.default_tokens_per_minute;
  default_parallel_requests_key =
      stored_or row.parallel_requests_key base.default_parallel_requests_key;
  default_parallel_requests_tenant =
      stored_or row.parallel_requests_tenant base.default_parallel_requests_tenant;
}

-- The part of app.Container that holds rate limits.
pub record RateLimits : Type 0 where
  pub config : RateLimitConfig
  pub default_key_limit : LimitConfig
  pub default_tenant_limit : LimitConfig
  pub key_rate_limits : GoMap String LimitConfig
  pub tenant_rate_limits : GoMap ℕ LimitConfig

unfoldable pub update_rate_limit_config : RateLimits → RateLimitConfig → RateLimits
update_rate_limit_config c cfg = record c {
  config = cfg;
  default_key_limit = record {
    requests_per_minute = cfg.default_requests_per_minute;
    tokens_per_minute = cfg.default_tokens_per_minute;
    parallel_requests = cfg.default_parallel_requests_key;
  };
  default_tenant_limit = record {
    requests_per_minute = cfg.default_requests_per_minute;
    tokens_per_minute = cfg.default_tokens_per_minute;
    parallel_requests = cfg.default_parallel_requests_tenant;
  };
}

unfoldable pub update_tenant_rate_limit : RateLimits → ℕ → Option LimitConfig → RateLimits
update_tenant_rate_limit c tenant_id none = record c {
  tenant_rate_limits = delete tenant_id c.tenant_rate_limits;
}
update_tenant_rate_limit c tenant_id (some cfg) = record c {
  tenant_rate_limits = insert tenant_id cfg c.tenant_rate_limits;
}

unfoldable pub update_api_key_rate_limit : RateLimits → String → Option LimitConfig → RateLimits
update_api_key_rate_limit c key_prefix none = record c {
  key_rate_limits = delete key_prefix c.key_rate_limits;
}
update_api_key_rate_limit c key_prefix (some cfg) = record c {
  key_rate_limits = insert key_prefix cfg c.key_rate_limits;
}

abbrev pub override_or : ℤ → ℤ → ℤ
override_or override base = if is_pos override then override else base

unfoldable pub merge_limit_configs : LimitConfig → LimitConfig → LimitConfig
merge_limit_configs base override = record {
  requests_per_minute = override_or override.requests_per_minute base.requests_per_minute;
  tokens_per_minute = override_or override.tokens_per_minute base.tokens_per_minute;
  parallel_requests = override_or override.parallel_requests base.parallel_requests;
}

abbrev pub merged : LimitConfig → Option LimitConfig → LimitConfig
merged base none = base
merged base (some override) = merge_limit_configs base override

-- The key's limits and the tenant's.
unfoldable pub effective_rate_limits : RateLimits → String → ℕ → LimitConfig × LimitConfig
effective_rate_limits c key_prefix tenant_id = (
  merged c.default_key_limit (lookup key_prefix c.key_rate_limits),
  merged c.default_tenant_limit (lookup tenant_id c.tenant_rate_limits),
)

-- db.ListTenantRateLimitsRow and db.ListAPIKeyRateLimitsRow, of int32 columns.
pub record TenantLimitRow : Type 0 where
  pub tenant_id : Option ℕ
  pub limits : LimitConfig

pub record KeyLimitRow : Type 0 where
  pub key_prefix : String
  pub limits : LimitConfig

add_tenant_row : TenantLimitRow → Option ℕ → GoMap ℕ LimitConfig → GoMap ℕ LimitConfig
add_tenant_row row none result = result
add_tenant_row row (some tenant_id) result = insert tenant_id row.limits result

unfoldable pub tenant_overrides : List TenantLimitRow → GoMap ℕ LimitConfig → GoMap ℕ LimitConfig
unfolding add_tenant_row
tenant_overrides [] result = result
tenant_overrides (row ∷ rows) result =
    tenant_overrides rows (add_tenant_row row row.tenant_id result)

-- The rows, or the error of the query; `none` where `queries` is nil.
unfoldable pub load_tenant_rate_limit_overrides :
    Option (Result (List TenantLimitRow)) → Result (GoMap ℕ LimitConfig)
load_tenant_rate_limit_overrides none = ok []
load_tenant_rate_limit_overrides (some (err e)) = err e
load_tenant_rate_limit_overrides (some (ok rows)) = ok (tenant_overrides rows [])

unfoldable pub key_overrides :
    List KeyLimitRow → GoMap String LimitConfig → GoMap String LimitConfig
key_overrides [] result = result
key_overrides (row ∷ rows) result =
    let key = trim_space row.key_prefix in
    key_overrides rows (if key == "" then result else insert key row.limits result)

unfoldable pub load_api_key_rate_limit_overrides :
    Option (Result (List KeyLimitRow)) → Result (GoMap String LimitConfig)
load_api_key_rate_limit_overrides none = ok []
load_api_key_rate_limit_overrides (some (err e)) = err e
load_api_key_rate_limit_overrides (some (ok rows)) = ok (key_overrides rows [])

-- The stored row and the configuration in memory.
pub record Defaults : Type 0 where
  pub stored : RateLimitDefault
  pub config : RateLimitConfig

-- adminratelimit.Service.UpdateDefaults; the reply of the database is an argument, and `ready` is
-- false where the service is not initialised.
unfoldable pub all_positive : RateLimitConfig → Bool
all_positive req =
    is_pos req.default_requests_per_minute
    && is_pos req.default_tokens_per_minute
    && is_pos req.default_parallel_requests_key
    && is_pos req.default_parallel_requests_tenant

unfoldable pub update_defaults :
    (ready : Bool) (reply : Result (Unit {0})) → RateLimitConfig → Act Defaults RateLimitConfig
update_defaults ready reply req s =
    if not ready
    then (err (Error.message "admin rate limit service not initialized"), s)
    else (if not (all_positive req)
        then (err (Error.message "rate limit values must be positive"), s)
        else elim reply [
          | err e ↦ (err e, s)
          | ok _ ↦ (
            ok req,
            record {
              stored = record {
                requests_per_minute = to_int32 req.default_requests_per_minute;
                tokens_per_minute = to_int32 req.default_tokens_per_minute;
                parallel_requests_key = to_int32 req.default_parallel_requests_key;
                parallel_requests_tenant = to_int32 req.default_parallel_requests_tenant;
              };
              config = req;
            },
          )
        ])
