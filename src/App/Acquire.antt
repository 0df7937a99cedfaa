-- ===== src/App/Acquire.antt =====
-- ResolveRateLimits and AcquireRateLimits of internal/app/container.go. `uuid_string` is
-- uuid.UUID.String; `connected` is false where the limiter is nil.
use Prim.Native.String.{◌++◌}
use open_model_gateway.Base.{
  ℕ, String, Bool, true, false, ◌||◌, is_pos, Option, none, some, Result, ok, err, Error, Act, ◌>>◌,
  after, on_result, return, if◌then◌else◌,
}
use open_model_gateway.RequestContext.{RequestContext}
use open_model_gateway.Limits.Redis.{Redis}
use open_model_gateway.Limits.Limiter.{LimitConfig, allow, release}
use open_model_gateway.App.RateLimits.{RateLimits, effective_rate_limits}

-- The four results of ResolveRateLimits.
pub record Resolved : Type 0 where
  pub key_key : String
  pub key_cfg : LimitConfig
  pub tenant_key : String
  pub tenant_cfg : LimitConfig

-- The results of AcquireRateLimits. The closure `release` is the three flags that it reads;
-- `released` is the state of its sync.Once.
pub record Grant : Type 0 where
  pub resolved : Resolved
  pub open resolved use *
  pub key_acquired : Bool
  pub tenant_acquired : Bool
  pub released : Bool

-- ResolveRateLimits merges the overrides as EffectiveRateLimits does.
unfoldable pub resolve_rate_limits :
    (ℕ → String) → RateLimits → Option RequestContext → String → Result Resolved
resolve_rate_limits uuid_string c none alias = err (Error.message "request context missing")
resolve_rate_limits uuid_string c (some rc) alias =
    let (key_cfg, tenant_cfg) = effective_rate_limits c rc.api_key_prefix rc.tenant_id in
    ok (record {
      key_key = rc.api_key_prefix ++ (":" ++ alias);
      key_cfg = key_cfg;
      tenant_key = uuid_string rc.tenant_id;
      tenant_cfg = tenant_cfg;
    })

abbrev pub key_storage : Resolved → String
key_storage r = "key:" ++ r.key_key

abbrev pub tenant_storage : Resolved → String
tenant_storage r = "tenant:" ++ r.tenant_key

-- cfg.RequestsPerMinute > 0 || cfg.ParallelRequests > 0
abbrev pub is_limited : LimitConfig → Bool
is_limited cfg = is_pos cfg.requests_per_minute || is_pos cfg.parallel_requests

module _ (redis : Redis) where
  open redis use {Store}

  abbrev pub granted : Resolved → Bool → Bool → Grant
  granted r key_acquired tenant_acquired = record {
    resolved = r;
    key_acquired = key_acquired;
    tenant_acquired = tenant_acquired;
    released = false;
  }

  -- The tenant's part of AcquireRateLimits.
  unfoldable pub acquire_tenant : Bool → Resolved → Bool → ℕ → Act Store Grant
  acquire_tenant connected r key_acquired now =
      if is_limited r.tenant_cfg
      then on_result (allow redis connected (tenant_storage r) r.tenant_cfg now)
          (λ _. return (granted r key_acquired true))
          (λ e s. (
            err e,
            if key_acquired then release redis connected (key_storage r) r.key_cfg s else s,
          ))
      else return (granted r key_acquired false)

  unfoldable pub acquire_resolved : Bool → Resolved → ℕ → Act Store Grant
  acquire_resolved connected r now =
      if is_limited r.key_cfg
      then (do
        allow redis connected (key_storage r) r.key_cfg now
        acquire_tenant connected r true now)
      else acquire_tenant connected r false now

  unfoldable pub acquire_rate_limits :
      (ℕ → String) → Bool → RateLimits → Option RequestContext → String → ℕ → Act Store Grant
  acquire_rate_limits uuid_string connected c rc alias now =
      after (λ r. acquire_resolved connected r now) (resolve_rate_limits uuid_string c rc alias)

  -- A call of the closure.
  unfoldable pub release_grant : Bool → Grant → Store → Grant × Store
  release_grant connected g s =
      if g.released
      then (g, s)
      else (let s₁ =
            if g.tenant_acquired
            then release redis connected (tenant_storage g.resolved) g.tenant_cfg s
            else s in
          let s₂ =
            if g.key_acquired
            then release redis connected (key_storage g.resolved) g.key_cfg s₁
            else s₁ in
          (record g { released = true }, s₂))
