-- ===== src/App/Leases.antt =====
-- The slots that AcquireRateLimits takes and that its closure gives back.
use open_model_gateway.Base.{
  ℕ, String, Bool, true, false, ◌&&◌, is_pos, Option, Result, ok, err, Result-cases, negsuc, arith,
  if◌then◌else◌, ◌≡◌, refl, ◌∙◌, ap, Bool-cases, inl, inr,
}
use open_model_gateway.RequestContext.{RequestContext}
use open_model_gateway.Limits.Redis.{Redis, plain}
use open_model_gateway.Limits.Limiter.{LimitConfig, allow, release, sem_key}
use open_model_gateway.Limits.Counters.{Up, dec-inc}
use open_model_gateway.Limits.Semaphore.{shift, key_beq, allow-slots, release-slots}
use open_model_gateway.App.RateLimits.{RateLimits}
use open_model_gateway.App.Acquire.{
  Resolved, Grant, acquire_rate_limits, acquire_resolved, acquire_tenant, release_grant, granted,
  key_storage, tenant_storage, is_limited, resolve_rate_limits,
}

module _ (redis : Redis) (up : Up redis) where
  open redis use {Store, counter}

  -- The slot counter `name` once the grant is released, or at once after an error.
  abbrev pub settled : Bool → Result Grant × Store → Store
  settled connected (ok g, s) = (release_grant redis connected g s).1
  settled connected (err e, s) = s

  -- Whether a slot of the storage key is the counter `name`.
  abbrev slot_of : Bool → String → LimitConfig → String → Bool
  slot_of connected storage cfg name =
      connected && is_pos cfg.parallel_requests && key_beq (sem_key storage) (plain name)

  abbrev key_slot : Bool → Resolved → String → Bool
  key_slot connected r name = slot_of connected (key_storage r) r.key_cfg name

  abbrev tenant_slot : Bool → Resolved → String → Bool
  tenant_slot connected r name = slot_of connected (tenant_storage r) r.tenant_cfg name

  grant_settled :
      (connected : Bool) (r : Resolved) (key_acquired tenant_acquired : Bool) (name : String)
      (s : Store)
      → counter
          (plain name)
          (release_grant redis connected (granted redis r key_acquired tenant_acquired) s).1
        ≡ shift (key_acquired && key_slot connected r name) (negsuc 0) (
            shift
              (tenant_acquired && tenant_slot connected r name)
              (negsuc 0)
              (counter (plain name) s))
  unfolding release_grant
  grant_settled connected r true true name s =
      let given = release redis connected (tenant_storage r) r.tenant_cfg s in
      release-slots redis up connected (key_storage r) name r.key_cfg given
      ∙ ap (shift (key_slot connected r name) (negsuc 0))
          (release-slots redis up connected (tenant_storage r) name r.tenant_cfg s)
  grant_settled connected r true false name s =
      release-slots redis up connected (key_storage r) name r.key_cfg s
  grant_settled connected r false true name s =
      release-slots redis up connected (tenant_storage r) name r.tenant_cfg s
  grant_settled connected r false false name s = refl

  key_settled :
      (connected : Bool) (r : Resolved) (key_acquired : Bool) (name : String) (s : Store)
      → counter
          (plain name)
          (if key_acquired then release redis connected (key_storage r) r.key_cfg s else s)
        ≡ shift (key_acquired && key_slot connected r name) (negsuc 0) (counter (plain name) s)
  key_settled connected r true name s =
      release-slots redis up connected (key_storage r) name r.key_cfg s
  key_settled connected r false name s = refl

  tenant_settled :
      (connected : Bool) (r : Resolved) (key_acquired : Bool) (now : ℕ) (name : String) (s : Store)
      → counter
          (plain name)
          (settled connected (acquire_tenant redis connected r key_acquired now s))
        ≡ shift (key_acquired && key_slot connected r name) (negsuc 0) (counter (plain name) s)
  unfolding acquire_tenant
  tenant_settled connected r key_acquired now name s =
      let asked = allow redis connected (tenant_storage r) r.tenant_cfg now s in
      let slots = allow-slots redis up connected (tenant_storage r) name r.tenant_cfg now s in
      elim (Bool-cases (is_limited r.tenant_cfg)) [
        | inr free ↦ rw (free, acquire_tenant) (grant_settled connected r key_acquired false name s)
        | inl limited ↦ elim (Result-cases asked.0) [
          | inl (u, e) ↦
              rw (limited, e)
                (grant_settled connected r key_acquired true name asked.1
                  ∙ ap (shift (key_acquired && key_slot connected r name) (negsuc 0))
                      (ground (arith, dec-inc (counter (plain name) s))))
          | inr (x, e) ↦
              rw (limited, e)
                (key_settled connected r key_acquired name asked.1
                  ∙ ap (shift (key_acquired && key_slot connected r name) (negsuc 0))
                      (ground arith))
        ]
      ]

  resolved_settled :
      (connected : Bool) (r : Resolved) (now : ℕ) (name : String) (s : Store)
      → counter (plain name) (settled connected (acquire_resolved redis connected r now s))
        ≡ counter (plain name) s
  unfolding acquire_resolved
  resolved_settled connected r now name s =
      let asked = (allow redis connected (key_storage r) r.key_cfg now s).1 in
      ground (
        arith,
        allow-slots redis up connected (key_storage r) name r.key_cfg now s,
        tenant_settled connected r true now name asked,
        tenant_settled connected r false now name s,
        dec-inc (counter (plain name) s),
      )

  -- While Redis answers, an acquisition that fails leaves every slot counter as it was, and one that
  -- succeeds leaves it so once the closure has run; a second run of the closure changes nothing.
  pub acquire_balanced :
      (uuid_string : ℕ → String) (connected : Bool) (c : RateLimits) (rc : Option RequestContext)
      (alias name : String) (now : ℕ) (s : Store)
      → (counter
            (plain name)
            (settled connected (acquire_rate_limits redis uuid_string connected c rc alias now s))
          ≡ counter (plain name) s)
        × ((g : Grant) (t : Store)
            → let once = release_grant redis connected g t in
              release_grant redis connected once.0 once.1 ≡ once)
  unfolding acquire_rate_limits release_grant
  acquire_balanced uuid_string connected c rc alias name now s = (
    elim (Result-cases (resolve_rate_limits uuid_string c rc alias)) [
      | inl (r, e) ↦ rw (e, acquire_rate_limits) (resolved_settled connected r now name s)
      | inr (x, e) ↦ rw (e, acquire_rate_limits) refl
    ],
    λ g t. elim (Bool-cases g.released) [ inl done ↦ ground arith | inr open_grant ↦ ground arith ],
  )
