-- ===== src/Auth/Middleware.antt =====
-- apiKeyAuth of httpserver/public/api_middleware.go. `verify` is auth.VerifyPassword, an argon2id
-- comparison; an HTTP error is `Error.api` with its status and message.
use open_model_gateway.Base.{
  ℕ, String, Bool, true, false, not, Option, none, some, ◌==◌, string_eq, Result, ok, err, Error,
  error_text, Act, ◌>>=◌, ◌>>◌, return, fail, on_result, if◌then◌else◌,
}
use open_model_gateway.RequestContext.{RequestContext}
use open_model_gateway.Auth.ApiKey.{header_key}
use open_model_gateway.Auth.Tables.{
  Directory, ApiKey, Tenant, TenantStatus, is_no_rows, query, get_api_key_by_prefix,
  get_tenant_by_id, update_api_key_last_used,
}
use open_model_gateway.Auth.Context.{Container, build_request_context}

abbrev pub is_active : TenantStatus → Bool
is_active TenantStatus.active = true
is_active TenantStatus.suspended = false

abbrev pub is_some {ℓ} : {A : Type ℓ} → Option A → Bool
is_some none = false
is_some (some a) = true

-- The answer to a failed lookup.
abbrev pub lookup_failed : String → String → Error → Error
lookup_failed missing failed e =
    if is_no_rows e then Error.api 401 missing else Error.api 500 failed

abbrev pub or_status : {A S : Type 0} → Act S A → (Error → Error) → Act S A
or_status run f = on_result run return (λ e. fail (f e))

abbrev pub refuse_if : {S : Type 0} → Bool → ℕ → String → Act S (Unit {0})
refuse_if refused status text = if refused then fail (Error.api status text) else return tt

unfoldable pub check_secret : Result Bool → Act Directory (Unit {0})
check_secret (err e) = fail (Error.api 500 "api key verification failed")
check_secret (ok false) = fail (Error.api 401 "invalid api key")
check_secret (ok true) = return tt

module _ (container : Container) (lower : ℕ → ℕ) (verify : String → String → Result Bool) where
  -- The checks of the key's row.
  abbrev pub key_checks : String → ApiKey → Act Directory Tenant
  key_checks secret key =
      refuse_if (is_some key.revoked_at) 401 "api key revoked"
      >> refuse_if (key.secret_hash == "") 401 "api key invalid"
      >> check_secret (verify secret key.secret_hash)
      >> or_status (query (get_tenant_by_id key.tenant_id))
          (lookup_failed "tenant not found" "tenant lookup failed")

  -- The check of the tenant, and the context.
  abbrev pub build_for : ApiKey → Tenant → Act Directory RequestContext
  build_for key tenant =
      refuse_if (not (is_active tenant.status)) 403 "tenant is not active"
      >> or_status (build_request_context container key) (λ e. Error.api 500 (error_text e))

  abbrev pub touch_key : ℕ → ApiKey → Act Directory (Unit {0})
  touch_key now key =
      or_status (query (update_api_key_last_used now key.id))
        (λ e. Error.api 500 "failed to update key usage")

  -- After the key's row is read.
  unfoldable pub admit : ℕ → String → ApiKey → Act Directory RequestContext
  admit now secret key = key_checks secret key >>= λ tenant.
      build_for key tenant >>= λ rc. touch_key now key >> return rc

  unfoldable pub with_key : ℕ → Result (String × String) → Act Directory RequestContext
  with_key now (err e) = fail (Error.api 401 (error_text e))
  with_key now (ok (prefix, secret)) =
      or_status (query (get_api_key_by_prefix prefix))
        (lookup_failed "invalid api key" "api key lookup failed")
      >>= admit now secret

  unfoldable pub api_key_auth : ℕ → String → Act Directory RequestContext
  api_key_auth now header = with_key now (header_key lower header)
