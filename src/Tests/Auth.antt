-- ===== src/Tests/Auth.antt =====
-- Examples for accounts, keys and roles.
use open_model_gateway.Base.{
  ℕ, zero, suc, ◌≡◌, ◌<◌, ◌+◌, ◌%◌, refl, String, Bool, true, false, ◌&&◌, leb, none, some, [], ◌∷◌,
  ◌==◌, nat_eq, string_eq, pos, Result, ok, err, Error, Act, if◌then◌else◌, arith, pos_part, first,
}
use open_model_gateway.Auth.ApiKey.{Random, generate_api_key}
use open_model_gateway.Auth.RoundTrip.{LowersAscii, IsReadBack, generate_api_key-roundtrip}
use open_model_gateway.Auth.Tables.{
  Directory, ApiKey, Tenant, User, TenantBudgetOverride, TenantStatus, TenantKind, MembershipRole,
}
use open_model_gateway.Auth.Personal.{ensure_personal_tenant, personal_name}
use open_model_gateway.Auth.PersonalTenants.{
  Refuses, ensure_personal_tenant-atomic, ensure_personal_tenant-conflict,
}
use open_model_gateway.Auth.Queries.{Kept}
use open_model_gateway.Auth.Context.{Container, build_request_context}
use open_model_gateway.Auth.Middleware.{api_key_auth}
use open_model_gateway.Auth.Admission.{Admitted, Decided, api_key_auth-Decided}
use open_model_gateway.Auth.Grants.{HasLimit, build_request_context-inexact}
use open_model_gateway.Tests.World.{same, show_id}

-- unicode.ToLower on the ASCII letters.
abbrev lower : ℕ → ℕ
lower c = if leb 65 c && leb c 90 then c + 32 else c

lower-LowersAscii : LowersAscii lower
lower-LowersAscii c h = refl

-- A source that always draws 0.
abbrev draw_zero : ℕ → Act ℕ ℕ
draw_zero zero s = (err (Error.message "argument to Int is <= 0"), s)
draw_zero (suc n) s = (ok 0, suc s)

draw_zero-lt : (n k : ℕ) (s : ℕ) → (draw_zero n s).0 ≡ ok k → k < n
draw_zero-lt zero k s h = ground (arith, h)
draw_zero-lt (suc n) k s h = ground (arith, h)

abbrev zeros : Random
zeros = record { Source = ℕ; below = draw_zero; below-lt = draw_zero-lt }

generate_api_key-roundtrip_example :
    IsReadBack lower lower-LowersAscii zeros (generate_api_key zeros 0)
generate_api_key-roundtrip_example = generate_api_key-roundtrip lower lower-LowersAscii zeros 0

abbrev organization : Tenant
organization = record {
  id = 7;
  name = "acme";
  status = TenantStatus.active;
  kind = TenantKind.organization;
}

-- A tenant that has the name of the user's personal tenant already.
abbrev squatter : Tenant
squatter = record {
  id = 8;
  name = "personal:t";
  status = TenantStatus.active;
  kind = TenantKind.personal;
}

abbrev account : User
account = record { id = 5; email = "ann@example.org"; personal_tenant_id = none }

abbrev key : ApiKey
key = record {
  id = 3;
  tenant_id = some 7;
  prefix = "aaaaaaaaaa";
  secret_hash = "hash";
  scopes_json = "";
  quota_json = "";
  owner_user_id = some 5;
  revoked_at = none;
  last_used_at = none;
}

-- 10.10 USD, and a warning at 0.8.
abbrev override : TenantBudgetOverride
override = record {
  tenant_id = 7;
  budget_usd = pos 10100000;
  warning_threshold = pos 800000;
  refresh_schedule = "weekly";
  alert_emails = [];
  alert_webhooks = [];
  alert_cooldown_seconds = pos 0;
  last_alert_at = none;
  last_alert_level = none;
}

abbrev directory : Directory
directory = record {
  rows = record {
    api_keys = key ∷ [];
    tenants = organization ∷ squatter ∷ [];
    users = account ∷ [];
    memberships =
        record { tenant_id = 7; user_id = 5; role = MembershipRole.user }
        ∷ record { tenant_id = 8; user_id = 5; role = MembershipRole.admin }
        ∷ [];
    default_models = "gpt" ∷ [];
    tenant_models = [];
    budget_overrides = override ∷ [];
    next_id = 9;
  };
  access = [];
  faults = [];
  in_tx = false;
  aborted = false;
}

-- A number of millionths is a float64 when it is divisible by 5 ^ 6.
abbrev container : Container
container = record {
  budgets = record {
    default_usd = pos 500000000;
    warning_threshold_perc = pos 750000;
    refresh_schedule = "calendar_month";
    alerts_enabled = false;
    alert_emails = [];
    alert_webhooks = [];
    alert_cooldown = pos 60;
  };
  accounts = true;
  to_lower = same;
  uuid_string = show_id;
  normalize = same;
  exact = λ millionths. pos_part millionths % 15625 == 0;
  decode_scopes = λ json. none;
  decode_quota = λ json. (pos 0, pos 0);
}

-- The secret is "s3".
abbrev verify : String → String → Result Bool
verify secret hash = ok (secret == "s3")

-- Lookups of the examples.
user_found : first (λ any. any.id == 5) directory.rows.users ≡ some account
unfolding first
user_found = refl

tenant_found :
    first (λ any. any.name == personal_name same show_id 5) directory.rows.tenants ≡ some squatter
unfolding first personal_name
tenant_found = refl

override_found : first (λ any. any.tenant_id == 7) directory.rows.budget_overrides ≡ some override
unfolding first
override_found = refl

no_nil_tenant : first (λ row. row.id == 0) directory.rows.tenants ≡ none
unfolding first
no_nil_tenant = refl

ensure_personal_tenant-atomic_example :
    Kept directory
      (ensure_personal_tenant same show_id account directory).0
      (ensure_personal_tenant same show_id account directory).1
ensure_personal_tenant-atomic_example = ensure_personal_tenant-atomic same show_id account directory

ensure_personal_tenant-conflict_example :
    Refuses directory
      (ensure_personal_tenant same show_id account directory).0
      (ensure_personal_tenant same show_id account directory).1
ensure_personal_tenant-conflict_example =
    ensure_personal_tenant-conflict same show_id account account squatter directory refl refl
      user_found tenant_found

api_key_auth-Decided_example :
    Decided
      (Admitted container lower verify "Bearer sk-aaaaaaaaaa.s3" directory.rows)
      directory.rows
      (api_key_auth container lower verify 99 "Bearer sk-aaaaaaaaaa.s3" directory).0
      (api_key_auth container lower verify 99 "Bearer sk-aaaaaaaaaa.s3" directory).1
api_key_auth-Decided_example =
    api_key_auth-Decided container lower verify 99 "Bearer sk-aaaaaaaaaa.s3" directory no_nil_tenant

build_request_context-inexact_example :
    HasLimit container (pos 50000) (build_request_context container key directory).0
build_request_context-inexact_example =
    build_request_context-inexact container key 7 override directory (refl, refl) refl refl
      override_found refl refl
