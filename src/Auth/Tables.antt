-- ===== src/Auth/Tables.antt =====
-- The tables behind accounts and keys, and the queries of internal/db on them: api_keys.sql.go,
-- tenants.sql.go, users.sql.go, memberships.sql.go, tenant_models.sql.go, budget.sql.go. Columns that
-- this code does not read are left out. A row's UUID is a number. `faults` says of each coming query
-- whether the connection fails; past its end no query does.
use open_model_gateway.Base.{
  ℕ, suc, ℤ, String, Bool, true, false, ◌&&◌, not, Option, none, some, List, [], ◌∷◌, ◌==◌,
  string_eq, nat_eq, Result, ok, err, Error, Act, if◌then◌else◌, update, first, select,
}
use open_model_gateway.App.ModelAccess.{Access}

pub data TenantStatus : Type 0 where
  active suspended : TenantStatus

pub data TenantKind : Type 0 where
  organization personal : TenantKind

pub data MembershipRole : Type 0 where
  owner admin viewer user : MembershipRole

pub record ApiKey : Type 0 where
  pub id : ℕ
  pub tenant_id : Option ℕ
  pub prefix : String
  pub secret_hash : String
  pub scopes_json : String
  pub quota_json : String
  pub owner_user_id : Option ℕ
  pub revoked_at : Option ℕ
  pub last_used_at : Option ℕ

pub record Tenant : Type 0 where
  pub id : ℕ
  pub name : String
  pub status : TenantStatus
  pub kind : TenantKind

pub record User : Type 0 where
  pub id : ℕ
  pub email : String
  pub personal_tenant_id : Option ℕ

pub record TenantMembership : Type 0 where
  pub tenant_id : ℕ
  pub user_id : ℕ
  pub role : MembershipRole

-- The decimals in millionths, the cooldown in seconds.
pub record TenantBudgetOverride : Type 0 where
  pub tenant_id : ℕ
  pub budget_usd : ℤ
  pub warning_threshold : ℤ
  pub refresh_schedule : String
  pub alert_emails : List String
  pub alert_webhooks : List String
  pub alert_cooldown_seconds : ℤ
  pub last_alert_at : Option ℕ
  pub last_alert_level : Option String

pub record Rows : Type 0 where
  pub api_keys : List ApiKey
  pub tenants : List Tenant
  pub users : List User
  pub memberships : List TenantMembership
  pub default_models : List String
  pub tenant_models : List (ℕ × String)
  pub budget_overrides : List TenantBudgetOverride
  pub next_id : ℕ

-- The database with its connection, and the map of models in memory. `aborted` is Postgres's state of
-- a transaction after a statement of it has failed.
pub record Directory : Type 0 where
  pub rows : Rows
  pub access : Access
  pub faults : List (Option Error)
  pub in_tx : Bool
  pub aborted : Bool

-- SQLSTATE 23505 and 25P02.
abbrev pub unique_violation : Error
unique_violation = Error.outside "23505"

abbrev pub in_failed_transaction : Error
in_failed_transaction = Error.outside "25P02"

abbrev pub is_unique_violation : Error → Bool
is_unique_violation (Error.outside code) = code == "23505"
is_unique_violation _ = false

abbrev pub is_no_rows : Error → Bool
is_no_rows Error.no_rows = true
is_no_rows _ = false

-- A failed statement changes no row, and aborts the transaction that it stands in.
unfoldable pub answered : {A : Type 0} → Result A → Rows → Directory → Result A × Directory
answered (ok a) rows s = (ok a, record s { rows = rows })
answered (err e) rows s = (err e, if is_no_rows e then s else record s { aborted = s.in_tx })

unfoldable pub asked :
    {A : Type 0} → Act Rows A → List (Option Error) → Directory → Result A × Directory
asked run [] s = answered (run s.rows).0 (run s.rows).1 s
asked run (none ∷ later) s = answered (run s.rows).0 (run s.rows).1 (record s { faults = later })
asked run (some e ∷ later) s = (err e, record s { faults = later; aborted = s.in_tx })

-- One query on the connection.
unfoldable pub query : {A : Type 0} → Act Rows A → Act Directory A
query run s = if s.aborted then (err in_failed_transaction, s) else asked run s.faults s

abbrev pub found {ℓ} : {A : Type ℓ} {S : Type 0} → Option A → Act S A
found none s = (err Error.no_rows, s)
found (some a) s = (ok a, s)

unfoldable pub get_api_key_by_prefix : String → Act Rows ApiKey
get_api_key_by_prefix prefix s = found (first (λ key. key.prefix == prefix) s.api_keys) s

unfoldable pub get_api_key_by_id : ℕ → Act Rows ApiKey
get_api_key_by_id id s = found (first (λ key. key.id == id) s.api_keys) s

unfoldable pub get_tenant_by_id : Option ℕ → Act Rows Tenant
get_tenant_by_id none s = (err Error.no_rows, s)
get_tenant_by_id (some id) s = found (first (λ tenant. tenant.id == id) s.tenants) s

unfoldable pub get_tenant_by_name : String → Act Rows Tenant
get_tenant_by_name name s = found (first (λ tenant. tenant.name == name) s.tenants) s

unfoldable pub get_user_by_id : Option ℕ → Act Rows User
get_user_by_id none s = (err Error.no_rows, s)
get_user_by_id (some id) s = found (first (λ account. account.id == id) s.users) s

unfoldable pub get_tenant_budget_override : Option ℕ → Act Rows TenantBudgetOverride
get_tenant_budget_override none s = (err Error.no_rows, s)
get_tenant_budget_override (some id) s =
    found (first (λ override. override.tenant_id == id) s.budget_overrides) s

unfoldable pub update_api_key_last_used : ℕ → ℕ → Act Rows (Unit {0})
update_api_key_last_used now id s = (
  ok tt,
  record s {
    api_keys =
        update (λ key. key.id == id) (λ key. record key { last_used_at = some now }) s.api_keys;
  },
)

unfoldable pub update_api_key_tenant : ℕ → ℕ → Act Rows ApiKey
update_api_key_tenant id tenant s =
    let changed : List ApiKey =
      update (λ key. key.id == id) (λ key. record key { tenant_id = some tenant }) s.api_keys in
    found (first (λ key. key.id == id) changed) (record s { api_keys = changed })

-- What a unique index does with a new row: `clash` is the row with the same key.
abbrev pub unless_taken : {A B : Type 0} → Option B → Result A × Rows → Rows → Result A × Rows
unless_taken none added s = added
unless_taken (some clash) added s = (err unique_violation, s)

-- The unique index on the name.
unfoldable pub create_tenant : String → TenantStatus → TenantKind → Act Rows Tenant
create_tenant name status kind s =
    let tenant : Tenant = record { id = s.next_id; name = name; status = status; kind = kind } in
    unless_taken (first (λ other. other.name == name) s.tenants)
      (ok tenant, record s { tenants = tenant ∷ s.tenants; next_id = suc s.next_id }) s

abbrev pub is_linked : ℕ → Option ℕ → Bool
is_linked tenant none = false
is_linked tenant (some other) = other == tenant

-- The unique index on personal_tenant_id.
unfoldable pub update_user_personal_tenant : ℕ → ℕ → Act Rows User
update_user_personal_tenant id tenant s =
    let changed : List User =
      update (λ account. account.id == id)
        (λ account. record account { personal_tenant_id = some tenant }) s.users in
    unless_taken
      (first (λ account. is_linked tenant account.personal_tenant_id && not (account.id == id))
        s.users)
      (found (first (λ account. account.id == id) changed) (record s { users = changed })) s

abbrev pub is_member : ℕ → ℕ → TenantMembership → Bool
is_member tenant account membership =
    membership.tenant_id == tenant && membership.user_id == account

unfoldable pub add_tenant_membership : ℕ → ℕ → MembershipRole → Act Rows TenantMembership
add_tenant_membership tenant account role s =
    let membership : TenantMembership = record {
      tenant_id = tenant;
      user_id = account;
      role = role;
    } in
    unless_taken (first (is_member tenant account) s.memberships)
      (ok membership, record s { memberships = membership ∷ s.memberships }) s

unfoldable pub get_tenant_membership : ℕ → ℕ → Act Rows TenantMembership
get_tenant_membership tenant account s = found (first (is_member tenant account) s.memberships) s

unfoldable pub list_default_models : Act Rows (List String)
list_default_models s = (ok s.default_models, s)

-- ON CONFLICT DO NOTHING
unfoldable pub insert_tenant_model : ℕ → String → Act Rows (Unit {0})
insert_tenant_model tenant alias s =
    elim (first (λ row. row.0 == tenant && row.1 == alias) s.tenant_models) [
      | none ↦ (ok tt, record s { tenant_models = (tenant, alias) ∷ s.tenant_models })
      | some row ↦ (ok tt, s)
    ]

unfoldable pub delete_tenant_models : ℕ → Act Rows (Unit {0})
delete_tenant_models tenant s =
    (ok tt, record s { tenant_models = select (λ row. not (row.0 == tenant)) s.tenant_models })

abbrev pub is_personal : TenantKind → Bool
is_personal TenantKind.personal = true
is_personal TenantKind.organization = false

unfoldable pub list_personal_tenant_ids : Act Rows (List ℕ)
list_personal_tenant_ids s = (ok (ids s.tenants), s)
  where
    ids : List Tenant → List ℕ
    ids [] = []
    ids (tenant ∷ tenants) =
        let rest = ids tenants in if is_personal tenant.kind then tenant.id ∷ rest else rest

-- The memberships of a user; the table holds them in the order of the names of their tenants, in which
-- the query gives them.
unfoldable pub list_user_tenants : ℕ → Act Rows (List TenantMembership)
list_user_tenants account s =
    (ok (select (λ membership. membership.user_id == account) s.memberships), s)
