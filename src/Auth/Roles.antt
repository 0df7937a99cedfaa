-- ===== src/Auth/Roles.antt =====
-- rbac/rbac.go. `to_lower` is strings.ToLower.
use open_model_gateway.Base.{
  ℕ, String, Bool, Option, none, some, List, [], ◌∷◌, ◌==◌, string_eq, Error, Act, ◌>>=◌, return,
  fail, leb, if◌then◌else◌, trim_space,
}
use open_model_gateway.Auth.Tables.{
  Directory, MembershipRole, TenantMembership, query, get_tenant_membership, list_user_tenants,
}

abbrev pub role_order : MembershipRole → ℕ
role_order MembershipRole.owner = 4
role_order MembershipRole.admin = 3
role_order MembershipRole.viewer = 2
role_order MembershipRole.user = 1

unfoldable pub parse_role : (String → String) → String → Option MembershipRole
parse_role to_lower value =
    let name = to_lower (trim_space value) in
    if name == "owner"
    then some MembershipRole.owner
    else if name == "admin"
    then some MembershipRole.admin
    else if name == "viewer"
    then some MembershipRole.viewer
    else if name == "user"
    then some MembershipRole.user
    else none

-- string(role)
abbrev pub role_name : MembershipRole → String
role_name MembershipRole.owner = "owner"
role_name MembershipRole.admin = "admin"
role_name MembershipRole.viewer = "viewer"
role_name MembershipRole.user = "user"

unfoldable pub at_least : MembershipRole → MembershipRole → Bool
at_least current required = leb (role_order required) (role_order current)

abbrev pub forbidden : Error
forbidden = Error.message "forbidden"

unfoldable pub ensure : ℕ → ℕ → MembershipRole → Act Directory TenantMembership
ensure tenant user required = query (get_tenant_membership tenant user) >>= λ membership.
    if at_least membership.role required then return membership else fail forbidden

-- The loop of EnsureAny.
unfoldable pub first_at_least :
    MembershipRole → List TenantMembership → Act Directory TenantMembership
first_at_least required [] = fail forbidden
first_at_least required (membership ∷ memberships) =
    let later = first_at_least required memberships in
    if at_least membership.role required then return membership else later

unfoldable pub ensure_any : ℕ → MembershipRole → Act Directory TenantMembership
ensure_any user required = query (list_user_tenants user) >>= first_at_least required
