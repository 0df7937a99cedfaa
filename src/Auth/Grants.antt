-- ===== src/Auth/Grants.antt =====
-- Which membership EnsureAny gives, and which budget a context carries, while the connection works.
use open_model_gateway.Base.{
  ℕ, ℤ, ◌≡◌, refl, sym, ap, subst, ◌∙◌, false, ◌&&◌, Option, none, some, List, [], ◌∷◌, ◌==◌,
  nat_eq, string_eq, Result, ok, err, Act, return, Bool-cases, inl, inr, first, select,
  if◌then◌else◌, is_pos, pos, after, handle,
}
use open_model_gateway.RequestContext.{RequestContext}
use open_model_gateway.Auth.Tables.{
  Rows, Directory, ApiKey, MembershipRole, TenantMembership, TenantBudgetOverride, query, asked,
  answered, found, in_failed_transaction, list_user_tenants, get_tenant_budget_override,
}
use open_model_gateway.Auth.Roles.{at_least, forbidden, first_at_least, ensure_any}
use open_model_gateway.Auth.Context.{
  Container, round_cents, with_override, without_override, tenant_part, budget_limit, context_of,
  tenant_of, build_request_context,
}

-- No transaction is aborted, and no query will fail.
abbrev pub IsQuiet : Directory → Type 0
IsQuiet s = (s.aborted ≡ false) × (s.faults ≡ [])

query-quiet :
    {A : Type 0} (run : Act Rows A) (s : Directory) (a : A)
    → IsQuiet s
    → run s.rows ≡ (ok a, s.rows)
    → query run s ≡ (ok a, s)
unfolding query asked answered
query-quiet run s a q h =
    ap (λ b. if b then (err in_failed_transaction, s) else asked run s.faults s) q.0
    ∙ ap (λ faults. asked run faults s) q.1
    ∙ ap (λ o. answered o.0 o.1 s) h

abbrev pub decision : Option TenantMembership → Result TenantMembership
decision none = err forbidden
decision (some membership) = ok membership

first_at_least-decision :
    (account : ℕ) (required : MembershipRole) (memberships : List TenantMembership) (s : Directory)
    → (first_at_least required (select (λ m. m.user_id == account) memberships) s).0
      ≡ decision (first (λ m. m.user_id == account && at_least m.role required) memberships)
unfolding first_at_least select first
first_at_least-decision account required [] s = refl
first_at_least-decision account required (m ∷ memberships) s =
    elim (Bool-cases (m.user_id == account)) [
      | inr another ↦ rw another (first_at_least-decision account required memberships s)
      | inl own ↦ elim (Bool-cases (at_least m.role required)) [
        | inl enough ↦ rw (own, enough) refl
        | inr low ↦ rw (own, low) (first_at_least-decision account required memberships s)
      ]
    ]

-- While no query fails, EnsureAny gives the first membership of the user whose role is at least the
-- required one, and the error "forbidden" when there is none.
pub ensure_any-first :
    (account : ℕ) (required : MembershipRole) (s : Directory)
    → IsQuiet s
    → (ensure_any account required s).0
      ≡ decision (first (λ m. m.user_id == account && at_least m.role required) s.rows.memberships)
unfolding ensure_any list_user_tenants
ensure_any-first account required s q =
    ap (λ o. (after (first_at_least required) o.0 o.1).0)
      (query-quiet (list_user_tenants account) s _ q refl)
    ∙ first_at_least-decision account required s.rows.memberships s

module _ (container : Container) where
  -- The budget of a key's own quota, in cents.
  abbrev pub quota_cents : ApiKey → ℤ
  quota_cents key =
      round_cents
        (if key.quota_json == "" then (pos 0, pos 0) else container.decode_quota key.quota_json).0

  abbrev pub HasLimit : ℤ → Result RequestContext → Type 0
  HasLimit cents (ok rc) = rc.budget_limit_cents ≡ cents
  HasLimit cents (err e) = ⊥

  context_of-inexact :
      (key : ApiKey) (id : ℕ) (override : TenantBudgetOverride)
      → container.exact override.budget_usd ≡ false
      → is_pos (quota_cents key) ≡ false
      → (context_of container key id (with_override container override)).budget_limit_cents
        ≡ round_cents container.budgets.default_usd
  unfolding context_of budget_limit with_override
  context_of-inexact key id override inexact no_quota = simp (no_quota, inexact) refl

  tenant_part-found :
      (id : ℕ) (override : TenantBudgetOverride) (s : Directory)
      → IsQuiet s
      → first (λ any. any.tenant_id == id) s.rows.budget_overrides ≡ some override
      → tenant_part container (some id) s ≡ (ok (with_override container override), s)
  unfolding tenant_part get_tenant_budget_override
  tenant_part-found id override s q known =
      ap
        (λ o.
          handle (λ found_row. return (with_override container found_row))
            (λ e. return (without_override container)) o.0 o.1)
        (query-quiet (get_tenant_budget_override (some id)) s override q
          (ap (λ o. found o s.rows) known))

  -- When no query fails, the key has a tenant and no budget of its own, and the budget of the tenant's
  -- override is no exact float64, the context carries the default budget and not the override's.
  pub build_request_context-inexact :
      (key : ApiKey) (id : ℕ) (override : TenantBudgetOverride) (s : Directory)
      → IsQuiet s
      → key.tenant_id ≡ some id
      → (id == 0) ≡ false
      → first (λ any. any.tenant_id == id) s.rows.budget_overrides ≡ some override
      → container.exact override.budget_usd ≡ false
      → is_pos (quota_cents key) ≡ false
      → HasLimit
          (round_cents container.budgets.default_usd)
          (build_request_context container key s).0
  unfolding build_request_context tenant_of
  build_request_context-inexact key id override s q k n known inexact no_quota =
      simp (k, n)
        (subst
          (λ o.
            HasLimit (round_cents container.budgets.default_usd)
              (after (λ part. return (context_of container key id part)) o.0 o.1).0)
          (sym (tenant_part-found id override s q known))
          (context_of-inexact key id override inexact no_quota))
