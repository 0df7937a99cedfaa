-- ===== src/Auth/Personal.antt =====
-- accounts/personal.go: the tenant of a user's own. A transaction that fails restores the rows, but
-- not the map of models in memory.
use Prim.Native.Nat.{Ordering}
use Prim.Native.String.{compare}
use open_model_gateway.Base.{
  ℕ, String, true, false, Option, none, some, List, [], ◌∷◌, ◌==◌, string_eq, Result, ok, err,
  Error, error_text, Act, ◌>>=◌, ◌>>◌, return, fail, on_result, if◌then◌else◌, append, trim_space,
}
use open_model_gateway.App.ModelAccess.{set_tenant_models}
use open_model_gateway.Auth.Tables.{
  Directory, Rows, Tenant, TenantStatus, TenantKind, MembershipRole, User, is_unique_violation,
  query, get_tenant_by_id, get_tenant_by_name, get_user_by_id, create_tenant,
  update_user_personal_tenant, add_tenant_membership, list_default_models, insert_tenant_model,
  delete_tenant_models, list_personal_tenant_ids,
}

-- fmt.Errorf("text: %w", err)
abbrev pub wrap : String → Error → Error
wrap text e = Error.message (append text (append ": " (error_text e)))

abbrev pub wrapped : {A S : Type 0} → String → Act S A → Act S A
wrapped text run = on_result run return (λ e. fail (wrap text e))

abbrev pub rolled_back : Rows → Directory → Directory
rolled_back rows s = record s { rows = rows; in_tx = false; aborted = false }

unfoldable pub committed :
    {A : Type 0} → Rows → A → Result (Unit {0}) → Directory → Result A × Directory
committed rows a (ok done) s = (ok a, record s { in_tx = false; aborted = false })
committed rows a (err e) s = (err (wrap "commit tx" e), rolled_back rows s)

-- After the statements: the commit, or the deferred rollback.
unfoldable pub ended : {A : Type 0} → Rows → Result A → Directory → Result A × Directory
ended rows (ok a) s = committed rows a (query (return tt) s).0 (query (return tt) s).1
ended rows (err e) s = (err e, rolled_back rows s)

abbrev pub within_tx : {A : Type 0} → Act Directory A → Directory → Result A × Directory
within_tx body s =
    ended s.rows (body (record s { in_tx = true })).0 (body (record s { in_tx = true })).1

-- pool.BeginTx, the statements, tx.Commit, and the deferred tx.Rollback
unfoldable pub transaction : {A : Type 0} → Act Directory A → Act Directory A
transaction body = wrapped "begin tx" (query (return tt)) >>= λ _. within_tx body

-- The aliases as an ordered set.
unfoldable pub add_alias : String → List String → List String
add_alias a [] = a ∷ []
add_alias a (x ∷ xs) =
    let rest = add_alias a xs in
    elim (compare a x) [ Ordering.lt ↦ a ∷ x ∷ xs | Ordering.eq ↦ x ∷ xs | Ordering.gt ↦ x ∷ rest ]

module _ (to_lower : String → String) (uuid_string : ℕ → String) where
  unfoldable pub normalize_aliases : List String → List String
  normalize_aliases [] = []
  normalize_aliases (alias ∷ aliases) =
      let rest = normalize_aliases aliases in
      let norm = trim_space (to_lower alias) in if norm == "" then rest else add_alias norm rest

  unfoldable pub replace_tenant_models : ℕ → List String → Act Directory (List String)
  replace_tenant_models tenant [] = return []
  replace_tenant_models tenant (alias ∷ aliases) =
      let later = replace_tenant_models tenant aliases in
      if alias == ""
      then later
      else (wrapped (append "assign default model " alias)
            (query (insert_tenant_model tenant alias))
          >> (later >>= λ inserted. return (alias ∷ inserted)))

  unfoldable pub seed_default_models : ℕ → Act Directory (List String)
  seed_default_models tenant =
      wrapped "list default models" (query list_default_models) >>= λ aliases.
      replace_tenant_models tenant (normalize_aliases aliases)

  -- The callback setTenantModels.
  unfoldable pub publish_models : ℕ → List String → Act Directory (Unit {0})
  publish_models tenant aliases s =
      (ok tt, record s { access = set_tenant_models to_lower s.access tenant aliases })

  unfoldable pub personal_name : ℕ → String
  personal_name user = append "personal:" (uuid_string user)

  unfoldable pub create_or_find : String → Act Directory Tenant
  create_or_find name =
      on_result (query (create_tenant name TenantStatus.active TenantKind.personal)) return (λ e.
        if is_unique_violation e
        then wrapped "lookup personal tenant" (query (get_tenant_by_name name))
        else fail (wrap "create personal tenant" e))

  unfoldable pub ensure_membership : ℕ → ℕ → Act Directory (Unit {0})
  ensure_membership tenant user =
      on_result (query (add_tenant_membership tenant user MembershipRole.owner)) (λ _. return tt)
        (λ e.
          if is_unique_violation e then return tt else fail (wrap "ensure personal membership" e))

  unfoldable pub create_personal : User → Act Directory (User × Tenant)
  create_personal user = create_or_find (personal_name user.id) >>= λ tenant.
      wrapped "link user personal tenant" (query (update_user_personal_tenant user.id tenant.id))
      >>= λ linked.
          ensure_membership tenant.id linked.id >> seed_default_models tenant.id >>= λ aliases.
          publish_models tenant.id aliases >> return (linked, tenant)

  unfoldable pub load_or_create : User → Option ℕ → Act Directory (User × Tenant)
  load_or_create user none = create_personal user
  load_or_create user (some id) =
      wrapped "load personal tenant" (query (get_tenant_by_id (some id))) >>= λ tenant.
      return (user, tenant)

  -- The statements of the transaction.
  unfoldable pub personal_body : ℕ → Act Directory (User × Tenant)
  personal_body id = wrapped "reload user" (query (get_user_by_id (some id))) >>= λ user.
      load_or_create user user.personal_tenant_id

  unfoldable pub ensure_linked : User → Option ℕ → Act Directory (User × Tenant)
  ensure_linked user none = transaction (personal_body user.id)
  ensure_linked user (some id) =
      on_result (query (get_tenant_by_id (some id))) (λ tenant. return (user, tenant))
        (λ e. transaction (personal_body user.id))

  unfoldable pub ensure_personal_tenant : User → Act Directory (User × Tenant)
  ensure_personal_tenant user = ensure_linked user user.personal_tenant_id

  unfoldable pub sync_tenant_models : ℕ → List String → Act Directory (Unit {0})
  sync_tenant_models tenant aliases =
      transaction (
        wrapped "clear tenant models" (query (delete_tenant_models tenant))
        >> replace_tenant_models tenant aliases)
      >>= λ _. publish_models tenant aliases

  -- The loop of SyncDefaultModels.
  unfoldable pub sync_all : List ℕ → List String → Act Directory (Unit {0})
  sync_all [] aliases = return tt
  sync_all (tenant ∷ tenants) aliases =
      sync_tenant_models tenant aliases >> sync_all tenants aliases

  unfoldable pub sync_default_models : Act Directory (Unit {0})
  sync_default_models = wrapped "list default models" (query list_default_models) >>= λ aliases.
      wrapped "list personal tenants" (query list_personal_tenant_ids) >>= λ tenants.
      sync_all tenants (normalize_aliases aliases)
