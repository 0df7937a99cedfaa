-- ===== src/Auth/PersonalTenants.antt =====
-- EnsurePersonalTenant: all or nothing, and what a tenant that already has the name does to it.
use open_model_gateway.Base.{
  ℕ, ◌≡◌, ◌≢◌, refl, sym, ap, subst, ◌∙◌, String, Bool, true, false, Option, none, some, ◌==◌,
  nat_eq, string_eq, Result, ok, err, Error, Act, return, fail, bind-Post, on_result-Post, first,
  arith, if◌then◌else◌,
}
use open_model_gateway.Auth.Tables.{
  Rows, Directory, User, Tenant, TenantStatus, TenantKind, query, get_user_by_id, get_tenant_by_id,
  get_tenant_by_name, create_tenant, unique_violation, in_failed_transaction, is_unique_violation,
  unless_taken,
}
use open_model_gateway.Auth.Personal.{
  ensure_personal_tenant, ensure_linked, personal_body, load_or_create, create_personal,
  create_or_find, personal_name, transaction, within_tx, ended, wrapped, wrap,
}
use open_model_gateway.Auth.Queries.{query-elim, Kept, transaction-Kept, begin_tx-rows, found-ok}

moved :
    {A : Type 0} (s t : Directory) (o : Result A × Directory)
    → t.rows ≡ s.rows
    → Kept t o.0 o.1
    → Kept s o.0 o.1
moved s t (ok a, u) h k = tt
moved s t (err e, u) h k = k ∙ h

-- The call fails, and the rows stay.
abbrev pub Refuses : {A : Type 0} → Directory → Result A → Directory → Type 0
Refuses s (ok a) t = ⊥
Refuses s (err e) t = t.rows ≡ s.rows

abbrev Fails : {A : Type 0} → Result A → Directory → Type 0
Fails (ok a) t = ⊥
Fails (err e) t = Unit {0}

ended-Refuses :
    {A : Type 0} (s : Directory) (rows : Rows) (r : Result A) (t : Directory)
    → rows ≡ s.rows
    → Fails r t
    → Refuses s (ended rows r t).0 (ended rows r t).1
unfolding ended
ended-Refuses s rows (ok a) t h f = elim f [ ]
ended-Refuses s rows (err e) t h f = h

no_row-differs : unique_violation ≢ Error.no_rows
no_row-differs h = ground (arith, h)

unless_taken-some :
    {A B : Type 0} (o : Option B) (added : Result A × Rows) (s : Rows) (clash : B)
    → o ≡ some clash
    → unless_taken o added s ≡ (err unique_violation, s)
unless_taken-some o added s clash h = ap (λ p. unless_taken p added s) h

create_tenant-taken :
    (name : String) (s : Rows) (other : Tenant)
    → first (λ row. row.name == name) s.tenants ≡ some other
    → create_tenant name TenantStatus.active TenantKind.personal s ≡ (err unique_violation, s)
unfolding create_tenant
create_tenant-taken name s other taken = unless_taken-some _ _ s other taken

query-aborted :
    {A : Type 0} (run : Act Rows A) (s : Directory)
    → s.aborted ≡ true
    → query run s ≡ (err in_failed_transaction, s)
unfolding query
query-aborted run s h = simp h refl

module _ (to_lower : String → String) (uuid_string : ℕ → String) where
  -- When EnsurePersonalTenant fails, however it does, no row of the database has changed: neither a
  -- tenant nor a link, a membership or a model of it is left behind.
  pub ensure_personal_tenant-atomic :
      (account : User) (s : Directory)
      → Kept s
          (ensure_personal_tenant to_lower uuid_string account s).0
          (ensure_personal_tenant to_lower uuid_string account s).1
  unfolding ensure_personal_tenant ensure_linked
  ensure_personal_tenant-atomic account s = by_link account.personal_tenant_id
    where
      by_link :
          (link : Option ℕ)
          → Kept s
              (ensure_linked to_lower uuid_string account link s).0
              (ensure_linked to_lower uuid_string account link s).1
      by_link none = transaction-Kept (personal_body to_lower uuid_string account.id) s
      by_link (some id) =
          on_result-Post (λ r t. Kept s r t) (Kept s) (query (get_tenant_by_id (some id)))
            (λ tenant. return (account, tenant))
            (λ e. transaction (personal_body to_lower uuid_string account.id)) s
            (query-elim (Kept s) (get_tenant_by_id (some id)) s (λ e t h. h.0) (λ a t e h i. tt))
            (λ a t h. tt)
            (λ e t h.
              moved s t (transaction (personal_body to_lower uuid_string account.id) t) h
                (transaction-Kept (personal_body to_lower uuid_string account.id) t))

  -- The name is taken: the statement fails, and so does the lookup that follows it in the transaction.
  create_or_find-Fails :
      (s : Directory) (name : String) (other : Tenant)
      → s.in_tx ≡ true
      → first (λ row. row.name == name) s.rows.tenants ≡ some other
      → Fails
          (create_or_find to_lower uuid_string name s).0
          (create_or_find to_lower uuid_string name s).1
  unfolding create_or_find create_tenant
  create_or_find-Fails s name other open_tx taken =
      on_result-Post Aborted Fails
        (query (create_tenant name TenantStatus.active TenantKind.personal)) return _ s
        (query-elim Aborted (create_tenant name TenantStatus.active TenantKind.personal) s
          (λ e t h. h.1 open_tx (λ q. differs (sym refused ∙ q)))
          (λ a t e h i. succeeds (sym refused ∙ e)))
        (λ a t h. h) (λ e t h. by_code (is_unique_violation e) e t h)
    where
      Aborted : Result Tenant → Directory → Type 0
      Aborted (ok a) t = ⊥
      Aborted (err e) t = t.aborted ≡ true

      refused :
          (create_tenant name TenantStatus.active TenantKind.personal s.rows).0
          ≡ err unique_violation
      refused = ap (λ o. o.0) (create_tenant-taken name s.rows other taken)

      differs : ◌≢◌ {A = Result Tenant} (err unique_violation) (err Error.no_rows)
      differs h = ground (arith, h)

      succeeds : {a : Tenant} → ◌≢◌ {A = Result Tenant} (err unique_violation) (ok a)
      succeeds h = ground (arith, h)

      by_code :
          (conflict : Bool) (e : Error) (t : Directory)
          → t.aborted ≡ true
          → Fails
              ((if conflict
                  then wrapped "lookup personal tenant" (query (get_tenant_by_name name))
                  else fail (wrap "create personal tenant" e))
                t).0
              ((if conflict
                  then wrapped "lookup personal tenant" (query (get_tenant_by_name name))
                  else fail (wrap "create personal tenant" e))
                t).1
      by_code false e t h = tt
      by_code true e t h = simp (query-aborted (get_tenant_by_name name) t h) tt

  create_personal-Fails :
      (s : Directory) (row : User) (other : Tenant)
      → s.in_tx ≡ true
      → first (λ any. any.name == personal_name to_lower uuid_string row.id) s.rows.tenants
        ≡ some other
      → Fails
          (create_personal to_lower uuid_string row s).0
          (create_personal to_lower uuid_string row s).1
  unfolding create_personal
  create_personal-Fails s row other open_tx taken =
      bind-Post Fails Fails
        (create_or_find to_lower uuid_string (personal_name to_lower uuid_string row.id)) _ s
        (create_or_find-Fails s (personal_name to_lower uuid_string row.id) other open_tx taken)
        (λ a t h. elim h [ ]) (λ e t h. tt)

  personal_body-Fails :
      (s : Directory) (id : ℕ) (row : User) (other : Tenant)
      → s.in_tx ≡ true
      → row.personal_tenant_id ≡ none
      → first (λ any. any.id == id) s.rows.users ≡ some row
      → first (λ any. any.name == personal_name to_lower uuid_string row.id) s.rows.tenants
        ≡ some other
      → Fails
          (personal_body to_lower uuid_string id s).0
          (personal_body to_lower uuid_string id s).1
  unfolding personal_body load_or_create get_user_by_id
  personal_body-Fails s id row other open_tx fresh known taken =
      bind-Post Reloaded Fails (wrapped "reload user" (query (get_user_by_id (some id)))) _ s
        (on_result-Post Reloaded Reloaded (query (get_user_by_id (some id))) return
          (λ e. fail (wrap "reload user" e)) s
          (query-elim Reloaded (get_user_by_id (some id)) s (λ e t h. tt)
            (λ a t e h i.
              let got =
                found-ok (first (λ any. any.id == id) s.rows.users) s.rows t.rows a row known e h in
              (got.0, got.1, i ∙ open_tx)))
          (λ a t h. h) (λ e t h. tt))
        (λ a t h. by_row a t h) (λ e t h. tt)
    where
      Reloaded : Result User → Directory → Type 0
      Reloaded (ok a) t = (a ≡ row) × (t.rows ≡ s.rows) × (t.in_tx ≡ true)
      Reloaded (err e) t = Unit {0}

      by_row :
          (a : User) (t : Directory)
          → Reloaded (ok a) t
          → Fails
              (load_or_create to_lower uuid_string a a.personal_tenant_id t).0
              (load_or_create to_lower uuid_string a a.personal_tenant_id t).1
      by_row a t h =
          subst
            (λ b.
              Fails (load_or_create to_lower uuid_string b b.personal_tenant_id t).0
                (load_or_create to_lower uuid_string b b.personal_tenant_id t).1)
            (sym h.0)
            (simp fresh (
              create_personal-Fails t row other h.2 (
                ap
                  (λ rows.
                    first (λ any. any.name == personal_name to_lower uuid_string row.id)
                      rows.tenants)
                  h.1
                ∙ taken)))

  -- A user without a personal tenant, whose name "personal:<id>" a tenant already has, gets none, whatever
  -- the connection does: EnsurePersonalTenant fails and changes no row, since the transaction is
  -- aborted by the failed insertion before GetTenantByName is asked for the tenant.
  pub ensure_personal_tenant-conflict :
      (account row : User) (other : Tenant) (s : Directory)
      → account.personal_tenant_id ≡ none
      → row.personal_tenant_id ≡ none
      → first (λ any. any.id == account.id) s.rows.users ≡ some row
      → first (λ any. any.name == personal_name to_lower uuid_string row.id) s.rows.tenants
        ≡ some other
      → Refuses s
          (ensure_personal_tenant to_lower uuid_string account s).0
          (ensure_personal_tenant to_lower uuid_string account s).1
  unfolding ensure_personal_tenant ensure_linked transaction
  ensure_personal_tenant-conflict account row other s unlinked fresh known taken = simp unlinked (
      bind-Post (λ r t. t.rows ≡ s.rows) (Refuses s) (wrapped "begin tx" (query (return tt)))
        (λ _. within_tx body) s (begin_tx-rows s)
        (λ _ t h.
          ended-Refuses s t.rows (body (record t { in_tx = true })).0
            (body (record t { in_tx = true })).1 h
            (personal_body-Fails (record t { in_tx = true }) account.id row other refl fresh
              (ap (λ rows. first (λ any. any.id == account.id) rows.users) h ∙ known)
              (ap
                  (λ rows.
                    first (λ any. any.name == personal_name to_lower uuid_string row.id)
                      rows.tenants)
                  h
                ∙ taken)))
        (λ e t h. h))
    where
      body : Act Directory (User × Tenant)
      body = personal_body to_lower uuid_string account.id
