-- ===== src/Auth/Admission.antt =====
-- Whom apiKeyAuth lets through.
use open_model_gateway.Base.{
  ℕ, ◌≡◌, refl, sym, ap, ◌∙◌, String, Bool, true, false, not, Option, none, some, ◌==◌, nat_eq,
  string_eq, Result, ok, err, Error, error_text, ◌>>=◌, ◌>>◌, return, Bool-cases, inl, inr,
  bind-Post, on_result-Post, first, is_ok, nat_beq_iff, arith,
}
use open_model_gateway.RequestContext.{RequestContext}
use open_model_gateway.Auth.ApiKey.{header_key}
use open_model_gateway.Auth.Tables.{
  Rows, Directory, ApiKey, Tenant, query, found, get_api_key_by_prefix, get_tenant_by_id,
  update_api_key_last_used,
}
use open_model_gateway.Auth.Context.{Container, build_request_context}
use open_model_gateway.Auth.Middleware.{
  is_active, is_some, lookup_failed, or_status, refuse_if, check_secret, key_checks, build_for,
  touch_key, admit, with_key, api_key_auth,
}
use open_model_gateway.Auth.Queries.{query-elim}
use open_model_gateway.Auth.Steps.{
  IsHttp, Step, get_api_key_by_prefix-Reads, get_tenant_by_id-Reads, lookup_failed-IsHttp,
  or_status-Step, then-Step, weaken-Step, refuse_if-Step, check_secret-Step,
  build_request_context-Step,
}

abbrev pub Decided : (RequestContext → Type 0) → Rows → Result RequestContext → Directory → Type 0
Decided P rows (ok rc) t = P rc
Decided P rows (err e) t = IsHttp e × (t.rows ≡ rows)

abbrev Unless : Rows → Result (Unit {0}) → Directory → Type 0
Unless rows (ok done) t = Unit {0}
Unless rows (err e) t = t.rows ≡ rows

abbrev Touched : Rows → Result (Unit {0}) → Directory → Type 0
Touched rows (ok done) t = Unit {0}
Touched rows (err e) t = IsHttp e × (t.rows ≡ rows)

-- The id of a tenant that is found is set, and is not the nil UUID when no tenant has that.
tenant_id-set :
    (id : Option ℕ) (rows : Rows) (tenant : Tenant)
    → first (λ row. row.id == 0) rows.tenants ≡ none
    → (get_tenant_by_id id rows).0 ≡ ok tenant
    → (n : ℕ) × (id ≡ some n) × ((n == 0) ≡ false)
unfolding get_tenant_by_id
tenant_id-set none rows tenant h e = ground (arith, e)
tenant_id-set (some n) rows tenant h e = elim (Bool-cases (n == 0)) [
  | inr apart ↦ (n, refl, apart)
  | inl nil ↦ elim (missing nil) [ ]
]
  where
    answer : ℕ → Bool
    answer k = is_ok (found (first (λ row. row.id == k) rows.tenants) rows).0

    missing : (n == 0) ≡ true → ⊥
    missing nil =
        let zero_id : n ≡ 0 = (nat_beq_iff n 0).0 nil in
        let absent : answer 0 ≡ false = ap (λ o. is_ok (found o rows).0) h in
        let present : answer n ≡ true = ap is_ok e in
        ground (arith, sym present ∙ ap answer zero_id ∙ absent)

module _ (container : Container) (lower : ℕ → ℕ) (verify : String → String → Result Bool) where
  -- The key and the tenant that a request is admitted for.
  abbrev pub Admitted : String → Rows → RequestContext → Type 0
  Admitted header rows rc =
      (parts : String × String) × (key : ApiKey) × (tenant : Tenant) × (header_key lower header
        ≡ ok parts)
      × ((get_api_key_by_prefix parts.0 rows).0 ≡ ok key)
      × (is_some key.revoked_at ≡ false)
      × (verify parts.1 key.secret_hash ≡ ok true)
      × ((get_tenant_by_id key.tenant_id rows).0 ≡ ok tenant)
      × (is_active tenant.status ≡ true)
      × (rc.api_key_id ≡ key.id)
      × (some rc.tenant_id ≡ key.tenant_id)

  -- What holds of a key whose request passed the first checks.
  abbrev Usable : String → ApiKey → Rows → Tenant → Type 0
  Usable secret key rows tenant =
      (is_some key.revoked_at ≡ false)
      × (verify secret key.secret_hash ≡ ok true)
      × ((get_tenant_by_id key.tenant_id rows).0 ≡ ok tenant)

  checks-Step :
      (secret : String) (key : ApiKey) (rows : Rows) (s : Directory)
      → s.rows ≡ rows
      → Step rows
          (Usable secret key rows)
          (key_checks container lower verify secret key s).0
          (key_checks container lower verify secret key s).1
  checks-Step secret key rows s h =
      then-Step Sound (Usable secret key rows) rows
        (refuse_if (is_some key.revoked_at) 401 "api key revoked"
          >> refuse_if (key.secret_hash == "") 401 "api key invalid"
          >> check_secret (verify secret key.secret_hash))
        (λ _.
          or_status (query (get_tenant_by_id key.tenant_id))
            (lookup_failed "tenant not found" "tenant lookup failed"))
        s
        (then-Step Live Sound rows
          (refuse_if (is_some key.revoked_at) 401 "api key revoked"
            >> refuse_if (key.secret_hash == "") 401 "api key invalid")
          (λ _. check_secret (verify secret key.secret_hash)) s
          (then-Step Live Live rows (refuse_if (is_some key.revoked_at) 401 "api key revoked")
            (λ _. refuse_if (key.secret_hash == "") 401 "api key invalid") s
            (refuse_if-Step (is_some key.revoked_at) 401 "api key revoked" rows s h)
            (λ _ t live e.
              weaken-Step _ Live rows _ _ (λ _ _. live)
                (refuse_if-Step (key.secret_hash == "") 401 "api key invalid" rows t e)))
          (λ _ t live e.
            weaken-Step _ Sound rows _ _ (λ _ secret_ok. (live, secret_ok))
              (check_secret-Step (verify secret key.secret_hash) rows t e)))
        (λ _ t sound e.
          weaken-Step _ (Usable secret key rows) rows _ _ (λ _ row. (sound.0, sound.1, row))
            (or_status-Step (get_tenant_by_id key.tenant_id)
              (lookup_failed "tenant not found" "tenant lookup failed") rows t
              (get_tenant_by_id-Reads key.tenant_id)
              (lookup_failed-IsHttp "tenant not found" "tenant lookup failed") e))
    where
      Live : Unit {0} → Type 0
      Live _ = is_some key.revoked_at ≡ false

      Sound : Unit {0} → Type 0
      Sound _ = (is_some key.revoked_at ≡ false) × (verify secret key.secret_hash ≡ ok true)

  -- What holds of the context that the rest builds.
  abbrev Carries : ApiKey → Tenant → RequestContext → Type 0
  Carries key tenant rc =
      (is_active tenant.status ≡ true)
      × (rc.api_key_id ≡ key.id)
      × (some rc.tenant_id ≡ key.tenant_id)

  build_for-Step :
      (id : ℕ) (key : ApiKey) (tenant : Tenant) (rows : Rows) (s : Directory)
      → key.tenant_id ≡ some id
      → (id == 0) ≡ false
      → s.rows ≡ rows
      → Step rows
          (Carries key tenant)
          (build_for container lower verify key tenant s).0
          (build_for container lower verify key tenant s).1
  build_for-Step id key tenant rows s k n h =
      then-Step (λ _. not (is_active tenant.status) ≡ false) (Carries key tenant) rows
        (refuse_if (not (is_active tenant.status)) 403 "tenant is not active")
        (λ _. or_status (build_request_context container key) (λ e. Error.api 500 (error_text e))) s
        (refuse_if-Step (not (is_active tenant.status)) 403 "tenant is not active" rows s h)
        (λ _ t active e.
          weaken-Step _ (Carries key tenant) rows _ _
            (λ rc same. (ground (arith, active), same.0, same.1))
            (build_request_context-Step container key id rows t k n e))

  touch_key-rows :
      (now : ℕ) (key : ApiKey) (rows : Rows) (s : Directory)
      → s.rows ≡ rows
      → Touched rows
          (touch_key container lower verify now key s).0
          (touch_key container lower verify now key s).1
  touch_key-rows now key rows s h =
      on_result-Post (Unless rows) (Touched rows) (query (update_api_key_last_used now key.id))
        return _ s
        (query-elim (Unless rows) (update_api_key_last_used now key.id) s (λ e t k. k.0 ∙ h)
          (λ a t e k i. tt))
        (λ a t k. tt) (λ e t k. (tt, k))

  context-Decided :
      (now id : ℕ) (key : ApiKey) (tenant : Tenant) (rows : Rows) (s : Directory)
      → key.tenant_id ≡ some id
      → (id == 0) ≡ false
      → s.rows ≡ rows
      → Decided
          (Carries key tenant)
          rows
          ((build_for container lower verify key tenant >>= λ rc.
              touch_key container lower verify now key >> return rc)
            s).0
          ((build_for container lower verify key tenant >>= λ rc.
              touch_key container lower verify now key >> return rc)
            s).1
  context-Decided now id key tenant rows s k n h =
      bind-Post (Step rows (Carries key tenant)) (Decided (Carries key tenant) rows)
        (build_for container lower verify key tenant) _ s
        (build_for-Step id key tenant rows s k n h)
        (λ rc t b.
          bind-Post (Touched rows) (Decided (Carries key tenant) rows)
            (touch_key container lower verify now key) (λ _. return rc) t
            (touch_key-rows now key rows t b.1) (λ _ u d. b.0) (λ e u d. d))
        (λ e t b. b)

  decided :
      (header : String) (rows : Rows) (parts : String × String) (key : ApiKey) (tenant : Tenant)
      → header_key lower header ≡ ok parts
      → (get_api_key_by_prefix parts.0 rows).0 ≡ ok key
      → Usable parts.1 key rows tenant
      → (r : Result RequestContext) (t : Directory) → Decided (Carries key tenant) rows r t
      → Decided (Admitted header rows) rows r t
  decided header rows parts key tenant h k usable (ok rc) t carries =
      (parts, key, tenant, h, k, usable.0, usable.1, usable.2, carries.0, carries.1, carries.2)
  decided header rows parts key tenant h k usable (err e) t refused = refused

  -- A request that apiKeyAuth admits names, in its header, a key of the database that is not revoked and
  -- whose secret is verified, and the key's tenant is active; the context carries this key and this
  -- tenant. A request that is not admitted gets an HTTP error and changes no row. This holds for
  -- every failure of the connection, while no tenant has the nil UUID.
  pub api_key_auth-Decided :
      (now : ℕ) (header : String) (s : Directory)
      → first (λ row. row.id == 0) s.rows.tenants ≡ none
      → Decided
          (Admitted header s.rows)
          s.rows
          (api_key_auth container lower verify now header s).0
          (api_key_auth container lower verify now header s).1
  unfolding api_key_auth with_key admit
  api_key_auth-Decided now header s no_nil = by_parts (header_key lower header) refl
    where
      Goal : Result RequestContext → Directory → Type 0
      Goal = Decided (Admitted header s.rows) s.rows

      by_key :
          (parts : String × String) (key : ApiKey) (t : Directory)
          → header_key lower header ≡ ok parts
          → (get_api_key_by_prefix parts.0 s.rows).0 ≡ ok key
          → t.rows ≡ s.rows
          → Goal
              (admit container lower verify now parts.1 key t).0
              (admit container lower verify now parts.1 key t).1
      by_key parts key t h k e =
          bind-Post (Step s.rows (Usable parts.1 key s.rows)) Goal
            (key_checks container lower verify parts.1 key) _ t (checks-Step parts.1 key s.rows t e)
            (λ tenant u usable.
              let set = tenant_id-set key.tenant_id s.rows tenant no_nil usable.0.2 in
              decided header s.rows parts key tenant h k usable.0 _ _
                (context-Decided now set.0 key tenant s.rows u set.1 set.2 usable.1))
            (λ e u refused. refused)

      by_parts :
          (parts : Result (String × String))
          → header_key lower header ≡ parts
          → Goal
              (with_key container lower verify now parts s).0
              (with_key container lower verify now parts s).1
      by_parts (err e) h = (tt, refl)
      by_parts (ok parts) h =
          bind-Post (Step s.rows (λ key. (get_api_key_by_prefix parts.0 s.rows).0 ≡ ok key)) Goal
            (or_status (query (get_api_key_by_prefix parts.0))
              (lookup_failed "invalid api key" "api key lookup failed"))
            _ s
            (or_status-Step (get_api_key_by_prefix parts.0)
              (lookup_failed "invalid api key" "api key lookup failed") s.rows s
              (get_api_key_by_prefix-Reads parts.0)
              (lookup_failed-IsHttp "invalid api key" "api key lookup failed") refl)
            (λ key t found_key. by_key parts key t h found_key.0 found_key.1)
            (λ e t refused. refused)
