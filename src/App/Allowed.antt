-- ===== src/App/Allowed.antt =====
-- Which models a tenant may use after SetTenantModels, ClearTenantModels and a load.
use open_model_gateway.Base.{
  ℕ, ◌≡◌, refl, String, Bool, true, false, not, ◌||◌, ◌&&◌, Option, none, some, List, [], ◌∷◌,
  lookup, insert, delete, lookup-insert, lookup-delete, ◌==◌, string_eq, nat_eq, ok, if◌then◌else◌,
  arith, Bool-cases, inl, inr, nat_beq_iff,
}
use text.Mathlib.TextEquality.{eq_iff}
use open_model_gateway.App.ModelAccess.{
  Access, ModelRow, contains, is_nil, set_or_empty, normalize_model_alias, allowed_by,
  is_model_allowed, alias_set, set_tenant_models, clear_tenant_models, seed, add_row, add_rows,
  load_tenant_model_access,
}

abbrev pub has_id : ℕ → Option ℕ → Bool
has_id id none = false
has_id id (some other) = other == id

abbrev pub is_seeded : ℕ → List (Option ℕ) → Bool
is_seeded id [] = false
is_seeded id (other ∷ ids) = has_id id other || is_seeded id ids

module _ (to_lower : String → String) where
  -- The normalised alias is one of the given ones.
  abbrev pub is_listed : String → List String → Bool
  is_listed a [] = false
  is_listed a (alias ∷ aliases) = normalize_model_alias to_lower alias == a || is_listed a aliases

  -- A row grants the normalised alias to the tenant.
  abbrev pub is_granted : ℕ → String → List ModelRow → Bool
  is_granted id a [] = false
  is_granted id a (row ∷ rows) =
      (has_id id row.tenant_id && normalize_model_alias to_lower row.alias == a)
      || is_granted id a rows

  contains-alias_set :
      (a : String) (aliases set : List String)
      → (a == "") ≡ false
      → contains a (alias_set to_lower aliases set) ≡ (contains a set || is_listed a aliases)
  unfolding contains alias_set
  contains-alias_set a [] set h = ground arith
  contains-alias_set a (alias ∷ aliases) set h =
      let norm = normalize_model_alias to_lower alias in
      ground (
        arith,
        eq_iff norm "",
        eq_iff norm a,
        eq_iff a "",
        contains-alias_set a aliases (if norm == "" then set else norm ∷ set) h,
      )

  -- An empty map allows what a missing entry allows.
  allowed_by_any :
      (norm : String) (id : ℕ) (access : Access)
      → (if is_nil access then true else allowed_by to_lower (lookup id access) norm)
        ≡ allowed_by to_lower (lookup id access) norm
  unfolding lookup allowed_by
  allowed_by_any norm id [] = refl
  allowed_by_any norm id (entry ∷ access) = refl

  is_model_allowed_lem :
      (access : Access) (id : ℕ) (alias : String)
      → let norm = normalize_model_alias to_lower alias in
        is_model_allowed to_lower access id alias
        ≡ (if norm == "" then false else allowed_by to_lower (lookup id access) norm)
  unfolding is_model_allowed
  is_model_allowed_lem access id alias =
      rw (allowed_by_any (normalize_model_alias to_lower alias) id access)

  -- After SetTenantModels the tenant may use exactly the models listed, compared by their normalised
  -- aliases, and no other tenant's rights change.
  pub is_model_allowed-set :
      (access : Access) (tenant other : ℕ) (aliases : List String) (alias : String)
      → let norm = normalize_model_alias to_lower alias in
        is_model_allowed to_lower (set_tenant_models to_lower access tenant aliases) other alias ≡ (
          if tenant == other
          then not (norm == "") && is_listed norm aliases
          else is_model_allowed to_lower access other alias)
  unfolding set_tenant_models allowed_by contains
  is_model_allowed-set access tenant other aliases alias =
      let norm = normalize_model_alias to_lower alias in
      let set = alias_set to_lower aliases [] in
      ground (
        arith,
        is_model_allowed_lem (insert tenant set access) other alias,
        is_model_allowed_lem access other alias,
        lookup-insert tenant other set access,
        contains-alias_set norm aliases [],
      )

  -- After ClearTenantModels the tenant may use every model that has a name, and no other tenant's
  -- rights change.
  pub is_model_allowed-clear :
      (access : Access) (tenant other : ℕ) (alias : String)
      → is_model_allowed to_lower (clear_tenant_models to_lower access tenant) other alias ≡ (
          if tenant == other
          then not (normalize_model_alias to_lower alias == "")
          else is_model_allowed to_lower access other alias)
  unfolding clear_tenant_models allowed_by
  is_model_allowed-clear access tenant other alias = ground (
    arith,
    is_model_allowed_lem (delete tenant access) other alias,
    is_model_allowed_lem access other alias,
    lookup-delete tenant other access,
  )

  seed-kept :
      (id : ℕ) (ids : List (Option ℕ)) (m : Access)
      → lookup id m ≡ some []
      → lookup id (seed to_lower ids m) ≡ some []
  unfolding seed
  seed-kept id [] m h = h
  seed-kept id (none ∷ ids) m h = seed-kept id ids m h
  seed-kept id (some other ∷ ids) m h =
      seed-kept id ids (insert other [] m) (ground (arith, lookup-insert other id [] m))

  seed_lem :
      (id : ℕ) (ids : List (Option ℕ)) (m : Access)
      → is_seeded id ids ≡ true
      → lookup id (seed to_lower ids m) ≡ some []
  unfolding seed
  seed_lem id [] m h = cc
  seed_lem id (none ∷ ids) m h = seed_lem id ids m h
  seed_lem id (some other ∷ ids) m h = elim (Bool-cases (other == id)) [
    | inl same ↦ seed-kept id ids (insert other [] m) (rw (lookup-insert, same))
    | inr apart ↦ seed_lem id ids (insert other [] m) (rw apart at h)
  ]

  add_row_lem :
      (id : ℕ) (norm : String) (owner : Option ℕ) (alias : String) (m : Access) (set : List String)
      → (norm == "") ≡ false
      → lookup id m ≡ some set
      → (set' : List String) × (lookup id (add_row to_lower owner alias m) ≡ some set')
        × (contains norm set' ≡ (contains norm set || (has_id id owner && alias == norm)))
  unfolding add_row contains
  add_row_lem id norm none alias m set named h = (set, h, ground arith)
  add_row_lem id norm (some other) alias m set named h = elim (Bool-cases (alias == "")) [
    | inl blank ↦
        (set, rw blank h, ground (arith, eq_iff alias "", eq_iff alias norm, eq_iff norm ""))
    | inr some_alias ↦ elim (Bool-cases (other == id)) [
      | inl same ↦ (
        alias ∷ set_or_empty (lookup other m),
        rw (some_alias, lookup-insert, same),
        ground (arith, nat_beq_iff other id),
      )
      | inr apart ↦ (set, rw (some_alias, lookup-insert, apart) h, rw apart (ground arith))
    ]
  ]

  add_rows_lem :
      (id : ℕ) (norm : String) (rows : List ModelRow) (m : Access) (set : List String)
      → (norm == "") ≡ false
      → lookup id m ≡ some set
      → (set' : List String) × (lookup id (add_rows to_lower rows m) ≡ some set')
        × (contains norm set' ≡ (contains norm set || is_granted id norm rows))
  unfolding add_rows
  add_rows_lem id norm [] m set named h = (set, h, ground arith)
  add_rows_lem id norm (row ∷ rows) m set named h =
      let alias = normalize_model_alias to_lower row.alias in
      let (one, e, c) = add_row_lem id norm row.tenant_id alias m set named h in
      let (set', e', c') =
        add_rows_lem id norm rows (add_row to_lower row.tenant_id alias m) one named e in
      (set', e', ground (arith, c, c'))

  -- After a load that succeeds, a tenant that was listed may use exactly the models that its rows
  -- grant it: none at all if it has no rows.
  pub is_model_allowed-load :
      (ids : List (Option ℕ)) (rows : List ModelRow) (access : Access) (id : ℕ) (alias : String)
      → is_seeded id ids ≡ true
      → let norm = normalize_model_alias to_lower alias in
        let loaded = load_tenant_model_access to_lower (ok ids) (ok rows) access in
        is_model_allowed to_lower loaded.1 id alias ≡ (not (norm == "") && is_granted id norm rows)
  unfolding load_tenant_model_access allowed_by contains
  is_model_allowed-load ids rows access id alias h =
      let norm = normalize_model_alias to_lower alias in
      let start = seed to_lower ids [] in
      elim (Bool-cases (norm == "")) [
        | inl blank ↦ rw (is_model_allowed_lem, blank)
        | inr named ↦
            (let (set, e, c) = add_rows_lem id norm rows start [] named (seed_lem id ids [] h) in
              rw (is_model_allowed_lem, named, e) c)
      ]
