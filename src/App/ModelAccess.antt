-- ===== src/App/ModelAccess.antt =====
-- Which models a tenant may use: IsModelAllowed and its neighbours in internal/app/container.go.
-- `to_lower` is strings.ToLower; an alias set is a list. The map is nil only before the first load,
-- where it is read and written as an empty one.
use open_model_gateway.Base.{
  ℕ, String, Bool, true, false, ◌||◌, Option, none, some, List, [], ◌∷◌, GoMap, lookup, insert,
  delete, trim_space, ◌==◌, string_eq, nat_eq, Result, ok, err, if◌then◌else◌,
}

abbrev pub Access : Type 0
Access = GoMap ℕ (List String)

unfoldable pub contains : String → List String → Bool
contains a [] = false
contains a (x ∷ xs) = x == a || contains a xs

-- db.ListAllTenantModelsRow
pub record ModelRow : Type 0 where
  pub tenant_id : Option ℕ
  pub alias : String

abbrev pub is_nil {ℓ} : {A : Type ℓ} → List A → Bool
is_nil [] = true
is_nil (x ∷ xs) = false

abbrev pub set_or_empty : Option (List String) → List String
set_or_empty none = []
set_or_empty (some set) = set

module _ (to_lower : String → String) where
  unfoldable pub normalize_model_alias : String → String
  normalize_model_alias alias = to_lower (trim_space alias)

  unfoldable pub allowed_by : Option (List String) → String → Bool
  allowed_by none normalized = true
  allowed_by (some allowed) normalized = contains normalized allowed

  unfoldable pub is_model_allowed : Access → ℕ → String → Bool
  unfolding allowed_by
  is_model_allowed access tenant_id alias =
      let normalized = normalize_model_alias alias in
      if normalized == ""
      then false
      else (if is_nil access then true else allowed_by (lookup tenant_id access) normalized)

  -- The loop of SetTenantModels.
  unfoldable pub alias_set : List String → List String → List String
  alias_set [] set = set
  alias_set (alias ∷ aliases) set =
      let norm = normalize_model_alias alias in
      alias_set aliases (if norm == "" then set else norm ∷ set)

  unfoldable pub set_tenant_models : Access → ℕ → List String → Access
  set_tenant_models access tenant_id aliases = insert tenant_id (alias_set aliases []) access

  unfoldable pub clear_tenant_models : Access → ℕ → Access
  clear_tenant_models access tenant_id = delete tenant_id access

  -- The two loops of loadTenantModelAccess.
  unfoldable pub seed : List (Option ℕ) → Access → Access
  seed [] model_map = model_map
  seed (none ∷ ids) model_map = seed ids model_map
  seed (some id ∷ ids) model_map = seed ids (insert id [] model_map)

  unfoldable pub add_row : Option ℕ → String → Access → Access
  add_row none alias model_map = model_map
  add_row (some id) alias model_map =
      if alias == ""
      then model_map
      else insert id (alias ∷ set_or_empty (lookup id model_map)) model_map

  unfoldable pub add_rows : List ModelRow → Access → Access
  add_rows [] model_map = model_map
  add_rows (row ∷ rows) model_map =
      add_rows rows (add_row row.tenant_id (normalize_model_alias row.alias) model_map)

  -- The ids of ListTenants and the rows of ListAllTenantModels, or the errors of the queries. The
  -- second part of the result is the new map, the old one after an error.
  unfoldable pub load_tenant_model_access :
      Result (List (Option ℕ)) → Result (List ModelRow) → Access → Result (Unit {0}) × Access
  load_tenant_model_access (err e) rows access = (err e, access)
  load_tenant_model_access (ok ids) (err e) access = (err e, access)
  load_tenant_model_access (ok ids) (ok rows) access = (ok tt, add_rows rows (seed ids []))
