-- ===== src/Auth/Steps.antt =====
-- The checks of a request, each of which lets it pass or answers with an HTTP error, and leaves the rows.
use open_model_gateway.Base.{
  ℕ, ◌≡◌, refl, sym, ap, ◌∙◌, String, Bool, true, false, Option, none, some, ◌==◌, nat_eq,
  string_eq, Result, ok, err, Error, error_text, Act, ◌>>=◌, return, fail, bind-Post,
  on_result-Post, first, if◌then◌else◌,
}
use open_model_gateway.RequestContext.{RequestContext}
use open_model_gateway.Auth.Tables.{
  Rows, Directory, ApiKey, query, found, is_no_rows, get_api_key_by_prefix, get_tenant_by_id,
  get_tenant_budget_override,
}
use open_model_gateway.Auth.Context.{
  Container, build_request_context, tenant_of, tenant_part, context_of,
}
use open_model_gateway.Auth.Middleware.{lookup_failed, or_status, refuse_if, check_secret}
use open_model_gateway.Auth.Queries.{query-elim}

-- An HTTP error.
abbrev pub IsHttp : Error → Type 0
IsHttp (Error.api status text) = Unit {0}
IsHttp _ = ⊥

-- Passed with a value that has the property, or refused; the rows are those given.
abbrev pub Step : {A : Type 0} → Rows → (A → Type 0) → Result A → Directory → Type 0
Step rows P (ok a) t = P a × (t.rows ≡ rows)
Step rows P (err e) t = IsHttp e × (t.rows ≡ rows)

abbrev pub Reads : {A : Type 0} → Act Rows A → Type 0
Reads run = (rows : Rows) → (run rows).1 ≡ rows

found-Reads : {A : Type 0} (o : Option A) (rows : Rows) → (found o rows).1 ≡ rows
found-Reads none rows = refl
found-Reads (some a) rows = refl

pub get_api_key_by_prefix-Reads : (prefix : String) → Reads (get_api_key_by_prefix prefix)
unfolding get_api_key_by_prefix
get_api_key_by_prefix-Reads prefix rows = found-Reads _ rows

pub get_tenant_by_id-Reads : (id : Option ℕ) → Reads (get_tenant_by_id id)
unfolding get_tenant_by_id
get_tenant_by_id-Reads none rows = refl
get_tenant_by_id-Reads (some id) rows = found-Reads _ rows

get_tenant_budget_override-Reads : (id : Option ℕ) → Reads (get_tenant_budget_override id)
unfolding get_tenant_budget_override
get_tenant_budget_override-Reads none rows = refl
get_tenant_budget_override-Reads (some id) rows = found-Reads _ rows

pub lookup_failed-IsHttp :
    (missing failed : String) (e : Error) → IsHttp (lookup_failed missing failed e)
lookup_failed-IsHttp missing failed e = by_kind (is_no_rows e)
  where
    by_kind : (b : Bool) → IsHttp (if b then Error.api 401 missing else Error.api 500 failed)
    by_kind true = tt
    by_kind false = tt

module _ {A : Type 0} where
  -- A query that only reads, whose errors become HTTP errors.
  pub or_status-Step :
      (run : Act Rows A) (f : Error → Error) (rows : Rows) (s : Directory)
      → Reads run
      → ((e : Error) → IsHttp (f e))
      → s.rows ≡ rows
      → Step rows
          (λ a. (run rows).0 ≡ ok a)
          (or_status (query run) f s).0
          (or_status (query run) f s).1
  or_status-Step run f rows s reads http h =
      on_result-Post Answered (Step rows (λ a. (run rows).0 ≡ ok a)) (query run) return
        (λ e. fail (f e)) s
        (query-elim Answered run s (λ e t k. k.0 ∙ h)
          (λ a t e k i. (ap (λ r. (run r).0) (sym h) ∙ e, k ∙ reads s.rows ∙ h)))
        (λ a t k. k) (λ e t k. (http e, k))
    where
      Answered : Result A → Directory → Type 0
      Answered (ok a) t = ((run rows).0 ≡ ok a) × (t.rows ≡ rows)
      Answered (err e) t = t.rows ≡ rows

  -- A check before the rest.
  pub then-Step :
      {B : Type 0} (P : A → Type 0) (R : B → Type 0) (rows : Rows) (m : Act Directory A)
      (f : A → Act Directory B) (s : Directory)
      → Step rows P (m s).0 (m s).1
      → ((a : A) (t : Directory) → P a → t.rows ≡ rows → Step rows R (f a t).0 (f a t).1)
      → Step rows R ((m >>= f) s).0 ((m >>= f) s).1
  then-Step P R rows m f s first later =
      bind-Post (Step rows P) (Step rows R) m f s first (λ a t h. later a t h.0 h.1) (λ e t h. h)

pub weaken-Step :
    {A : Type 0} (P R : A → Type 0) (rows : Rows) (r : Result A) (t : Directory)
    → ((a : A) → P a → R a)
    → Step rows P r t
    → Step rows R r t
weaken-Step P R rows (ok a) t f h = (f a h.0, h.1)
weaken-Step P R rows (err e) t f h = h

pub refuse_if-Step :
    (refused : Bool) (status : ℕ) (text : String) (rows : Rows) (s : Directory)
    → s.rows ≡ rows
    → Step rows
        (λ _. refused ≡ false)
        (refuse_if refused status text s).0
        (refuse_if refused status text s).1
refuse_if-Step true status text rows s h = (tt, h)
refuse_if-Step false status text rows s h = (refl, h)

pub check_secret-Step :
    (verified : Result Bool) (rows : Rows) (s : Directory)
    → s.rows ≡ rows
    → Step rows (λ _. verified ≡ ok true) (check_secret verified s).0 (check_secret verified s).1
unfolding check_secret
check_secret-Step (err e) rows s h = (tt, h)
check_secret-Step (ok false) rows s h = (tt, h)
check_secret-Step (ok true) rows s h = (refl, h)

module _ (container : Container) where
  tenant_part-ok :
      (tenant : Option ℕ) (rows : Rows) (s : Directory)
      → s.rows ≡ rows
      → Step rows
          (λ _. Unit {0})
          (tenant_part container tenant s).0
          (tenant_part container tenant s).1
  unfolding tenant_part
  tenant_part-ok tenant rows s h =
      on_result-Post (λ r t. t.rows ≡ rows) (Step rows (λ _. Unit {0}))
        (query (get_tenant_budget_override tenant)) _ _ s
        (query-elim (λ r t. t.rows ≡ rows) (get_tenant_budget_override tenant) s (λ e t k. k.0 ∙ h)
          (λ a t e k i. k ∙ get_tenant_budget_override-Reads tenant s.rows ∙ h))
        (λ a t k. (tt, k)) (λ e t k. (tt, k))

  -- The context of a key with a tenant is of this key and this tenant.
  pub build_request_context-Step :
      (key : ApiKey) (id : ℕ) (rows : Rows) (s : Directory)
      → key.tenant_id ≡ some id
      → (id == 0) ≡ false
      → s.rows ≡ rows
      → Step rows
          (λ rc. (rc.api_key_id ≡ key.id) × (some rc.tenant_id ≡ key.tenant_id))
          (or_status (build_request_context container key) (λ e. Error.api 500 (error_text e)) s).0
          (or_status (build_request_context container key) (λ e. Error.api 500 (error_text e)) s).1
  unfolding build_request_context tenant_of context_of
  build_request_context-Step key id rows s k n h =
      on_result-Post Built Built (build_request_context container key) return
        (λ e. fail (Error.api 500 (error_text e))) s built (λ a t b. b) (λ e t b. (tt, b.1))
    where
      Built : Result RequestContext → Directory → Type 0
      Built = Step rows (λ rc. (rc.api_key_id ≡ key.id) × (some rc.tenant_id ≡ key.tenant_id))

      built :
          Built (build_request_context container key s).0 (build_request_context container key s).1
      built =
          simp (k, n)
            (then-Step (λ _. Unit {0})
              (λ rc. (rc.api_key_id ≡ key.id) × (some rc.tenant_id ≡ some id)) rows
              (tenant_part container (some id)) (λ part. return (context_of container key id part))
              s (tenant_part-ok (some id) rows s h) (λ part t _ e. ((refl, refl), e)))
