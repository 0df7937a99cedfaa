-- ===== src/Auth/Context.antt =====
-- app/request_context.go: BuildRequestContext. A float64 counts millionths. `exact` says of a decimal
-- whether it is a float64, which is what the second result of Decimal.Float64 says; `decode_scopes` and
-- `decode_quota` are json.Unmarshal into the scopes and into the budget and the warning threshold.
use open_model_gateway.Base.{
  ℕ, ◌+◌, ◌/◌, suc, ℤ, pos, negsuc, neg, is_pos, ltb_ℤ, String, Bool, true, false, Option, none,
  some, List, [], ◌∷◌, ◌==◌, string_eq, nat_eq, Error, Act, ◌>>=◌, return, fail, on_result,
  if◌then◌else◌, trim_space,
}
use open_model_gateway.RequestContext.{RequestContext}
use open_model_gateway.App.ModelAccess.{is_nil}
use open_model_gateway.Auth.Tables.{
  Directory, ApiKey, TenantBudgetOverride, query, get_user_by_id, get_tenant_budget_override,
  update_api_key_tenant,
}
use open_model_gateway.Auth.Personal.{ensure_personal_tenant}

-- config.BudgetConfig; `default_usd` and `warning_threshold_perc` in millionths.
pub record BudgetSettings : Type 0 where
  pub default_usd : ℤ
  pub warning_threshold_perc : ℤ
  pub refresh_schedule : String
  pub alerts_enabled : Bool
  pub alert_emails : List String
  pub alert_webhooks : List String
  pub alert_cooldown : ℤ

-- What BuildRequestContext reads besides the database. `accounts` tells whether the container has
-- the service of personal tenants; `normalize` is config.NormalizeBudgetRefreshSchedule.
pub record Container : Type 0 where
  pub budgets : BudgetSettings
  pub accounts : Bool
  pub to_lower : String → String
  pub uuid_string : ℕ → String
  pub normalize : String → String
  pub exact : ℤ → Bool
  pub decode_scopes : String → Option (List String)
  pub decode_quota : String → ℤ × ℤ

-- int64(math.Round(usd * 100)), with halves away from zero.
abbrev pub round_cents : ℤ → ℤ
round_cents (pos n) = pos ((n + 5000) / 10000)
round_cents (negsuc n) = neg (pos ((suc n + 5000) / 10000))

unfoldable pub trim_strings : List String → List String
trim_strings [] = []
trim_strings (v ∷ values) =
    let rest = trim_strings values in if trim_space v == "" then rest else trim_space v ∷ rest

-- The parts of a context that a tenant's override sets.
pub record TenantPart : Type 0 where
  pub tenant_budget : ℤ
  pub tenant_warn : ℤ
  pub schedule : String
  pub emails : List String
  pub webhooks : List String
  pub cooldown : ℤ
  pub last_level : String
  pub last_sent : ℕ
  pub has_override : Bool

abbrev pub text_or_empty : Option String → String
text_or_empty none = ""
text_or_empty (some s) = trim_space s

abbrev pub time_or_zero : Option ℕ → ℕ
time_or_zero none = 0
time_or_zero (some t) = t

abbrev pub some_or {ℓ} : {A : Type ℓ} → A → Option A → A
some_or a none = a
some_or a (some b) = b

module _ (container : Container) where
  unfoldable pub without_override : TenantPart
  without_override = record {
    tenant_budget = pos 0;
    tenant_warn = pos 0;
    schedule = container.budgets.refresh_schedule;
    emails = container.budgets.alert_emails;
    webhooks = container.budgets.alert_webhooks;
    cooldown = container.budgets.alert_cooldown;
    last_level = "";
    last_sent = 0;
    has_override = false;
  }

  unfoldable pub with_override : TenantBudgetOverride → TenantPart
  with_override override = record {
    tenant_budget =
        if container.exact override.budget_usd then round_cents override.budget_usd else pos 0;
    tenant_warn =
        if container.exact override.warning_threshold then override.warning_threshold else pos 0;
    schedule = container.normalize override.refresh_schedule;
    emails =
        if is_nil override.alert_emails
        then container.budgets.alert_emails
        else trim_strings override.alert_emails;
    webhooks =
        if is_nil override.alert_webhooks
        then container.budgets.alert_webhooks
        else trim_strings override.alert_webhooks;
    cooldown =
        if is_pos override.alert_cooldown_seconds
        then override.alert_cooldown_seconds
        else container.budgets.alert_cooldown;
    last_level = text_or_empty override.last_alert_level;
    last_sent = time_or_zero override.last_alert_at;
    has_override = true;
  }

  -- An error of the query counts as no override.
  unfoldable pub tenant_part : Option ℕ → Act Directory TenantPart
  tenant_part tenant =
      on_result (query (get_tenant_budget_override tenant))
        (λ override. return (with_override override)) (λ e. return without_override)

  unfoldable pub budget_limit : ℤ → ℤ → ℤ
  budget_limit quota tenant_budget =
      if is_pos (round_cents quota)
      then round_cents quota
      else if is_pos tenant_budget
      then tenant_budget
      else round_cents container.budgets.default_usd

  -- At least defaultWarnFloor, one half.
  unfoldable pub warning_level : ℤ → ℤ → ℤ
  warning_level quota tenant_warn =
      let warn : ℤ =
        if is_pos quota
        then quota
        else if is_pos tenant_warn
        then tenant_warn
        else container.budgets.warning_threshold_perc in
      if ltb_ℤ warn (pos 500000) then pos 500000 else warn

  unfoldable pub context_of : ApiKey → ℕ → TenantPart → RequestContext
  context_of key tenant part =
      let quota : ℤ × ℤ =
        if key.quota_json == "" then (pos 0, pos 0) else container.decode_quota key.quota_json in
      record {
        tenant_id = tenant;
        api_key_id = key.id;
        api_key_prefix = key.prefix;
        scopes =
            if key.scopes_json == ""
            then []
            else some_or [] (container.decode_scopes key.scopes_json);
        budget_limit_cents = budget_limit quota.0 part.tenant_budget;
        warning_threshold = warning_level quota.1 part.tenant_warn;
        budget_refresh_schedule = part.schedule;
        alerts_enabled =
            if is_nil part.emails
            then (if is_nil part.webhooks then container.budgets.alerts_enabled else true)
            else true;
        alert_emails = part.emails;
        alert_webhooks = part.webhooks;
        alert_cooldown = part.cooldown;
        alert_last_level = part.last_level;
        alert_last_sent = part.last_sent;
        has_budget_override = part.has_override;
      }

  unfoldable pub assign_tenant : ApiKey → Option ℕ → Act Directory ℕ
  assign_tenant key none = fail (Error.message "api key tenant not set")
  assign_tenant key (some owner) = query (get_user_by_id (some owner)) >>= λ user.
      ensure_personal_tenant container.to_lower container.uuid_string user >>= λ personal.
      query (update_api_key_tenant key.id personal.1.id) >>= λ _. return personal.1.id

  unfoldable pub ensure_api_key_tenant : ApiKey → Act Directory ℕ
  ensure_api_key_tenant key =
      if container.accounts
      then assign_tenant key key.owner_user_id
      else fail (Error.message "tenant missing for api key")

  unfoldable pub tenant_of : ApiKey → Option ℕ → Act Directory ℕ
  tenant_of key none = ensure_api_key_tenant key
  tenant_of key (some id) = if id == 0 then ensure_api_key_tenant key else return id

  unfoldable pub build_request_context : ApiKey → Act Directory RequestContext
  build_request_context key = tenant_of key key.tenant_id >>= λ tenant.
      tenant_part key.tenant_id >>= λ part. return (context_of key tenant part)
