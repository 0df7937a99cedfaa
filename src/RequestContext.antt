-- ===== src/RequestContext.antt =====
-- internal/requestctx/context.go. A UUID is a number, 0 for uuid.Nil; a duration counts seconds; a
-- time counts seconds and is 0 for the zero time; a float64 threshold counts millionths.
use open_model_gateway.Base.{ℕ, ℤ, String, Bool, List}

pub record RequestContext : Type 0 where
  pub tenant_id : ℕ
  pub api_key_id : ℕ
  pub api_key_prefix : String
  pub scopes : List String
  pub budget_limit_cents : ℤ
  pub warning_threshold : ℤ
  pub budget_refresh_schedule : String
  pub alerts_enabled : Bool
  pub alert_emails : List String
  pub alert_webhooks : List String
  pub alert_cooldown : ℤ
  pub alert_last_level : String
  pub alert_last_sent : ℕ
  pub has_budget_override : Bool
