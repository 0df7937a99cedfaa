-- ===== src/Usage/Alerts.antt =====
-- alert_dispatcher.go and alerts.go: when a tenant is told about its budget. The sink's answer and the
-- database's are parameters; `attempts` lists the payloads given to the sink, the latest first, and
-- `overrides` is the alert state in the tenants' budget overrides.
use open_model_gateway.Base.{
  ℕ, ◌+◌, String, Bool, true, false, ◌&&◌, ◌||◌, not, ℤ, is_pos, pos_part, Option, none, some, List,
  [], ◌∷◌, ◌==◌, string_eq, nat_eq, GoMap, lookup, insert, delete, Result, ok, err, Act, ltb, leb,
  if◌then◌else◌, trim_space,
}
use open_model_gateway.RequestContext.{RequestContext}
use open_model_gateway.Usage.Budget.{BudgetStatus}

pub data AlertLevel : Type 0 where
  level_none level_warning level_exceeded : AlertLevel

pub record AlertPayload : Type 0 where
  pub tenant_id : ℕ
  pub level : AlertLevel
  pub status : BudgetStatus
  pub emails : List String
  pub webhooks : List String
  pub timestamp : ℕ
  pub api_key_prefix : String
  pub model_alias : String

-- alertSnapshot; `sent` is 0 for the zero time.
pub record AlertSnapshot : Type 0 where
  pub level : AlertLevel
  pub sent : ℕ

pub record Alerts : Type 0 where
  pub state : GoMap ℕ AlertSnapshot
  pub overrides : GoMap ℕ (Option AlertSnapshot)
  pub attempts : List AlertPayload

abbrev pub is_none_level : AlertLevel → Bool
is_none_level AlertLevel.level_none = true
is_none_level _ = false

unfoldable pub alert_severity : AlertLevel → ℕ
alert_severity AlertLevel.level_exceeded = 2
alert_severity AlertLevel.level_warning = 1
alert_severity AlertLevel.level_none = 0

abbrev pub is_empty : List String → Bool
is_empty [] = true
is_empty (x ∷ xs) = false

unfoldable pub store_alert_state : ℕ → AlertSnapshot → Alerts → Alerts
store_alert_state tenant snapshot a =
    if is_none_level snapshot.level || snapshot.sent == 0
    then record a { state = delete tenant a.state }
    else record a { state = insert tenant snapshot a.state }

abbrev pub stored_snapshot : AlertLevel → ℕ → Option AlertSnapshot
stored_snapshot level ts =
    if is_none_level level || ts == 0 then none else some (record { level = level; sent = ts })

-- The level of a budget status.
unfoldable pub level_of : BudgetStatus → AlertLevel
level_of status =
    if status.exceeded
    then AlertLevel.level_exceeded
    else if status.warning
    then AlertLevel.level_warning
    else AlertLevel.level_none

-- A cooldown that is not positive counts as an hour.
abbrev pub cooldown_of : ℤ → ℕ
cooldown_of cooldown = if is_pos cooldown then pos_part cooldown else 3600

-- The cooldown holds the alert back.
unfoldable pub is_held_back : ℕ → AlertLevel → ℕ → AlertSnapshot → Bool
is_held_back cooldown level ts snapshot =
    not (snapshot.sent == 0)
    && ltb ts (snapshot.sent + cooldown)
    && leb (alert_severity level) (alert_severity snapshot.level)

abbrev pub snapshot_or : Option AlertSnapshot → AlertLevel → ℕ → AlertSnapshot
snapshot_or none level sent = record { level = level; sent = sent }
snapshot_or (some snapshot) level sent = snapshot

-- `reply` is the database's answer to the update of the override.
unfoldable pub update_alert_state :
    Result (Unit {0}) → RequestContext → AlertLevel → ℕ → Act Alerts (Unit {0})
update_alert_state reply rc level ts a =
    let stored = store_alert_state rc.tenant_id (record { level = level; sent = ts }) a in
    if rc.has_budget_override then written reply stored else (ok tt, stored)
  where
    written : Result (Unit {0}) → Alerts → Result (Unit {0}) × Alerts
    written (err e) b = (err e, b)
    written (ok _) b =
        (ok tt, record b { overrides = insert rc.tenant_id (stored_snapshot level ts) b.overrides })

-- The state is written when the sink has taken the payload.
unfoldable pub settle_alert :
    Result (Unit {0}) → RequestContext → AlertLevel → ℕ → Result (Unit {0}) → Act Alerts (Unit {0})
settle_alert reply rc level ts (err e) a = (err e, a)
settle_alert reply rc level ts (ok _) a = update_alert_state reply rc level ts a

unfoldable pub payload_of : RequestContext → String → BudgetStatus → ℕ → AlertPayload
payload_of rc alias status ts = record {
  tenant_id = rc.tenant_id;
  level = level_of status;
  status = status;
  emails = rc.alert_emails;
  webhooks = rc.alert_webhooks;
  timestamp = ts;
  api_key_prefix = rc.api_key_prefix;
  model_alias = alias;
}

module _ (to_lower : String → String) where
  unfoldable pub parse_alert_level : String → AlertLevel
  parse_alert_level value =
      if to_lower (trim_space value) == "exceeded"
      then AlertLevel.level_exceeded
      else if to_lower (trim_space value) == "warning"
      then AlertLevel.level_warning
      else AlertLevel.level_none

  unfoldable pub load_alert_state : ℕ → String → ℕ → Alerts → AlertSnapshot
  load_alert_state tenant fallback_level fallback_time a =
      snapshot_or (lookup tenant a.state) (parse_alert_level fallback_level) fallback_time

module _ (to_lower : String → String) (notify : AlertPayload → Result (Unit {0})) where
  -- The payload is given to the sink.
  unfoldable pub send_alert :
      Result (Unit {0}) → RequestContext → AlertPayload → Act Alerts (Unit {0})
  send_alert reply rc payload a =
      settle_alert reply rc payload.level payload.timestamp (notify payload)
        (record a { attempts = payload ∷ a.attempts })

  -- AlertDispatcher.Dispatch of a record with a context; `alias` is the record's.
  unfoldable pub dispatch :
      Result (Unit {0}) → RequestContext → String → BudgetStatus → ℕ → Act Alerts (Unit {0})
  dispatch reply rc alias status ts a =
      if not rc.alerts_enabled || (is_empty rc.alert_emails && is_empty rc.alert_webhooks)
      then update_alert_state reply rc AlertLevel.level_none 0 a
      else if is_none_level (level_of status)
      then update_alert_state reply rc AlertLevel.level_none 0 a
      else if is_held_back (cooldown_of rc.alert_cooldown) (level_of status) ts
          (load_alert_state to_lower rc.tenant_id rc.alert_last_level rc.alert_last_sent a)
      then (ok tt, a)
      else send_alert reply rc (payload_of rc alias status ts) a
