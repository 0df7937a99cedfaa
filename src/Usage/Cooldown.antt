-- ===== src/Usage/Cooldown.antt =====
-- When Dispatch gives an alert to the sink.
use open_model_gateway.Base.{
  ℕ, ◌+◌, String, Bool, true, false, Option, none, some, lookup, ltb, is_pos, pos_part, trim_space,
  ◌==◌, string_eq, ◌&&◌, not, nat_eq, Result, if◌then◌else◌,
}
use open_model_gateway.RequestContext.{RequestContext}
use open_model_gateway.Usage.Budget.{BudgetStatus}
use open_model_gateway.Usage.Alerts.{AlertLevel, AlertPayload, AlertSnapshot, Alerts}

-- An alert of the level is at least as grave as the status, which is exceeded or a warning.
abbrev pub is_as_grave : AlertLevel → BudgetStatus → Bool
is_as_grave AlertLevel.level_exceeded status = true
is_as_grave AlertLevel.level_warning status = not status.exceeded
is_as_grave AlertLevel.level_none status = false

module _ (to_lower : String → String) (notify : AlertPayload → Result (Unit {0})) where
  -- The level and the time of the last alert on record: those in memory, or else those that the tenant's
  -- row in the database had.
  abbrev pub known : RequestContext → Option AlertSnapshot → AlertSnapshot
  known rc (some snapshot) = snapshot
  known rc none = record {
    level =
        if to_lower (trim_space rc.alert_last_level) == "exceeded"
        then AlertLevel.level_exceeded
        else if to_lower (trim_space rc.alert_last_level) == "warning"
        then AlertLevel.level_warning
        else AlertLevel.level_none;
    sent = rc.alert_last_sent;
  }

  abbrev pub last_alert : RequestContext → Alerts → AlertSnapshot
  last_alert rc a = known rc (lookup rc.tenant_id a.state)

  -- Less than the cooldown, an hour by default, has passed since the last alert, and it was as grave.
  abbrev pub is_recent : RequestContext → BudgetStatus → ℕ → AlertSnapshot → Bool
  is_recent rc status ts last =
      (not (last.sent == 0)
        && ltb ts
            (last.sent + (if is_pos rc.alert_cooldown then pos_part rc.alert_cooldown else 3600)))
      && is_as_grave last.level status
