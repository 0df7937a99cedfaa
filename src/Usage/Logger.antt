-- ===== src/Usage/Logger.antt =====
-- Logger.Record of logger.go, over the tables, the remainders of cents and the alert state. Metrics are
-- left out; `now` is time.Now() where the record has no time.
use open_model_gateway.Base.{
  ℕ, suc, ◌*◌, String, ◌||◌, ℤ, pos, negsuc, ◌-◌, Option, none, some, GoMap, ◌==◌, nat_eq,
  string_eq, Result, ok, Error, Act, ◌>>=◌, return, fail, if◌then◌else◌,
}
use open_model_gateway.RequestContext.{RequestContext}
use open_model_gateway.Usage.Tables.{Record, Tables, persist}
use open_model_gateway.Usage.Pricing.{
  Decimal, PriceInfo, cost_for, allocate_cost_cents, usd_to_micros,
}
use open_model_gateway.Usage.Budget.{
  Calendar, BudgetConfig, BudgetStatus, effective_limit, budget_schedule, sum_usage, status_of,
}
use open_model_gateway.Usage.Alerts.{AlertPayload, Alerts, dispatch}

-- What the logger calls and reads: packages decimal, time, strconv and strings, the alert sink, the
-- database's answer to an update of the alert state, the prices and the budget configuration.
pub record Services : Type 1 where
  pub decimal : Decimal
  pub calendar : Calendar
  pub atoi : String → Result ℤ
  pub to_lower : String → String
  pub notify : AlertPayload → Result (Unit {0})
  pub reply : Result (Unit {0})
  pub prices : GoMap String (PriceInfo decimal)
  pub config : BudgetConfig

pub record Ledger (services : Services) : Type 0 where
  pub tables : Tables
  pub remainders : GoMap ℕ services.decimal.D
  pub alerts : Alerts

module _ (services : Services) where
  open services use {decimal, calendar, atoi, to_lower, notify, reply, prices, config}

  abbrev pub on_tables : {A : Type 0} → Act Tables A → Act (Ledger services) A
  on_tables run s = ((run s.tables).0, record s { tables = (run s.tables).1 })

  abbrev pub micros_of_cents : ℤ → ℤ
  micros_of_cents (pos n) = pos (n * 10000)
  micros_of_cents (negsuc n) = negsuc (suc n * 10000 - 1)

  -- The cents and micros of a success.
  unfoldable pub price_success : RequestContext → Record → Option ℤ → Act (Ledger services) (ℤ × ℤ)
  price_success rc rec (some cents) s = (ok (cents, micros_of_cents cents), s)
  price_success rc rec none s =
      let usd = cost_for decimal prices rec.alias rec.usage in
      let allocated = allocate_cost_cents decimal rc.tenant_id usd s.remainders in
      (ok (allocated.0, usd_to_micros decimal usd), record s { remainders = allocated.1 })

  unfoldable pub price_record : RequestContext → Record → Act (Ledger services) (ℤ × ℤ)
  price_record rc rec =
      if rec.success then price_success rc rec rec.override_cost_cents else return (pos 0, pos 0)

  -- The error of Dispatch is only logged.
  unfoldable pub alert_status :
      RequestContext → Record → ℕ → BudgetStatus → Act (Ledger services) BudgetStatus
  alert_status rc rec ts status s = (
    ok status,
    record s { alerts = (dispatch to_lower notify reply rc rec.alias status ts s.alerts).1 },
  )

  -- Record once the cost is known.
  unfoldable pub settle_record :
      RequestContext → Record → ℕ → ℤ × ℤ → Act (Ledger services) BudgetStatus
  settle_record rc rec ts cost = on_tables (persist rc rec ts cost.0 cost.1) >>= λ _.
      on_tables
        (sum_usage calendar rc.tenant_id ts (budget_schedule atoi to_lower config (some rc)))
      >>= λ total.
          alert_status rc rec ts
            (status_of total (effective_limit config (some rc)) rc.warning_threshold)

  -- Record after its checks.
  unfoldable pub record_at : RequestContext → Record → ℕ → Act (Ledger services) BudgetStatus
  record_at rc rec ts = price_record rc rec >>= settle_record rc rec ts

  unfoldable pub record_context :
      Option RequestContext → Record → ℕ → Act (Ledger services) BudgetStatus
  record_context none rec now = fail (Error.message "request context missing")
  record_context (some rc) rec now =
      if rec.alias == "" || rec.provider == ""
      then fail (Error.message "model alias and provider required")
      else record_at rc rec (if rec.timestamp == 0 then now else rec.timestamp)

  -- Logger.Record
  unfoldable pub log_record : Record → ℕ → Act (Ledger services) BudgetStatus
  log_record rec now = record_context rec.context rec now
