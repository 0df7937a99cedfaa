-- ===== src/Usage/Rolling.antt =====
-- The total that Record reports.
use open_model_gateway.Base.{
  ℕ, ◌-◌, ◌*◌, ◌<◌, pos, trim_space, arith, nat_eq, ◌≡◌, refl, sym, ap, ◌∙◌, ◌&&◌, false, String,
  append, ◌==◌, string_eq, Bool-cases, inl, inr, none, ℤ, ◌+ℤ◌, some, Result, ok, err, Act, after,
  ◌>>=◌, if◌then◌else◌, ltb, leb,
}
use open_model_gateway.RequestContext.{RequestContext}
use open_model_gateway.Usage.Tables.{Record, Tables, persist, sum_usage_for_tenant}
use open_model_gateway.Usage.Persist.{query-elim}
use open_model_gateway.Usage.Budget.{
  BudgetStatus, BudgetConfig, Schedule, normalize_budget_refresh_schedule,
  budget_rolling_window_days, rolling_rest, positive_days, rolling_or_month, strip_d, strip_prefix,
  period_bounds, sum_usage, budget_schedule, effective_limit, status_of,
}
use open_model_gateway.Usage.Spending.{spent, Spends, persist-Spends}
use open_model_gateway.Usage.Logger.{Services, Ledger, settle_record, alert_status, on_tables}

strip_d-append : (num : String) → strip_d (append num "d") ≡ num
unfolding strip_d
strip_d-append String.[] = refl
strip_d-append (String.◌∷◌ c String.[]) = refl
strip_d-append (String.◌∷◌ c (String.◌∷◌ d s)) = ap (String.◌∷◌ c) (strip_d-append (String.◌∷◌ d s))

strip_prefix-append : (rest : String) → strip_prefix "rolling_" (append "rolling_" rest) ≡ some rest
unfolding strip_prefix
strip_prefix-append rest = refl

-- A text with the prefix of rolling schedules is none without it.
unlike :
    (s t rest : String)
    → strip_prefix "rolling_" s ≡ some rest
    → strip_prefix "rolling_" t ≡ none
    → (s == t) ≡ false
unlike s t rest h k = elim (Bool-cases (s == t)) [
  | inl same ↦
      let clash = sym h ∙ ap (strip_prefix "rolling_") ((string_eq.beq_iff s t).0 same) ∙ k in cc
  | inr differs ↦ differs
]

-- A status, if there is one, has the total.
abbrev pub TotalIs : ℤ → Result BudgetStatus → Type 0
TotalIs total (ok status) = status.total_cost_cents ≡ total
TotalIs total (err e) = Unit {0}

-- The text of the schedule that applies: the tenant's own, or the configured one.
abbrev pub schedule_text : BudgetConfig → RequestContext → String
schedule_text cfg rc =
    if trim_space rc.budget_refresh_schedule == ""
    then cfg.refresh_schedule
    else trim_space rc.budget_refresh_schedule

-- "rolling_<num>d"
abbrev pub rolling_text : String → String
rolling_text num = append "rolling_" (append num "d")

module _ (atoi : String → Result ℤ) (to_lower : String → String) where
  -- The text, trimmed and in lower case, is "rolling_<num>d", where `num` is read as the days.
  abbrev pub IsRolling : String → String → ℕ → Type 0
  IsRolling text num days =
      (to_lower (trim_space text) ≡ rolling_text num)
      × (to_lower (trim_space (rolling_text num)) ≡ rolling_text num)
      × ((num == "") ≡ false)
      × (atoi num ≡ ok (pos days))
      × (0 < days)

  rolling_window :
      (num : String) (days : ℕ)
      → (to_lower (trim_space (rolling_text num)) ≡ rolling_text num)
      → (num == "") ≡ false
      → atoi num ≡ ok (pos days)
      → 0 < days
      → budget_rolling_window_days atoi to_lower (rolling_text num) ≡ some days
  unfolding budget_rolling_window_days rolling_rest positive_days
  rolling_window num days lower named read some_days =
      rw (lower, strip_prefix-append (append num "d"), strip_d-append num, named, read)
        (ground (arith, some_days))

  normalize_rolling :
      (text num : String) (days : ℕ)
      → IsRolling text num days
      → normalize_budget_refresh_schedule atoi to_lower text ≡ Schedule.rolling days
  unfolding normalize_budget_refresh_schedule rolling_or_month strip_prefix
  normalize_rolling text num days (lower, again, named, read, some_days) =
      let prefixed = strip_prefix-append (append num "d") in
      rw
        (
          lower,
          unlike (rolling_text num) "" (append num "d") prefixed refl,
          unlike (rolling_text num) "calendar_month" (append num "d") prefixed refl,
          unlike (rolling_text num) "weekly" (append num "d") prefixed refl,
          rolling_window num days again named read some_days,
        )
        refl

  chosen_schedule :
      (cfg : BudgetConfig) (rc : RequestContext)
      → budget_schedule atoi to_lower cfg (some rc)
        ≡ normalize_budget_refresh_schedule atoi to_lower (schedule_text cfg rc)
  unfolding budget_schedule
  chosen_schedule cfg rc = elim (Bool-cases (trim_space rc.budget_refresh_schedule == "")) [
    | inl blank ↦ rw blank refl
    | inr given ↦ rw given refl
  ]

module _ (services : Services) (rc : RequestContext) (rec : Record) (ts : ℕ) where
  open services use {calendar, atoi, to_lower, config}

  abbrev pub window : ℕ × ℕ
  window = period_bounds calendar ts (budget_schedule atoi to_lower config (some rc))

  abbrev pub Reports : ℤ → Tables → Result BudgetStatus × Ledger services → Type 0
  Reports cents s (ok status, t) = status.total_cost_cents ≡ (
      if rec.success && leb window.0 ts && ltb ts window.1
      then cents +ℤ spent rc.tenant_id window s
      else spent rc.tenant_id window s)
  Reports cents s (err e, t) = Unit {0}

  abbrev pub sum_and_alert : Act (Ledger services) BudgetStatus
  sum_and_alert =
      on_tables services
        (sum_usage calendar rc.tenant_id ts (budget_schedule atoi to_lower config (some rc)))
      >>= λ total.
          alert_status services rc rec ts
            (status_of total (effective_limit config (some rc)) rc.warning_threshold)

  sum_lem :
      (cents : ℤ) (s : Tables) (t : Ledger services)
      → Spends rc rec ts cents window s (ok tt, t.tables)
      → Reports cents s (sum_and_alert t)
  unfolding sum_usage sum_usage_for_tenant alert_status status_of
  sum_lem cents s t h =
      query-elim (λ u. (ok (spent rc.tenant_id window u), u)) t.tables
        (λ r u. Reports cents s (
          after
            (λ total.
              alert_status services rc rec ts
                (status_of total (effective_limit config (some rc)) rc.warning_threshold))
            r (record t { tables = u })))
        (λ e later. tt) λ later. h

  after_persist :
      (cents : ℤ) (s : Tables) (t : Ledger services) (o : Result (Unit {0}) × Tables)
      → Spends rc rec ts cents window s o
      → Reports cents s (after (λ _. sum_and_alert) o.0 (record t { tables = o.1 }))
  after_persist cents s t (ok _, u) h = sum_lem cents s (record t { tables = u }) h
  after_persist cents s t (err e, u) h = tt

  -- When Record returns a status, its total is what the tenant had spent in the current window before,
  -- with the record's own cents if it is a success and its time lies in that window: for a rolling
  -- schedule, whose window ends at that time, they are left out.
  pub settle_record-total :
      (cost : ℤ × ℤ) (s : Ledger services)
      → Reports cost.0 s.tables (settle_record services rc rec ts cost s)
  unfolding settle_record
  settle_record-total cost s =
      after_persist cost.0 s.tables s (persist rc rec ts cost.0 cost.1 s.tables)
        (persist-Spends rc rec ts cost.0 cost.1 window s.tables)

-- Under a rolling schedule of some days, which the tenant's context or the configuration names as
-- "rolling_<num>d", a status that Record returns has as its total what the tenant had spent before, from
-- as many days of 86400 seconds before the record's time up to, but without, that time: the record's own
-- cents are left out, whether or not it is a success.
pub settle_record-rolling :
    (services : Services) (rc : RequestContext) (rec : Record) (ts : ℕ) (cost : ℤ × ℤ)
    (s : Ledger services) (num : String) (days : ℕ)
    → IsRolling services.atoi services.to_lower (schedule_text services.config rc) num days
    → TotalIs
        (spent rc.tenant_id (ts - days * 86400, ts) s.tables)
        (settle_record services rc rec ts cost s).0
unfolding period_bounds budget_schedule
settle_record-rolling services rc rec ts cost s num days h =
    by_outcome (settle_record services rc rec ts cost s).0
      (settle_record services rc rec ts cost s).1 (settle_record-total services rc rec ts cost s)
  where
    schedule :
        budget_schedule services.atoi services.to_lower services.config (some rc)
        ≡ Schedule.rolling days
    schedule =
        chosen_schedule services.atoi services.to_lower services.config rc
        ∙ normalize_rolling services.atoi services.to_lower (schedule_text services.config rc) num
            days h

    total_in : ℕ × ℕ → ℤ
    total_in window =
        if rec.success && leb window.0 ts && ltb ts window.1
        then cost.0 +ℤ spent rc.tenant_id window s.tables
        else spent rc.tenant_id window s.tables

    own_left_out :
        total_in (period_bounds services.calendar ts (Schedule.rolling days))
        ≡ spent rc.tenant_id (ts - days * 86400, ts) s.tables
    own_left_out = ground arith

    by_outcome :
        (r : Result BudgetStatus) (t : Ledger services)
        → Reports services rc rec ts cost.0 s.tables (r, t)
        → TotalIs (spent rc.tenant_id (ts - days * 86400, ts) s.tables) r
    by_outcome (ok status) t total =
        total
        ∙ ap (λ sch. total_in (period_bounds services.calendar ts sch)) schedule
        ∙ own_left_out
    by_outcome (err e) t total = tt
