-- ===== src/Usage/Budget.antt =====
-- Budgets: budget_evaluator.go, time_windows_util.go, the budget part of logger.go and the schedules of
-- config/config.go. Times count seconds since 1970 in UTC. A float64 is a parameter of the callers
-- in whole units: the default limit in cents, thresholds in millionths. `atoi` is strconv.Atoi and
-- `to_lower` strings.ToLower; months are time.Date's, given by `Calendar`.
use open_model_gateway.Base.{
  ℕ, ◌+◌, ◌-◌, ◌*◌, ◌/◌, ◌%◌, ◌≤◌, ◌<◌, String, Bool, false, ◌&&◌, not, ℤ, pos_part, ltb_ℤ, is_pos,
  Option, none, some, ◌==◌, string_eq, nat_eq, Result, ok, err, Error, Act, ◌>>=◌, return, fail,
  leb, if◌then◌else◌, trim_space,
}
use Prim.Native.Char.{code}
use open_model_gateway.RequestContext.{RequestContext}
use open_model_gateway.Usage.Tables.{Tables, sum_usage_for_tenant}

-- The normal forms "calendar_month", "weekly" and "rolling_<n>d" of a schedule.
pub data Schedule : Type 0 where
  calendar_month weekly : Schedule
  rolling : ℕ → Schedule

-- The months of package time: a month's first instant, and that of the next month.
pub record Calendar : Type 0 where
  pub month_start : ℕ → ℕ
  pub next_month : ℕ → ℕ
  pub in_month : (now : ℕ) → (month_start now ≤ now) × (now < next_month now)

abbrev pub day : ℕ
day = 86400

-- strings.TrimPrefix after strings.HasPrefix: `none` without the prefix.
unfoldable pub strip_prefix : String → String → Option String
strip_prefix String.[] s = some s
strip_prefix (String.◌∷◌ c p) String.[] = none
strip_prefix (String.◌∷◌ c p) (String.◌∷◌ d s) =
    let rest = strip_prefix p s in if code c == code d then rest else none

-- strings.TrimSuffix(s, "d")
unfoldable pub strip_d : String → String
strip_d String.[] = String.[]
strip_d (String.◌∷◌ c String.[]) = if code c == 100 then String.[] else String.◌∷◌ c String.[]
strip_d (String.◌∷◌ c (String.◌∷◌ d s)) = String.◌∷◌ c (strip_d (String.◌∷◌ d s))

module _ (atoi : String → Result ℤ) (to_lower : String → String) where
  unfoldable pub positive_days : Result ℤ → Option ℕ
  positive_days (err e) = none
  positive_days (ok n) = if is_pos n then some (pos_part n) else none

  unfoldable pub rolling_rest : Option String → Option ℕ
  rolling_rest none = none
  rolling_rest (some rest) =
      positive_days (atoi (if strip_d rest == "" then "30" else strip_d rest))

  unfoldable pub budget_rolling_window_days : String → Option ℕ
  budget_rolling_window_days schedule =
      rolling_rest (strip_prefix "rolling_" (to_lower (trim_space schedule)))

  unfoldable pub rolling_or_month : Option ℕ → Schedule
  rolling_or_month none = Schedule.calendar_month
  rolling_or_month (some days) = Schedule.rolling days

  unfoldable pub normalize_budget_refresh_schedule : String → Schedule
  normalize_budget_refresh_schedule schedule =
      let s = to_lower (trim_space schedule) in
      if s == ""
      then Schedule.calendar_month
      else if s == "calendar_month"
      then Schedule.calendar_month
      else if s == "weekly"
      then Schedule.weekly
      else rolling_or_month (budget_rolling_window_days s)

-- int(nowUTC.Weekday()), Sunday is 0; 1 January 1970 was a Thursday.
abbrev pub weekday : ℕ → ℕ
weekday now = (now / day + 4) % 7

-- time.Date of the year, the month and the day; in the first days of 1970 the week would begin
-- before the epoch, and is cut there.
unfoldable pub period_bounds : Calendar → ℕ → Schedule → ℕ × ℕ
period_bounds calendar now Schedule.weekly =
    let start = (now / day - (weekday now + 6) % 7) * day in (start, start + 7 * day)
period_bounds calendar now (Schedule.rolling days) = (now - days * day, now)
period_bounds calendar now Schedule.calendar_month =
    (calendar.month_start now, calendar.next_month now)

pub record BudgetStatus : Type 0 where
  pub total_cost_cents : ℤ
  pub limit_cents : ℤ
  pub warning : Bool
  pub exceeded : Bool

-- BudgetConfig: `default_cents` is dollarsToCents(cfg.DefaultUSD).
pub record BudgetConfig : Type 0 where
  pub default_cents : ℤ
  pub refresh_schedule : String

unfoldable pub effective_limit : BudgetConfig → Option RequestContext → ℤ
effective_limit cfg none = cfg.default_cents
effective_limit cfg (some rc) =
    if is_pos rc.budget_limit_cents then rc.budget_limit_cents else cfg.default_cents

-- A threshold of 1 or more counts as 0.99.
abbrev pub used_threshold : ℤ → ℕ
used_threshold threshold = if leb 1000000 (pos_part threshold) then 990000 else pos_part threshold

unfoldable pub over_threshold : ℤ → ℤ → ℤ → Bool
over_threshold total limit threshold =
    if is_pos limit && is_pos threshold
    then leb (used_threshold threshold * pos_part limit) (pos_part total * 1000000)
    else false

unfoldable pub status_of : ℤ → ℤ → ℤ → BudgetStatus
status_of total limit threshold =
    let exceeded = not (ltb_ℤ total limit) in
    record {
      total_cost_cents = total;
      limit_cents = limit;
      warning = not exceeded && over_threshold total limit threshold;
      exceeded = exceeded;
    }

module _ (atoi : String → Result ℤ) (to_lower : String → String) where
  unfoldable pub budget_schedule : BudgetConfig → Option RequestContext → Schedule
  budget_schedule cfg none = normalize_budget_refresh_schedule atoi to_lower cfg.refresh_schedule
  budget_schedule cfg (some rc) =
      if trim_space rc.budget_refresh_schedule == ""
      then normalize_budget_refresh_schedule atoi to_lower cfg.refresh_schedule
      else normalize_budget_refresh_schedule atoi to_lower (trim_space rc.budget_refresh_schedule)

unfoldable pub sum_usage : Calendar → ℕ → ℕ → Schedule → Act Tables ℤ
sum_usage calendar tenant now schedule =
    sum_usage_for_tenant tenant (period_bounds calendar now schedule).0
      (period_bounds calendar now schedule).1

module _ (calendar : Calendar) (atoi : String → Result ℤ) (to_lower : String → String) where
  -- BudgetEvaluator.Check, and Logger.CheckBudget that calls it
  unfoldable pub check_budget : BudgetConfig → Option RequestContext → ℕ → Act Tables BudgetStatus
  check_budget cfg none now = fail (Error.message "request context missing")
  check_budget cfg (some rc) now =
      if is_pos (effective_limit cfg (some rc))
      then (sum_usage calendar rc.tenant_id now (budget_schedule atoi to_lower cfg (some rc))
          >>= λ total.
              return (status_of total (effective_limit cfg (some rc)) rc.warning_threshold))
      else fail (Error.message "invalid budget limit")
