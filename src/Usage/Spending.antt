-- ===== src/Usage/Spending.antt =====
-- Budgets against what Persist has recorded.
use open_model_gateway.Base.{
  ℕ, ◌*◌, ◌≤◌, ◌<◌, ◌≡◌, ap, false, ◌&&◌, ℤ, ◌+ℤ◌, pos_part, Result, ok, err, if◌then◌else◌,
  beq_refl, arith, ltb, leb, select, nat_eq,
}
use open_model_gateway.RequestContext.{RequestContext}
use open_model_gateway.Usage.Tables.{Record, Tables, persist, usage_row, sum_cost_cents, in_window}
use open_model_gateway.Usage.Persist.{Persisted, persist-atomic}
use open_model_gateway.Usage.Budget.{Calendar, Schedule, period_bounds}

-- The cost that the tenant has in the window.
abbrev pub spent : ℕ → ℕ × ℕ → Tables → ℤ
spent tenant window s = sum_cost_cents (select (in_window tenant window.0 window.1) s.usage_records)

-- The current time lies in the window of a calendar month and of a week; the window of a rolling
-- schedule ends just before it.
pub period_bounds-now :
    (calendar : Calendar) (now days : ℕ)
    → let month = period_bounds calendar now Schedule.calendar_month in
      let week = period_bounds calendar now Schedule.weekly in
      let rolling = period_bounds calendar now (Schedule.rolling days) in
      ((month.0 ≤ now) × (now < month.1))
      × ((week.0 ≤ now) × (now < week.1))
      × ((ltb now rolling.1 ≡ false))
unfolding period_bounds
period_bounds-now calendar now days =
    (calendar.in_month now, (omega arith, omega arith), ground arith)

-- What Persist adds to the tenant's cost in a window.
abbrev pub Spends :
    RequestContext → Record → ℕ → ℤ → ℕ × ℕ → Tables → Result (Unit {0}) × Tables → Type 0
Spends rc rec ts cents window s (ok _, t) = spent rc.tenant_id window t ≡ (
    if rec.success && leb window.0 ts && ltb ts window.1
    then cents +ℤ spent rc.tenant_id window s
    else spent rc.tenant_id window s)
Spends rc rec ts cents window s (err e, t) =
    spent rc.tenant_id window t ≡ spent rc.tenant_id window s

spends_lem :
    (rc : RequestContext) (rec : Record) (ts : ℕ) (cents micros : ℤ) (window : ℕ × ℕ) (s : Tables)
    (o : Result (Unit {0}) × Tables)
    → Persisted rc rec ts cents micros s o
    → Spends rc rec ts cents window s o
unfolding usage_row select sum_cost_cents
spends_lem rc rec ts cents micros window s (ok _, t) (f, h, k) = ground (
  arith,
  ap (λ rows. sum_cost_cents (select (in_window rc.tenant_id window.0 window.1) rows)) k,
  beq_refl rc.tenant_id,
)
spends_lem rc rec ts cents micros window s (err e, t) (h, k) =
    ap (λ rows. sum_cost_cents (select (in_window rc.tenant_id window.0 window.1) rows)) k

-- Whatever queries fail, Persist adds exactly the record's cents to what its tenant has spent in a
-- window that holds its time when it returns no error and the record is a success, and nothing
-- otherwise.
pub persist-Spends :
    (rc : RequestContext) (rec : Record) (ts : ℕ) (cents micros : ℤ) (window : ℕ × ℕ) (s : Tables)
    → Spends rc rec ts cents window s (persist rc rec ts cents micros s)
persist-Spends rc rec ts cents micros window s =
    spends_lem rc rec ts cents micros window s _ (persist-atomic rc rec ts cents micros s)

-- The cents spent are at least the share of the limit that the threshold says, in millionths; a
-- threshold of 1 or more stands for 99 percent.
abbrev pub NearLimit : ℤ → ℤ → ℤ → Type 0
NearLimit total limit threshold =
    ((pos_part threshold < 1000000)
      → pos_part threshold * pos_part limit ≤ 1000000 * pos_part total)
    × ((1000000 ≤ pos_part threshold) → 99 * pos_part limit ≤ 100 * pos_part total)
