-- ===== src/Tests/Usage.antt =====
-- Examples for usage records, budgets and alerts.
use open_model_gateway.Base.{
  ◌*◌, ◌-◌, arith, is_ok, trim_space, trim_left, trim_right, is_space, ◌≡◌, refl, true, false, ◌==◌,
  string_eq, pos, ◌+ℤ◌, [], ◌∷◌, none, lookup, nat_eq, nat_beq,
}
use open_model_gateway.RequestContext.{RequestContext}
use open_model_gateway.Usage.Tables.{
  persist, query, transaction, inserts, insert_request, insert_request_record, is_taken,
  request_row, to_pg_text, inserts_usage, insert_usage, insert_usage_record,
}
use open_model_gateway.Usage.Persist.{Persisted, persist_all, persist-atomic, persist-once}
use open_model_gateway.Usage.Budget.{BudgetStatus}
use open_model_gateway.Usage.Spending.{Spends, spent, persist-Spends}
use open_model_gateway.Usage.Pricing.{
  allocate_cost_cents, remainder_of, hundred, allocate_cost_cents_lem,
}
use open_model_gateway.Usage.Logger.{settle_record}
use open_model_gateway.Usage.Rolling.{TotalIs, IsRolling, schedule_text, settle_record-rolling}
use open_model_gateway.Tests.World.{whole, tenant, paid, no_tables, services, ledger}

persist-atomic_example :
    Persisted tenant paid 1000000
      (pos 70)
      (pos 700000)
      no_tables
      (persist tenant paid 1000000 (pos 70) (pos 700000) no_tables)
persist-atomic_example = persist-atomic tenant paid 1000000 (pos 70) (pos 700000) no_tables

abbrev other_tenant : RequestContext
other_tenant = record tenant { tenant_id = 8 }

paid_recorded : is_ok (persist tenant paid 1000000 (pos 70) (pos 700000) no_tables).0 ≡ true
unfolding persist query transaction inserts insert_request insert_request_record is_taken
    request_row to_pg_text inserts_usage insert_usage insert_usage_record trim_space trim_left
    trim_right is_space
paid_recorded = refl

paid_named : (trim_space "once" == "") ≡ false
unfolding trim_space trim_left trim_right is_space
paid_named = refl

persist-once_example :
    let t =
      persist_all
        ((other_tenant, paid, 1000001, pos 70, pos 700000) ∷ [])
        (persist tenant paid 1000000 (pos 70) (pos 700000) no_tables).1 in
    (is_ok (persist tenant paid 1000002 (pos 70) (pos 700000) t).0 ≡ false)
    × ((persist tenant paid 1000002 (pos 70) (pos 700000) t).1.requests ≡ t.requests)
    × ((persist tenant paid 1000002 (pos 70) (pos 700000) t).1.usage_records ≡ t.usage_records)
persist-once_example =
    persist-once tenant tenant paid paid 1000000 1000002 (pos 70) (pos 700000) (pos 70) (pos 700000)
      ((other_tenant, paid, 1000001, pos 70, pos 700000) ∷ []) no_tables paid_recorded paid_named
      refl refl

persist-Spends_example :
    Spends tenant paid 1000000
      (pos 70)
      (900000, 2000000)
      no_tables
      (persist tenant paid 1000000 (pos 70) (pos 700000) no_tables)
persist-Spends_example =
    persist-Spends tenant paid 1000000 (pos 70) (pos 700000) (900000, 2000000) no_tables

allocate_cost_cents_lem_example :
    let r = allocate_cost_cents whole 7 (pos 2) [] in
    (r.0 +ℤ remainder_of whole r.1 7 ≡ remainder_of whole [] 7 +ℤ hundred whole (pos 2))
    × ((nat_beq 7 8) ≡ false → lookup 8 r.1 ≡ none)
unfolding lookup
allocate_cost_cents_lem_example = allocate_cost_cents_lem whole 7 8 (pos 2) []

-- The tenant has set a rolling schedule of 30 days, and is charged at the end of its window.
abbrev rolling_tenant : RequestContext
rolling_tenant = record tenant { budget_refresh_schedule = "rolling_30d" }

rolling_tenant-IsRolling :
    IsRolling services.atoi services.to_lower (schedule_text services.config rolling_tenant) "30" 30
unfolding trim_space trim_left trim_right is_space
rolling_tenant-IsRolling = (refl, refl, refl, refl, omega arith)

settle_record-rolling_example :
    TotalIs
      (spent 7 (4000000 - 30 * 86400, 4000000) no_tables)
      (settle_record services rolling_tenant paid 4000000 (pos 70, pos 700000) ledger).0
settle_record-rolling_example =
    settle_record-rolling services rolling_tenant paid 4000000 (pos 70, pos 700000) ledger "30" 30
      rolling_tenant-IsRolling

abbrev near : BudgetStatus
near = record { total_cost_cents = pos 85; limit_cents = pos 100; warning = true; exceeded = false }
