-- ===== src/Tests/Router.antt =====
-- Examples for the router.
use mathlib.Core.List.{Perm}
use open_model_gateway.Base.{
  ◌+◌, ◌≤◌, ◌<◌, ◌≡◌, ◌↔◌, refl, true, false, [], ◌∷◌, some, ok, lookup, ◌==◌, string_eq,
  if◌then◌else◌, arith,
}
use open_model_gateway.Router.Engine.{
  total_weight, weighted_select, select_routes, healthy_routes, is_healthy, report_success,
  report_failure, route_key, is_closed, failed,
}
use open_model_gateway.Router.Draw.{
  IsIntn, weight_sum, drawn_total, weighted_select_fair, weighted_select_starved,
  select_routes-perm,
}
use open_model_gateway.Router.Breaker.{
  state_of, report_failures, Reloaded, breaker_opens, report_isolated, reload-state,
}
use open_model_gateway.Tests.World.{engine, heavy, light, unweighted, last_of}

abbrev last_of-IsIntn : IsIntn last_of
last_of-IsIntn n h = omega arith

weighted_select_fair_example :
    let draw = last_of (weight_sum (heavy ∷ light ∷ [])) in
    let share = weight_sum (heavy ∷ []) in
    ((weighted_select last_of (heavy ∷ light ∷ []) ≡ 1) ↔ ((share ≤ draw) × (draw < share + 1)))
    × (draw < weight_sum (heavy ∷ light ∷ []))
    × (share + 1 ≤ weight_sum (heavy ∷ light ∷ []))
weighted_select_fair_example =
    weighted_select_fair last_of (heavy ∷ []) light [] last_of-IsIntn (refl, (refl, tt))

-- The light route, of weight 1, is never drawn behind a route of weight 0.
weighted_select_starved_example : weighted_select last_of (unweighted ∷ light ∷ []) < 1
unfolding total_weight drawn_total
weighted_select_starved_example =
    weighted_select_starved last_of (unweighted ∷ []) (light ∷ []) last_of-IsIntn (omega arith)
      (omega arith)

select_routes-perm_example :
    Perm (select_routes last_of engine "gpt" 5) (healthy_routes engine "gpt" 5)
select_routes-perm_example = select_routes-perm last_of engine "gpt" 5

breaker_opens_example :
    is_healthy
      (report_failure (report_failures engine "gpt" heavy (1 ∷ 2 ∷ [])) "gpt" heavy 3)
      "gpt"
      9
      heavy
    ≡ false
unfolding lookup
breaker_opens_example = breaker_opens engine "gpt" heavy (1 ∷ 2 ∷ []) 3 9 refl (omega arith)

report_isolated_example :
    let same = route_key "gpt" heavy == route_key "gpt" light in
    (is_healthy (report_success engine "gpt" heavy) "gpt" 9 light
      ≡ (if same then true else is_healthy engine "gpt" 9 light))
    × (is_healthy (report_failure engine "gpt" heavy 3) "gpt" 9 light ≡ (
        if same
        then is_closed (some (failed (state_of engine "gpt" heavy) 3)) 9
        else is_healthy engine "gpt" 9 light))
report_isolated_example = report_isolated engine "gpt" "gpt" heavy light 9 3 (omega arith)

reload-state_example : Reloaded engine (ok (("gpt", light ∷ []) ∷ [])) (route_key "gpt" heavy)
reload-state_example = reload-state engine (ok (("gpt", light ∷ []) ∷ [])) (route_key "gpt" heavy)
