-- ===== src/Health/Monitor.antt =====
-- health/monitor.go. A duration counts nanoseconds. The goroutines of checkRoutes each make one report to
-- the engine, in any order: `order` lists their probes as they report. `answer` is the reply of
-- route.Health within the timeout, and one time stands for the readings of the clock.
use open_model_gateway.Base.{
  ℕ, ℤ, pos, ltb_ℤ, is_pos, String, List, [], ◌∷◌, ◌++◌, GoMap, Result, ok, err, if◌then◌else◌,
}
use open_model_gateway.Router.Engine.{Route, Engine, report_success, report_failure}

pub record Monitor : Type 0 where
  pub interval : ℤ
  pub timeout : ℤ

-- NewMonitor: a minute and five seconds by default.
unfoldable pub new_monitor : ℤ → ℤ → Monitor
new_monitor check_interval cooldown =
    let interval = if is_pos check_interval then check_interval else pos 60_000_000_000 in
    record {
      interval = interval;
      timeout =
          if is_pos cooldown
          then (if ltb_ℤ interval cooldown then pos 5_000_000_000 else cooldown)
          else pos 5_000_000_000;
    }

abbrev pub Probe : Type 0
Probe = String × Route

-- The routes of an alias that have a health check.
unfoldable pub alias_probes : String → List Route → List Probe
alias_probes alias [] = []
alias_probes alias (route ∷ routes) =
    let rest = alias_probes alias routes in if route.has_health then (alias, route) ∷ rest else rest

unfoldable pub probes : GoMap String (List Route) → List Probe
probes [] = []
probes ((alias, routes) ∷ rest) = alias_probes alias routes ++ probes rest

module _ (answer : Probe → Result (Unit {0})) (now : ℕ) where
  unfoldable pub report_probe : Probe → Result (Unit {0}) → Engine → Engine
  report_probe (alias, route) (ok healthy) e = report_success e alias route
  report_probe (alias, route) (err x) e = report_failure e alias route now

  -- checkRoutes, from the first report to wg.Wait.
  unfoldable pub check_routes : List Probe → Engine → Engine
  check_routes [] e = e
  check_routes (probe ∷ order) e = check_routes order (report_probe probe (answer probe) e)
