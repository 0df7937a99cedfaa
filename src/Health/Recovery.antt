-- ===== src/Health/Recovery.antt =====
-- A sweep of the monitor brings routes back.
use mathlib.Core.List.{Perm, Mem, Memᴰ}
use mathlib.Core.List.Perm
use mathlib.Core.List.Memᴰ.{head, tail}
use mathlib.Core.Logic.{∥∥₁_elim}
use open_model_gateway.Base.{
  ℕ, ◌≡◌, ◌<◌, sym, ap, ◌∙◌, String, Bool, true, inl, inr, List, [], ◌∷◌, GoMap, Result, ok, err,
  is_ok, ◌==◌, string_eq, Bool-cases, arith, if◌then◌else◌, beq_refl,
}
use open_model_gateway.Router.Engine.{Route, Engine, is_healthy, route_key}
use open_model_gateway.Router.Breaker.{report_isolated}
use open_model_gateway.Health.Monitor.{Probe, probes, check_routes, report_probe}

-- The probe has the key of the route.
abbrev pub has_same_key : String → Route → Probe → Bool
has_same_key alias route probe = route_key probe.0 probe.1 == route_key alias route

module _ (answer : Probe → Result (Unit {0})) (at now : ℕ) (late : 0 < now) (alias : String)
    (route : Route) where
  after_probe :
      (probe : Probe) (reply : Result (Unit {0})) (e : Engine)
      → (has_same_key alias route probe ≡ true → is_ok reply ≡ true)
      → is_healthy (report_probe answer at probe reply e) alias now route
        ≡ (if has_same_key alias route probe then true else is_healthy e alias now route)
  unfolding report_probe
  after_probe (other, r) (ok healthy) e h = (report_isolated e other alias r route now at late).0
  after_probe (other, r) (err x) e h = elim (Bool-cases (has_same_key alias route (other, r))) [
    | inl same ↦ ground (arith, h same)
    | inr differs ↦ (report_isolated e other alias r route now at late).1 ∙ (rw differs)
  ]

  module _
      (trusted : (probe : Probe)
        → has_same_key alias route probe ≡ true
        → is_ok (answer probe) ≡ true) where
    check_routes-keeps :
        (order : List Probe) (e : Engine)
        → is_healthy e alias now route ≡ true
        → is_healthy (check_routes answer at order e) alias now route ≡ true
    unfolding check_routes
    check_routes-keeps [] e healthy = healthy
    check_routes-keeps (probe ∷ order) e healthy =
        check_routes-keeps order (report_probe answer at probe (answer probe) e)
          (after_probe probe (answer probe) e (trusted probe) ∙ ground (arith, healthy))

    check_routes-reaches :
        (order : List Probe) (e : Engine)
        → Memᴰ (alias, route) order
        → is_healthy (check_routes answer at order e) alias now route ≡ true
    unfolding check_routes
    check_routes-reaches [] e nowhere = elim nowhere [ ]
    check_routes-reaches (probe ∷ order) e (tail later) =
        check_routes-reaches order (report_probe answer at probe (answer probe) e) later
    check_routes-reaches (probe ∷ order) e (head same) =
        let here = ap (has_same_key alias route) (sym same) ∙ beq_refl (route_key alias route) in
        check_routes-keeps order (report_probe answer at probe (answer probe) e)
          (after_probe probe (answer probe) e (trusted probe) ∙ (rw here))

-- When the provider answers every probe of a route's key, a sweep brings the route back: if the route is
-- among the probes of the registered routes, it is healthy at every later time but the zero time once the
-- sweep is over, whatever the engine's state before, whatever the other probes answer and in whatever order
-- the probes report.
pub check_routes-recovers :
    (answer : Probe → Result (Unit {0})) (at now : ℕ) (late : 0 < now) (alias : String)
    (route : Route) (routes : GoMap String (List Route)) (order : List Probe) (e : Engine)
    → Perm order (probes routes)
    → Mem (alias, route) (probes routes)
    → ((probe : Probe) → has_same_key alias route probe ≡ true → is_ok (answer probe) ≡ true)
    → is_healthy (check_routes answer at order e) alias now route ≡ true
check_routes-recovers answer at now late alias route routes order e all among trusted =
    ∥∥₁_elim ((Perm.mem_iff all).1 among) (hlevel)
      (check_routes-reaches answer at now late alias route trusted order e)
