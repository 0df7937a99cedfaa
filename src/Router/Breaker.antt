-- ===== src/Router/Breaker.antt =====
-- The circuit breaker of a route: reports, reloads and the health summary.
use open_model_gateway.Base.{
  ℕ, ◌+◌, ◌<◌, ◌≡◌, refl, String, Bool, true, false, ◌||◌, none, some, List, [], ◌∷◌, GoMap, lookup,
  insert, lookup-insert, ltb, leb, if◌then◌else◌, length, arith, ◌==◌, string_eq, nat_eq, Result,
  ok, err, beq_refl,
}
use text.Mathlib.TextEquality.{eq_iff}
use open_model_gateway.Router.Engine.{
  Route, Engine, RouteState, fresh, failed, state_or_fresh, is_closed, is_healthy, route_key,
  report_failure, report_success, reload, reload_states, keep_states, failure_threshold,
}

-- The state of a route's breaker.
abbrev pub state_of : Engine → String → Route → RouteState
state_of e alias route = state_or_fresh (lookup (route_key alias route) e.state)

-- Failures reported one after the other.
unfoldable pub report_failures : Engine → String → Route → List ℕ → Engine
report_failures e alias route [] = e
report_failures e alias route (now ∷ later) =
    report_failures (report_failure e alias route now) alias route later

failure_state :
    (e : Engine) (alias : String) (route : Route) (now : ℕ)
    → lookup (route_key alias route) (report_failure e alias route now).state
      ≡ some (failed (state_of e alias route) now)
unfolding report_failure
failure_state e alias route now =
    let key = route_key alias route in
    rw (lookup-insert key key (failed (state_of e alias route) now) e.state, beq_refl key)

failures_counted :
    (e : Engine) (alias : String) (route : Route) (times : List ℕ)
    → (state_of (report_failures e alias route times) alias route).consecutive_failures
      ≡ (state_of e alias route).consecutive_failures + length times
unfolding report_failures
failures_counted e alias route [] = omega arith
failures_counted e alias route (now ∷ later) = ground (
  arith,
  failure_state e alias route now,
  failures_counted (report_failure e alias route now) alias route later,
)

failures_low :
    (e : Engine) (alias : String) (route : Route) (times : List ℕ)
    → (state_of e alias route).open_until ≡ 0
    → (state_of e alias route).consecutive_failures + length times < failure_threshold
    → (state_of (report_failures e alias route times) alias route).open_until ≡ 0
unfolding report_failures
failures_low e alias route [] h few = h
failures_low e alias route (now ∷ later) h few = ground (
  arith,
  failure_state e alias route now,
  failures_low (report_failure e alias route now) alias route later,
)

-- Starting from a breaker with no failure, at any time but the zero time the route is healthy
-- after its first two consecutive failures, and from the third on exactly when more than a minute
-- has passed since the latest of them.
pub breaker_opens :
    (e : Engine) (alias : String) (route : Route) (earlier : List ℕ) (last now : ℕ)
    → state_of e alias route ≡ fresh
    → 0 < now
    → let e' = report_failure (report_failures e alias route earlier) alias route last in
      is_healthy e' alias now route
      ≡ (if leb 3 (length earlier + 1) then ltb (last + 60_000_000_000) now else true)
unfolding is_healthy
breaker_opens e alias route earlier last now h late =
    let e₁ = report_failures e alias route earlier in
    ground (
      arith,
      failure_state e₁ alias route last,
      failures_counted e alias route earlier,
      failures_low e alias route earlier,
    )

-- At any time but the zero time, a route is healthy right after a success; after a failure it is
-- as the count of its failures says; and a report about a route leaves the health of every route
-- with another key as it was.
pub report_isolated :
    (e : Engine) (alias alias' : String) (route other : Route) (now at : ℕ)
    → 0 < now
    → let same = route_key alias route == route_key alias' other in
      (is_healthy (report_success e alias route) alias' now other
        ≡ (if same then true else is_healthy e alias' now other))
      × (is_healthy (report_failure e alias route at) alias' now other ≡ (
          if same
          then is_closed (some (failed (state_of e alias route) at)) now
          else is_healthy e alias' now other))
unfolding is_healthy report_success report_failure
report_isolated e alias alias' route other now at late =
    let key = route_key alias route in
    let key' = route_key alias' other in
    ground (
      arith,
      lookup-insert key key' fresh e.state,
      lookup-insert key key' (failed (state_of e alias route) at) e.state,
    )

-- A route of the aliases has the key.
abbrev pub has_key : String → String → List Route → Bool
has_key key alias [] = false
has_key key alias (route ∷ routes) = route_key alias route == key || has_key key alias routes

abbrev pub is_routed : String → GoMap String (List Route) → Bool
is_routed key [] = false
is_routed key ((alias, routes) ∷ rest) = has_key key alias routes || is_routed key rest

keep_states_lem :
    (key : String) (old : GoMap String RouteState) (alias : String) (routes : List Route)
    (new_state : GoMap String RouteState)
    → lookup key (keep_states old alias routes new_state) ≡ (
        if has_key key alias routes
        then some (state_or_fresh (lookup key old))
        else lookup key new_state)
unfolding keep_states
keep_states_lem key old alias [] new_state = refl
keep_states_lem key old alias (route ∷ routes) new_state =
    let k = route_key alias route in
    let st = state_or_fresh (lookup k old) in
    ground (
      arith,
      eq_iff k key,
      keep_states_lem key old alias routes (insert k st new_state),
      lookup-insert k key st new_state,
    )

reload_states_lem :
    (key : String) (old : GoMap String RouteState) (routes : GoMap String (List Route))
    (new_state : GoMap String RouteState)
    → lookup key (reload_states old routes new_state) ≡ (
        if is_routed key routes
        then some (state_or_fresh (lookup key old))
        else lookup key new_state)
unfolding reload_states
reload_states_lem key old [] new_state = refl
reload_states_lem key old ((alias, routes) ∷ rest) new_state = ground (
  arith,
  keep_states_lem key old alias routes new_state,
  reload_states_lem key old rest (keep_states old alias routes new_state),
)

-- What `reload` leaves, by the result of building the routes.
abbrev pub Reloaded : Engine → Result (GoMap String (List Route)) → String → Type 0
Reloaded e (err x) key = reload e (err x) ≡ (err x, e)
Reloaded e (ok routes) key =
    ((reload e (ok routes)).0 ≡ ok tt)
    × ((reload e (ok routes)).1.routes ≡ routes)
    × (lookup key (reload e (ok routes)).1.state
        ≡ (if is_routed key routes then some (state_or_fresh (lookup key e.state)) else none))

-- A reload keeps the breaker of every route that stays, starts new routes with a closed one, and
-- forgets the routes that are gone; if the routes cannot be built nothing changes.
pub reload-state :
    (e : Engine) (built : Result (GoMap String (List Route))) (key : String) → Reloaded e built key
unfolding reload lookup
reload-state e (err x) key = refl
reload-state e (ok routes) key = (refl, refl, reload_states_lem key e.state routes [])
