-- ===== src/Router/Engine.antt =====
-- internal/router/engine.go and internal/providers/route.go. A time counts nanoseconds and is 0 for
-- the zero time. Each method holds the engine's mutex, so it is one step. `intn` is rand.Intn.
use Prim.Native.String.{◌++◌}
use open_model_gateway.Base.{
  ℕ, zero, suc, ◌+◌, String, Bool, true, ℤ, pos_part, is_pos, Option, none, some, List, [], ◌∷◌,
  map, GoMap, lookup, insert, ◌==◌, string_eq, nat_eq, Result, ok, err, ltb, leb, if◌then◌else◌,
  length, get_elem?, set, select,
}

-- providers.Route. The interfaces that the gateway calls are flags here, false for nil; what a call
-- answers is an argument of the code that calls.
pub record Route : Type 0 where
  pub alias : String
  pub provider : String
  pub model : String
  pub weight : ℤ
  pub metadata : GoMap String String
  pub has_chat : Bool
  pub has_embedding : Bool
  pub has_image : Bool
  pub has_health : Bool

-- m[k] of a map of texts
abbrev pub text_at : Option String → String
text_at none = ""
text_at (some v) = v

unfoldable pub resolve_deployment : Route → String
resolve_deployment r =
    let dep = text_at (lookup "deployment" r.metadata) in if dep == "" then r.model else dep

unfoldable pub route_key : String → Route → String
route_key alias route =
    let deployment = text_at (lookup "deployment" route.metadata) in
    alias ++ ("::" ++ (if deployment == "" then route.model else deployment))

pub record RouteState : Type 0 where
  pub consecutive_failures : ℕ
  pub open_until : ℕ

abbrev pub fresh : RouteState
fresh = record { consecutive_failures = 0; open_until = 0 }

pub record Engine : Type 0 where
  pub routes : GoMap String (List Route)
  pub state : GoMap String RouteState

pub record RouteHealth : Type 0 where
  pub alias : String
  pub healthy_routes : ℕ
  pub total_routes : ℕ

abbrev pub failure_threshold : ℕ
failure_threshold = 3

abbrev pub open_duration : ℕ
open_duration = 60_000_000_000

unfoldable pub new_engine : Engine
new_engine = record { routes = []; state = [] }

abbrev pub state_or_fresh : Option RouteState → RouteState
state_or_fresh none = fresh
state_or_fresh (some st) = st

-- The two loops of Reload over the aliases and their routes.
unfoldable pub keep_states :
    GoMap String RouteState
    → String
    → List Route
    → GoMap String RouteState
    → GoMap String RouteState
keep_states old alias [] new_state = new_state
keep_states old alias (route ∷ routes) new_state =
    let key = route_key alias route in
    keep_states old alias routes (insert key (state_or_fresh (lookup key old)) new_state)

unfoldable pub reload_states :
    GoMap String RouteState
    → GoMap String (List Route)
    → GoMap String RouteState
    → GoMap String RouteState
reload_states old [] new_state = new_state
reload_states old ((alias, routes) ∷ rest) new_state =
    reload_states old rest (keep_states old alias routes new_state)

-- `built` is the result of factory.Build.
unfoldable pub reload : Engine → Result (GoMap String (List Route)) → Result (Unit {0}) × Engine
reload e (err x) = (err x, e)
reload e (ok routes) = (ok tt, record { routes = routes; state = reload_states e.state routes [] })

-- st == nil || st.openUntil.Before(now)
abbrev pub is_closed : Option RouteState → ℕ → Bool
is_closed none now = true
is_closed (some st) now = ltb st.open_until now

abbrev pub routes_of : Option (List Route) → List Route
routes_of none = []
routes_of (some routes) = routes

unfoldable pub is_healthy : Engine → String → ℕ → Route → Bool
is_healthy e alias now route = is_closed (lookup (route_key alias route) e.state) now

unfoldable pub healthy_routes : Engine → String → ℕ → List Route
healthy_routes e alias now = select (is_healthy e alias now) (routes_of (lookup alias e.routes))

unfoldable pub total_weight : List Route → ℕ
total_weight [] = 0
total_weight (r ∷ rs) = pos_part r.weight + total_weight rs

-- The weight that the drawing loop gives a route.
abbrev pub drawn_weight : Route → ℕ
drawn_weight r = if is_pos r.weight then pos_part r.weight else 1

unfoldable pub draw_from : List Route → ℕ → ℕ → ℕ → ℕ
draw_from [] draw sum idx = 0
draw_from (r ∷ rs) draw sum idx =
    let sum' = sum + drawn_weight r in
    let rest = draw_from rs draw sum' (suc idx) in if ltb draw sum' then idx else rest

unfoldable pub weighted_select : (ℕ → ℕ) → List Route → ℕ
weighted_select intn routes =
    let total = total_weight routes in
    if total == 0 then intn (length routes) else draw_from routes (intn total) 0 0

-- healthy[idx], healthy[0] = healthy[0], healthy[idx]
unfoldable pub swap_first : List Route → ℕ → List Route
swap_first [] idx = []
swap_first (first ∷ rest) zero = first ∷ rest
swap_first (first ∷ rest) (suc i) = elim (get_elem? rest i) [
  | none ↦ first ∷ rest
  | some selected ↦ selected ∷ set rest i first
]

unfoldable pub select_routes : (ℕ → ℕ) → Engine → String → ℕ → List Route
select_routes intn e alias now =
    let healthy = healthy_routes e alias now in
    if leb (length healthy) 1 then healthy else swap_first healthy (weighted_select intn healthy)

unfoldable pub report_success : Engine → String → Route → Engine
report_success e alias route = record e { state = insert (route_key alias route) fresh e.state }

-- st.consecutiveFailures++, and what follows
abbrev pub failed : RouteState → ℕ → RouteState
failed st now =
    let n = st.consecutive_failures + 1 in
    record {
      consecutive_failures = n;
      open_until = if leb failure_threshold n then now + open_duration else st.open_until;
    }

unfoldable pub report_failure : Engine → String → Route → ℕ → Engine
report_failure e alias route now =
    let key = route_key alias route in
    record e { state = insert key (failed (state_or_fresh (lookup key e.state)) now) e.state }

unfoldable pub list_aliases : Engine → GoMap String (List Route)
list_aliases e = e.routes

unfoldable pub health_of : Engine → ℕ → String → List Route → RouteHealth
health_of e now alias routes = record {
  alias = alias;
  healthy_routes = length (select (is_healthy e alias now) routes);
  total_routes = length routes;
}

unfoldable pub health_status : Engine → ℕ → GoMap String RouteHealth
health_status e now = map (λ entry. (entry.0, health_of e now entry.0 entry.1)) e.routes
