-- ===== src/Tests/Health.antt =====
-- Examples for the health monitor.
use mathlib.Core.List.Perm
use mathlib.Core.List.Memᴰ.{head}
use open_model_gateway.Base.{
  ◌≡◌, refl, true, false, Bool, ap, is_ok, [], ◌∷◌, String, List, GoMap, ok, err, Error, Result,
  string_eq, arith,
}
use open_model_gateway.Router.Engine.{Route, is_healthy}
use open_model_gateway.Router.Breaker.{report_failures}
use open_model_gateway.Health.Monitor.{Probe, check_routes, probes, alias_probes}
use open_model_gateway.Health.Recovery.{has_same_key, check_routes-recovers}
use open_model_gateway.Tests.World.{engine, heavy, light}

abbrev watched : Route
watched = record heavy { has_health = true }

abbrev silent : Route
silent = record light { has_health = true }

abbrev watched_routes : GoMap String (List Route)
watched_routes = ("gpt", watched ∷ silent ∷ []) ∷ []

-- Only the deployment of the large model answers.
abbrev answer_of : Bool → Result (Unit {0})
answer_of true = ok tt
answer_of false = err (Error.outside "timeout")

abbrev reply : Probe → Result (Unit {0})
reply probe = answer_of (has_same_key "gpt" watched probe)

-- The large route has failed three times; its probe is the last to report.
check_routes-recovers_example :
    is_healthy
      (check_routes reply 5
        (("gpt", silent) ∷ ("gpt", watched) ∷ [])
        (report_failures engine "gpt" watched (1 ∷ 2 ∷ 3 ∷ [])))
      "gpt"
      6
      watched
    ≡ true
unfolding probes alias_probes
check_routes-recovers_example =
    check_routes-recovers reply 5 6 (omega arith) "gpt" watched watched_routes
      (("gpt", silent) ∷ ("gpt", watched) ∷ [])
      (report_failures engine "gpt" watched (1 ∷ 2 ∷ 3 ∷ []))
      (Perm.swap ("gpt", watched) ("gpt", silent) []) ∣ head refl ∣₁
      (λ probe same. ap (λ b. is_ok (answer_of b)) same)
