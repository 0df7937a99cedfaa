-- ===== src/Executor/Chat.antt =====
-- executor/executor.go: Chat and consumeTokens. `answer` is the reply of route.Chat.Chat to the
-- deployment's model, `elapsed` its latency in milliseconds, and one time stands for the readings of
-- the clock during a call: `now` in seconds, `nanos` in nanoseconds.
use open_model_gateway.Base.{
  ℕ, String, Bool, true, false, ℤ, pos, is_pos, Option, none, some, List, [], ◌∷◌, ◌==◌, string_eq,
  Result, ok, err, Error, error_text, is_limit_exceeded, Act, ◌>>=◌, ◌>>◌, return, fail, ignore,
  on_result, if◌then◌else◌,
}
use open_model_gateway.RequestContext.{RequestContext}
use open_model_gateway.Limits.Redis.{Redis}
use open_model_gateway.Limits.Limiter.{LimitConfig, token_allowance}
use open_model_gateway.App.RateLimits.{RateLimits}
use open_model_gateway.App.Acquire.{Resolved, Grant, acquire_rate_limits, release_grant}
use open_model_gateway.Router.Engine.{
  Route, Engine, select_routes, resolve_deployment, report_success, report_failure,
}
use open_model_gateway.Usage.Tables.{TokenUsage, Record}
use open_model_gateway.Usage.Budget.{BudgetStatus, check_budget}
use open_model_gateway.Usage.Logger.{Services, Ledger, log_record, on_tables}

pub record ChatResponse : Type 0 where
  pub id : String
  pub usage : TokenUsage
  pub content : String

pub record ChatResult : Type 0 where
  pub response : ChatResponse
  pub budget_status : BudgetStatus

-- What Chat is given: the container's parts that it reads, and the request.
pub record Call : Type 1 where
  pub redis : Redis
  pub services : Services
  pub intn : ℕ → ℕ
  pub uuid_string : ℕ → String
  pub connected : Bool
  pub limits : RateLimits
  pub answer : Route → String → Result ChatResponse
  pub elapsed : Route → ℤ
  pub rc : Option RequestContext
  pub alias : String
  pub trace_id : String
  pub idempotency_key : String
  pub now : ℕ
  pub nanos : ℕ

pub record Gateway (call : Call) : Type 0 where
  pub store : call.redis.Store
  pub engine : Engine
  pub ledger : Ledger call.services

abbrev pub too_many : String → Error → Error
too_many text e = if is_limit_exceeded e then Error.api 429 text else e

module _ (call : Call) where
  abbrev pub on_store : {A : Type 0} → Act call.redis.Store A → Act (Gateway call) A
  on_store run s = ((run s.store).0, record s { store = (run s.store).1 })

  abbrev pub on_ledger : {A : Type 0} → Act (Ledger call.services) A → Act (Gateway call) A
  on_ledger run s = ((run s.ledger).0, record s { ledger = (run s.ledger).1 })

  -- The charge of one key.
  unfoldable pub charge_tokens : String → LimitConfig → ℤ → Act (Gateway call) (Unit {0})
  charge_tokens key cfg tokens =
      on_result (on_store (token_allowance call.redis call.connected key tokens cfg call.now))
        return (λ e. fail (too_many "token limit exceeded" e))

  unfoldable pub consume_tokens : Resolved → ℤ → Act (Gateway call) (Unit {0})
  consume_tokens r tokens =
      charge_tokens r.key_key r.key_cfg tokens >> charge_tokens r.tenant_key r.tenant_cfg tokens

  abbrev pub no_usage : TokenUsage
  no_usage = record { prompt_tokens = pos 0; completion_tokens = pos 0; total_tokens = pos 0 }

  abbrev pub failure_record : String → ℤ → ℤ → String → Record
  failure_record provider latency status code = record {
    context = call.rc;
    alias = call.alias;
    provider = provider;
    usage = no_usage;
    latency_ms = latency;
    status = status;
    error_code = code;
    idempotency_key = "";
    trace_id = call.trace_id;
    timestamp = call.now;
    success = false;
    override_cost_cents = none;
  }

  abbrev pub success_record : Route → ChatResponse → Record
  success_record route resp = record {
    context = call.rc;
    alias = call.alias;
    provider = route.provider;
    usage = resp.usage;
    latency_ms = call.elapsed route;
    status = pos 200;
    error_code = "";
    idempotency_key = call.idempotency_key;
    trace_id = call.trace_id;
    timestamp = call.now;
    success = true;
    override_cost_cents = none;
  }

  abbrev pub note_success : Route → Act (Gateway call) (Unit {0})
  note_success route s = (ok tt, record s { engine = report_success s.engine call.alias route })

  -- The tokens of an answer are charged.
  unfoldable pub charge_answer : Resolved → ChatResponse → Act (Gateway call) (Unit {0})
  charge_answer r resp =
      if is_pos resp.usage.total_tokens then consume_tokens r resp.usage.total_tokens else return tt

  unfoldable pub record_answer : Route → ChatResponse → Act (Gateway call) ChatResult
  record_answer route resp =
      on_ledger (log_record call.services (success_record route resp) call.now) >>= λ status.
      return (record { response = resp; budget_status = status })

  -- What follows an answer.
  unfoldable pub after_answer : Resolved → Route → ChatResponse → Act (Gateway call) ChatResult
  after_answer r route resp = note_success route >> charge_answer r resp >> record_answer route resp

  -- After the loop, with the last error and route of it.
  unfoldable pub all_failed : Option (Error × Route) → Act (Gateway call) ChatResult
  all_failed none = fail (Error.api 502 "no backend available")
  all_failed (some (e, route)) =
      (if route.provider == ""
        then return tt
        else ignore (
            on_ledger (
              log_record call.services
                (failure_record route.provider (call.elapsed route) (pos 502) (error_text e))
                call.now)))
      >> fail (Error.api 502 (error_text e))

  abbrev pub note_failure : Route → Gateway call → Gateway call
  note_failure route s = record s { engine = report_failure s.engine call.alias route call.nanos }

  -- The rest of the loop after one provider's reply.
  unfoldable pub on_answer :
      Resolved
      → Route
      → (Option (Error × Route) → Act (Gateway call) ChatResult)
      → Result ChatResponse
      → Act (Gateway call) ChatResult
  on_answer r route later (ok resp) s = after_answer r route resp s
  on_answer r route later (err e) s = later (some (e, route)) (note_failure route s)

  -- The loop over the routes.
  unfoldable pub try_routes :
      Resolved → List Route → Option (Error × Route) → Act (Gateway call) ChatResult
  try_routes r [] last = all_failed last
  try_routes r (route ∷ routes) last =
      let later = try_routes r routes in
      if route.has_chat
      then on_answer r route later (call.answer route (resolve_deployment route))
      else later last

  -- The deferred call of the closure.
  unfoldable pub released : {A : Type 0} → Grant → Result A × Gateway call → Result A × Gateway call
  released g (r, s) =
      (r, record s { store = (release_grant call.redis call.connected g s.store).1 })

  unfoldable pub with_limits : List Route → Act (Gateway call) ChatResult
  with_limits routes =
      on_result
        (on_store (
          acquire_rate_limits call.redis call.uuid_string call.connected call.limits call.rc
            call.alias call.now))
        (λ g s. released g (try_routes g.resolved routes none s))
        (λ e. fail (too_many "rate limit exceeded" e))

  unfoldable pub within_budget : List Route → BudgetStatus → Act (Gateway call) ChatResult
  within_budget routes status =
      if status.exceeded
      then (ignore (
            on_ledger (
              log_record call.services (failure_record "budget" (pos 0) (pos 403) "budget_exceeded")
                call.now))
          >> fail (Error.api 403 "tenant budget exceeded"))
      else with_limits routes

  unfoldable pub chat_over : List Route → Act (Gateway call) ChatResult
  chat_over [] = fail (Error.api 503 "no backend available for model")
  chat_over (route ∷ routes) =
      on_ledger (
        on_tables call.services (
          check_budget call.services.calendar call.services.atoi call.services.to_lower
            call.services.config call.rc call.now))
      >>= within_budget (route ∷ routes)

  -- Executor.Chat
  unfoldable pub chat : Act (Gateway call) ChatResult
  chat s = chat_over (select_routes call.intn s.engine call.alias call.nanos) s
