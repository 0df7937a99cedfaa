-- ===== src/Serving/Guards.antt =====
-- The guards around a provider's call, in the order in which the handlers and the items pass them: the
-- budget, then the rate limits with their deferred release; and the charge of an answer's tokens.
use open_model_gateway.Base.{
  ℤ, pos, is_pos, String, true, false, none, some, Result, ok, Error, error_text, is_limit_exceeded,
  Act, ◌>>◌, return, ignore, on_result, if◌then◌else◌,
}
use open_model_gateway.RequestContext.{RequestContext}
use open_model_gateway.Limits.Limiter.{token_allowance}
use open_model_gateway.App.Acquire.{Resolved, Grant, acquire_rate_limits, release_grant}
use open_model_gateway.Router.Engine.{Route, report_success, report_failure}
use open_model_gateway.Usage.Tables.{TokenUsage, Record}
use open_model_gateway.Usage.Budget.{BudgetStatus, check_budget}
use open_model_gateway.Usage.Logger.{log_record, on_tables}
use open_model_gateway.Executor.Chat.{on_store, on_ledger, released, no_usage}
use open_model_gateway.Serving.Node.{Node, Site, on_gateway}

module _ (node : Node) where
  abbrev pub note : Record → Act (Site node) BudgetStatus
  note rec = on_gateway node (on_ledger node.call (log_record node.call.services rec node.call.now))

  abbrev pub check_budget_of : RequestContext → Act (Site node) BudgetStatus
  check_budget_of rc = on_gateway node (
      on_ledger node.call (
        on_tables node.call.services (
          check_budget node.call.services.calendar node.call.services.atoi
            node.call.services.to_lower node.call.services.config (some rc) node.call.now)))

  -- The record of a request that no provider answered.
  abbrev pub failed_record : RequestContext → String → String → ℤ → ℤ → String → Record
  failed_record rc alias provider latency status code = record {
    context = some rc;
    alias = alias;
    provider = provider;
    usage = no_usage node.call;
    latency_ms = latency;
    status = status;
    error_code = code;
    idempotency_key = "";
    trace_id = node.call.trace_id;
    timestamp = node.call.now;
    success = false;
    override_cost_cents = none;
  }

  -- The record of an answer.
  abbrev pub answer_record : RequestContext → String → Route → TokenUsage → Record
  answer_record rc alias route usage = record {
    context = some rc;
    alias = alias;
    provider = route.provider;
    usage = usage;
    latency_ms = node.call.elapsed route;
    status = pos 200;
    error_code = "";
    idempotency_key = "";
    trace_id = node.call.trace_id;
    timestamp = node.call.now;
    success = true;
    override_cost_cents = none;
  }

  abbrev pub success_of : String → Route → Act (Site node) (Unit {0})
  success_of alias route =
      on_gateway node (λ s. (ok tt, record s { engine = report_success s.engine alias route }))

  abbrev pub failure_of : String → Route → Act (Site node) (Unit {0})
  failure_of alias route =
      on_gateway node
        (λ s. (ok tt, record s { engine = report_failure s.engine alias route node.call.nanos }))

  -- TokenAllowance of the key and then of the tenant, when the answer used tokens.
  unfoldable pub charge_both : Resolved → ℤ → Act (Site node) (Unit {0})
  charge_both r tokens =
      if is_pos tokens
      then (on_gateway node (
            on_store node.call (
              token_allowance node.call.redis node.call.connected r.key_key tokens r.key_cfg
                node.call.now))
          >> on_gateway node (
              on_store node.call (
                token_allowance node.call.redis node.call.connected r.tenant_key tokens r.tenant_cfg
                  node.call.now)))
      else return tt

  abbrev pub limit_text : String → Error → String
  limit_text text e = if is_limit_exceeded e then text else error_text e

  -- The server and the grant of a handler that may call its closure before the deferred call.
  pub record Held : Type 0 where
    pub site : Site node
    pub grant : Grant

  abbrev pub on_site : {A : Type 0} → Act (Site node) A → Act Held A
  on_site run h = ((run h.site).0, record h { site = (run h.site).1 })

  -- A call of the closure: only its first call releases.
  unfoldable pub release_now : Act Held (Unit {0})
  release_now h = (
    ok tt,
    record {
      site = record h.site {
        gateway = record h.site.gateway {
          store =
              (release_grant node.call.redis node.call.connected h.grant h.site.gateway.store).1;
        };
      };
      grant = (release_grant node.call.redis node.call.connected h.grant h.site.gateway.store).0;
    },
  )

  module _ {B : Type 0} where
    -- CheckBudget, and the row of a request that the budget refuses.
    unfoldable pub budgeted :
        RequestContext
        → String
        → (Error → Act (Site node) B)
        → (BudgetStatus → Act (Site node) B)
        → (BudgetStatus → Act (Site node) B)
        → Act (Site node) B
    budgeted rc alias unknown over within =
        on_result (check_budget_of rc)
          (λ status.
            if status.exceeded
            then (ignore
                  (note (failed_record rc alias "budget" (pos 0) (pos 403) "budget_exceeded"))
                >> over status)
            else within status)
          unknown

    abbrev pub leave : Grant → Result B × Site node → Result B × Site node
    leave g (r, s) = (r, record s { gateway = (released node.call g (r, s.gateway)).1 })

    -- AcquireRateLimits, and the deferred release.
    unfoldable pub limited :
        RequestContext
        → String
        → (Error → Act (Site node) B)
        → (Resolved → Act (Site node) B)
        → Act (Site node) B
    limited rc alias refused body =
        on_result
          (on_gateway node (
            on_store node.call (
              acquire_rate_limits node.call.redis node.call.uuid_string node.call.connected
                node.call.limits (some rc) alias node.call.now)))
          (λ g s. leave g (body g.resolved s)) refused

    -- The deferred call of the closure, whether or not the handler has called it before.
    abbrev pub close : Result B × Held → Result B × Site node
    close (r, h) = (r, (release_now h).1.site)

    -- AcquireRateLimits in a handler that calls the closure itself too.
    unfoldable pub limited_early :
        RequestContext
        → String
        → (Error → Act (Site node) B)
        → (Resolved → Act Held B)
        → Act (Site node) B
    limited_early rc alias refused body =
        on_result
          (on_gateway node (
            on_store node.call (
              acquire_rate_limits node.call.redis node.call.uuid_string node.call.connected
                node.call.limits (some rc) alias node.call.now)))
          (λ g s. close (body g.resolved (record { site = s; grant = g }))) refused
