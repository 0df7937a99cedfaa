-- ===== src/Public/Reply.antt =====
-- What a handler of internal/httpserver/public answers: httputil.WriteError and the budget headers. The
-- headers are functions of the last status given to setBudgetHeaders.
use open_model_gateway.Base.{ℕ, String, Option, Act, return}
use open_model_gateway.Usage.Budget.{BudgetStatus}

pub data Body : Type 0 where
  -- The message of an error.
  problem : String → Body
  -- The bytes of a JSON document.
  json : String → Body

pub record Reply : Type 0 where
  pub status : ℕ
  pub body : Body
  pub budget : Option BudgetStatus

module _ {S : Type 0} where
  abbrev pub write_error : ℕ → String → Option BudgetStatus → Act S Reply
  write_error status text shown =
      return (record { status = status; body = Body.problem text; budget = shown })

  abbrev pub send : String → Option BudgetStatus → Act S Reply
  send bytes shown = return (record { status = 200; body = Body.json bytes; budget = shown })
