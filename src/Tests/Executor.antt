-- ===== src/Tests/Executor.antt =====
-- Examples for chat completions.
use open_model_gateway.Base.{
  ◌≡◌, pos, some, Result, ok, err, Error, true, ◌==◌, string_eq, String, if◌then◌else◌,
}
use open_model_gateway.Router.Engine.{Route, select_routes}
use open_model_gateway.Executor.Chat.{Call, Gateway, ChatResponse, chat}
use open_model_gateway.Executor.Slots.{slots, chat-slots}
use open_model_gateway.Executor.Fallback.{first_answer, IsAnswer, chat-first_answer}
use open_model_gateway.Tests.World.{
  memory, memory-Up, services, last_of, show_id, plain_limits, tenant, empty_store, engine, ledger,
}

-- Only the small model answers.
abbrev reply : Route → String → Result ChatResponse
reply route model =
    if model == "gpt-small"
    then ok (record {
      id = "c1";
      usage = record { prompt_tokens = pos 2; completion_tokens = pos 1; total_tokens = pos 3 };
      content = "hello";
    })
    else err (Error.outside "timeout")

abbrev call : Call
call = record {
  redis = memory;
  services = services;
  intn = last_of;
  uuid_string = show_id;
  connected = true;
  limits = plain_limits;
  answer = reply;
  elapsed = λ route. pos 12;
  rc = some tenant;
  alias = "gpt";
  trace_id = "t1";
  idempotency_key = "once";
  now = 1000000;
  nanos = 5;
}

abbrev gateway : Gateway call
gateway = record { store = empty_store; engine = engine; ledger = ledger }

chat-slots_example :
    slots call memory-Up "sem:tenant:t" (chat call gateway).1
    ≡ slots call memory-Up "sem:tenant:t" gateway
chat-slots_example = chat-slots call memory-Up "sem:tenant:t" gateway

chat-first_answer_example :
    IsAnswer call (first_answer call (select_routes last_of engine "gpt" 5)) (chat call gateway)
chat-first_answer_example = chat-first_answer call gateway
