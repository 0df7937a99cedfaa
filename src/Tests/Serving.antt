-- ===== src/Tests/Serving.antt =====
-- Examples for the handlers and the items of batches.
use open_model_gateway.Base.{
  ◌≡◌, refl, String, true, false, none, some, [], ◌∷◌, ◌==◌, string_eq, pos, Result, ok, err, Error,
  lookup, trim_space, trim_left, trim_right, is_space,
}
use open_model_gateway.RequestContext.{RequestContext}
use open_model_gateway.App.ModelAccess.{is_model_allowed, normalize_model_alias}
use open_model_gateway.Router.Engine.{Route}
use open_model_gateway.Executor.Chat.{Call, ChatResponse}
use open_model_gateway.Serving.Node.{Node, Site, ChatRequest, ChatBody, parse_stop}
use open_model_gateway.Serving.Slots.{slots_of}
use open_model_gateway.Public.Reply.{Reply, write_error}
use open_model_gateway.Public.Chat.{
  IdempotencyCache, CacheTurn, new_idempotency_cache, cache_get, chat_completions,
}
use open_model_gateway.Public.Embeddings.{embeddings}
use open_model_gateway.Public.Slots.{embeddings-slots}
use open_model_gateway.Public.Replay.{Replays, Passes, Lasts, chat_completions-replay}
use open_model_gateway.Items.Requests.{Codec}
use open_model_gateway.Items.Execute.{execute_item}
use open_model_gateway.Items.Leases.{execute_item-slots}
use open_model_gateway.Tests.World.{
  memory, memory-Up, services, last_of, show_id, plain_limits, tenant, empty_store, ledger, same,
  heavy, light,
}

-- A model that chats, embeds and draws.
abbrev able : Route
able = record light { has_embedding = true; has_image = true }

abbrev answer : ChatResponse
answer = record {
  id = "c1";
  usage = record { prompt_tokens = pos 2; completion_tokens = pos 1; total_tokens = pos 3 };
  content = "hello";
}

abbrev template : Call
template = record {
  redis = memory;
  services = services;
  intn = last_of;
  uuid_string = show_id;
  connected = true;
  limits = plain_limits;
  answer = λ route model. ok answer;
  elapsed = λ route. pos 12;
  rc = some tenant;
  alias = "gpt";
  trace_id = "t1";
  idempotency_key = "";
  now = 1000000;
  nanos = 5;
}

abbrev node : Node
node = record {
  call = template;
  access = [];
  to_lower = same;
  decode_text = λ raw. some raw;
  decode_texts = λ raw. none;
  chat_answer = λ req route model. ok answer;
  embed = λ inputs route model. ok (record { embeddings = []; usage = answer.usage });
}

abbrev site : Site node
site = record {
  gateway = record {
    store = empty_store;
    engine = record { routes = ("gpt", heavy ∷ able ∷ []) ∷ []; state = [] };
    ledger = ledger;
  };
  cache = [];
}

embeddings-slots_example :
    slots_of node memory-Up "sem:tenant:t"
      (embeddings node
        (λ alias resp. "{}")
        (some tenant)
        (some (record { model = "gpt"; input = "hi" }))
        site).1
    ≡ slots_of node memory-Up "sem:tenant:t" site
embeddings-slots_example =
    embeddings-slots node memory-Up "sem:tenant:t" (λ alias resp. "{}") (some tenant)
      (some (record { model = "gpt"; input = "hi" })) site

abbrev question : ChatBody
question = record {
  model = "gpt";
  request = record {
    messages = record { role = "user"; content = "hi"; name = "" } ∷ [];
    temperature = none;
    top_p = none;
    max_tokens = none;
    stop = [];
  };
  stream = false;
  stop_raw = "";
}

-- Another tenant.
abbrev stranger : RequestContext
stranger = record tenant { tenant_id = 8; api_key_id = 4 }

abbrev unstreamed :
    RequestContext → String → String → ChatRequest → Site node → Result Reply × Site node
unstreamed rc alias key req = write_error 500 "no stream" none

abbrev cache : IdempotencyCache
cache = new_idempotency_cache true (pos 0)

-- The second request comes ten minutes after the first.
abbrev first_turn : CacheTurn
first_turn = record { get_at = 100; set_at = 105; answers = true; stores = true }

abbrev second_turn : CacheTurn
second_turn = record { get_at = 700; set_at = 705; answers = true; stores = true }

question-Passes :
    Passes node (λ alias resp. "{}") unstreamed cache first_turn second_turn stranger question []
unfolding trim_space trim_left trim_right is_space parse_stop is_model_allowed normalize_model_alias
question-Passes = (refl, refl, refl, refl, refl)

key_given : (trim_space "once" == "") ≡ false
unfolding trim_space trim_left trim_right is_space
key_given = refl

first_unseen :
    cache_get node (λ alias resp. "{}") unstreamed cache first_turn (trim_space "once") site ≡ none
unfolding cache_get trim_space trim_left trim_right is_space lookup new_idempotency_cache
first_unseen = refl

turns-Lasts : Lasts node (λ alias resp. "{}") unstreamed cache first_turn second_turn
unfolding new_idempotency_cache
turns-Lasts = (refl, refl, refl, refl)

chat_completions-replay_example :
    Replays node
      (λ alias resp. "{}")
      unstreamed
      cache
      first_turn
      second_turn
      "once"
      stranger
      question
      (chat_completions node
        (λ alias resp. "{}")
        unstreamed
        cache
        first_turn
        (some tenant)
        "once"
        (some question)
        site)
chat_completions-replay_example =
    chat_completions-replay node (λ alias resp. "{}") unstreamed cache first_turn second_turn
      (λ alias resp. refl) tenant stranger "once" question question [] site turns-Lasts first_unseen
      key_given refl question-Passes

-- Inputs are the texts that they ask for.
abbrev codec : Codec
codec = record {
  decode_request = λ input. ok (record { method = "POST"; url = ""; body = input });
  decode_chat = λ body. ok question;
  decode_embedding = λ body. ok (record { model = "gpt"; input = body });
  decode_image = λ body. ok (record {
    model = "gpt";
    request = record {
      prompt = body;
      size = "";
      response_format = "";
      quality = "";
      n = pos 1;
      user = "";
      background = "";
      style = "";
    };
  });
  marshal_error = λ payload. payload.message;
  encode_chat = λ alias resp. ok resp.content;
  encode_embeddings = λ alias resp. ok "{}";
  encode_images = λ resp. ok "{}";
  equal_fold = λ a b. a == b;
  generate = λ req route model. err (Error.outside "timeout");
}

execute_item-slots_example :
    slots_of node memory-Up "sem:tenant:t"
      (execute_item node codec tenant "/v1/images/generations" "a cat" site).1
    ≡ slots_of node memory-Up "sem:tenant:t" site
execute_item-slots_example =
    execute_item-slots node memory-Up "sem:tenant:t" codec tenant "/v1/images/generations" "a cat"
      site
