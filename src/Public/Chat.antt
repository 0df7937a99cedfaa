-- ===== src/Public/Chat.antt =====
-- chatCompletions of httpserver/public/openai_routes.go and the cache of replies in
-- cache/idempotency.go. `encode` is the JSON of convertChatResponse, which json.Marshal and fiber's
-- Ctx.JSON both give; `streamed` is handleStreamChat, which is not modelled.
use open_model_gateway.Base.{
  fail, ℕ, ◌+◌, ℤ, is_pos, pos_part, ltb, not, ◌||◌, String, Bool, true, false, Option, none, some,
  List, [], ◌∷◌, lookup, insert, ◌==◌, string_eq, ok, Error, error_text, Act, ◌>>◌, on_result,
  if◌then◌else◌, trim_space, append,
}
use open_model_gateway.RequestContext.{RequestContext}
use open_model_gateway.App.ModelAccess.{is_model_allowed, is_nil}
use open_model_gateway.Executor.Chat.{ChatResponse, ChatResult}
use open_model_gateway.Serving.Node.{
  Node, Site, CacheEntry, ChatMessage, ChatRequest, ChatBody, on_gateway, run_chat, parse_stop,
}
use open_model_gateway.Public.Reply.{Reply, write_error, send}

-- IdempotencyCache; times count seconds. `has_client` is false for a nil client or a nil cache.
pub record IdempotencyCache : Type 0 where
  pub has_client : Bool
  pub ttl : ℕ

-- NewIdempotencyCache: half an hour by default.
unfoldable pub new_idempotency_cache : Bool → ℤ → IdempotencyCache
new_idempotency_cache has_client ttl = record {
  has_client = has_client;
  ttl = if is_pos ttl then pos_part ttl else 1800;
}

-- What Redis does for one request: when it runs GET and SET, whether GET is answered, and whether SET
-- stores the value, its reply being dropped.
pub record CacheTurn : Type 0 where
  pub get_at : ℕ
  pub set_at : ℕ
  pub answers : Bool
  pub stores : Bool

abbrev pub value_at : ℕ → Option CacheEntry → Option String
value_at now none = none
value_at now (some entry) = if ltb now entry.expires_at then some entry.value else none

module _ (node : Node) (encode : String → ChatResponse → String)
    (streamed : RequestContext → String → String → ChatRequest → Act (Site node) Reply)
    (cache : IdempotencyCache) (turn : CacheTurn) where
  -- IdempotencyCache.Get and Set, with prefixed.
  unfoldable pub cache_get : String → Site node → Option String
  cache_get key s =
      if not cache.has_client || key == ""
      then none
      else if turn.answers
      then value_at turn.get_at (lookup (append "idem:" key) s.cache)
      else none

  unfoldable pub cache_set : String → String → Act (Site node) (Unit {0})
  cache_set key value s = (
    ok tt,
    if (not cache.has_client || key == "") || value == ""
        then s
        else if turn.stores
        then record s {
          cache =
              insert (append "idem:" key)
                (record { value = value; expires_at = turn.set_at + cache.ttl }) s.cache;
        }
        else s,
  )

  abbrev pub lower_role : ChatMessage → ChatMessage
  lower_role m = record m {
    role = if node.to_lower m.role == "" then "user" else node.to_lower m.role;
  }

  unfoldable pub lower_roles : List ChatMessage → List ChatMessage
  lower_roles [] = []
  lower_roles (m ∷ messages) = lower_role m ∷ lower_roles messages

  -- executor.AsAPIError
  unfoldable pub chat_failed : Error → Act (Site node) Reply
  chat_failed (Error.api status msg) = write_error status msg none
  chat_failed Error.nil_pointer = fail Error.nil_pointer
  chat_failed e = write_error 500 (error_text e) none

  unfoldable pub answered_chat : String → String → ChatResult → Act (Site node) Reply
  answered_chat alias key result =
      cache_set key (encode alias result.response)
      >> send (encode alias result.response) (some result.budget_status)

  unfoldable pub run_new : RequestContext → String → String → ChatRequest → Act (Site node) Reply
  run_new rc alias key req =
      on_result (on_gateway node (run_chat node rc alias req key)) (answered_chat alias key)
        chat_failed

  unfoldable pub replayed :
      Option String → RequestContext → String → String → ChatRequest → Act (Site node) Reply
  replayed (some bytes) rc alias key req = send bytes none
  replayed none rc alias key req = run_new rc alias key req

  unfoldable pub stream_or_reply :
      Bool → RequestContext → String → String → ChatRequest → Act (Site node) Reply
  stream_or_reply true rc alias key req s = streamed rc alias key req s
  stream_or_reply false rc alias key req s = replayed (cache_get key s) rc alias key req s

  -- After the checks of the body.
  unfoldable pub serve_chat :
      Option RequestContext → Bool → String → String → ChatRequest → Act (Site node) Reply
  serve_chat none stream alias key req = write_error 500 "request context missing" none
  serve_chat (some rc) stream alias key req =
      if is_model_allowed node.to_lower node.access rc.tenant_id alias
      then stream_or_reply stream rc alias key req
      else write_error 403 "model not enabled for tenant" none

  unfoldable pub with_stop :
      Option RequestContext
      → Bool
      → String
      → String
      → ChatRequest
      → Option (List String)
      → Act (Site node) Reply
  with_stop rc stream alias key req none = write_error 400 "invalid stop field" none
  with_stop rc stream alias key req (some stop) =
      serve_chat rc stream alias key
        (record req { messages = lower_roles req.messages; stop = stop })

  -- chatCompletions; `none` is a body that cannot be decoded, and `header` the Idempotency-Key.
  unfoldable pub chat_completions :
      Option RequestContext → String → Option ChatBody → Act (Site node) Reply
  chat_completions rc header none = write_error 400 "invalid request body" none
  chat_completions rc header (some body) =
      if trim_space body.model == ""
      then write_error 400 "model is required" none
      else if is_nil body.request.messages
      then write_error 400 "messages are required" none
      else with_stop rc body.stream (trim_space body.model) (trim_space header) body.request
          (parse_stop node body.stop_raw)
