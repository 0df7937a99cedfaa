-- ===== src/Public/Replay.antt =====
-- The cache of replies under the Idempotency-Key.
use open_model_gateway.Base.{
  ℕ, ◌+◌, ltb, ◌≡◌, refl, ap, ◌∙◌, String, Bool, true, false, Option, none, some, List, ◌==◌,
  string_eq, Result, ok, err, Error, Act, if◌then◌else◌, trim_space, append, lookup, lookup-insert,
  beq_refl, on_result-Post,
}
use open_model_gateway.RequestContext.{RequestContext}
use open_model_gateway.App.ModelAccess.{is_model_allowed, is_nil}
use open_model_gateway.Usage.Budget.{BudgetStatus}
use open_model_gateway.Executor.Chat.{ChatResponse}
use open_model_gateway.Serving.Node.{
  Node, Site, CacheEntry, ChatRequest, ChatBody, on_gateway, run_chat, parse_stop,
}
use open_model_gateway.Public.Reply.{Body, Reply, write_error}
use open_model_gateway.Public.Chat.{
  IdempotencyCache, CacheTurn, value_at, cache_get, cache_set, chat_failed, answered_chat, run_new,
  replayed, stream_or_reply, serve_chat, with_stop, chat_completions, lower_roles,
}

module _ (node : Node) (encode : String → ChatResponse → String)
    (streamed : RequestContext → String → String → ChatRequest → Act (Site node) Reply)
    (cache : IdempotencyCache) (turn next : CacheTurn) where
  -- The turn stores a value that the next one reads before it is gone.
  abbrev pub Lasts : Type 0
  Lasts =
      (cache.has_client ≡ true)
      × (turn.stores ≡ true)
      × (next.answers ≡ true)
      × (ltb next.get_at (turn.set_at + cache.ttl) ≡ true)

  -- A reply with a document leaves the document in the cache, under the key.
  abbrev Remembers : String → Result Reply → Site node → Type 0
  Remembers key (err e) t = Unit {0}
  Remembers key (ok reply) t = RemembersBody key reply.body t
    where
      RemembersBody : String → Body → Site node → Type 0
      RemembersBody key (Body.problem text) t = Unit {0}
      RemembersBody key (Body.json bytes) t =
          cache_get node encode streamed cache next key t ≡ some bytes

  cache_set-get :
      (key bytes : String) (s : Site node)
      → Lasts
      → (key == "") ≡ false
      → (bytes == "") ≡ false
      → cache_get node encode streamed cache next key
          (cache_set node encode streamed cache turn key bytes s).1
        ≡ some bytes
  unfolding cache_get cache_set
  cache_set-get key bytes s (client, stores, answers, early) k b =
      let entry : CacheEntry = record { value = bytes; expires_at = turn.set_at + cache.ttl } in
      simp (client, stores, answers, k, b)
        (ap (value_at next.get_at) (
            lookup-insert (append "idem:" key) (append "idem:" key) entry s.cache
            ∙ ap (λ same. if same then some entry else lookup (append "idem:" key) s.cache)
                (beq_refl (append "idem:" key)))
          ∙ ap (λ live. if live then some bytes else none) early)

  chat_failed-Remembers :
      (key : String) (e : Error) (t : Site node)
      → Remembers key
          (chat_failed node encode streamed cache turn e t).0
          (chat_failed node encode streamed cache turn e t).1
  unfolding chat_failed
  chat_failed-Remembers key (Error.api status msg) t = tt
  chat_failed-Remembers key Error.limit_exceeded t = tt
  chat_failed-Remembers key Error.no_rows t = tt
  chat_failed-Remembers key Error.nil_pointer t = tt
  chat_failed-Remembers key (Error.message msg) t = tt
  chat_failed-Remembers key (Error.outside msg) t = tt

  replayed-Remembers :
      (cached : Option String) (rc : RequestContext) (alias key : String) (req : ChatRequest)
      (s : Site node)
      → Lasts
      → (key == "") ≡ false
      → ((alias : String) (resp : ChatResponse) → (encode alias resp == "") ≡ false)
      → cached ≡ none
      → Remembers key
          (replayed node encode streamed cache turn cached rc alias key req s).0
          (replayed node encode streamed cache turn cached rc alias key req s).1
  unfolding replayed run_new answered_chat cache_set
  replayed-Remembers (some bytes) rc alias key req s lasts k full h = cc
  replayed-Remembers none rc alias key req s lasts k full h =
      on_result-Post (λ r t. Unit {0}) (Remembers key)
        (on_gateway node (run_chat node rc alias req key))
        (answered_chat node encode streamed cache turn alias key)
        (chat_failed node encode streamed cache turn) s tt
        (λ result t _.
          cache_set-get key (encode alias result.response) t lasts k (full alias result.response))
        (λ e t _. chat_failed-Remembers key e t)

  if-Remembers :
      (b : Bool) (m n : Act (Site node) Reply) (key : String) (s : Site node)
      → Remembers key (m s).0 (m s).1
      → Remembers key (n s).0 (n s).1
      → Remembers key ((if b then m else n) s).0 ((if b then m else n) s).1
  if-Remembers true m n key s p q = p
  if-Remembers false m n key s p q = q

  module _ (lasts : Lasts)
      (full : (alias : String) (resp : ChatResponse) → (encode alias resp == "") ≡ false) where
    with_stop-Remembers :
        (rc : RequestContext) (alias key : String) (req : ChatRequest) (stop : Option (List String))
        (s : Site node)
        → (key == "") ≡ false
        → cache_get node encode streamed cache turn key s ≡ none
        → Remembers key
            (with_stop node encode streamed cache turn (some rc) false alias key req stop s).0
            (with_stop node encode streamed cache turn (some rc) false alias key req stop s).1
    unfolding with_stop serve_chat stream_or_reply
    with_stop-Remembers rc alias key req none s k unseen = tt
    with_stop-Remembers rc alias key req (some stop) s k unseen =
        let asked : ChatRequest = record req {
          messages = lower_roles node encode streamed cache turn req.messages;
          stop = stop;
        } in
        if-Remembers (is_model_allowed node.to_lower node.access rc.tenant_id alias)
          (stream_or_reply node encode streamed cache turn false rc alias key asked)
          (write_error 403 "model not enabled for tenant" none) key s
          (replayed-Remembers (cache_get node encode streamed cache turn key s) rc alias key asked s
            lasts k full unseen)
          tt

    chat_completions-Remembers :
        (rc : RequestContext) (header : String) (body : ChatBody) (s : Site node)
        → (trim_space header == "") ≡ false
        → cache_get node encode streamed cache turn (trim_space header) s ≡ none
        → body.stream ≡ false
        → Remembers
            (trim_space header)
            (chat_completions node encode streamed cache turn (some rc) header (some body) s).0
            (chat_completions node encode streamed cache turn (some rc) header (some body) s).1
    unfolding chat_completions
    chat_completions-Remembers rc header body s k unseen plain = simp plain (
        if-Remembers (trim_space body.model == "") (write_error 400 "model is required" none) _
          (trim_space header) s tt
          (if-Remembers (is_nil body.request.messages)
            (write_error 400 "messages are required" none)
            (with_stop node encode streamed cache turn (some rc) false (trim_space body.model)
              (trim_space header) body.request (parse_stop node body.stop_raw))
            (trim_space header) s tt
            (with_stop-Remembers rc (trim_space body.model) (trim_space header) body.request
              (parse_stop node body.stop_raw) s k unseen)))

  -- A request that the handler's checks let pass.
  abbrev pub Passes : RequestContext → ChatBody → List String → Type 0
  Passes rc body stop =
      ((trim_space body.model == "") ≡ false)
      × (is_nil body.request.messages ≡ false)
      × (parse_stop node body.stop_raw ≡ some stop)
      × (is_model_allowed node.to_lower node.access rc.tenant_id (trim_space body.model) ≡ true)
      × (body.stream ≡ false)

  replay-cached :
      (rc : RequestContext) (header bytes : String) (body : ChatBody) (stop : List String)
      (s : Site node)
      → Passes rc body stop
      → cache_get node encode streamed cache next (trim_space header) s ≡ some bytes
      → chat_completions node encode streamed cache next (some rc) header (some body) s
        ≡ (ok (record { status = 200; body = Body.json bytes; budget = none }), s)
  unfolding chat_completions with_stop serve_chat stream_or_reply replayed
  replay-cached rc header bytes body stop s pass h =
      simp (pass.0, pass.1, pass.2, pass.3, pass.4, h) refl

  -- What the second request is answered after the first.
  abbrev pub Replays : String → RequestContext → ChatBody → Result Reply × Site node → Type 0
  Replays header rc body (err e, t) = Unit {0}
  Replays header rc body (ok reply, t) = by_body reply.body
    where
      by_body : Body → Type 0
      by_body (Body.problem text) = Unit {0}
      by_body (Body.json bytes) =
          chat_completions node encode streamed cache next (some rc) header (some body) t
          ≡ (ok (record { status = 200; body = Body.json bytes; budget = none }), t)

  -- Once a chat completion without a stream, not itself a replay, has been answered with a document under
  -- an Idempotency-Key, and Redis has stored the document, a second request with that key that passes the
  -- checks and whose lookup Redis answers before the lifetime of the cache is over gets the same
  -- document, whichever tenant sends it and whatever it asks for: no provider is called, and neither a
  -- budget nor a limit is read or changed. The encoding of a reply is not empty, as JSON is not.
  pub chat_completions-replay :
      (full : (alias : String) (resp : ChatResponse) → (encode alias resp == "") ≡ false)
      (rc other : RequestContext) (header : String) (body second : ChatBody) (stop : List String)
      (s : Site node)
      → Lasts
      → cache_get node encode streamed cache turn (trim_space header) s ≡ none
      → (trim_space header == "") ≡ false
      → body.stream ≡ false
      → Passes other second stop
      → Replays header other second
          (chat_completions node encode streamed cache turn (some rc) header (some body) s)
  chat_completions-replay full rc other header body second stop s lasts unseen k plain pass =
      by_outcome (chat_completions node encode streamed cache turn (some rc) header (some body) s).0
        (chat_completions node encode streamed cache turn (some rc) header (some body) s).1
        (chat_completions-Remembers lasts full rc header body s k unseen plain)
    where
      by_reply :
          (status : ℕ) (sent : Body) (budget : Option BudgetStatus) (t : Site node)
          → Remembers
              (trim_space header)
              (ok (record { status = status; body = sent; budget = budget }))
              t
          → Replays header other second
              (ok (record { status = status; body = sent; budget = budget }), t)
      by_reply status (Body.problem text) budget t h = tt
      by_reply status (Body.json bytes) budget t h =
          replay-cached other header bytes second stop t pass h

      by_outcome :
          (r : Result Reply) (t : Site node)
          → Remembers (trim_space header) r t
          → Replays header other second (r, t)
      by_outcome (err e) t h = tt
      by_outcome (ok reply) t h = by_reply reply.status reply.body reply.budget t h
