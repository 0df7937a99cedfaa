-- ===== src/Public/Slots.antt =====
-- Slots of the concurrency limits while a handler serves chat completions or embeddings.
use open_model_gateway.Base.{
  ◌≡◌, refl, String, Option, none, some, List, [], ◌∷◌, ◌==◌, string_eq, Result, ok, err, Error,
  error_text, is_limit_exceeded, is_panic, fail, on_result, Bool-cases, inl, inr, trim_space,
}
use open_model_gateway.RequestContext.{RequestContext}
use open_model_gateway.Limits.Counters.{Up}
use open_model_gateway.App.ModelAccess.{is_model_allowed}
use open_model_gateway.App.Acquire.{Resolved}
use open_model_gateway.Router.Engine.{Route, select_routes, resolve_deployment}
use open_model_gateway.Usage.Budget.{BudgetStatus}
use open_model_gateway.Serving.Node.{
  Node, Site, EmbeddingsResponse, EmbeddingBody, parse_embedding_input,
}
use open_model_gateway.Serving.Guards.{
  note, answer_record, success_of, failure_of, charge_both, limited_early, on_site, release_now,
}
use open_model_gateway.Serving.Slots.{
  slots_of, Preserves, on_result-Preserves, if-Preserves, charge_both-Preserves, budgeted-Preserves,
  limited_early-Preserves, Steady, bind-Steady, on_result-Steady, if-Steady, on_site-Steady,
  release_now-Steady,
}
use open_model_gateway.Public.Reply.{write_error, send}
use open_model_gateway.Public.Embeddings.{
  refuse_limits, refuse_tokens, store_embedding_reply, after_embedding, no_embedding, on_embedding,
  try_embeddings, embed_over, with_inputs, embeddings,
}

module _ (node : Node) (up : Up node.call.redis) (name : String) where
  module _ (encode : String → EmbeddingsResponse → String) where
    refuse_limits-Preserves :
        (text : String) (shown : Option BudgetStatus) (e : Error)
        → Preserves node up name (refuse_limits node encode text shown e)
    unfolding refuse_limits
    refuse_limits-Preserves text shown e =
        if-Preserves node up name (is_panic e) (fail e) _ (λ s. refl)
          (if-Preserves node up name (is_limit_exceeded e) (write_error 429 text shown)
            (write_error 500 (error_text e) shown) (λ s. refl) (λ s. refl))

    module _ (rc : RequestContext) (alias : String) (shown : Option BudgetStatus) where
      refuse_tokens-Steady :
          (e : Error) → Steady node up name (refuse_tokens node encode rc alias shown e)
      unfolding refuse_tokens
      refuse_tokens-Steady e =
          if-Steady node up name (is_panic e) (fail e) _ (λ h. refl)
            (bind-Steady node up name (release_now node)
              (λ _. on_site node (refuse_limits node encode "token limit exceeded" shown e))
              (release_now-Steady node up name)
              (λ _.
                on_site-Steady node up name
                  (refuse_limits node encode "token limit exceeded" shown e)
                  (refuse_limits-Preserves "token limit exceeded" shown e)))

      store_embedding_reply-Preserves :
          (route : Route) (resp : EmbeddingsResponse)
          → Preserves node up name (store_embedding_reply node encode rc alias shown route resp)
      unfolding store_embedding_reply
      store_embedding_reply-Preserves route resp =
          on_result-Preserves node up name
            (note node (answer_record node rc alias route resp.usage))
            (λ status. send (encode alias resp) (some status))
            (λ e. write_error 500 "failed to persist usage" shown) (λ s. refl) (λ status s. refl)
            (λ e s. refl)

      after_embedding-Steady :
          (r : Resolved) (route : Route) (resp : EmbeddingsResponse)
          → Steady node up name (after_embedding node encode rc alias shown r route resp)
      unfolding after_embedding
      after_embedding-Steady r route resp =
          bind-Steady node up name (on_site node (success_of node alias route))
            (λ _.
              on_result (on_site node (charge_both node r resp.usage.total_tokens))
                (λ _. on_site node (store_embedding_reply node encode rc alias shown route resp))
                (refuse_tokens node encode rc alias shown))
            (on_site-Steady node up name (success_of node alias route) (λ s. refl))
            (λ _.
              on_result-Steady node up name
                (on_site node (charge_both node r resp.usage.total_tokens))
                (λ _. on_site node (store_embedding_reply node encode rc alias shown route resp))
                (refuse_tokens node encode rc alias shown)
                (on_site-Steady node up name (charge_both node r resp.usage.total_tokens)
                  (charge_both-Preserves node up name r resp.usage.total_tokens))
                (λ _.
                  on_site-Steady node up name
                    (store_embedding_reply node encode rc alias shown route resp)
                    (store_embedding_reply-Preserves route resp))
                refuse_tokens-Steady)

      no_embedding-Preserves :
          (last : Option (Error × Route))
          → Preserves node up name (no_embedding node encode rc alias shown last)
      unfolding no_embedding
      no_embedding-Preserves none s = refl
      no_embedding-Preserves (some (e, route)) s = elim (Bool-cases (route.provider == "")) [
        | inl unnamed ↦ rw unnamed refl
        | inr named ↦ rw named refl
      ]

      try_embeddings-Steady :
          (inputs : List String) (r : Resolved) (routes : List Route)
          (last : Option (Error × Route))
          → Steady node up name (try_embeddings node encode rc alias shown inputs r routes last)
      unfolding try_embeddings on_embedding
      try_embeddings-Steady inputs r [] last =
          on_site-Steady node up name (no_embedding node encode rc alias shown last)
            (no_embedding-Preserves last)
      try_embeddings-Steady inputs r (route ∷ routes) last =
          if-Steady node up name route.has_embedding
            (on_embedding node encode rc alias shown r route
              (try_embeddings node encode rc alias shown inputs r routes)
              (node.embed inputs route (resolve_deployment route)))
            (fail Error.nil_pointer)
            (by_reply (node.embed inputs route (resolve_deployment route))
              (try_embeddings-Steady inputs r routes))
            (λ h. refl)
        where
          by_reply :
              (reply : Result EmbeddingsResponse)
              → ((l : Option (Error × Route))
                  → Steady node up name
                      (try_embeddings node encode rc alias shown inputs r routes l))
              → Steady node up name (
                  on_embedding node encode rc alias shown r route
                    (try_embeddings node encode rc alias shown inputs r routes)
                    reply)
          by_reply (ok resp) later = after_embedding-Steady r route resp
          by_reply (err e) later =
              bind-Steady node up name (on_site node (failure_of node alias route))
                (λ _. try_embeddings node encode rc alias shown inputs r routes (some (e, route)))
                (on_site-Steady node up name (failure_of node alias route) (λ s. refl))
                (λ _. later (some (e, route)))

    embed_over-Preserves :
        (rc : RequestContext) (alias : String) (inputs : List String) (routes : List Route)
        → Preserves node up name (embed_over node encode rc alias inputs routes)
    unfolding embed_over
    embed_over-Preserves rc alias inputs [] s = refl
    embed_over-Preserves rc alias inputs (route ∷ routes) s =
        budgeted-Preserves node up name rc alias
          (λ e. write_error 500 "failed to evaluate budget" none)
          (λ status. write_error 403 "tenant budget exceeded" (some status))
          (λ status.
            limited_early node rc alias
              (refuse_limits node encode "rate limit exceeded" (some status))
              (λ r.
                try_embeddings node encode rc alias (some status) inputs r (route ∷ routes) none))
          (λ e t. refl) (λ status t. refl)
          (λ status.
            limited_early-Preserves node up name rc alias
              (refuse_limits node encode "rate limit exceeded" (some status))
              (λ r.
                try_embeddings node encode rc alias (some status) inputs r (route ∷ routes) none)
              (refuse_limits-Preserves "rate limit exceeded" (some status))
              (λ r. try_embeddings-Steady rc alias (some status) inputs r (route ∷ routes) none))
          s

    with_inputs-Preserves :
        (rc : Option RequestContext) (alias : String) (inputs : Option (List String))
        → Preserves node up name (with_inputs node encode rc alias inputs)
    unfolding with_inputs
    with_inputs-Preserves rc alias none s = refl
    with_inputs-Preserves none alias (some inputs) s = refl
    with_inputs-Preserves (some rc) alias (some inputs) s =
        elim (Bool-cases (is_model_allowed node.to_lower node.access rc.tenant_id alias)) [
          | inl allowed ↦ rw allowed (
              embed_over-Preserves rc alias inputs
                (select_routes node.call.intn s.gateway.engine alias node.call.nanos) s)
          | inr forbidden ↦ rw forbidden refl
        ]

    -- While Redis answers, the handler of embeddings leaves every slot counter as it found it, however
    -- it ends: its own calls of the closure, before the deferred one, release nothing twice, and a panic
    -- at a route without an embedding interface is included.
    pub embeddings-slots :
        (rc : Option RequestContext) (body : Option EmbeddingBody) (s : Site node)
        → slots_of node up name (embeddings node encode rc body s).1 ≡ slots_of node up name s
    unfolding embeddings
    embeddings-slots rc none s = refl
    embeddings-slots rc (some body) s =
        if-Preserves node up name (trim_space body.model == "")
          (write_error 400 "model is required" none)
          (with_inputs node encode rc (trim_space body.model)
            (parse_embedding_input node body.input))
          (λ t. refl)
          (with_inputs-Preserves rc (trim_space body.model) (parse_embedding_input node body.input))
          s
