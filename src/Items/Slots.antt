-- ===== src/Items/Slots.antt =====
-- Slots of the concurrency limits while an item of a batch runs.
use open_model_gateway.Base.{
  refl, String, Option, none, some, List, [], ◌∷◌, ◌==◌, string_eq, Result, ok, err, Error,
  error_text, is_panic, fail, Act, ◌>>◌, Bool-cases, inl, inr,
}
use open_model_gateway.RequestContext.{RequestContext}
use open_model_gateway.Limits.Counters.{Up}
use open_model_gateway.App.ModelAccess.{is_model_allowed}
use open_model_gateway.App.Acquire.{Resolved}
use open_model_gateway.Router.Engine.{Route, select_routes, resolve_deployment}
use open_model_gateway.Batches.Worker.{ItemOutcome}
use open_model_gateway.Serving.Node.{Node, Site, EmbeddingsResponse}
use open_model_gateway.Serving.Guards.{
  note, limit_text, limited, answer_record, success_of, charge_both,
}
use open_model_gateway.Serving.Slots.{
  Preserves, bind-Preserves, on_result-Preserves, if-Preserves, charge_both-Preserves,
  budgeted-Preserves, limited-Preserves,
}
use open_model_gateway.Items.Requests.{Codec, refuse_item, item_answer}
use open_model_gateway.Items.Embeddings.{
  store_embedding, after_item_embedding, note_last_embedding, no_item_embedding, on_item_embedding,
  try_item_embeddings, embed_item_over, serve_embedding_item, over_limit,
}

module _ (node : Node) (up : Up node.call.redis) (name : String) (codec : Codec)
    (rc : RequestContext) where
  pub item_answer-Preserves :
      (id : String) (bytes : Result String)
      → Preserves node up name (item_answer node codec id bytes)
  unfolding item_answer
  item_answer-Preserves id (ok bytes) s = refl
  item_answer-Preserves id (err e) s = refl

  module _ (alias : String) where
    pub over_limit-Preserves :
        (text : String) (e : Error) → Preserves node up name (over_limit node codec rc alias text e)
    over_limit-Preserves text e =
        if-Preserves node up name (is_panic e) (fail e)
          (refuse_item node codec 429 "rate_limit_error" (limit_text node text e)) (λ s. refl)
          (λ s. refl)

    store_embedding-Preserves :
        (route : Route) (resp : EmbeddingsResponse)
        → Preserves node up name (store_embedding node codec rc alias route resp)
    unfolding store_embedding
    store_embedding-Preserves route resp =
        on_result-Preserves node up name (note node (answer_record node rc alias route resp.usage))
          (λ status. item_answer node codec node.call.trace_id (codec.encode_embeddings alias resp))
          (λ e. refuse_item node codec 500 "usage_error" (error_text e)) (λ s. refl)
          (λ status. item_answer-Preserves node.call.trace_id (codec.encode_embeddings alias resp))
          (λ e s. refl)

    after_item_embedding-Preserves :
        (r : Resolved) (route : Route) (resp : EmbeddingsResponse)
        → Preserves node up name (after_item_embedding node codec rc alias r route resp)
    unfolding after_item_embedding
    after_item_embedding-Preserves r route resp =
        on_result-Preserves node up name (charge_both node r resp.usage.total_tokens)
          (λ _. success_of node alias route >> store_embedding node codec rc alias route resp)
          (over_limit node codec rc alias "token limit exceeded")
          (charge_both-Preserves node up name r resp.usage.total_tokens)
          (λ _.
            bind-Preserves node up name (success_of node alias route)
              (λ _. store_embedding node codec rc alias route resp) (λ s. refl)
              (λ _. store_embedding-Preserves route resp))
          (over_limit-Preserves "token limit exceeded")

    no_item_embedding-Preserves :
        (last : Option (Error × Route))
        → Preserves node up name (no_item_embedding node codec rc alias last)
    unfolding no_item_embedding note_last_embedding
    no_item_embedding-Preserves none s = refl
    no_item_embedding-Preserves (some (e, route)) s = elim (Bool-cases (route.provider == "")) [
      | inl unnamed ↦ rw unnamed refl
      | inr named ↦ rw named refl
    ]

    on_item_embedding-Preserves :
        (r : Resolved) (route : Route)
        (later : Option (Error × Route) → Act (Site node) ItemOutcome)
        (reply : Result EmbeddingsResponse)
        → ((l : Option (Error × Route)) → Preserves node up name (later l))
        → Preserves node up name (on_item_embedding node codec rc alias r route later reply)
    unfolding on_item_embedding
    on_item_embedding-Preserves r route later (ok resp) h s =
        after_item_embedding-Preserves r route resp s
    on_item_embedding-Preserves r route later (err e) h s = h (some (e, route)) _

    try_item_embeddings-Preserves :
        (values : List String) (r : Resolved) (routes : List Route) (last : Option (Error × Route))
        → Preserves node up name (try_item_embeddings node codec rc alias values r routes last)
    unfolding try_item_embeddings
    try_item_embeddings-Preserves values r [] last s = no_item_embedding-Preserves last s
    try_item_embeddings-Preserves values r (route ∷ routes) last s =
        if-Preserves node up name route.has_embedding
          (on_item_embedding node codec rc alias r route
            (try_item_embeddings node codec rc alias values r routes)
            (node.embed values route (resolve_deployment route)))
          (try_item_embeddings node codec rc alias values r routes last)
          (on_item_embedding-Preserves r route
            (try_item_embeddings node codec rc alias values r routes)
            (node.embed values route (resolve_deployment route))
            (try_item_embeddings-Preserves values r routes))
          (try_item_embeddings-Preserves values r routes last) s

    embed_item_over-Preserves :
        (values : List String) (routes : List Route)
        → Preserves node up name (embed_item_over node codec rc alias values routes)
    unfolding embed_item_over
    embed_item_over-Preserves values [] s = refl
    embed_item_over-Preserves values (route ∷ routes) s =
        budgeted-Preserves node up name rc alias
          (λ e. refuse_item node codec 500 "budget_error" (error_text e))
          (λ status. refuse_item node codec 403 "budget_exceeded" "tenant budget exceeded")
          (λ status.
            limited node rc alias (over_limit node codec rc alias "rate limit exceeded")
              (λ r. try_item_embeddings node codec rc alias values r (route ∷ routes) none))
          (λ e t. refl) (λ status t. refl)
          (λ status.
            limited-Preserves node up name rc alias
              (over_limit node codec rc alias "rate limit exceeded")
              (λ r. try_item_embeddings node codec rc alias values r (route ∷ routes) none)
              (over_limit-Preserves "rate limit exceeded")
              (λ r. try_item_embeddings-Preserves values r (route ∷ routes) none))
          s

    pub serve_embedding_item-Preserves :
        (values : List String)
        → Preserves node up name (serve_embedding_item node codec rc alias values)
    unfolding serve_embedding_item
    serve_embedding_item-Preserves values s =
        elim (Bool-cases (is_model_allowed node.to_lower node.access rc.tenant_id alias)) [
          | inl allowed ↦ rw allowed (
              embed_item_over-Preserves values
                (select_routes node.call.intn s.gateway.engine alias node.call.nanos) s)
          | inr forbidden ↦ rw forbidden refl
        ]
