-- ===== src/Public/Embeddings.antt =====
-- embeddings of httpserver/public/openai_routes.go. `encode` is the JSON of convertEmbeddingResponse.
use open_model_gateway.Base.{
  is_panic, pos, String, Option, none, some, List, [], ◌∷◌, ◌==◌, string_eq, Result, ok, err, Error,
  error_text, is_limit_exceeded, Act, ◌>>◌, return, fail, ignore, on_result, if◌then◌else◌,
  trim_space,
}
use open_model_gateway.RequestContext.{RequestContext}
use open_model_gateway.App.ModelAccess.{is_model_allowed}
use open_model_gateway.App.Acquire.{Resolved}
use open_model_gateway.Router.Engine.{Route, select_routes, resolve_deployment}
use open_model_gateway.Usage.Budget.{BudgetStatus}
use open_model_gateway.Serving.Node.{
  Node, Site, EmbeddingsResponse, EmbeddingBody, parse_embedding_input,
}
use open_model_gateway.Serving.Guards.{
  note, failed_record, answer_record, success_of, failure_of, charge_both, budgeted, limited_early,
  Held, on_site, release_now,
}
use open_model_gateway.Public.Reply.{Reply, write_error, send}

module _ (node : Node) (encode : String → EmbeddingsResponse → String) where
  -- 429 at a limit, and 500 when the limits cannot be read.
  unfoldable pub refuse_limits : String → Option BudgetStatus → Error → Act (Site node) Reply
  refuse_limits text shown e =
      if is_panic e
      then fail e
      else if is_limit_exceeded e
      then write_error 429 text shown
      else write_error 500 (error_text e) shown

  module _ (rc : RequestContext) (alias : String) (shown : Option BudgetStatus) where
    -- The usage row of an answer, and the reply.
    unfoldable pub store_embedding_reply : Route → EmbeddingsResponse → Act (Site node) Reply
    store_embedding_reply route resp =
        on_result (note node (answer_record node rc alias route resp.usage))
          (λ status. send (encode alias resp) (some status))
          (λ e. write_error 500 "failed to persist usage" shown)

    -- The refusal of an answer's tokens: the closure is called before the reply, and by defer again.
    unfoldable pub refuse_tokens : Error → Act (Held node) Reply
    refuse_tokens e =
        if is_panic e
        then fail e
        else release_now node >> on_site node (refuse_limits "token limit exceeded" shown e)

    unfoldable pub after_embedding : Resolved → Route → EmbeddingsResponse → Act (Held node) Reply
    after_embedding r route resp =
        on_site node (success_of node alias route)
        >> on_result (on_site node (charge_both node r resp.usage.total_tokens))
            (λ _. on_site node (store_embedding_reply route resp)) refuse_tokens

    unfoldable pub no_embedding : Option (Error × Route) → Act (Site node) Reply
    no_embedding none = write_error 502 "no backend available" shown
    no_embedding (some (e, route)) =
        (if route.provider == ""
          then return tt
          else ignore (
              note node (
                failed_record node rc alias route.provider (node.call.elapsed route) (pos 502)
                  (error_text e))))
        >> write_error 502 (error_text e) shown

    unfoldable pub on_embedding :
        Resolved
        → Route
        → (Option (Error × Route) → Act (Held node) Reply)
        → Result EmbeddingsResponse
        → Act (Held node) Reply
    on_embedding r route later (ok resp) = after_embedding r route resp
    on_embedding r route later (err e) =
        on_site node (failure_of node alias route) >> later (some (e, route))

    -- The loop; a route without an embedding interface panics.
    unfoldable pub try_embeddings :
        List String → Resolved → List Route → Option (Error × Route) → Act (Held node) Reply
    try_embeddings inputs r [] last = on_site node (no_embedding last)
    try_embeddings inputs r (route ∷ routes) last =
        let later = try_embeddings inputs r routes in
        if route.has_embedding
        then on_embedding r route later (node.embed inputs route (resolve_deployment route))
        else fail Error.nil_pointer

  unfoldable pub embed_over :
      RequestContext → String → List String → List Route → Act (Site node) Reply
  embed_over rc alias inputs [] = write_error 503 "no backend available for model" none
  embed_over rc alias inputs (route ∷ routes) =
      budgeted node rc alias (λ e. write_error 500 "failed to evaluate budget" none)
        (λ status. write_error 403 "tenant budget exceeded" (some status))
        (λ status.
          limited_early node rc alias (refuse_limits "rate limit exceeded" (some status))
            (λ r. try_embeddings rc alias (some status) inputs r (route ∷ routes) none))

  unfoldable pub with_inputs :
      Option RequestContext → String → Option (List String) → Act (Site node) Reply
  with_inputs rc alias none s = write_error 400 "invalid input field" none s
  with_inputs none alias (some inputs) s = write_error 500 "request context missing" none s
  with_inputs (some rc) alias (some inputs) s =
      if is_model_allowed node.to_lower node.access rc.tenant_id alias
      then embed_over rc alias inputs
          (select_routes node.call.intn s.gateway.engine alias node.call.nanos) s
      else write_error 403 "model not enabled for tenant" none s

  unfoldable pub embeddings : Option RequestContext → Option EmbeddingBody → Act (Site node) Reply
  embeddings rc none = write_error 400 "invalid request body" none
  embeddings rc (some body) =
      if trim_space body.model == ""
      then write_error 400 "model is required" none
      else with_inputs rc (trim_space body.model) (parse_embedding_input node body.input)
