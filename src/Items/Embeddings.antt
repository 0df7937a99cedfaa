-- ===== src/Items/Embeddings.antt =====
-- batchworker/worker.go: runEmbeddingItem.
use open_model_gateway.Base.{
  is_panic, fail, pos, String, Option, none, some, List, [], ◌∷◌, ◌==◌, string_eq, Result, ok, err,
  Error, error_text, Act, ◌>>◌, return, ignore, on_result, if◌then◌else◌,
}
use open_model_gateway.RequestContext.{RequestContext}
use open_model_gateway.App.ModelAccess.{is_model_allowed}
use open_model_gateway.App.Acquire.{Resolved}
use open_model_gateway.Router.Engine.{Route, select_routes, resolve_deployment}
use open_model_gateway.Batches.Worker.{ItemOutcome}
use open_model_gateway.Serving.Node.{Node, Site, EmbeddingsResponse}
use open_model_gateway.Serving.Guards.{
  note, failed_record, answer_record, success_of, failure_of, charge_both, limit_text, budgeted,
  limited,
}
use open_model_gateway.Items.Requests.{
  Codec, Checked, decode_batch_request, check_embedding, refuse_item, item_answer,
}

module _ (node : Node) (codec : Codec) (rc : RequestContext) (alias : String) where
  abbrev pub over_limit : String → Error → Act (Site node) ItemOutcome
  over_limit text e =
      if is_panic e
      then fail e
      else refuse_item node codec 429 "rate_limit_error" (limit_text node text e)

  -- errMessage
  abbrev pub last_message : Option (Error × Route) → String
  last_message none = "unknown error"
  last_message (some (e, route)) = error_text e

  -- The usage row of an answer, and its outcome.
  unfoldable pub store_embedding : Route → EmbeddingsResponse → Act (Site node) ItemOutcome
  store_embedding route resp =
      on_result (note node (answer_record node rc alias route resp.usage))
        (λ status. item_answer node codec node.call.trace_id (codec.encode_embeddings alias resp))
        (λ e. refuse_item node codec 500 "usage_error" (error_text e))

  unfoldable pub after_item_embedding :
      Resolved → Route → EmbeddingsResponse → Act (Site node) ItemOutcome
  after_item_embedding r route resp =
      on_result (charge_both node r resp.usage.total_tokens)
        (λ _. success_of node alias route >> store_embedding route resp)
        (over_limit "token limit exceeded")

  -- The row of the last failure.
  unfoldable pub note_last_embedding : Option (Error × Route) → Act (Site node) (Unit {0})
  note_last_embedding none = return tt
  note_last_embedding (some (e, route)) =
      if route.provider == ""
      then return tt
      else ignore (
          note node (
            failed_record node rc alias route.provider (node.call.elapsed route) (pos 502)
              (error_text e)))

  unfoldable pub no_item_embedding : Option (Error × Route) → Act (Site node) ItemOutcome
  no_item_embedding last =
      note_last_embedding last >> refuse_item node codec 502 "provider_error" (last_message last)

  unfoldable pub on_item_embedding :
      Resolved
      → Route
      → (Option (Error × Route) → Act (Site node) ItemOutcome)
      → Result EmbeddingsResponse
      → Act (Site node) ItemOutcome
  on_item_embedding r route later (ok resp) = after_item_embedding r route resp
  on_item_embedding r route later (err e) = failure_of node alias route >> later (some (e, route))

  -- The loop over the routes.
  unfoldable pub try_item_embeddings :
      List String → Resolved → List Route → Option (Error × Route) → Act (Site node) ItemOutcome
  try_item_embeddings values r [] last = no_item_embedding last
  try_item_embeddings values r (route ∷ routes) last =
      let later = try_item_embeddings values r routes in
      if route.has_embedding
      then on_item_embedding r route later (node.embed values route (resolve_deployment route))
      else later last

  unfoldable pub embed_item_over : List String → List Route → Act (Site node) ItemOutcome
  embed_item_over values [] =
      refuse_item node codec 503 "service_unavailable" "no backend available for model"
  embed_item_over values (route ∷ routes) =
      budgeted node rc alias (λ e. refuse_item node codec 500 "budget_error" (error_text e))
        (λ status. refuse_item node codec 403 "budget_exceeded" "tenant budget exceeded")
        (λ status.
          limited node rc alias (over_limit "rate limit exceeded")
            (λ r. try_item_embeddings values r (route ∷ routes) none))

  unfoldable pub serve_embedding_item : List String → Act (Site node) ItemOutcome
  serve_embedding_item values s =
      if is_model_allowed node.to_lower node.access rc.tenant_id alias
      then embed_item_over values
          (select_routes node.call.intn s.gateway.engine alias node.call.nanos) s
      else refuse_item node codec 403 "permission_error" "model not enabled for tenant" s

module _ (node : Node) (codec : Codec) (rc : RequestContext) where
  unfoldable pub checked_embedding : Checked (String × List String) → Act (Site node) ItemOutcome
  checked_embedding (Checked.rejected code message) = refuse_item node codec 400 code message
  checked_embedding (Checked.accepted (alias, values)) =
      serve_embedding_item node codec rc alias values

  unfoldable pub decoded_embedding : Checked String → Act (Site node) ItemOutcome
  decoded_embedding (Checked.rejected code message) = refuse_item node codec 400 code message
  decoded_embedding (Checked.accepted body) =
      checked_embedding (check_embedding node (codec.decode_embedding body))

  unfoldable pub run_embedding_item : String → Act (Site node) ItemOutcome
  run_embedding_item input = decoded_embedding (decode_batch_request codec "/v1/embeddings" input)
