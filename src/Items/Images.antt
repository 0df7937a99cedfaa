-- ===== src/Items/Images.antt =====
-- batchworker/worker.go: runImageItem.
use open_model_gateway.Base.{
  ℤ, pos, String, Option, none, some, List, [], ◌∷◌, ◌==◌, string_eq, Result, ok, err, Error,
  error_text, Act, ◌>>◌, return, ignore, on_result, if◌then◌else◌,
}
use open_model_gateway.RequestContext.{RequestContext}
use open_model_gateway.App.ModelAccess.{is_model_allowed}
use open_model_gateway.App.Acquire.{Resolved}
use open_model_gateway.Router.Engine.{Route, select_routes, resolve_deployment}
use open_model_gateway.Batches.Worker.{ItemOutcome}
use open_model_gateway.Serving.Node.{Node, Site, ImageRequest, ImageResponse}
use open_model_gateway.Serving.Guards.{
  note, failed_record, answer_record, failure_of, charge_both, budgeted, limited,
}
use open_model_gateway.Items.Requests.{
  Codec, Checked, decode_batch_request, check_image, refuse_item, item_answer,
}
use open_model_gateway.Items.Embeddings.{over_limit}

-- The status of the row for an error: that of an API error, or 502.
abbrev pub status_or_bad_gateway : Error → ℤ
status_or_bad_gateway (Error.api status msg) = pos status
status_or_bad_gateway e = pos 502

module _ (node : Node) (codec : Codec) (rc : RequestContext) (alias : String) where
  abbrev pub last_image_message : Option (Error × Route) → String
  last_image_message none = "no backend available"
  last_image_message (some (e, route)) = error_text e

  -- The usage row of an answer, and its outcome.
  unfoldable pub store_image : Route → ImageResponse → Act (Site node) ItemOutcome
  store_image route resp =
      on_result (note node (answer_record node rc alias route resp.usage))
        (λ status. item_answer node codec node.call.trace_id (codec.encode_images resp))
        (λ e. refuse_item node codec 500 "usage_error" (error_text e))

  unfoldable pub after_item_image : Resolved → Route → ImageResponse → Act (Site node) ItemOutcome
  after_item_image r route resp =
      on_result (charge_both node r resp.usage.total_tokens) (λ _. store_image route resp)
        (over_limit node codec rc alias "token limit exceeded")

  unfoldable pub note_last_image : Option (Error × Route) → Act (Site node) (Unit {0})
  note_last_image none = return tt
  note_last_image (some (e, route)) =
      if route.provider == ""
      then return tt
      else ignore (
          note node (
            failed_record node rc alias route.provider (node.call.elapsed route)
              (status_or_bad_gateway e) (error_text e)))

  unfoldable pub no_item_image : Option (Error × Route) → Act (Site node) ItemOutcome
  no_item_image last =
      note_last_image last >> refuse_item node codec 502 "provider_error" (last_image_message last)

  unfoldable pub on_item_image :
      Resolved
      → Route
      → (Option (Error × Route) → Act (Site node) ItemOutcome)
      → Result ImageResponse
      → Act (Site node) ItemOutcome
  on_item_image r route later (ok resp) = after_item_image r route resp
  on_item_image r route later (err e) = failure_of node alias route >> later (some (e, route))

  -- The loop over the routes.
  unfoldable pub try_item_images :
      ImageRequest → Resolved → List Route → Option (Error × Route) → Act (Site node) ItemOutcome
  try_item_images req r [] last = no_item_image last
  try_item_images req r (route ∷ routes) last =
      let later = try_item_images req r routes in
      if route.has_image
      then on_item_image r route later (codec.generate req route (resolve_deployment route))
      else later last

  unfoldable pub image_item_over : ImageRequest → List Route → Act (Site node) ItemOutcome
  image_item_over req [] =
      refuse_item node codec 503 "service_unavailable" "no backend available for model"
  image_item_over req (route ∷ routes) =
      budgeted node rc alias (λ e. refuse_item node codec 500 "budget_error" (error_text e))
        (λ status. refuse_item node codec 403 "budget_exceeded" "tenant budget exceeded")
        (λ status.
          limited node rc alias (over_limit node codec rc alias "rate limit exceeded")
            (λ r. try_item_images req r (route ∷ routes) none))

  unfoldable pub serve_image_item : ImageRequest → Act (Site node) ItemOutcome
  serve_image_item req s =
      if is_model_allowed node.to_lower node.access rc.tenant_id alias
      then image_item_over req (select_routes node.call.intn s.gateway.engine alias node.call.nanos)
          s
      else refuse_item node codec 403 "permission_error" "model not enabled for tenant" s

module _ (node : Node) (codec : Codec) (rc : RequestContext) where
  unfoldable pub checked_image : Checked (String × ImageRequest) → Act (Site node) ItemOutcome
  checked_image (Checked.rejected code message) = refuse_item node codec 400 code message
  checked_image (Checked.accepted (alias, req)) = serve_image_item node codec rc alias req

  unfoldable pub decoded_image : Checked String → Act (Site node) ItemOutcome
  decoded_image (Checked.rejected code message) = refuse_item node codec 400 code message
  decoded_image (Checked.accepted body) = checked_image (check_image (codec.decode_image body))

  unfoldable pub run_image_item : String → Act (Site node) ItemOutcome
  run_image_item input = decoded_image (decode_batch_request codec "/v1/images/generations" input)
