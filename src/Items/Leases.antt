-- ===== src/Items/Leases.antt =====
-- Slots of the concurrency limits while an item of a batch asks for images, and while any item runs.
use open_model_gateway.Base.{
  ◌≡◌, refl, String, Option, none, some, List, [], ◌∷◌, ◌==◌, string_eq, Result, ok, err, Error,
  error_text, Act, Bool-cases, inl, inr, on_result, if◌then◌else◌,
}
use open_model_gateway.RequestContext.{RequestContext}
use open_model_gateway.Limits.Counters.{Up}
use open_model_gateway.App.ModelAccess.{is_model_allowed}
use open_model_gateway.App.Acquire.{Resolved}
use open_model_gateway.Router.Engine.{Route, select_routes, resolve_deployment}
use open_model_gateway.Batches.Worker.{ItemOutcome}
use open_model_gateway.Serving.Node.{
  Node, Site, ChatRequest, ImageRequest, ImageResponse, on_gateway, run_chat,
}
use open_model_gateway.Serving.Guards.{note, limited, answer_record, charge_both}
use open_model_gateway.Serving.Slots.{
  slots_of, Preserves, on_result-Preserves, if-Preserves, charge_both-Preserves, run_chat-Preserves,
  budgeted-Preserves, limited-Preserves,
}
use open_model_gateway.Items.Requests.{
  Codec, Checked, decode_batch_request, check_embedding, check_image, check_chat, refuse_item,
  item_answer,
}
use open_model_gateway.Items.Embeddings.{
  checked_embedding, decoded_embedding, run_embedding_item, over_limit,
}
use open_model_gateway.Items.Images.{
  store_image, after_item_image, note_last_image, no_item_image, on_item_image, try_item_images,
  image_item_over, serve_image_item, checked_image, decoded_image, run_image_item,
}
use open_model_gateway.Items.Chat.{
  item_chat_failed, item_chat_answered, serve_chat_item, checked_chat, decoded_chat, run_chat_item,
}
use open_model_gateway.Items.Execute.{execute_item}
use open_model_gateway.Items.Slots.{
  item_answer-Preserves, over_limit-Preserves, serve_embedding_item-Preserves,
}

module _ (node : Node) (up : Up node.call.redis) (name : String) (codec : Codec)
    (rc : RequestContext) where
  module _ (alias : String) where
    store_image-Preserves :
        (route : Route) (resp : ImageResponse)
        → Preserves node up name (store_image node codec rc alias route resp)
    unfolding store_image
    store_image-Preserves route resp =
        on_result-Preserves node up name (note node (answer_record node rc alias route resp.usage))
          (λ status. item_answer node codec node.call.trace_id (codec.encode_images resp))
          (λ e. refuse_item node codec 500 "usage_error" (error_text e)) (λ s. refl)
          (λ status.
            item_answer-Preserves node up name codec rc node.call.trace_id
              (codec.encode_images resp))
          (λ e s. refl)

    after_item_image-Preserves :
        (r : Resolved) (route : Route) (resp : ImageResponse)
        → Preserves node up name (after_item_image node codec rc alias r route resp)
    unfolding after_item_image
    after_item_image-Preserves r route resp =
        on_result-Preserves node up name (charge_both node r resp.usage.total_tokens)
          (λ _. store_image node codec rc alias route resp)
          (over_limit node codec rc alias "token limit exceeded")
          (charge_both-Preserves node up name r resp.usage.total_tokens)
          (λ _. store_image-Preserves route resp)
          (over_limit-Preserves node up name codec rc alias "token limit exceeded")

    no_item_image-Preserves :
        (last : Option (Error × Route))
        → Preserves node up name (no_item_image node codec rc alias last)
    unfolding no_item_image note_last_image
    no_item_image-Preserves none s = refl
    no_item_image-Preserves (some (e, route)) s = elim (Bool-cases (route.provider == "")) [
      | inl unnamed ↦ rw unnamed refl
      | inr named ↦ rw named refl
    ]

    on_item_image-Preserves :
        (r : Resolved) (route : Route)
        (later : Option (Error × Route) → Act (Site node) ItemOutcome)
        (reply : Result ImageResponse)
        → ((l : Option (Error × Route)) → Preserves node up name (later l))
        → Preserves node up name (on_item_image node codec rc alias r route later reply)
    unfolding on_item_image
    on_item_image-Preserves r route later (ok resp) h s = after_item_image-Preserves r route resp s
    on_item_image-Preserves r route later (err e) h s = h (some (e, route)) _

    try_item_images-Preserves :
        (req : ImageRequest) (r : Resolved) (routes : List Route) (last : Option (Error × Route))
        → Preserves node up name (try_item_images node codec rc alias req r routes last)
    unfolding try_item_images
    try_item_images-Preserves req r [] last s = no_item_image-Preserves last s
    try_item_images-Preserves req r (route ∷ routes) last s =
        if-Preserves node up name route.has_image
          (on_item_image node codec rc alias r route
            (try_item_images node codec rc alias req r routes)
            (codec.generate req route (resolve_deployment route)))
          (try_item_images node codec rc alias req r routes last)
          (on_item_image-Preserves r route (try_item_images node codec rc alias req r routes)
            (codec.generate req route (resolve_deployment route))
            (try_item_images-Preserves req r routes))
          (try_item_images-Preserves req r routes last) s

    image_item_over-Preserves :
        (req : ImageRequest) (routes : List Route)
        → Preserves node up name (image_item_over node codec rc alias req routes)
    unfolding image_item_over
    image_item_over-Preserves req [] s = refl
    image_item_over-Preserves req (route ∷ routes) s =
        budgeted-Preserves node up name rc alias
          (λ e. refuse_item node codec 500 "budget_error" (error_text e))
          (λ status. refuse_item node codec 403 "budget_exceeded" "tenant budget exceeded")
          (λ status.
            limited node rc alias (over_limit node codec rc alias "rate limit exceeded")
              (λ r. try_item_images node codec rc alias req r (route ∷ routes) none))
          (λ e t. refl) (λ status t. refl)
          (λ status.
            limited-Preserves node up name rc alias
              (over_limit node codec rc alias "rate limit exceeded")
              (λ r. try_item_images node codec rc alias req r (route ∷ routes) none)
              (over_limit-Preserves node up name codec rc alias "rate limit exceeded")
              (λ r. try_item_images-Preserves req r (route ∷ routes) none))
          s

    serve_image_item-Preserves :
        (req : ImageRequest) → Preserves node up name (serve_image_item node codec rc alias req)
    unfolding serve_image_item
    serve_image_item-Preserves req s =
        elim (Bool-cases (is_model_allowed node.to_lower node.access rc.tenant_id alias)) [
          | inl allowed ↦ rw allowed (
              image_item_over-Preserves req
                (select_routes node.call.intn s.gateway.engine alias node.call.nanos) s)
          | inr forbidden ↦ rw forbidden refl
        ]

  embedding-Preserves :
      (input : String) → Preserves node up name (run_embedding_item node codec rc input)
  unfolding run_embedding_item decoded_embedding checked_embedding
  embedding-Preserves input = by_request (decode_batch_request codec "/v1/embeddings" input)
    where
      by_body :
          (c : Checked (String × List String))
          → Preserves node up name (checked_embedding node codec rc c)
      by_body (Checked.rejected code message) s = refl
      by_body (Checked.accepted (alias, values)) s =
          serve_embedding_item-Preserves node up name codec rc alias values s

      by_request : (c : Checked String) → Preserves node up name (decoded_embedding node codec rc c)
      by_request (Checked.rejected code message) s = refl
      by_request (Checked.accepted body) s =
          by_body (check_embedding node (codec.decode_embedding body)) s

  image-Preserves : (input : String) → Preserves node up name (run_image_item node codec rc input)
  unfolding run_image_item decoded_image checked_image
  image-Preserves input = by_request (decode_batch_request codec "/v1/images/generations" input)
    where
      by_body :
          (c : Checked (String × ImageRequest))
          → Preserves node up name (checked_image node codec rc c)
      by_body (Checked.rejected code message) s = refl
      by_body (Checked.accepted (alias, req)) s = serve_image_item-Preserves alias req s

      by_request : (c : Checked String) → Preserves node up name (decoded_image node codec rc c)
      by_request (Checked.rejected code message) s = refl
      by_request (Checked.accepted body) s = by_body (check_image (codec.decode_image body)) s

  item_chat_failed-Preserves :
      (e : Error) → Preserves node up name (item_chat_failed node codec rc e)
  unfolding item_chat_failed
  item_chat_failed-Preserves (Error.api status msg) s = refl
  item_chat_failed-Preserves Error.limit_exceeded s = refl
  item_chat_failed-Preserves Error.no_rows s = refl
  item_chat_failed-Preserves Error.nil_pointer s = refl
  item_chat_failed-Preserves (Error.message msg) s = refl
  item_chat_failed-Preserves (Error.outside msg) s = refl

  serve_chat_item-Preserves :
      (alias : String) (req : ChatRequest)
      → Preserves node up name (serve_chat_item node codec rc alias req)
  unfolding serve_chat_item item_chat_answered
  serve_chat_item-Preserves alias req =
      if-Preserves node up name (is_model_allowed node.to_lower node.access rc.tenant_id alias)
        (on_result (on_gateway node (run_chat node rc alias req ""))
          (item_chat_answered node codec rc alias) (item_chat_failed node codec rc))
        (refuse_item node codec 403 "permission_error" "model not enabled for tenant")
        (on_result-Preserves node up name (on_gateway node (run_chat node rc alias req ""))
          (item_chat_answered node codec rc alias) (item_chat_failed node codec rc)
          (run_chat-Preserves node up name rc alias req "")
          (λ result.
            item_answer-Preserves node up name codec rc
              (if result.response.id == "" then node.call.trace_id else result.response.id)
              (codec.encode_chat alias result.response))
          item_chat_failed-Preserves)
        (λ s. refl)

  chat_item-Preserves :
      (input : String) → Preserves node up name (run_chat_item node codec rc input)
  unfolding run_chat_item decoded_chat checked_chat
  chat_item-Preserves input = by_request (decode_batch_request codec "/v1/chat/completions" input)
    where
      by_body :
          (c : Checked (String × ChatRequest))
          → Preserves node up name (checked_chat node codec rc c)
      by_body (Checked.rejected code message) s = refl
      by_body (Checked.accepted (alias, req)) s = serve_chat_item-Preserves alias req s

      by_request : (c : Checked String) → Preserves node up name (decoded_chat node codec rc c)
      by_request (Checked.rejected code message) s = refl
      by_request (Checked.accepted body) s = by_body (check_chat node (codec.decode_chat body)) s

  -- While Redis answers, running an item of a batch leaves every slot counter as it found it, for each
  -- endpoint and however the item ends: refused by a check, the budget or a limit, answered, failed by
  -- every provider, or unable to charge its tokens, record its usage or encode its answer.
  pub execute_item-slots :
      (endpoint input : String) (s : Site node)
      → slots_of node up name (execute_item node codec rc endpoint input s).1
        ≡ slots_of node up name s
  unfolding execute_item
  execute_item-slots endpoint input = elim (Bool-cases (endpoint == "/v1/chat/completions")) [
    | inl chat ↦ rw chat (chat_item-Preserves input)
    | inr other ↦ elim (Bool-cases (endpoint == "/v1/embeddings")) [
      | inl embedding ↦ rw (other, embedding) (embedding-Preserves input)
      | inr third ↦ elim (Bool-cases (endpoint == "/v1/images/generations")) [
        | inl image ↦ rw (other, third, image) (image-Preserves input)
        | inr unknown ↦ rw (other, third, unknown) (λ s. refl)
      ]
    ]
  ]
