-- ===== src/Items/Chat.antt =====
-- batchworker/worker.go: runChatItem.
use open_model_gateway.Base.{
  fail, ℕ, String, ◌==◌, string_eq, nat_eq, Error, error_text, Act, on_result, if◌then◌else◌,
}
use open_model_gateway.RequestContext.{RequestContext}
use open_model_gateway.App.ModelAccess.{is_model_allowed}
use open_model_gateway.Batches.Worker.{ItemOutcome}
use open_model_gateway.Executor.Chat.{ChatResult}
use open_model_gateway.Serving.Node.{Node, Site, ChatRequest, on_gateway, run_chat}
use open_model_gateway.Items.Requests.{
  Codec, Checked, decode_batch_request, check_chat, refuse_item, item_answer,
}

unfoldable pub map_status_to_code : ℕ → String
map_status_to_code status =
    if status == 400
    then "invalid_request_error"
    else if status == 403
    then "permission_error"
    else if status == 429
    then "rate_limit_error"
    else if status == 503
    then "service_unavailable"
    else "provider_error"

module _ (node : Node) (codec : Codec) (rc : RequestContext) where
  -- executor.AsAPIError
  unfoldable pub item_chat_failed : Error → Act (Site node) ItemOutcome
  item_chat_failed (Error.api status msg) =
      refuse_item node codec status (map_status_to_code status) msg
  item_chat_failed Error.nil_pointer = fail Error.nil_pointer
  item_chat_failed e = refuse_item node codec 502 "provider_error" (error_text e)

  unfoldable pub item_chat_answered : String → ChatResult → Act (Site node) ItemOutcome
  item_chat_answered alias result =
      item_answer node codec
        (if result.response.id == "" then node.call.trace_id else result.response.id)
        (codec.encode_chat alias result.response)

  unfoldable pub serve_chat_item : String → ChatRequest → Act (Site node) ItemOutcome
  serve_chat_item alias req =
      if is_model_allowed node.to_lower node.access rc.tenant_id alias
      then on_result (on_gateway node (run_chat node rc alias req "")) (item_chat_answered alias)
          item_chat_failed
      else refuse_item node codec 403 "permission_error" "model not enabled for tenant"

  unfoldable pub checked_chat : Checked (String × ChatRequest) → Act (Site node) ItemOutcome
  checked_chat (Checked.rejected code message) = refuse_item node codec 400 code message
  checked_chat (Checked.accepted (alias, req)) = serve_chat_item alias req

  unfoldable pub decoded_chat : Checked String → Act (Site node) ItemOutcome
  decoded_chat (Checked.rejected code message) = refuse_item node codec 400 code message
  decoded_chat (Checked.accepted body) = checked_chat (check_chat node (codec.decode_chat body))

  unfoldable pub run_chat_item : String → Act (Site node) ItemOutcome
  run_chat_item input = decoded_chat (decode_batch_request codec "/v1/chat/completions" input)
