-- ===== src/Items/Requests.antt =====
-- batchworker/worker.go: the requests of items, decoded and checked, and the outcomes that refuse them.
-- Package encoding/json is the parameter `Codec`.
use open_model_gateway.Base.{
  ℕ, ℤ, pos, ltb_ℤ, is_pos, String, Bool, not, Option, none, some, List, [], ◌∷◌, ◌==◌, string_eq,
  nat_eq, Result, ok, err, error_text, Act, return, if◌then◌else◌, trim_space, append,
}
use open_model_gateway.App.ModelAccess.{is_nil}
use open_model_gateway.Batches.Worker.{ItemOutcome}
use open_model_gateway.Executor.Chat.{ChatResponse}
use open_model_gateway.Serving.Node.{
  Node, Site, ChatMessage, ChatRequest, ChatBody, EmbeddingBody, EmbeddingsResponse, ImageRequest,
  ImageResponse, parse_stop, parse_embedding_input,
}
use open_model_gateway.Router.Engine.{Route}

-- batchRequest
pub record BatchRequest : Type 0 where
  pub method : String
  pub url : String
  pub body : String

-- openAIError, in an errorPayload
pub record ErrorPayload : Type 0 where
  pub message : String
  pub kind : String
  pub code : String

-- openAIImageRequest; the number of images is that of `request`.
pub record ImageBody : Type 0 where
  pub model : String
  pub request : ImageRequest

-- json.Unmarshal and json.Marshal at the types of the worker, strings.EqualFold, and
-- route.Image.Generate.
pub record Codec : Type 0 where
  pub decode_request : String → Result BatchRequest
  pub decode_chat : String → Result ChatBody
  pub decode_embedding : String → Result EmbeddingBody
  pub decode_image : String → Result ImageBody
  pub marshal_error : ErrorPayload → String
  pub encode_chat : String → ChatResponse → Result String
  pub encode_embeddings : String → EmbeddingsResponse → Result String
  pub encode_images : ImageResponse → Result String
  pub equal_fold : String → String → Bool
  pub generate : ImageRequest → Route → String → Result ImageResponse

-- A request that passed the checks, or the code and the message that refuse it.
pub data Checked (A : Type 0) : Type 0 where
  accepted : A → Checked A
  rejected : String → String → Checked A

module _ (codec : Codec) where
  unfoldable pub encode_error_payload : String → String → String
  encode_error_payload code message =
      codec.marshal_error (record { message = message; kind = "batch_error"; code = code })

  -- strings.TrimSpace, and a default for an empty text.
  abbrev pub trimmed_or : String → String → String
  trimmed_or default text = if trim_space text == "" then default else trim_space text

  unfoldable pub check_request : String → Result BatchRequest → Checked String
  check_request path (err e) =
      Checked.rejected "invalid_batch_input" (append "invalid JSON payload: " (error_text e))
  check_request path (ok req) =
      if not (codec.equal_fold (trimmed_or "POST" req.method) "POST")
      then Checked.rejected "invalid_method" "batch entries must use POST"
      else if not (trimmed_or path req.url == path)
      then Checked.rejected "invalid_endpoint" "batch URL mismatch"
      else if req.body == ""
      then Checked.rejected "invalid_request_error" "body is required"
      else Checked.accepted req.body

  -- The body of the request.
  unfoldable pub decode_batch_request : String → String → Checked String
  decode_batch_request path input = check_request path (codec.decode_request input)

abbrev pub invalid : {A : Type 0} → String → Checked A
invalid text = Checked.rejected "invalid_request_error" text

module _ (node : Node) where
  abbrev pub item_role : ChatMessage → ChatMessage
  item_role m =
      let role = node.to_lower (trim_space m.role) in
      record m { role = if role == "" then "user" else role }

  unfoldable pub item_messages : List ChatMessage → List ChatMessage
  item_messages [] = []
  item_messages (m ∷ messages) = item_role m ∷ item_messages messages

  unfoldable pub check_stop : ChatBody → Option (List String) → Checked (String × ChatRequest)
  check_stop body none = invalid "invalid stop value"
  check_stop body (some stop) =
      if is_nil body.request.messages
      then invalid "messages are required"
      else Checked.accepted (
        trim_space body.model,
        record body.request { messages = item_messages body.request.messages; stop = stop },
      )

  unfoldable pub check_chat : Result ChatBody → Checked (String × ChatRequest)
  check_chat (err e) = invalid (append "invalid chat body: " (error_text e))
  check_chat (ok body) =
      if trim_space body.model == ""
      then invalid "model is required"
      else if body.stream
      then invalid "streaming is not supported in batches"
      else check_stop body (parse_stop node body.stop_raw)

  unfoldable pub check_inputs : String → Option (List String) → Checked (String × List String)
  check_inputs model none = invalid "invalid input field"
  check_inputs model (some values) =
      if is_nil values then invalid "input is required" else Checked.accepted (model, values)

  unfoldable pub check_embedding : Result EmbeddingBody → Checked (String × List String)
  check_embedding (err e) = invalid (append "invalid embeddings body: " (error_text e))
  check_embedding (ok body) =
      if trim_space body.model == ""
      then invalid "model is required"
      else check_inputs (trim_space body.model) (parse_embedding_input node body.input)

-- At least one image.
abbrev pub image_count : ℤ → ℤ
image_count n = if is_pos n then n else pos 1

unfoldable pub check_image : Result ImageBody → Checked (String × ImageRequest)
check_image (err e) = invalid (append "invalid image body: " (error_text e))
check_image (ok body) =
    if trim_space body.model == ""
    then invalid "model is required"
    else if trim_space body.request.prompt == ""
    then invalid "prompt is required"
    else if ltb_ℤ (pos 10) (image_count body.request.n)
    then invalid "n must be between 1 and 10"
    else Checked.accepted (
      trim_space body.model,
      record body.request {
        prompt = trim_space body.request.prompt;
        n = image_count body.request.n;
      },
    )

module _ (node : Node) (codec : Codec) where
  abbrev pub refuse_item : ℕ → String → String → Act (Site node) ItemOutcome
  refuse_item status code message = return (record {
    status_code = status;
    request_id = node.call.trace_id;
    response = "";
    err_payload = some (encode_error_payload codec code message);
  })

  -- The outcome of an answer whose JSON is given.
  unfoldable pub item_answer : String → Result String → Act (Site node) ItemOutcome
  item_answer id (err e) = refuse_item 500 "serialization_error" (error_text e)
  item_answer id (ok bytes) =
      return (record { status_code = 200; request_id = id; response = bytes; err_payload = none })
