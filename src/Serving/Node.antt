-- ===== src/Serving/Node.antt =====
-- The container that requests are served with, and its state. Package encoding/json is a parameter:
-- `decode_text` and `decode_texts` are json.Unmarshal into a string and into a slice of strings. The
-- fields of `call` that belong to one request (`alias`, `rc`, `answer`, `idempotency_key`) are set where a
-- chat completion is run; the others are read. A float32 is its number of millionths, and a vector is
-- given by its numbers.
use open_model_gateway.Base.{
  ℕ, ℤ, String, Bool, Option, none, some, List, [], ◌∷◌, GoMap, Result, Act, ◌==◌, string_eq,
  if◌then◌else◌,
}
use open_model_gateway.RequestContext.{RequestContext}
use open_model_gateway.App.ModelAccess.{Access}
use open_model_gateway.Router.Engine.{Route}
use open_model_gateway.Usage.Tables.{TokenUsage}
use open_model_gateway.Executor.Chat.{Call, Gateway, ChatResponse, ChatResult, chat}

-- models.ChatMessage and models.ChatRequest; the deployment is chosen per route.
pub record ChatMessage : Type 0 where
  pub role : String
  pub content : String
  pub name : String

pub record ChatRequest : Type 0 where
  pub messages : List ChatMessage
  pub temperature : Option ℤ
  pub top_p : Option ℤ
  pub max_tokens : Option ℤ
  pub stop : List String

pub record Embedding : Type 0 where
  pub index : ℤ
  pub vector : List ℤ

pub record EmbeddingsResponse : Type 0 where
  pub embeddings : List Embedding
  pub usage : TokenUsage

pub record ImageRequest : Type 0 where
  pub prompt : String
  pub size : String
  pub response_format : String
  pub quality : String
  pub n : ℤ
  pub user : String
  pub background : String
  pub style : String

pub record ImageData : Type 0 where
  pub b64_json : String
  pub url : String
  pub revised_prompt : String

pub record ImageResponse : Type 0 where
  pub created : ℤ
  pub images : List ImageData
  pub usage : TokenUsage

-- The body of a chat completion, decoded.
pub record ChatBody : Type 0 where
  pub model : String
  pub request : ChatRequest
  pub stream : Bool
  pub stop_raw : String

-- The body of a request for embeddings, decoded.
pub record EmbeddingBody : Type 0 where
  pub model : String
  pub input : String

pub record Node : Type 1 where
  pub call : Call
  pub access : Access
  pub to_lower : String → String
  pub decode_text : String → Option String
  pub decode_texts : String → Option (List String)
  pub chat_answer : ChatRequest → Route → String → Result ChatResponse
  pub embed : List String → Route → String → Result EmbeddingsResponse

-- A value of Redis with the time from which it is gone.
pub record CacheEntry : Type 0 where
  pub value : String
  pub expires_at : ℕ

-- The state of the server; `cache` is the part of Redis under the prefix "idem:".
pub record Site (node : Node) : Type 0 where
  pub gateway : Gateway node.call
  pub cache : GoMap String CacheEntry

module _ (node : Node) where
  abbrev pub on_gateway : {A : Type 0} → Act (Gateway node.call) A → Act (Site node) A
  on_gateway run s = ((run s.gateway).0, record s { gateway = (run s.gateway).1 })

  -- The call of Executor.Chat for one request.
  abbrev pub chat_call : RequestContext → String → ChatRequest → String → Call
  chat_call rc alias req key = record node.call {
    rc = some rc;
    alias = alias;
    answer = node.chat_answer req;
    idempotency_key = key;
  }

  module _ (rc : RequestContext) (alias : String) (req : ChatRequest) (key : String) where
    abbrev pub to_call : Gateway node.call → Gateway (chat_call rc alias req key)
    to_call s = record { store = s.store; engine = s.engine; ledger = s.ledger }

    abbrev pub from_call : Gateway (chat_call rc alias req key) → Gateway node.call
    from_call s = record { store = s.store; engine = s.engine; ledger = s.ledger }

    unfoldable pub run_chat : Act (Gateway node.call) ChatResult
    run_chat s = (
      (chat (chat_call rc alias req key) (to_call s)).0,
      from_call (chat (chat_call rc alias req key) (to_call s)).1,
    )

  unfoldable pub one_or_many : String → Option String → Option (List String)
  one_or_many raw (some single) = some (single ∷ [])
  one_or_many raw none = node.decode_texts raw

  -- parseStop and parseEmbeddingInput; `none` is an error.
  unfoldable pub parse_stop : String → Option (List String)
  parse_stop raw =
      if raw == ""
      then some []
      else if raw == "null"
      then some []
      else one_or_many raw (node.decode_text raw)

  unfoldable pub parse_embedding_input : String → Option (List String)
  parse_embedding_input raw =
      if raw == ""
      then none
      else if raw == "null"
      then none
      else one_or_many raw (node.decode_text raw)
