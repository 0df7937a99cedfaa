-- ===== src/Items/Execute.antt =====
-- batchworker/worker.go: executeItem.
use open_model_gateway.Base.{String, Act, ◌==◌, string_eq, if◌then◌else◌, append}
use open_model_gateway.RequestContext.{RequestContext}
use open_model_gateway.Batches.Worker.{ItemOutcome}
use open_model_gateway.Serving.Node.{Node, Site}
use open_model_gateway.Items.Requests.{Codec, refuse_item}
use open_model_gateway.Items.Embeddings.{run_embedding_item}
use open_model_gateway.Items.Images.{run_image_item}
use open_model_gateway.Items.Chat.{run_chat_item}

module _ (node : Node) (codec : Codec) (rc : RequestContext) where
  unfoldable pub execute_item : String → String → Act (Site node) ItemOutcome
  execute_item endpoint input =
      if endpoint == "/v1/chat/completions"
      then run_chat_item node codec rc input
      else if endpoint == "/v1/embeddings"
      then run_embedding_item node codec rc input
      else if endpoint == "/v1/images/generations"
      then run_image_item node codec rc input
      else refuse_item node codec 400 "unsupported_endpoint"
          (append "endpoint " (append endpoint " not supported yet"))
