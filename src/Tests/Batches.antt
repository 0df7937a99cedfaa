-- ===== src/Tests/Batches.antt =====
-- Examples for batches.
use open_model_gateway.Base.{
  ◌==◌, nat_eq, first, ◌+◌, ◌≤◌, refl, some, none, List, [], ◌∷◌, ok, err, Error, arith,
}
use open_model_gateway.Batches.Tables.{Db}
use open_model_gateway.Batches.Claims.{waiting}
use open_model_gateway.Batches.Worker.{
  none_locked, Gaps, Event, ItemOutcome, run, start_pool, finish_batch, fail_items,
}
use open_model_gateway.Batches.Statuses.{Ended, finish_batch_lem}
use open_model_gateway.Batches.Progress.{DrainEnds, process_batch-counts, fail_items-ends}
use open_model_gateway.Batches.Service.{BatchesConfig, BatchInput, Codec, CreateParams, store_batch}
use open_model_gateway.Batches.Ingest.{Ingested, store_batch-waiting}
use open_model_gateway.Tests.World.{running_batch, cancelling_batch, two_items}

abbrev answered : ItemOutcome
answered = record { status_code = 200; request_id = "r"; response = "{}"; err_payload = none }

-- Two goroutines: the second passes over the locked row of the first, and a Cancel comes after both have
-- claimed an item.
abbrev events : List Event
events =
    Event.work 20 0 none_locked answered
    ∷ Event.work 21 1 (λ id. id == 100) answered
    ∷ Event.cancels 22 7 1
    ∷ Event.work 23 0 none_locked answered
    ∷ Event.work 24 1 none_locked answered
    ∷ Event.work 25 0 none_locked answered
    ∷ []

process_batch-counts_example :
    (run 1 events (start_pool running_batch two_items)).completed_count
      + (run 1 events (start_pool running_batch two_items)).failed_count
    ≤ waiting 1 two_items.items
process_batch-counts_example = process_batch-counts running_batch events two_items

abbrev cancelling_db : Db
cancelling_db = record two_items { batches = cancelling_batch ∷ [] }

-- A call of Cancel comes while the result files are written.
abbrev gaps : Gaps
gaps = record { before = []; during = (31, 7, 1) ∷ []; later = (32, 7, 1) ∷ [] }

finish_batch_lem_example :
    Ended 33 running_batch 1 0
      (some 40, none)
      gaps
      cancelling_batch
      (finish_batch 33 running_batch 1 0 gaps (ok (some 40, none)) cancelling_db)
unfolding first
finish_batch_lem_example =
    finish_batch_lem 33 running_batch 1 0 (some 40, none) gaps cancelling_db cancelling_batch refl

fail_items-ends_example : DrainEnds 30 1 two_items (fail_items 3 30 1 "revoked" two_items)
fail_items-ends_example = fail_items-ends 3 30 1 "revoked" two_items (omega arith)

-- JSON that is not looked at.
abbrev codec : Codec
codec = record {
  unmarshal = λ text. err (Error.outside text);
  marshal = λ input. input.body;
  to_upper = λ text. text;
  itoa = λ n. "n";
}

abbrev config : BatchesConfig
config = record { max_requests = 10; max_concurrency = 4; default_ttl = 0; max_ttl = 0 }

abbrev params : CreateParams
params = record {
  tenant_id = 7;
  api_key_id = 3;
  endpoint = "/v1/embeddings";
  completion_window = "24h";
  input_file_id = 5;
  max_concurrency = 2;
}

abbrev input : BatchInput
input = record { custom_id = "a"; method = "POST"; url = "/v1/embeddings"; body = "{}" }

store_batch-waiting_example :
    Ingested codec
      (input ∷ input ∷ [])
      (store_batch codec config 50 params "/v1/embeddings" (input ∷ input ∷ []) two_items)
store_batch-waiting_example =
    store_batch-waiting codec config 50 params "/v1/embeddings" (input ∷ input ∷ []) two_items refl
