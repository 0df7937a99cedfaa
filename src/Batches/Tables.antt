-- ===== src/Batches/Tables.antt =====
-- The tables `batches` and `batch_items`. Identifiers and times are numbers, and a nullable column is an
-- Option; the metadata of a batch and the time of an item's insertion are left out.
use open_model_gateway.Base.{ℕ, String, Bool, true, false, Option, List, nat_eq}

-- The values of the column `status` of batches.
pub data Status : Type 0 where
  validating in_progress finalizing completed failed cancelling cancelled expired : Status

pub data ItemStatus : Type 0 where
  queued running completed failed : ItemStatus

pub record BatchError : Type 0 where
  pub code : String
  pub text : String

pub record Batch : Type 0 where
  pub id : ℕ
  pub tenant_id : ℕ
  pub api_key_id : ℕ
  pub status : Status
  pub endpoint : String
  pub input_file_id : ℕ
  pub result_file_id : Option ℕ
  pub error_file_id : Option ℕ
  pub errors : List BatchError
  pub completion_window : String
  pub max_concurrency : ℕ
  pub request_count_total : ℕ
  pub request_count_completed : ℕ
  pub request_count_failed : ℕ
  pub request_count_cancelled : ℕ
  pub created_at : ℕ
  pub updated_at : ℕ
  pub in_progress_at : Option ℕ
  pub completed_at : Option ℕ
  pub cancelled_at : Option ℕ
  pub cancelling_at : Option ℕ
  pub finalizing_at : Option ℕ
  pub failed_at : Option ℕ
  pub expires_at : ℕ
  pub expired_at : Option ℕ

pub record BatchItem : Type 0 where
  pub id : ℕ
  pub batch_id : ℕ
  pub item_index : ℕ
  pub status : ItemStatus
  pub custom_id : Option String
  pub input : String
  pub response : Option String
  pub error : Option String
  pub started_at : Option ℕ
  pub completed_at : Option ℕ

pub record Db : Type 0 where
  pub batches : List Batch
  pub items : List BatchItem
  pub next_id : ℕ

abbrev pub is_validating : Status → Bool
is_validating Status.validating = true
is_validating _ = false

abbrev pub is_in_progress : Status → Bool
is_in_progress Status.in_progress = true
is_in_progress _ = false

-- status IN ('validating', 'in_progress', 'finalizing')
abbrev pub is_active : Status → Bool
is_active Status.validating = true
is_active Status.in_progress = true
is_active Status.finalizing = true
is_active _ = false

abbrev pub is_queued : ItemStatus → Bool
is_queued ItemStatus.queued = true
is_queued _ = false
