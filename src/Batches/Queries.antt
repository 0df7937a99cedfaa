-- ===== src/Batches/Queries.antt =====
-- The queries of db/batches.sql.go that the service and the worker run, on the tables of Batches.Tables.
-- `now` is the transaction's NOW(). Each query is one step, as its row locks make it.
use open_model_gateway.Base.{
  update, first, ℕ, suc, ◌+◌, String, Bool, true, false, ◌&&◌, ◌||◌, not, Option, none, some, List,
  [], ◌∷◌, ◌++◌, ◌==◌, nat_eq, leb, Result, ok, err, Error, Act, if◌then◌else◌, select,
}
use open_model_gateway.Batches.Tables.{
  Status, ItemStatus, BatchError, Batch, BatchItem, Db, is_validating, is_in_progress, is_active,
  is_queued,
}

abbrev pub scan {ℓ κ} : {S : Type κ} {A : Type ℓ} → S → S → (A → A) → Option A → Result A × S
scan s t f none = (err Error.no_rows, s)
scan s t f (some row) = (ok (f row), t)

-- UPDATE batches ... WHERE p RETURNING, of one row.
unfoldable pub update_returning : (Batch → Bool) → (Batch → Batch) → Act Db Batch
update_returning p f s = scan s (record s { batches = update p f s.batches }) f (first p s.batches)

abbrev pub has_id : ℕ → Batch → Bool
has_id id row = row.id == id

unfoldable pub cancelled_row : ℕ → Batch → Batch
cancelled_row now row =
    if is_validating row.status
    then record row { status = Status.cancelled; cancelled_at = some now; updated_at = now }
    else record row { status = Status.cancelling; cancelling_at = some now; updated_at = now }

-- CancelBatch
unfoldable pub cancel_batch : ℕ → ℕ → ℕ → Act Db Batch
cancel_batch now tenant id =
    update_returning (λ row. row.tenant_id == tenant && row.id == id && is_active row.status)
      (cancelled_row now)

-- GetBatch
unfoldable pub get_batch : ℕ → ℕ → Act Db Batch
get_batch tenant id s =
    scan s s (λ row. row) (first (λ row. row.tenant_id == tenant && row.id == id) s.batches)

-- GetBatchByID
unfoldable pub get_batch_by_id : ℕ → Act Db Batch
get_batch_by_id id s = scan s s (λ row. row) (first (has_id id) s.batches)

abbrev pub older : Batch → Option Batch → Option Batch
older row none = some row
older row (some best) = if leb row.created_at best.created_at then some row else some best

-- ORDER BY created_at LIMIT 1
unfoldable pub oldest : List Batch → Option Batch
oldest [] = none
oldest (row ∷ rows) = older row (oldest rows)

-- GetOldestQueuedBatch
unfoldable pub get_oldest_queued_batch : Act Db Batch
get_oldest_queued_batch s =
    scan s s (λ row. row) (oldest (select (λ row. is_validating row.status) s.batches))

-- MarkBatchInProgress
unfoldable pub mark_batch_in_progress : ℕ → ℕ → Act Db Batch
mark_batch_in_progress now id =
    update_returning (λ row. row.id == id && is_validating row.status)
      λ row. record row { status = Status.in_progress; in_progress_at = some now; updated_at = now }

abbrev pub lower : BatchItem → Option BatchItem → Option BatchItem
lower row none = some row
lower row (some best) = if leb row.item_index best.item_index then some row else some best

-- ORDER BY item_index LIMIT 1
unfoldable pub lowest : List BatchItem → Option BatchItem
lowest [] = none
lowest (row ∷ rows) = lower row (lowest rows)

-- The batch is there and in progress.
unfoldable pub is_open : ℕ → List Batch → Bool
is_open id [] = false
is_open id (row ∷ rows) = (row.id == id && is_in_progress row.status) || is_open id rows

-- The join of ClaimNextBatchItem: a queued item of the batch, which is in progress.
unfoldable pub is_claimable : Db → ℕ → BatchItem → Bool
is_claimable s batch item =
    (item.batch_id == batch && is_queued item.status) && is_open batch s.batches

unfoldable pub running_item : ℕ → BatchItem → BatchItem
running_item now item = record item { status = ItemStatus.running; started_at = some now }

abbrev pub has_item_id : ℕ → BatchItem → Bool
has_item_id id item = item.id == id

unfoldable pub claimed : ℕ → Db → Option BatchItem → Result BatchItem × Db
claimed now s none = (err Error.no_rows, s)
claimed now s (some item) = (
  ok (running_item now item),
  record s { items = update (has_item_id item.id) (running_item now) s.items },
)

-- ClaimNextBatchItem
-- FOR UPDATE SKIP LOCKED passes over the rows that another claim holds at that moment.
unfoldable pub is_free : Db → ℕ → (ℕ → Bool) → BatchItem → Bool
is_free s batch locked item = is_claimable s batch item && not (locked item.id)

unfoldable pub claim_next_batch_item : ℕ → ℕ → (ℕ → Bool) → Act Db BatchItem
claim_next_batch_item now batch locked s =
    claimed now s (lowest (select (is_free s batch locked) s.items))

-- CompleteBatchItem
unfoldable pub complete_batch_item : ℕ → ℕ → String → Act Db (Unit {0})
complete_batch_item now id response s = (
  ok tt,
  record s {
    items =
        update (has_item_id id)
          (λ item. record item {
            status = ItemStatus.completed;
            completed_at = some now;
            response = some response;
          })
          s.items;
  },
)

-- FailBatchItem
unfoldable pub fail_batch_item : ℕ → ℕ → String → Act Db (Unit {0})
fail_batch_item now id payload s = (
  ok tt,
  record s {
    items =
        update (has_item_id id)
          (λ item. record item {
            status = ItemStatus.failed;
            completed_at = some now;
            error = some payload;
          })
          s.items;
  },
)

-- IncrementBatchCounts
unfoldable pub increment_batch_counts : ℕ → ℕ → ℕ → ℕ → ℕ → Act Db (Unit {0})
increment_batch_counts now id done bad dropped s = (
  ok tt,
  record s {
    batches =
        update (has_id id)
          (λ row. record row {
            request_count_completed = row.request_count_completed + done;
            request_count_failed = row.request_count_failed + bad;
            request_count_cancelled = row.request_count_cancelled + dropped;
            updated_at = now;
          })
          s.batches;
  },
)

-- COALESCE($5, errors), of a list of errors that is NULL when it is empty.
abbrev pub coalesce : List BatchError → List BatchError → List BatchError
coalesce [] old = old
coalesce (e ∷ errors) old = e ∷ errors

abbrev pub stamp : Bool → ℕ → Option ℕ → Option ℕ
stamp b now old = if b then some now else old

unfoldable pub is_status : Status → Status → Bool
is_status Status.validating Status.validating = true
is_status Status.in_progress Status.in_progress = true
is_status Status.finalizing Status.finalizing = true
is_status Status.completed Status.completed = true
is_status Status.failed Status.failed = true
is_status Status.cancelling Status.cancelling = true
is_status Status.cancelled Status.cancelled = true
is_status Status.expired Status.expired = true
is_status _ _ = false

unfoldable pub final_row : ℕ → Status → Option ℕ → Option ℕ → List BatchError → Batch → Batch
final_row now status result_file error_file errors row = record row {
  status = status;
  completed_at = stamp (is_status status Status.completed) now row.completed_at;
  failed_at = stamp (is_status status Status.failed) now row.failed_at;
  finalizing_at = stamp (is_status status Status.finalizing) now row.finalizing_at;
  cancelled_at = stamp (is_status status Status.cancelled) now row.cancelled_at;
  cancelling_at = stamp (is_status status Status.cancelling) now row.cancelling_at;
  expired_at = stamp (is_status status Status.expired) now row.expired_at;
  result_file_id = result_file;
  error_file_id = error_file;
  errors = coalesce errors row.errors;
  updated_at = now;
}

-- MarkBatchFinalStatus
unfoldable pub mark_batch_final_status :
    ℕ → ℕ → Status → Option ℕ → Option ℕ → List BatchError → Act Db Batch
mark_batch_final_status now id status result_file error_file errors =
    update_returning (has_id id) (final_row now status result_file error_file errors)

-- CreateBatch: the row is new, with its counters at 0.
unfoldable pub create_batch : ℕ → ℕ → ℕ → Status → String → ℕ → String → ℕ → ℕ → ℕ → Act Db Batch
create_batch now tenant key status endpoint file window concurrency total expires s =
    insert_batch (record {
      id = s.next_id;
      tenant_id = tenant;
      api_key_id = key;
      status = status;
      endpoint = endpoint;
      input_file_id = file;
      result_file_id = none;
      error_file_id = none;
      errors = [];
      completion_window = window;
      max_concurrency = concurrency;
      request_count_total = total;
      request_count_completed = 0;
      request_count_failed = 0;
      request_count_cancelled = 0;
      created_at = now;
      updated_at = now;
      in_progress_at = none;
      completed_at = none;
      cancelled_at = none;
      cancelling_at = none;
      finalizing_at = none;
      failed_at = none;
      expires_at = expires;
      expired_at = none;
    })
  where
    insert_batch : Batch → Result Batch × Db
    insert_batch row =
        (ok row, record s { batches = s.batches ++ (row ∷ []); next_id = suc s.next_id })

-- InsertBatchItem
unfoldable pub insert_batch_item : ℕ → ℕ → Option String → String → Act Db (Unit {0})
insert_batch_item batch index custom_id input s = (
  ok tt,
  record s {
    items =
        s.items
        ++ (record {
          id = s.next_id;
          batch_id = batch;
          item_index = index;
          status = ItemStatus.queued;
          custom_id = custom_id;
          input = input;
          response = none;
          error = none;
          started_at = none;
          completed_at = none;
        }
            ∷ []);
    next_id = suc s.next_id;
  },
)
