-- ===== src/Batches/Worker.antt =====
-- batchworker/worker.go: processBatch, as any interleaving of its goroutines and of calls of Cancel,
-- and failEntireBatch. What runs an item is a parameter: an event carries its outcome, which
-- Items.Execute gives. The files of the results are lists of lines until Flush, whose result is a
-- parameter too.
use open_model_gateway.Base.{
  ℕ, zero, suc, ◌-◌, String, Bool, true, false, Option, none, some, List, [], ◌∷◌, Result, ok, err,
  Act, ◌>>=◌, ◌>>◌, return, ltb, nat_beq, if◌then◌else◌, get_elem?, set,
}
use open_model_gateway.Batches.Tables.{Batch, BatchItem, BatchError, Status, Db}
use open_model_gateway.Batches.Queries.{
  complete_batch_item, fail_batch_item, increment_batch_counts, get_batch_by_id,
}
use open_model_gateway.Batches.Service.{claim_next_item, finalize_batch, cancel}

-- itemOutcome; `err_payload` is `none` when the item succeeded.
pub record ItemOutcome : Type 0 where
  pub status_code : ℕ
  pub request_id : String
  pub response : String
  pub err_payload : Option String

-- A line of a result file.
pub record ResultLine : Type 0 where
  pub custom_id : Option String
  pub status_code : ℕ
  pub request_id : String
  pub payload : String

-- Where a goroutine stands: before ClaimNextItem, with an item, or returned.
pub data Phase : Type 0 where
  idle : Phase
  holding : BatchItem → Phase
  stopped : Phase

pub record Pool : Type 0 where
  pub db : Db
  pub phases : List Phase
  pub completed_count : ℕ
  pub failed_count : ℕ
  pub successes : List ResultLine
  pub errors : List ResultLine

-- `work now i locked outcome` is the next action of goroutine i: `locked` says which rows other claims hold
-- when it claims, and `outcome` is what executeItem gives when it holds an item.
pub data Event : Type 0 where
  work : ℕ → ℕ → (ℕ → Bool) → ItemOutcome → Event
  cancels : ℕ → ℕ → ℕ → Event

abbrev pub line_of : BatchItem → ItemOutcome → String → ResultLine
line_of item outcome payload = record {
  custom_id = item.custom_id;
  status_code = outcome.status_code;
  request_id = outcome.request_id;
  payload = payload;
}

-- CompleteItem or FailItem, the counter, and the line of the file.
unfoldable pub settle_item : ℕ → ℕ → BatchItem → ItemOutcome → Option String → Pool → Pool
settle_item now i item outcome none p = record p {
  db = (complete_batch_item now item.id outcome.response p.db).1;
  phases = set p.phases i Phase.idle;
  completed_count = suc p.completed_count;
  successes = line_of item outcome outcome.response ∷ p.successes;
}
settle_item now i item outcome (some payload) p = record p {
  db = (fail_batch_item now item.id payload p.db).1;
  phases = set p.phases i Phase.idle;
  failed_count = suc p.failed_count;
  errors = line_of item outcome payload ∷ p.errors;
}

unfoldable pub claim_result : ℕ → Result BatchItem → Db → Pool → Pool
claim_result i (ok item) db p = record p { db = db; phases = set p.phases i (Phase.holding item) }
claim_result i (err e) db p = record p { db = db; phases = set p.phases i Phase.stopped }

unfoldable pub work_phase : ℕ → ℕ → ℕ → (ℕ → Bool) → ItemOutcome → Option Phase → Pool → Pool
work_phase batch now i locked outcome none p = p
work_phase batch now i locked outcome (some Phase.idle) p =
    claim_result i (claim_next_item now batch locked p.db).0
      (claim_next_item now batch locked p.db).1 p
work_phase batch now i locked outcome (some (Phase.holding item)) p =
    settle_item now i item outcome outcome.err_payload p
work_phase batch now i locked outcome (some Phase.stopped) p = p

unfoldable pub step : ℕ → Event → Pool → Pool
step batch (Event.work now i locked outcome) p =
    work_phase batch now i locked outcome (get_elem? p.phases i) p
step batch (Event.cancels now tenant id) p = record p { db = (cancel now tenant id p.db).1 }

unfoldable pub run : ℕ → List Event → Pool → Pool
run batch [] p = p
run batch (event ∷ events) p = run batch events (step batch event p)

abbrev pub repeat_idle : ℕ → List Phase
repeat_idle zero = []
repeat_idle (suc n) = Phase.idle ∷ repeat_idle n

-- The pool that processBatch starts.
unfoldable pub start_pool : Batch → Db → Pool
start_pool batch db = record {
  db = db;
  phases = repeat_idle (if nat_beq batch.max_concurrency 0 then 1 else batch.max_concurrency);
  completed_count = 0;
  failed_count = 0;
  successes = [];
  errors = [];
}

unfoldable pub determine_final_status : Status → ℕ → ℕ → Status
determine_final_status Status.cancelling completed failed = Status.cancelled
determine_final_status Status.cancelled completed failed = Status.cancelled
determine_final_status _ completed failed =
    if ltb 0 failed
    then Status.failed
    else if nat_beq completed 0
    then Status.failed
    else Status.completed

abbrev pub is_cancelled : Status → Bool
is_cancelled Status.cancelled = true
is_cancelled _ = false

-- `batch` is the row that was claimed, before any item ran.
unfoldable pub cancelled_count : Batch → Status → ℕ → ℕ → ℕ
cancelled_count batch status completed failed =
    if is_cancelled status then batch.request_count_total - completed - failed else 0

-- processBatch after the last status is known.
unfoldable pub close_batch : ℕ → Batch → Status → ℕ → ℕ → Option ℕ × Option ℕ → Act Db Batch
close_batch now batch status completed failed files =
    (if ltb 0 (cancelled_count batch status completed failed)
      then increment_batch_counts now batch.id 0 0 (cancelled_count batch status completed failed)
      else return tt)
    >> finalize_batch now batch.id status files.0 files.1 []

abbrev pub flushed : Result (Option ℕ × Option ℕ) → Act Db (Option ℕ × Option ℕ)
flushed r s = (r, s)

-- The arguments of a call of Cancel: the time, the tenant and the batch.
abbrev pub CancelCall : Type 0
CancelCall = ℕ × ℕ × ℕ

-- Calls of Cancel that other goroutines make between two queries of processBatch.
unfoldable pub interrupted : List CancelCall → Act Db (Unit {0})
interrupted [] db = (ok tt, db)
interrupted ((now, tenant, id) ∷ calls) db = interrupted calls (cancel now tenant id db).1

-- Where they come: before FinalizeBatch stores "finalizing", between that and GetByID, while Flush writes
-- the files, and after GetByID.
pub record Gaps : Type 0 where
  pub before : List CancelCall
  pub during : List CancelCall
  pub later : List CancelCall

-- processBatch after wg.Wait; `flush` is the result of writer.Flush.
unfoldable pub finish_batch : ℕ → Batch → ℕ → ℕ → Gaps → Result (Option ℕ × Option ℕ) → Act Db Batch
finish_batch now batch completed failed gaps flush =
    increment_batch_counts now batch.id completed failed 0
    >> (interrupted gaps.before
        >> (finalize_batch now batch.id Status.finalizing none none [] >>= λ _.
            (interrupted gaps.during
              >> (flushed flush >>= λ files.
                  (get_batch_by_id batch.id >>= λ latest.
                  (interrupted gaps.later
                    >> close_batch now batch (determine_final_status latest.status completed failed)
                        completed failed files))))))

unfoldable pub process_batch :
    ℕ → Batch → List Event → Gaps → Result (Option ℕ × Option ℕ) → Act Db Batch
process_batch now batch events gaps flush db =
    let p = run batch.id events (start_pool batch db) in
    finish_batch now batch p.completed_count p.failed_count gaps flush p.db

abbrev pub Drained : Type 0
Drained = Option (ℕ × Db)

abbrev pub count_one : Drained → Drained
count_one none = none
count_one (some (n, db)) = some (suc n, db)

unfoldable pub drain : ℕ → String → (Db → Drained) → Result BatchItem → Db → Drained
drain now payload again (err e) db = some (0, db)
drain now payload again (ok item) db = count_one (again (fail_batch_item now item.id payload db).1)

-- The loop of failEntireBatch has the batch to itself, since its worker alone has claimed it.
abbrev pub none_locked : ℕ → Bool
none_locked id = false

-- The loop of failEntireBatch: `none` when the fuel ends before the items do.
unfoldable pub fail_items : ℕ → ℕ → ℕ → String → Db → Drained
fail_items zero now batch payload db = none
fail_items (suc fuel) now batch payload db =
    let again = fail_items fuel now batch payload in
    drain now payload again (claim_next_item now batch none_locked db).0
      (claim_next_item now batch none_locked db).1

-- failEntireBatch after its loop, which failed `failed` items.
unfoldable pub close_failed :
    ℕ → Batch → BatchError → ℕ → Result (Option ℕ × Option ℕ) → Act Db Batch
close_failed now batch error failed flush =
    (if ltb 0 failed then increment_batch_counts now batch.id 0 failed 0 else return tt)
    >> flushed flush
    >>= λ files. finalize_batch now batch.id Status.failed files.0 files.1 (error ∷ [])
