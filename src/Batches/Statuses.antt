-- ===== src/Batches/Statuses.antt =====
-- The status of a batch: what Cancel, the claim and the end of processBatch do to it.
use open_model_gateway.Base.{
  update, first, ℕ, ◌+◌, ◌-◌, ◌≡◌, refl, sym, ap, subst, ◌∙◌, Bool, true, false, Option, none, some,
  List, [], ◌==◌, nat_eq, Result, ok, err, Act, after, ◌>>=◌, ◌>>◌, ltb, nat_beq, if◌then◌else◌,
  Bool-cases, inl, inr, arith,
}
use mathlib.Core.Option.{map as option_map}
use open_model_gateway.Batches.Tables.{Batch, Status, Db}
use open_model_gateway.Batches.Queries.{
  has_id, update_returning, increment_batch_counts, get_batch_by_id, mark_batch_final_status,
  final_row,
}
use open_model_gateway.Batches.Service.{finalize_batch}
use open_model_gateway.Batches.Cancels.{
  first-update, Kept, cancel_each, is_named, cancel_each-Kept, cancel_each-finalizing,
  interrupted-row, interrupted-ok,
}
use open_model_gateway.Batches.Worker.{
  CancelCall, Gaps, interrupted, finish_batch, close_batch, determine_final_status, cancelled_count,
}

update_returning_lem :
    (p : Batch → Bool) (f : Batch → Batch) (s : Db) (row : Batch)
    → first p s.batches ≡ some row
    → update_returning p f s ≡ (ok (f row), record s { batches = update p f s.batches })
unfolding update_returning
update_returning_lem p f s row h = rw h refl

update_returning-elim :
    (p : Batch → Bool) (f : Batch → Batch) (s : Db) (row : Batch) (P : Result Batch → Db → Type 0)
    → first p s.batches ≡ some row
    → P (ok (f row)) (record s { batches = update p f s.batches })
    → P (update_returning p f s).0 (update_returning p f s).1
update_returning-elim p f s row P h t =
    subst (λ o. P o.0 o.1) (sym (update_returning_lem p f s row h)) t

-- The status with which processBatch ends a batch that is not cancelled.
abbrev pub verdict : ℕ → ℕ → Status
verdict completed failed =
    if ltb 0 failed
    then Status.failed
    else if nat_beq completed 0
    then Status.failed
    else Status.completed

module _ {B : Type 0} (P : Result B × Db → Type 0) where
  interrupted-then :
      (calls : List CancelCall) (db : Db) (k : Act Db B)
      → P (k (interrupted calls db).1)
      → P ((interrupted calls >> k) db)
  interrupted-then calls db k h = rw (interrupted-ok calls db) h

  finalize-then :
      (now id : ℕ) (status : Status) (db : Db) (row : Batch) (k : Batch → Act Db B)
      → first (has_id id) db.batches ≡ some row
      → P (
          k (final_row now status none none [] row) (record db {
            batches = update (has_id id) (final_row now status none none []) db.batches;
          }))
      → P ((finalize_batch now id status none none [] >>= k) db)
  unfolding finalize_batch mark_batch_final_status
  finalize-then now id status db row k h t =
      update_returning-elim (has_id id) (final_row now status none none []) db row
        (λ r u. P (after k r u)) h t

  read-then :
      (id : ℕ) (db : Db) (row : Batch) (k : Batch → Act Db B)
      → first (has_id id) db.batches ≡ some row
      → P (k row db)
      → P ((get_batch_by_id id >>= k) db)
  unfolding get_batch_by_id
  read-then id db row k h t = rw h t

module _ (now : ℕ) (batch : Batch) (completed failed : ℕ) (files : Option ℕ × Option ℕ) where
  Row-update :
      (f : Batch → Batch) (rows : List Batch) (row : Batch)
      → ((any : Batch) → (f any).id ≡ any.id)
      → first (has_id batch.id) rows ≡ some row
      → first (has_id batch.id) (update (has_id batch.id) f rows) ≡ some (f row)
  Row-update f rows row keeps h =
      first-update (has_id batch.id) f (λ any. ap (λ id. id == batch.id) (keeps any)) rows
      ∙ ap (option_map f) h

  -- The row after the counters, with more items counted as cancelled.
  abbrev counted_row : ℕ → ℕ → ℕ → Batch → Batch
  counted_row done bad dropped row = record row {
    request_count_completed = row.request_count_completed + done;
    request_count_failed = row.request_count_failed + bad;
    request_count_cancelled = row.request_count_cancelled + dropped;
    updated_at = now;
  }

  -- The end of processBatch with the last status: what close_batch leaves of the row.
  abbrev Closed : Status → Batch → Result Batch × Db → Type 0
  Closed status row (ok last, t) =
      (last.status ≡ status)
      × (last.request_count_completed ≡ row.request_count_completed)
      × (last.request_count_failed ≡ row.request_count_failed)
      × (last.request_count_cancelled
          ≡ row.request_count_cancelled + cancelled_count batch status completed failed)
      × (last.result_file_id ≡ files.0)
      × (last.error_file_id ≡ files.1)
      × (first (has_id batch.id) t.batches ≡ some last)
  Closed status row (err e, t) = ⊥

  finalized_lem :
      (status : Status) (row counted : Batch) (db : Db)
      → first (has_id batch.id) db.batches ≡ some counted
      → counted.request_count_completed ≡ row.request_count_completed
      → counted.request_count_failed ≡ row.request_count_failed
      → (counted.request_count_cancelled
          ≡ row.request_count_cancelled + cancelled_count batch status completed failed)
      → Closed status row (finalize_batch now batch.id status files.0 files.1 [] db)
  unfolding finalize_batch mark_batch_final_status final_row
  finalized_lem status row counted db h a b c =
      update_returning-elim (has_id batch.id) (final_row now status files.0 files.1 []) db counted
        (λ r t. Closed status row (r, t)) h
        (
          refl,
          a,
          b,
          c,
          refl,
          refl,
          Row-update (final_row now status files.0 files.1 []) db.batches counted (λ _. refl) h,
        )

  close_batch_lem :
      (status : Status) (db : Db) (row : Batch)
      → first (has_id batch.id) db.batches ≡ some row
      → Closed status row (close_batch now batch status completed failed files db)
  unfolding close_batch increment_batch_counts
  close_batch_lem status db row h =
      let n = cancelled_count batch status completed failed in
      elim (Bool-cases (ltb 0 n)) [
        | inl some_left ↦ rw some_left (
            finalized_lem status row (counted_row 0 0 n row)
              (record db { batches = update (has_id batch.id) (counted_row 0 0 n) db.batches })
              (Row-update (counted_row 0 0 n) db.batches row (λ _. refl) h) (omega arith)
              (omega arith) refl)
        | inr none_left ↦
            rw none_left (finalized_lem status row row db h refl refl (ground (arith, none_left)))
      ]

  module _ (gaps : Gaps) where
    -- A call of Cancel names the batch while its result files are written.
    abbrev pub is_stopped : Batch → Bool
    is_stopped row = is_named row.tenant_id row.id gaps.during

    abbrev pub Ended : Batch → Result Batch × Db → Type 0
    Ended row (ok last, t) =
        (last.status ≡ (if is_stopped row then Status.cancelled else verdict completed failed))
        × (last.request_count_completed ≡ row.request_count_completed + completed)
        × (last.request_count_failed ≡ row.request_count_failed + failed)
        × (last.request_count_cancelled
            ≡ row.request_count_cancelled
              + (if is_stopped row then batch.request_count_total - completed - failed else 0))
        × (last.result_file_id ≡ files.0)
        × (last.error_file_id ≡ files.1)
        × (first (has_id batch.id) t.batches ≡ some last)
    Ended row (err e, t) = ⊥

    -- The row when the status is read, and when it is stored.
    abbrev finalizing_row : Batch → Batch
    finalizing_row row =
        final_row now Status.finalizing none none []
          (cancel_each gaps.before (counted_row completed failed 0 row))

    abbrev read_row : Batch → Batch
    read_row row = cancel_each gaps.during (finalizing_row row)

    finalizing_row-Kept :
        (row : Batch) → Kept (counted_row completed failed 0 row) (finalizing_row row)
    unfolding final_row
    finalizing_row-Kept row = cancel_each-Kept gaps.before (counted_row completed failed 0 row)

    last_row-Kept :
        (row : Batch)
        → Kept (counted_row completed failed 0 row) (cancel_each gaps.later (read_row row))
    last_row-Kept row =
        let (a, b, c, d, e) = finalizing_row-Kept row in
        let (a', b', c', d', e') = cancel_each-Kept gaps.during (finalizing_row row) in
        let (x, y, z, u, v) = cancel_each-Kept gaps.later (read_row row) in
        (x ∙ a' ∙ a, y ∙ b' ∙ b, z ∙ c' ∙ c, u ∙ d' ∙ d, v ∙ e' ∙ e)

    read_row-status :
        (row : Batch)
        → (read_row row).status ≡ (if is_stopped row then Status.cancelling else Status.finalizing)
    unfolding final_row
    read_row-status row =
        let (a, b, c, d, e) = finalizing_row-Kept row in
        cancel_each-finalizing gaps.during (finalizing_row row) refl
        ∙ ap
            (λ t.
              if is_named t (finalizing_row row).id gaps.during
              then Status.cancelling
              else Status.finalizing)
            b
        ∙ ap
            (λ id.
              if is_named row.tenant_id id gaps.during
              then Status.cancelling
              else Status.finalizing)
            a

    last_status :
        (stopped : Bool)
        → let status =
            determine_final_status
              (if stopped then Status.cancelling else Status.finalizing)
              completed
              failed in
          (status ≡ (if stopped then Status.cancelled else verdict completed failed))
          × (cancelled_count batch status completed failed
              ≡ (if stopped then batch.request_count_total - completed - failed else 0))
    unfolding determine_final_status cancelled_count
    last_status true = (refl, refl)
    last_status false = (refl, ground arith)

    Closed-Ended :
        (row : Batch) (o : Result Batch × Db)
        → Closed
            (determine_final_status (read_row row).status completed failed)
            (cancel_each gaps.later (read_row row))
            o
        → Ended row o
    Closed-Ended row (ok last, t) (s, a, b, c, d, e, f) =
        let (x, y, z, u, v) = last_row-Kept row in
        let known = ap (λ st. determine_final_status st completed failed) (read_row-status row) in
        let (p, q) = last_status (is_stopped row) in
        (
          s ∙ known ∙ p,
          a ∙ z,
          b ∙ u,
          omega (arith, c, v, ap (λ st. cancelled_count batch st completed failed) known, q),
          d,
          e,
          f,
        )
    Closed-Ended row (err e, t) h = h

    -- When the batch is stored, whatever its status, and the files could be written, the end of
    -- processBatch succeeds, whatever calls of Cancel come between its queries. The last status is
    -- "cancelled" exactly when a call names the batch between the storing of "finalizing" and the reading
    -- of the status, and then the items of the batch that are not in the two counts are added to its
    -- cancelled count. In every other case, also when the batch was being cancelled before or a call comes
    -- later, the status is "failed" if an item failed or none completed, and "completed" otherwise, and
    -- the cancelled count stays. The two counts are added, the files are linked, and the row that is
    -- returned is the one stored.
    pub finish_batch_lem :
        (db : Db) (row : Batch)
        → first (has_id batch.id) db.batches ≡ some row
        → Ended row (finish_batch now batch completed failed gaps (ok files) db)
    unfolding finish_batch increment_batch_counts final_row
    finish_batch_lem db row h =
        let P : Result Batch × Db → Type 0 = λ o. Ended row o in
        let counted = record db {
          batches = update (has_id batch.id) (counted_row completed failed 0) db.batches;
        } in
        let stored : Db → Db = λ s. record s {
          batches =
              update (has_id batch.id) (final_row now Status.finalizing none none []) s.batches;
        } in
        let before = (interrupted gaps.before counted).1 in
        let during = (interrupted gaps.during (stored before)).1 in
        let found =
          interrupted-row batch.id gaps.before counted (counted_row completed failed 0 row)
            (Row-update (counted_row completed failed 0) db.batches row (λ _. refl) h) in
        let read = interrupted-row batch.id gaps.during (stored before) (finalizing_row row) (
          Row-update (final_row now Status.finalizing none none []) before.batches _ (λ _. refl)
            found) in
        interrupted-then P gaps.before counted _ (
          finalize-then P now batch.id Status.finalizing before _ _ found (
            interrupted-then P gaps.during (stored before) _ (
              read-then P batch.id during (read_row row) _ read (
                interrupted-then P gaps.later during _ (
                  Closed-Ended row _ (
                    close_batch_lem _ _ (cancel_each gaps.later (read_row row))
                      (interrupted-row batch.id gaps.later during (read_row row) read)))))))
