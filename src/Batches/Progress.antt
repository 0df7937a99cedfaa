-- ===== src/Batches/Progress.antt =====
-- How many items processBatch settles: whatever its goroutines and callers of Cancel do, and in which
-- order.
use open_model_gateway.Base.{
  first, update, ℕ, zero, suc, ◌+◌, ◌≤◌, ◌<◌, ◌≡◌, ◌&&◌, refl, ap, ◌∙◌, nat_beq, Error, String,
  Option, none, some, List, [], ◌∷◌, ◌==◌, nat_eq, Result, ok, err, if◌then◌else◌, arith, get_elem?,
  set,
}
use open_model_gateway.Batches.Tables.{Batch, BatchItem, Db, is_active}
use open_model_gateway.Batches.Queries.{
  complete_batch_item, fail_batch_item, cancel_batch, update_returning, scan, cancelled_row,
}
use open_model_gateway.Batches.Service.{claim_next_item, cancel}
use open_model_gateway.Batches.Worker.{
  ItemOutcome, Phase, Pool, Event, settle_item, claim_result, work_phase, none_locked, step, run,
  start_pool, repeat_idle, fail_items, drain, count_one, Drained,
}
use open_model_gateway.Batches.Claims.{waiting, waiting-update-le, Claims, claim_next_item_lem}

-- The goroutines that hold an item.
abbrev pub held : List Phase → ℕ
held [] = 0
held (Phase.holding item ∷ phases) = suc (held phases)
held (_ ∷ phases) = held phases

-- Settled, claimed and waiting: what the items of a batch can still add up to.
abbrev pub tally : ℕ → Pool → ℕ
tally batch p = p.completed_count + p.failed_count + held p.phases + waiting batch p.db.items

held-set-idle :
    (phases : List Phase) (i : ℕ) (item : BatchItem)
    → get_elem? phases i ≡ some (Phase.holding item)
    → suc (held (set phases i Phase.idle)) ≡ held phases
held-set-idle [] i item h = ground arith
held-set-idle (phase ∷ phases) zero item h = ground arith
held-set-idle (phase ∷ phases) (suc i) item h = ground (arith, held-set-idle phases i item h)

held-set-holding :
    (phases : List Phase) (i : ℕ) (item : BatchItem)
    → get_elem? phases i ≡ some Phase.idle
    → held (set phases i (Phase.holding item)) ≡ suc (held phases)
held-set-holding [] i item h = ground arith
held-set-holding (phase ∷ phases) zero item h = ground arith
held-set-holding (phase ∷ phases) (suc i) item h = ground (arith, held-set-holding phases i item h)

held-set-stopped :
    (phases : List Phase) (i : ℕ)
    → get_elem? phases i ≡ some Phase.idle
    → held (set phases i Phase.stopped) ≡ held phases
held-set-stopped [] i h = ground arith
held-set-stopped (phase ∷ phases) zero h = ground arith
held-set-stopped (phase ∷ phases) (suc i) h = ground (arith, held-set-stopped phases i h)

complete-waiting :
    (now id batch : ℕ) (response : String) (db : Db)
    → waiting batch (complete_batch_item now id response db).1.items ≤ waiting batch db.items
unfolding complete_batch_item
complete-waiting now id batch response db = waiting-update-le batch _ _ (λ _. refl) db.items

fail-waiting :
    (now id batch : ℕ) (payload : String) (db : Db)
    → waiting batch (fail_batch_item now id payload db).1.items ≤ waiting batch db.items
unfolding fail_batch_item
fail-waiting now id batch payload db = waiting-update-le batch _ _ (λ _. refl) db.items

cancel-items : (now tenant id : ℕ) (db : Db) → (cancel now tenant id db).1.items ≡ db.items
unfolding cancel cancel_batch update_returning
cancel-items now tenant id db =
    scan-items
      (first (λ row. row.tenant_id == tenant && row.id == id && is_active row.status) db.batches)
  where
    scan-items :
        (found : Option Batch)
        → (scan db
            (record db {
              batches =
                  update
                    (λ row. row.tenant_id == tenant && row.id == id && is_active row.status)
                    (cancelled_row now)
                    db.batches;
            })
            (cancelled_row now)
            found).1.items
          ≡ db.items
    scan-items none = refl
    scan-items (some row) = refl

settle_item-tally :
    (batch now i : ℕ) (item : BatchItem) (outcome : ItemOutcome) (payload : Option String)
    (p : Pool)
    → get_elem? p.phases i ≡ some (Phase.holding item)
    → tally batch (settle_item now i item outcome payload p) ≤ tally batch p
unfolding settle_item
settle_item-tally batch now i item outcome none p h = omega (
  arith,
  complete-waiting now item.id batch outcome.response p.db,
  held-set-idle p.phases i item h,
)
settle_item-tally batch now i item outcome (some payload) p h =
    omega (arith, fail-waiting now item.id batch payload p.db, held-set-idle p.phases i item h)

claim_result-tally :
    (batch i : ℕ) (p : Pool) (o : Result BatchItem × Db)
    → get_elem? p.phases i ≡ some Phase.idle
    → Claims batch p.db o
    → tally batch (claim_result i o.0 o.1 p) ≤ tally batch p
unfolding claim_result
claim_result-tally batch i p (ok item, db) h c =
    omega (arith, c, held-set-holding p.phases i item h)
claim_result-tally batch i p (err e, db) h c =
    omega (arith, ap (λ t. waiting batch t.items) c.0, held-set-stopped p.phases i h)

step-tally :
    (batch : ℕ) (event : Event) (p : Pool) → tally batch (step batch event p) ≤ tally batch p
unfolding step work_phase
step-tally batch (Event.work now i locked outcome) p = by_phase (get_elem? p.phases i) refl
  where
    by_phase :
        (phase : Option Phase)
        → get_elem? p.phases i ≡ phase
        → tally batch (work_phase batch now i locked outcome phase p) ≤ tally batch p
    by_phase none h = omega arith
    by_phase (some Phase.idle) h =
        claim_result-tally batch i p (claim_next_item now batch locked p.db) h
          (claim_next_item_lem now batch locked p.db)
    by_phase (some (Phase.holding item)) h =
        settle_item-tally batch now i item outcome outcome.err_payload p h
    by_phase (some Phase.stopped) h = omega arith
step-tally batch (Event.cancels now tenant id) p =
    omega (arith, ap (waiting batch) (cancel-items now tenant id p.db))

-- Whatever the goroutines of processBatch and callers of Cancel do, and in which order: the items
-- that are settled, that a goroutine holds and that wait are never more than before, so no item is
-- counted twice.
pub run-tally :
    (batch : ℕ) (events : List Event) (p : Pool) → tally batch (run batch events p) ≤ tally batch p
unfolding run
run-tally batch [] p = omega arith
run-tally batch (event ∷ events) p =
    omega (arith, step-tally batch event p, run-tally batch events (step batch event p))

held-repeat_idle : (n : ℕ) → held (repeat_idle n) ≡ 0
held-repeat_idle zero = refl
held-repeat_idle (suc n) = held-repeat_idle n

-- The two counts that processBatch ends with are together at most the items of the batch that waited
-- when it was claimed, whatever the order of its goroutines' actions, their outcomes and the calls of
-- Cancel in between.
pub process_batch-counts :
    (batch : Batch) (events : List Event) (db : Db)
    → (run batch.id events (start_pool batch db)).completed_count
        + (run batch.id events (start_pool batch db)).failed_count
      ≤ waiting batch.id db.items
unfolding start_pool
process_batch-counts batch events db = omega (
  arith,
  run-tally batch.id events (start_pool batch db),
  held-repeat_idle (if nat_beq batch.max_concurrency 0 then 1 else batch.max_concurrency),
)

-- What failEntireBatch's loop leaves.
abbrev pub DrainEnds : ℕ → ℕ → Db → Drained → Type 0
DrainEnds now batch db none = ⊥
DrainEnds now batch db (some (n, t)) =
    (n + waiting batch t.items ≤ waiting batch db.items)
    × ((claim_next_item now batch none_locked t).0 ≡ err Error.no_rows)

count_one-DrainEnds :
    (now batch : ℕ) (db next : Db) (d : Drained)
    → suc (waiting batch next.items) ≤ waiting batch db.items
    → DrainEnds now batch next d
    → DrainEnds now batch db (count_one d)
count_one-DrainEnds now batch db next none lt h = h
count_one-DrainEnds now batch db next (some (n, t)) lt (le, last) = (omega arith, last)

drain-DrainEnds :
    (now batch : ℕ) (payload : String) (again : Db → Drained) (db : Db) (o : Result BatchItem × Db)
    → ((next : Db)
        → suc (waiting batch next.items) ≤ waiting batch db.items
        → DrainEnds now batch next (again next))
    → claim_next_item now batch none_locked db ≡ o
    → Claims batch db o
    → DrainEnds now batch db (drain now payload again o.0 o.1)
unfolding drain
drain-DrainEnds now batch payload again db (ok item, t) ends h lt =
    count_one-DrainEnds now batch db (fail_batch_item now item.id payload t).1 _
      (omega (arith, lt, fail-waiting now item.id batch payload t))
      (ends _ (omega (arith, lt, fail-waiting now item.id batch payload t)))
drain-DrainEnds now batch payload again db (err e, t) ends h (same, last) = (
  omega (arith, ap (λ s. waiting batch s.items) same),
  ap (λ s. (claim_next_item now batch none_locked s).0) same ∙ ap (λ o. o.0) h ∙ ap err last,
)

-- With fuel for one more turn than the batch has waiting items, the loop of failEntireBatch ends: no
-- item of the batch can be claimed any more, and it failed at most the items that waited.
pub fail_items-ends :
    (fuel now batch : ℕ) (payload : String) (db : Db)
    → waiting batch db.items < fuel
    → DrainEnds now batch db (fail_items fuel now batch payload db)
unfolding fail_items
fail_items-ends zero now batch payload db enough = let no : ⊥ = omega arith in elim no [ ]
fail_items-ends (suc fuel) now batch payload db enough =
    drain-DrainEnds now batch payload (fail_items fuel now batch payload) db _
      (λ next lt. fail_items-ends fuel now batch payload next (omega (arith, lt, enough))) refl
      (claim_next_item_lem now batch none_locked db)
