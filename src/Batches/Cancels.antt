-- ===== src/Batches/Cancels.antt =====
-- Calls of Cancel between the queries of processBatch: what they make of the batch's row.
use open_model_gateway.Base.{
  update, first, ℕ, ◌≡◌, refl, sym, ap, ◌∙◌, Bool, true, false, ◌&&◌, ◌||◌, Option, none, some,
  List, [], ◌∷◌, ◌==◌, nat_eq, ok, if◌then◌else◌, Bool-cases, inl, inr, arith,
}
use mathlib.Core.Option.{map as option_map}
use open_model_gateway.Batches.Tables.{Batch, Status, Db, is_active}
use open_model_gateway.Batches.Queries.{has_id, scan, update_returning, cancel_batch, cancelled_row}
use open_model_gateway.Batches.Service.{cancel}
use open_model_gateway.Batches.Worker.{CancelCall, interrupted}

-- An update that keeps the test's outcome is seen by a search with that test.
pub first-update :
    {A : Type 0} (p : A → Bool) (f : A → A)
    → ((row : A) → p (f row) ≡ p row)
    → (rows : List A) → first p (update p f rows) ≡ option_map f (first p rows)
unfolding first update
first-update p f keeps [] = refl
first-update p f keeps (row ∷ rows) = elim (Bool-cases (p row)) [
  | inl h ↦ rw (h, first, keeps row, h) refl
  | inr h ↦ rw (h, first, h) (first-update p f keeps rows)
]

update-none :
    {A : Type 0} (p : A → Bool) (f : A → A) (rows : List A)
    → first p rows ≡ none
    → update p f rows ≡ rows
unfolding first update
update-none p f [] h = refl
update-none p f (row ∷ rows) h = elim (Bool-cases (p row)) [
  | inl yes_row ↦ cc (rw (first, yes_row) at h)
  | inr no_row ↦
      rw (update, no_row)
        (ap (λ rest. row ∷ rest) (update-none p f rows (ground (arith, h, no_row))))
]

update_returning-batches :
    (p : Batch → Bool) (f : Batch → Batch) (s : Db)
    → (update_returning p f s).1.batches ≡ update p f s.batches
unfolding update_returning
update_returning-batches p f s = by_found (first p s.batches) refl
  where
    by_found :
        (found : Option Batch)
        → first p s.batches ≡ found
        → (scan s (record s { batches = update p f s.batches }) f found).1.batches
          ≡ update p f s.batches
    by_found none h = sym (update-none p f s.batches h)
    by_found (some row) h = refl

-- What a search finds after an update by any test: the row that it found, changed where the test holds.
first-update-any :
    {A : Type 0} (p q : A → Bool) (f : A → A)
    → ((row : A) → p (f row) ≡ p row)
    → (rows : List A) (row : A) → first p rows ≡ some row
    → first p (update q f rows) ≡ some (if q row then f row else row)
unfolding first update
first-update-any p q f keeps [] row h = ground arith
first-update-any p q f keeps (x ∷ rows) row h = elim (Bool-cases (p x)) [
  | inl here ↦ ground (arith, h, here, keeps x)
  | inr away ↦ ground (arith, h, away, keeps x, first-update-any p q f keeps rows row)
]

-- What one call makes of a row, and what several do.
unfoldable pub cancel_one : CancelCall → Batch → Batch
cancel_one (now, tenant, id) row =
    if row.tenant_id == tenant && row.id == id && is_active row.status
    then cancelled_row now row
    else row

unfoldable pub cancel_each : List CancelCall → Batch → Batch
cancel_each [] row = row
cancel_each (call ∷ calls) row = cancel_each calls (cancel_one call row)

-- One of the calls names the tenant and the batch.
unfoldable pub is_named : ℕ → ℕ → List CancelCall → Bool
is_named tenant id [] = false
is_named tenant id ((now, other, batch) ∷ calls) =
    (tenant == other && id == batch) || is_named tenant id calls

-- The columns that Cancel leaves alone.
abbrev pub Kept : Batch → Batch → Type 0
Kept row row' =
    (row'.id ≡ row.id)
    × (row'.tenant_id ≡ row.tenant_id)
    × (row'.request_count_completed ≡ row.request_count_completed)
    × (row'.request_count_failed ≡ row.request_count_failed)
    × (row'.request_count_cancelled ≡ row.request_count_cancelled)

cancelled_row-Kept : (now : ℕ) (row : Batch) → Kept row (cancelled_row now row)
unfolding cancelled_row
cancelled_row-Kept now row = (ground arith, ground arith, ground arith, ground arith, ground arith)

cancel_one-Kept : (call : CancelCall) (row : Batch) → Kept row (cancel_one call row)
unfolding cancel_one
cancel_one-Kept (now, tenant, id) row =
    elim (Bool-cases (row.tenant_id == tenant && row.id == id && is_active row.status)) [
      | inl hit ↦ rw (hit, cancel_one) (cancelled_row-Kept now row)
      | inr miss ↦ rw (miss, cancel_one) (refl, refl, refl, refl, refl)
    ]

pub cancel_each-Kept : (calls : List CancelCall) (row : Batch) → Kept row (cancel_each calls row)
unfolding cancel_each
cancel_each-Kept [] row = (refl, refl, refl, refl, refl)
cancel_each-Kept (call ∷ calls) row =
    let (a, b, c, d, e) = cancel_one-Kept call row in
    let (a', b', c', d', e') = cancel_each-Kept calls (cancel_one call row) in
    (a' ∙ a, b' ∙ b, c' ∙ c, d' ∙ d, e' ∙ e)

cancel_each-cancelling :
    (calls : List CancelCall) (row : Batch)
    → row.status ≡ Status.cancelling
    → (cancel_each calls row).status ≡ Status.cancelling
unfolding cancel_each cancel_one
cancel_each-cancelling [] row h = h
cancel_each-cancelling ((now, tenant, id) ∷ calls) row h =
    cancel_each-cancelling calls (cancel_one (now, tenant, id) row) (ground (arith, h))

cancel_one-hit :
    (now tenant id : ℕ) (row : Batch)
    → (row.tenant_id == tenant && row.id == id) ≡ true
    → row.status ≡ Status.finalizing
    → (cancel_one (now, tenant, id) row).status ≡ Status.cancelling
unfolding cancel_one cancelled_row
cancel_one-hit now tenant id row hit h = ground (arith, hit, h)

cancel_one-miss :
    (now tenant id : ℕ) (row : Batch)
    → (row.tenant_id == tenant && row.id == id) ≡ false
    → cancel_one (now, tenant, id) row ≡ row
unfolding cancel_one
cancel_one-miss now tenant id row miss = ground (arith, miss)

-- A batch whose results are being written becomes one that is being cancelled when a call names it.
pub cancel_each-finalizing :
    (calls : List CancelCall) (row : Batch)
    → row.status ≡ Status.finalizing
    → (cancel_each calls row).status
      ≡ (if is_named row.tenant_id row.id calls then Status.cancelling else Status.finalizing)
unfolding cancel_each is_named
cancel_each-finalizing [] row h = h
cancel_each-finalizing ((now, tenant, id) ∷ calls) row h =
    elim (Bool-cases (row.tenant_id == tenant && row.id == id)) [
      | inl hit ↦
          cancel_each-cancelling calls (cancel_one (now, tenant, id) row)
            (cancel_one-hit now tenant id row hit h)
          ∙ rw hit refl
      | inr miss ↦
          ap (λ r. (cancel_each calls r).status) (cancel_one-miss now tenant id row miss)
          ∙ cancel_each-finalizing calls row h
          ∙ rw miss refl
    ]

-- The row of a batch after the calls.
pub interrupted-row :
    (batch : ℕ) (calls : List CancelCall) (db : Db) (row : Batch)
    → first (has_id batch) db.batches ≡ some row
    → first (has_id batch) (interrupted calls db).1.batches ≡ some (cancel_each calls row)
unfolding interrupted cancel_each cancel cancel_batch cancel_one
interrupted-row batch [] db row h = h
interrupted-row batch ((now, tenant, id) ∷ calls) db row h =
    interrupted-row batch calls (cancel now tenant id db).1 (cancel_one (now, tenant, id) row) (
      ap (first (has_id batch)) (
        update_returning-batches (λ r. r.tenant_id == tenant && r.id == id && is_active r.status)
          (cancelled_row now) db)
      ∙ first-update-any (has_id batch)
          (λ r. r.tenant_id == tenant && r.id == id && is_active r.status) (cancelled_row now)
          (λ r. ap (λ n. n == batch) (cancelled_row-Kept now r).0) db.batches row h)

pub interrupted-ok : (calls : List CancelCall) (db : Db) → (interrupted calls db).0 ≡ ok tt
unfolding interrupted
interrupted-ok [] db = refl
interrupted-ok ((now, tenant, id) ∷ calls) db = interrupted-ok calls (cancel now tenant id db).1
