-- ===== src/Batches/Claims.antt =====
-- The items that wait, and what one ClaimNextItem does to them.
use open_model_gateway.Base.{
  update, ℕ, suc, ◌≤◌, ◌≡◌, ◌⊎◌, refl, sym, ap, subst, Bool, true, false, ◌&&◌, Option, none, some,
  List, [], ◌∷◌, ◌==◌, nat_eq, Result, ok, err, Error, if◌then◌else◌, leb, ◌∙◌, Option-cases,
  Bool-cases, inl, inr, arith, select,
}
use open_model_gateway.Batches.Tables.{BatchItem, Db, is_queued}
use open_model_gateway.Batches.Queries.{
  is_claimable, is_free, lowest, claimed, running_item, claim_next_batch_item, has_item_id,
}
use open_model_gateway.Batches.Service.{claim_next_item}

-- The items of the batch that wait.
abbrev pub waiting : ℕ → List BatchItem → ℕ
waiting batch [] = 0
waiting batch (item ∷ items) =
    if item.batch_id == batch && is_queued item.status
    then suc (waiting batch items)
    else waiting batch items

-- An update that leaves no changed row queued does not add to those that wait.
pub waiting-update-le :
    (batch : ℕ) (p : BatchItem → Bool) (f : BatchItem → BatchItem)
    → ((item : BatchItem) → is_queued (f item).status ≡ false)
    → (items : List BatchItem) → waiting batch (update p f items) ≤ waiting batch items
unfolding update
waiting-update-le batch p f unqueued [] = omega arith
waiting-update-le batch p f unqueued (item ∷ items) =
    ground (arith, waiting-update-le batch p f unqueued items, unqueued item)

abbrev Member : BatchItem → List BatchItem → Type 0
Member item [] = ⊥
Member item (row ∷ rows) = (row ≡ item) ⊎ Member item rows

waiting-update-lt :
    (batch : ℕ) (chosen : BatchItem) (f : BatchItem → BatchItem)
    → ((item : BatchItem) → is_queued (f item).status ≡ false)
    → (chosen.batch_id == batch && is_queued chosen.status) ≡ true
    → (items : List BatchItem) → Member chosen items
    → suc (waiting batch (update (has_item_id chosen.id) f items)) ≤ waiting batch items
unfolding update
waiting-update-lt batch chosen f unqueued waits [] m = elim m [ ]
waiting-update-lt batch chosen f unqueued waits (item ∷ items) (inl e) =
    subst
      (λ it.
        suc (waiting batch (update (has_item_id it.id) f (item ∷ items)))
        ≤ waiting batch (item ∷ items))
      e
      (head_lem (subst (λ it. (it.batch_id == batch && is_queued it.status) ≡ true) (sym e) waits))
  where
    head_lem :
        (item.batch_id == batch && is_queued item.status) ≡ true
        → suc (waiting batch (update (has_item_id item.id) f (item ∷ items)))
          ≤ waiting batch (item ∷ items)
    head_lem w =
        ground
          (arith, waiting-update-le batch (has_item_id item.id) f unqueued items, unqueued item)
waiting-update-lt batch chosen f unqueued waits (item ∷ items) (inr m) =
    ground (arith, waiting-update-lt batch chosen f unqueued waits items m, unqueued item)

lowest-Member :
    (rows : List BatchItem) (item : BatchItem) → lowest rows ≡ some item → Member item rows
unfolding lowest
lowest-Member [] item h = cc
lowest-Member (row ∷ rows) item h = elim (Option-cases (lowest rows)) [
  | inl k ↦ inl (ground arith)
  | inr (best, k) ↦ elim (Bool-cases (leb row.item_index best.item_index)) [
    | inl b ↦ inl (ground arith)
    | inr b ↦ inr (lowest-Member rows item (ground arith))
  ]
]

select-Member :
    (p : BatchItem → Bool) (rows : List BatchItem) (item : BatchItem)
    → Member item (select p rows)
    → Member item rows × (p item ≡ true)
unfolding select
select-Member p [] item m = elim m [ ]
select-Member p (row ∷ rows) item m = in_either (select-Member p rows item) (Bool-cases (p row))
  where
    in_either :
        (Member item (select p rows) → Member item rows × (p item ≡ true))
        → (p row ≡ true) ⊎ (p row ≡ false)
        → Member item (row ∷ rows) × (p item ≡ true)
    in_either later (inl b) =
        elim (subst (λ c. Member item (if c then row ∷ select p rows else select p rows)) b m) [
          | inl e ↦ (inl e, sym (ap p e) ∙ b)
          | inr n ↦ (inr (later n).0, (later n).1)
        ]
    in_either later (inr b) =
        let n =
          later (subst (λ c. Member item (if c then row ∷ select p rows else select p rows)) b m) in
        (inr n.0, n.1)

-- A claim takes an item that waits, or changes nothing.
abbrev pub Claims : ℕ → Db → Result BatchItem × Db → Type 0
Claims batch db (ok item, t) = suc (waiting batch t.items) ≤ waiting batch db.items
Claims batch db (err e, t) = (t ≡ db) × (e ≡ Error.no_rows)

pub claim_next_item_lem :
    (now batch : ℕ) (locked : ℕ → Bool) (db : Db)
    → Claims batch db (claim_next_item now batch locked db)
unfolding claim_next_batch_item claimed is_free is_claimable running_item
claim_next_item_lem now batch locked db =
    by_choice (lowest (select (is_free db batch locked) db.items)) refl
  where
    by_choice :
        (choice : Option BatchItem)
        → lowest (select (is_free db batch locked) db.items) ≡ choice
        → Claims batch db (claimed now db choice)
    by_choice none k = (refl, refl)
    by_choice (some item) k =
        let m =
          select-Member (is_free db batch locked) db.items item
            (lowest-Member (select (is_free db batch locked) db.items) item k) in
        waiting-update-lt batch item (running_item now) (λ _. refl) (ground (arith, m.1)) db.items
          m.0
