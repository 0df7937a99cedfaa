-- ===== src/Batches/Ingest.antt =====
-- The rows that Create stores.
use open_model_gateway.Base.{
  ℕ, suc, ◌+◌, ◌≡◌, refl, ◌∙◌, Option, none, some, String, List, [], ◌∷◌, ◌++◌, Result, ok, err,
  after, return, string_eq, trim_space, arith, length, beq_refl, nat_eq, ◌==◌, if◌then◌else◌,
}
use open_model_gateway.Batches.Tables.{Batch, BatchItem, Db}
use open_model_gateway.Batches.Queries.{create_batch, insert_batch_item}
use open_model_gateway.Batches.Claims.{waiting}
use open_model_gateway.Batches.Service.{
  BatchInput, BatchesConfig, Codec, CreateParams, insert_items, store_batch,
}

waiting-append :
    (batch : ℕ) (xs ys : List BatchItem)
    → waiting batch (xs ++ ys) ≡ waiting batch xs + waiting batch ys
waiting-append batch [] ys = omega arith
waiting-append batch (x ∷ xs) ys = ground (arith, waiting-append batch xs ys)

module _ (codec : Codec) where
  insert_item-waiting :
      (batch index : ℕ) (custom : Option String) (input : String) (s : Db)
      → waiting batch (insert_batch_item batch index custom input s).1.items
        ≡ suc (waiting batch s.items)
  unfolding insert_batch_item
  insert_item-waiting batch index custom input s =
      waiting-append batch s.items _ ∙ ground (arith, beq_refl batch)

  insert_items-waiting :
      (batch index : ℕ) (entries : List BatchInput) (s : Db)
      → waiting batch (insert_items codec batch index entries s).1.items
        ≡ waiting batch s.items + length entries
  unfolding insert_items insert_batch_item
  insert_items-waiting batch index [] s = omega arith
  insert_items-waiting batch index (entry ∷ entries) s =
      let custom = if trim_space entry.custom_id == "" then none else some entry.custom_id in
      let next = (insert_batch_item batch index custom (codec.marshal entry) s).1 in
      omega (
        arith,
        insert_items-waiting batch (suc index) entries next,
        insert_item-waiting batch index custom (codec.marshal entry) s,
      )

  insert_items-ok :
      (batch index : ℕ) (entries : List BatchInput) (s : Db)
      → (insert_items codec batch index entries s).0 ≡ ok tt
  unfolding insert_items insert_batch_item
  insert_items-ok batch index [] s = refl
  insert_items-ok batch index (entry ∷ entries) s = insert_items-ok batch (suc index) entries _

  -- What Create returns, and the items that wait then.
  abbrev pub Ingested : List BatchInput → Result Batch × Db → Type 0
  Ingested entries (ok row, t) =
      (row.request_count_total ≡ length entries) × (waiting row.id t.items ≡ length entries)
  Ingested entries (err e, t) = ⊥

  returned_lem :
      (entries : List BatchInput) (row : Batch) (r : Result (Unit {0})) (t : Db)
      → r ≡ ok tt
      → row.request_count_total ≡ length entries
      → waiting row.id t.items ≡ length entries
      → Ingested entries (after (λ _. return row) r t)
  returned_lem entries row (ok _) t e total w = (total, w)
  returned_lem entries row (err x) t e total w = cc

  -- When no item has the next identifier as its batch, storing a batch succeeds, and as many of its
  -- items wait as its total says and its file has entries.
  pub store_batch-waiting :
      (cfg : BatchesConfig) (now : ℕ) (params : CreateParams) (endpoint : String)
      (entries : List BatchInput) (s : Db)
      → waiting s.next_id s.items ≡ 0
      → Ingested entries (store_batch codec cfg now params endpoint entries s)
  unfolding store_batch create_batch
  store_batch-waiting cfg now params endpoint entries s fresh =
      returned_lem entries _ _ _ (insert_items-ok s.next_id 0 entries _) refl
        (insert_items-waiting s.next_id 0 entries _ ∙ omega (arith, fresh))
