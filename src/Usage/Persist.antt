-- ===== src/Usage/Persist.antt =====
-- What Persist leaves in the tables.
use open_model_gateway.Base.{
  ℕ, ◌≡◌, refl, sym, ap, subst, ◌∙◌, true, false, String, ◌==◌, string_eq, nat_eq, beq_refl,
  trim_space, is_ok, arith, ℤ, Option, none, some, List, [], ◌∷◌, Result, ok, err, Error, Act,
  after, return, if◌then◌else◌, Bool-cases, inl, inr,
}
use open_model_gateway.RequestContext.{RequestContext}
use open_model_gateway.Usage.Tables.{
  Record, RequestRow, Tables, query, faulted, inserts, inserts_usage, settled, transaction, persist,
  insert_request, insert_usage, insert_request_record, insert_usage_record, request_row, usage_row,
  is_taken, to_pg_text,
}

-- The rows of the tables, without the connection's faults.
abbrev pub SameRows : Tables → Tables → Type 0
SameRows s t = (t.requests ≡ s.requests) × (t.usage_records ≡ s.usage_records)

-- The rows that a record adds.
abbrev pub Recorded : RequestContext → Record → ℕ → ℤ → ℤ → Tables → Tables → Type 0
Recorded rc rec ts cents micros s t =
    (is_taken rc.tenant_id (to_pg_text rec.idempotency_key) s.requests ≡ false)
    × (t.requests ≡ request_row rc rec ts cents micros ∷ s.requests)
    × (t.usage_records ≡ (
        if rec.success
        then usage_row rc rec ts cents micros ∷ s.usage_records
        else s.usage_records))

abbrev pub Persisted :
    RequestContext → Record → ℕ → ℤ → ℤ → Tables → Result (Unit {0}) × Tables → Type 0
Persisted rc rec ts cents micros s (ok _, t) = Recorded rc rec ts cents micros s t
Persisted rc rec ts cents micros s (err e, t) = SameRows s t

-- A query fails and changes no row, or it runs.
pub query-elim :
    {A : Type 0} (run : Act Tables A) (s : Tables) (P : Result A → Tables → Type 0)
    → ((e : Error) (later : List (Option Error)) → P (err e) (record s { faults = later }))
    → ((later : List (Option Error))
        → P (run (record s { faults = later })).0 (run (record s { faults = later })).1)
    → P (query run s).0 (query run s).1
unfolding query faulted
query-elim {A} run s P failed ran = by_faults s.faults
  where
    by_faults :
        (fs : List (Option Error))
        → P (faulted run (record s { faults = s.faults }) fs).0 (faulted run s fs).1
    by_faults [] = ran s.faults
    by_faults (none ∷ later) = ran later
    by_faults (some e ∷ later) = failed e later

module _ (rc : RequestContext) (rec : Record) (ts : ℕ) (cents micros : ℤ) where
  Inserted : Tables → Result (Unit {0}) → Tables → Type 0
  Inserted s (ok _) t = Recorded rc rec ts cents micros s t
  Inserted s (err e) t = Unit {0}

  commit_lem :
      (s t : Tables)
      → Recorded rc rec ts cents micros s t
      → Inserted s (query (return tt) t).0 (query (return tt) t).1
  unfolding Inserted
  commit_lem s t h = query-elim (return tt) t (Inserted s) (λ e later. tt) λ later. h

  Requested : Tables → Result (Unit {0}) → Tables → Type 0
  Requested s (ok _) t =
      (is_taken rc.tenant_id (to_pg_text rec.idempotency_key) s.requests ≡ false)
      × (t.requests ≡ request_row rc rec ts cents micros ∷ s.requests)
      × (t.usage_records ≡ s.usage_records)
  Requested s (err e) t = Unit {0}

  insert_request_lem :
      (s : Tables)
      → Requested s
          (insert_request rc rec ts cents micros s).0
          (insert_request rc rec ts cents micros s).1
  unfolding insert_request insert_request_record Requested request_row
  insert_request_lem s =
      query-elim (insert_request_record (request_row rc rec ts cents micros)) s (Requested s)
        (λ e later. tt)
        λ later.
          elim (Bool-cases (is_taken rc.tenant_id (to_pg_text rec.idempotency_key) s.requests)) [
            | inl h ↦ rw h tt
            | inr h ↦ rw h (h, refl, refl)
          ]

  inserts_usage_lem :
      (s t : Tables)
      → is_taken rc.tenant_id (to_pg_text rec.idempotency_key) s.requests ≡ false
      → (t.requests ≡ request_row rc rec ts cents micros ∷ s.requests)
      → t.usage_records ≡ s.usage_records
      → Inserted s
          (inserts_usage rc rec ts cents micros t).0
          (inserts_usage rc rec ts cents micros t).1
  unfolding inserts_usage insert_usage insert_usage_record Inserted
  inserts_usage_lem s t f h k = elim (Bool-cases rec.success) [
    | inl b ↦ simp b (
        query-elim (insert_usage_record (usage_row rc rec ts cents micros)) t (Inserted s)
          (λ e later. tt)
          λ later. (f, h, simp b (ap (λ rows. usage_row rc rec ts cents micros ∷ rows) k)))
    | inr b ↦ simp b (f, h, k)
  ]

  finish_lem :
      (s : Tables) (r : Result (Unit {0})) (t : Tables)
      → Inserted s r t
      → Inserted s (after (λ _. query (return tt)) r t).0 (after (λ _. query (return tt)) r t).1
  unfolding Inserted
  finish_lem s (ok _) t h = commit_lem s t h
  finish_lem s (err e) t h = tt

  then_usage_lem :
      (s : Tables) (r : Result (Unit {0})) (t : Tables)
      → Requested s r t
      → Inserted s
          (after (λ _. inserts_usage rc rec ts cents micros) r t).0
          (after (λ _. inserts_usage rc rec ts cents micros) r t).1
  unfolding Inserted Requested
  then_usage_lem s (ok _) t (f, h, k) = inserts_usage_lem s t f h k
  then_usage_lem s (err e) t h = tt

  inserts_lem :
      (s : Tables)
      → Inserted s (inserts rc rec ts cents micros s).0 (inserts rc rec ts cents micros s).1
  unfolding inserts
  inserts_lem s = finish_lem s _ _ (then_usage_lem s _ _ (insert_request_lem s))

  settled_lem :
      (s t : Tables) (r : Result (Unit {0}))
      → Inserted s r t
      → Persisted rc rec ts cents micros s (settled s r t)
  unfolding Inserted settled
  settled_lem s t (ok _) h = h
  settled_lem s t (err e) h = (refl, refl)

  -- Whatever queries fail: when Persist returns no error, no row of the tenant had the idempotency
  -- key, and the request's row is added, and the usage row exactly when the record is a success;
  -- when it returns an error, both tables are as they were.
  pub persist-atomic :
      (s : Tables) → Persisted rc rec ts cents micros s (persist rc rec ts cents micros s)
  unfolding persist transaction
  persist-atomic s =
      query-elim (return tt) s
        (λ r t.
          Persisted rc rec ts cents micros s
            (after (λ _. transaction (inserts rc rec ts cents micros)) r t))
        (λ e later. (refl, refl))
        λ later.
          settled_lem (record s { faults = later }) _ _ (inserts_lem (record s { faults = later }))

-- No row has the tenant and the key of an earlier one.
abbrev pub NoDuplicate : List RequestRow → Type 0
NoDuplicate [] = Unit
NoDuplicate (row ∷ rows) =
    (is_taken row.tenant_id row.idempotency_key rows ≡ false) × NoDuplicate rows

-- Any calls of Persist, one after another, whatever each returns.
unfoldable pub persist_all : List (RequestContext × Record × ℕ × ℤ × ℤ) → Tables → Tables
persist_all [] s = s
persist_all ((rc, rec, ts, cents, micros) ∷ calls) s =
    persist_all calls (persist rc rec ts cents micros s).1

module _ (rc : RequestContext) (rec : Record) (ts : ℕ) (cents micros : ℤ) where
  Persisted-NoDuplicate :
      (s : Tables) (o : Result (Unit {0}) × Tables)
      → Persisted rc rec ts cents micros s o
      → NoDuplicate s.requests
      → NoDuplicate o.1.requests
  unfolding request_row
  Persisted-NoDuplicate s (ok _, t) (f, h, k) d = subst NoDuplicate (sym h) (f, d)
  Persisted-NoDuplicate s (err e, t) (h, k) d = subst NoDuplicate (sym h) d

-- After any calls of Persist, whatever queries fail, no two rows of a tenant have one idempotency key
-- when that held before.
pub persist_all-NoDuplicate :
    (calls : List (RequestContext × Record × ℕ × ℤ × ℤ)) (s : Tables)
    → NoDuplicate s.requests
    → NoDuplicate (persist_all calls s).requests
unfolding persist_all
persist_all-NoDuplicate [] s d = d
persist_all-NoDuplicate ((rc, rec, ts, cents, micros) ∷ calls) s d =
    persist_all-NoDuplicate calls (persist rc rec ts cents micros s).1 (
      Persisted-NoDuplicate rc rec ts cents micros s (persist rc rec ts cents micros s)
        (persist-atomic rc rec ts cents micros s) d)

taken_here :
    (row : RequestRow) (rows : List RequestRow) (tenant : ℕ) (key : String)
    → row.tenant_id ≡ tenant
    → row.idempotency_key ≡ some key
    → is_taken tenant (some key) (row ∷ rows) ≡ true
unfolding is_taken
taken_here row rows tenant key h k = ground (arith, h, k, beq_refl tenant, beq_refl key)

taken_later :
    (row : RequestRow) (rows : List RequestRow) (tenant : ℕ) (key : String)
    → is_taken tenant (some key) rows ≡ true
    → is_taken tenant (some key) (row ∷ rows) ≡ true
unfolding is_taken
taken_later row rows tenant key h = ground (arith, h)

module _ (tenant : ℕ) (key : String) where
  persist-taken :
      (rc : RequestContext) (rec : Record) (ts : ℕ) (cents micros : ℤ) (s : Tables)
      (o : Result (Unit {0}) × Tables)
      → Persisted rc rec ts cents micros s o
      → is_taken tenant (some key) s.requests ≡ true
      → is_taken tenant (some key) o.1.requests ≡ true
  persist-taken rc rec ts cents micros s (ok _, t) (f, h, k) d =
      ap (is_taken tenant (some key)) h
      ∙ taken_later (request_row rc rec ts cents micros) s.requests tenant key d
  persist-taken rc rec ts cents micros s (err e, t) (h, k) d = ap (is_taken tenant (some key)) h ∙ d

  persist_all-taken :
      (calls : List (RequestContext × Record × ℕ × ℤ × ℤ)) (s : Tables)
      → is_taken tenant (some key) s.requests ≡ true
      → is_taken tenant (some key) (persist_all calls s).requests ≡ true
  unfolding persist_all
  persist_all-taken [] s d = d
  persist_all-taken ((rc, rec, ts, cents, micros) ∷ calls) s d =
      persist_all-taken calls (persist rc rec ts cents micros s).1 (
        persist-taken rc rec ts cents micros s (persist rc rec ts cents micros s)
          (persist-atomic rc rec ts cents micros s) d)

module _ (rc : RequestContext) (rec : Record) (ts : ℕ) (cents micros : ℤ) where
  recorded-taken :
      (s : Tables) (o : Result (Unit {0}) × Tables)
      → Persisted rc rec ts cents micros s o
      → is_ok o.0 ≡ true
      → (trim_space rec.idempotency_key == "") ≡ false
      → is_taken rc.tenant_id (some rec.idempotency_key) o.1.requests ≡ true
  unfolding request_row to_pg_text
  recorded-taken s (ok _, t) (f, h, k) good named =
      ap (is_taken rc.tenant_id (some rec.idempotency_key)) h
      ∙ taken_here (request_row rc rec ts cents micros) s.requests rc.tenant_id rec.idempotency_key
          refl (rw named refl)
  recorded-taken s (err e, t) p good named = cc

  Refused : Tables → Result (Unit {0}) × Tables → Type 0
  Refused s o =
      (is_ok o.0 ≡ false) × (o.1.requests ≡ s.requests) × (o.1.usage_records ≡ s.usage_records)

  refused_lem :
      (s : Tables) (o : Result (Unit {0}) × Tables)
      → Persisted rc rec ts cents micros s o
      → (trim_space rec.idempotency_key == "") ≡ false
      → is_taken rc.tenant_id (some rec.idempotency_key) s.requests ≡ true
      → Refused s o
  unfolding to_pg_text Refused
  refused_lem s (ok _, t) (f, h, k) named taken = cc (rw named at f)
  refused_lem s (err e, t) (h, k) named taken = (refl, h, k)

-- When Persist has recorded a request under an idempotency key that is not blank, then after any further
-- calls of it, whatever queries fail and whatever each returns, a request of the same tenant under the
-- same key is refused: Persist returns an error, and neither table changes, so that the request is
-- recorded and charged once.
pub persist-once :
    (rc again : RequestContext) (rec retry : Record) (ts later : ℕ)
    (cents micros cents' micros' : ℤ) (calls : List (RequestContext × Record × ℕ × ℤ × ℤ))
    (s : Tables)
    → is_ok (persist rc rec ts cents micros s).0 ≡ true
    → (trim_space rec.idempotency_key == "") ≡ false
    → again.tenant_id ≡ rc.tenant_id
    → retry.idempotency_key ≡ rec.idempotency_key
    → let t = persist_all calls (persist rc rec ts cents micros s).1 in
      (is_ok (persist again retry later cents' micros' t).0 ≡ false)
      × ((persist again retry later cents' micros' t).1.requests ≡ t.requests)
      × ((persist again retry later cents' micros' t).1.usage_records ≡ t.usage_records)
unfolding Refused
persist-once rc again rec retry ts later cents micros cents' micros' calls s good named tenant key =
    let first = persist rc rec ts cents micros s in
    let t = persist_all calls first.1 in
    let taken = persist_all-taken rc.tenant_id rec.idempotency_key calls first.1 (
      recorded-taken rc rec ts cents micros s first (persist-atomic rc rec ts cents micros s) good
        named) in
    refused_lem again retry later cents' micros' t (persist again retry later cents' micros' t)
      (persist-atomic again retry later cents' micros' t) (ap (λ k. trim_space k == "") key ∙ named)
      (ap (λ n. is_taken n (some retry.idempotency_key) t.requests) tenant
        ∙ ap (λ k. is_taken rc.tenant_id (some k) t.requests) key
        ∙ taken)
