-- ===== src/Auth/Queries.antt =====
-- What a query, a lookup and a transaction leave behind, whatever the connection does.
use open_model_gateway.Base.{
  ◌≡◌, refl, sym, ap, ◌∙◌, ◌≢◌, Bool, true, false, Option, none, some, List, [], ◌∷◌, Result, ok,
  err, Error, Act, return, fail, Bool-cases, inl, inr, bind-Post, on_result-Post, if◌then◌else◌,
  arith,
}
use open_model_gateway.Auth.Tables.{
  Rows, Directory, query, asked, answered, found, is_no_rows, in_failed_transaction,
}
use open_model_gateway.Auth.Personal.{transaction, within_tx, ended, committed, wrapped, wrap}

absurd_bool : false ≢ true
absurd_bool h = ground (arith, h)

is_no_rows-eq : (e : Error) → is_no_rows e ≡ true → e ≡ Error.no_rows
is_no_rows-eq Error.no_rows h = refl
is_no_rows-eq Error.limit_exceeded h = elim (absurd_bool h) [ ]
is_no_rows-eq Error.nil_pointer h = elim (absurd_bool h) [ ]
is_no_rows-eq (Error.api status text) h = elim (absurd_bool h) [ ]
is_no_rows-eq (Error.message text) h = elim (absurd_bool h) [ ]
is_no_rows-eq (Error.outside text) h = elim (absurd_bool h) [ ]

module _ {A : Type 0} where
  -- After a failed query: no row has changed, and a transaction is aborted unless a row was missing.
  abbrev pub Failed : Act Rows A → Directory → Directory → Type 0
  Failed run s t =
      (t.rows ≡ s.rows) × (s.in_tx ≡ true → (run s.rows).0 ≢ err Error.no_rows → t.aborted ≡ true)

  -- An error of the connection or of the statement, or the answer of the statement on the rows.
  pub query-elim :
      (P : Result A → Directory → Type 0) (run : Act Rows A) (s : Directory)
      → ((e : Error) (t : Directory) → Failed run s t → P (err e) t)
      → ((a : A) (t : Directory)
          → (run s.rows).0 ≡ ok a
          → t.rows ≡ (run s.rows).1
          → t.in_tx ≡ s.in_tx
          → P (ok a) t)
      → P (query run s).0 (query run s).1
  unfolding query asked answered
  query-elim P run s bad good = elim (Bool-cases s.aborted) [
    | inl broken ↦ simp broken (bad in_failed_transaction s (refl, λ _ _. broken))
    | inr alive ↦ simp alive (by_faults s.faults)
  ]
    where
      by_rows :
          (t : Directory)
          → t.rows ≡ s.rows
          → t.in_tx ≡ s.in_tx
          → (e : Error) → (run s.rows).0 ≡ err e
          → (missing : Bool) → is_no_rows e ≡ missing
          → P (err e) (if missing then t else record t { aborted = t.in_tx })
      by_rows t h i e q true m = bad e t (h, λ _ n. elim (n (q ∙ ap err (is_no_rows-eq e m))) [ ])
      by_rows t h i e q false m =
          bad e (record t { aborted = t.in_tx }) (h, λ open_tx _. i ∙ open_tx)

      by_answer :
          (t : Directory)
          → t.rows ≡ s.rows
          → t.in_tx ≡ s.in_tx
          → (r : Result A) → (run s.rows).0 ≡ r
          → P (answered r (run s.rows).1 t).0 (answered r (run s.rows).1 t).1
      by_answer t h i (ok a) e = good a (record t { rows = (run s.rows).1 }) e refl i
      by_answer t h i (err e) q = by_rows t h i e q (is_no_rows e) refl

      by_faults : (faults : List (Option Error)) → P (asked run faults s).0 (asked run faults s).1
      by_faults [] = by_answer s refl refl (run s.rows).0 refl
      by_faults (none ∷ later) =
          by_answer (record s { faults = later }) refl refl (run s.rows).0 refl
      by_faults (some e ∷ later) =
          bad e (record s { faults = later; aborted = s.in_tx }) (refl, λ open_tx _. open_tx)

-- BeginTx changes no row.
pub begin_tx-rows : (s : Directory) → (wrapped "begin tx" (query (return tt)) s).1.rows ≡ s.rows
begin_tx-rows s =
    on_result-Post (λ r t. t.rows ≡ s.rows) (λ r t. t.rows ≡ s.rows) (query (return tt)) return
      (λ e. fail (wrap "begin tx" e)) s
      (query-elim (λ r t. t.rows ≡ s.rows) (return tt) s (λ e t h. h.0) (λ a t e h i. h))
      (λ a t h. h) (λ e t h. h)

module _ {A : Type 0} where
  -- A failure leaves the rows.
  abbrev pub Kept : Directory → Result A → Directory → Type 0
  Kept s (ok a) t = Unit {0}
  Kept s (err e) t = t.rows ≡ s.rows

  pub ended-Kept :
      (s : Directory) (rows : Rows) (r : Result A) (t : Directory)
      → rows ≡ s.rows
      → Kept s (ended rows r t).0 (ended rows r t).1
  unfolding ended committed
  ended-Kept s rows (err e) t h = h
  ended-Kept s rows (ok a) t h = by_commit (query (return tt) t).0 (query (return tt) t).1
    where
      by_commit :
          (c : Result (Unit {0})) (u : Directory)
          → Kept s (committed rows a c u).0 (committed rows a c u).1
      by_commit (ok done) u = tt
      by_commit (err e) u = h

  -- A transaction that fails has changed no row.
  pub transaction-Kept :
      (body : Act Directory A) (s : Directory)
      → Kept s (transaction body s).0 (transaction body s).1
  unfolding transaction
  transaction-Kept body s =
      bind-Post (λ r t. t.rows ≡ s.rows) (Kept s) (wrapped "begin tx" (query (return tt)))
        (λ _. within_tx body) s (begin_tx-rows s)
        (λ _ t h.
          ended-Kept s t.rows (body (record t { in_tx = true })).0
            (body (record t { in_tx = true })).1 h)
        (λ e t h. h)

abbrev value_or : {A : Type 0} → A → Result A → A
value_or a (ok b) = b
value_or a (err e) = a

-- A lookup gives the row that it found, and changes nothing.
pub found-ok :
    {A : Type 0} (o : Option A) (s t : Rows) (a b : A)
    → o ≡ some b
    → (found o s).0 ≡ ok a
    → t ≡ (found o s).1
    → (a ≡ b) × (t ≡ s)
found-ok o s t a b h e r =
    (sym (ap (value_or a) (sym (ap (λ p. (found p s).0) h) ∙ e)), r ∙ ap (λ p. (found p s).1) h)
