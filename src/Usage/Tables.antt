-- ===== src/Usage/Tables.antt =====
-- The tables `requests` and `usage_records` and the queries of usagepipeline: db_helpers.go,
-- recorder.go and the sqlc code of internal/db. A column that may be NULL is an Option. `faults`
-- says of each coming query whether the connection fails, and then it changes no row; past its end no query
-- does.
use open_model_gateway.Base.{
  ℕ, String, Bool, true, false, ◌&&◌, ℤ, pos, ltb_ℤ, Option, none, some, List, [], ◌∷◌, ◌==◌,
  string_eq, nat_eq, Result, ok, err, Error, Act, ◌>>◌, return, leb, ltb, if◌then◌else◌, trim_space,
  ◌+ℤ◌, select,
}
use open_model_gateway.RequestContext.{RequestContext}
use open_model_gateway.App.RateLimits.{to_int32}

-- models.Usage, of int32 counts.
pub record TokenUsage : Type 0 where
  pub prompt_tokens : ℤ
  pub completion_tokens : ℤ
  pub total_tokens : ℤ

-- usagepipeline.Record; `latency_ms` is rec.Latency.Milliseconds(), and `timestamp` is 0 for the
-- zero time.
pub record Record : Type 0 where
  pub context : Option RequestContext
  pub alias : String
  pub provider : String
  pub usage : TokenUsage
  pub latency_ms : ℤ
  pub status : ℤ
  pub error_code : String
  pub idempotency_key : String
  pub trace_id : String
  pub timestamp : ℕ
  pub success : Bool
  pub override_cost_cents : Option ℤ

pub record RequestRow : Type 0 where
  pub tenant_id : ℕ
  pub api_key_id : Option ℕ
  pub ts : ℕ
  pub model_alias : String
  pub provider : String
  pub latency_ms : ℤ
  pub status : ℤ
  pub error_code : Option String
  pub input_tokens : ℤ
  pub output_tokens : ℤ
  pub cost_cents : ℤ
  pub cost_usd_micros : ℤ
  pub idempotency_key : Option String
  pub trace_id : Option String

pub record UsageRow : Type 0 where
  pub tenant_id : ℕ
  pub api_key_id : Option ℕ
  pub ts : ℕ
  pub model_alias : String
  pub provider : String
  pub input_tokens : ℤ
  pub output_tokens : ℤ
  pub requests : ℤ
  pub cost_cents : ℤ
  pub cost_usd_micros : ℤ

pub record Tables : Type 0 where
  pub requests : List RequestRow
  pub usage_records : List UsageRow
  pub faults : List (Option Error)

unfoldable pub to_pg_text : String → Option String
to_pg_text value = if trim_space value == "" then none else some value

unfoldable pub to_pg_nullable_uuid : ℕ → Option ℕ
to_pg_nullable_uuid id = if id == 0 then none else some id

unfoldable pub faulted :
    {A : Type 0} → Act Tables A → Tables → List (Option Error) → Result A × Tables
faulted run s [] = run s
faulted run s (none ∷ later) = run (record s { faults = later })
faulted run s (some e ∷ later) = (err e, record s { faults = later })

-- One query on the connection: it fails as the next fault says.
unfoldable pub query : {A : Type 0} → Act Tables A → Act Tables A
unfolding faulted
query run s = faulted run s s.faults

-- A row with this tenant and key: the unique index idx_requests_tenant_idempotency.
unfoldable pub is_taken : ℕ → Option String → List RequestRow → Bool
is_taken tenant none rows = false
is_taken tenant (some key) [] = false
is_taken tenant (some key) (row ∷ rows) =
    let rest = is_taken tenant (some key) rows in
    elim row.idempotency_key [
      | none ↦ rest
      | some other ↦ if row.tenant_id == tenant && other == key then true else rest
    ]

abbrev pub nonneg : ℤ → ℤ
nonneg n = if ltb_ℤ n (pos 0) then pos 0 else n

unfoldable pub request_row : RequestContext → Record → ℕ → ℤ → ℤ → RequestRow
request_row rc rec ts cost_cents cost_micros = record {
  tenant_id = rc.tenant_id;
  api_key_id = to_pg_nullable_uuid rc.api_key_id;
  ts = ts;
  model_alias = rec.alias;
  provider = rec.provider;
  latency_ms = to_int32 (nonneg rec.latency_ms);
  status = to_int32 rec.status;
  error_code = to_pg_text rec.error_code;
  input_tokens = rec.usage.prompt_tokens;
  output_tokens = rec.usage.completion_tokens;
  cost_cents = cost_cents;
  cost_usd_micros = cost_micros;
  idempotency_key = to_pg_text rec.idempotency_key;
  trace_id = to_pg_text rec.trace_id;
}

-- INSERT INTO requests, refused by the unique index.
unfoldable pub insert_request_record : RequestRow → Act Tables (Unit {0})
insert_request_record row s =
    if is_taken row.tenant_id row.idempotency_key s.requests
    then (err (Error.outside "duplicate key value violates unique constraint"), s)
    else (ok tt, record s { requests = row ∷ s.requests })

unfoldable pub insert_request : RequestContext → Record → ℕ → ℤ → ℤ → Act Tables (Unit {0})
insert_request rc rec ts cost_cents cost_micros =
    query (insert_request_record (request_row rc rec ts cost_cents cost_micros))

unfoldable pub usage_row : RequestContext → Record → ℕ → ℤ → ℤ → UsageRow
usage_row rc rec ts cost_cents cost_micros = record {
  tenant_id = rc.tenant_id;
  api_key_id = to_pg_nullable_uuid rc.api_key_id;
  ts = ts;
  model_alias = rec.alias;
  provider = rec.provider;
  input_tokens = rec.usage.prompt_tokens;
  output_tokens = rec.usage.completion_tokens;
  requests = pos 1;
  cost_cents = cost_cents;
  cost_usd_micros = cost_micros;
}

unfoldable pub insert_usage_record : UsageRow → Act Tables (Unit {0})
insert_usage_record row s = (ok tt, record s { usage_records = row ∷ s.usage_records })

unfoldable pub insert_usage : RequestContext → Record → ℕ → ℤ → ℤ → Act Tables (Unit {0})
insert_usage rc rec ts cost_cents cost_micros =
    query (insert_usage_record (usage_row rc rec ts cost_cents cost_micros))

unfoldable pub settled : {A : Type 0} → Tables → Result A → Tables → Result A × Tables
settled s (ok a) t = (ok a, t)
settled s (err e) t = (err e, record s { faults = t.faults })

-- A transaction that ends with an error is rolled back.
unfoldable pub transaction : {A : Type 0} → Act Tables A → Act Tables A
unfolding settled
transaction body s = settled s (body s).0 (body s).1

-- The second statement of UsageRecorder.Persist.
unfoldable pub inserts_usage : RequestContext → Record → ℕ → ℤ → ℤ → Act Tables (Unit {0})
inserts_usage rc rec ts cost_cents cost_micros =
    if rec.success then insert_usage rc rec ts cost_cents cost_micros else return tt

-- The statements of UsageRecorder.Persist up to the commit, which is a query too.
unfoldable pub inserts : RequestContext → Record → ℕ → ℤ → ℤ → Act Tables (Unit {0})
inserts rc rec ts cost_cents cost_micros =
    insert_request rc rec ts cost_cents cost_micros
    >> inserts_usage rc rec ts cost_cents cost_micros
    >> query (return tt)

-- UsageRecorder.Persist; beginning the transaction is a query.
unfoldable pub persist : RequestContext → Record → ℕ → ℤ → ℤ → Act Tables (Unit {0})
persist rc rec ts cost_cents cost_micros =
    query (return tt) >> transaction (inserts rc rec ts cost_cents cost_micros)

abbrev pub in_window : ℕ → ℕ → ℕ → UsageRow → Bool
in_window tenant start end_ts row = row.tenant_id == tenant && leb start row.ts && ltb row.ts end_ts

unfoldable pub sum_cost_cents : List UsageRow → ℤ
sum_cost_cents [] = pos 0
sum_cost_cents (row ∷ rows) = row.cost_cents +ℤ sum_cost_cents rows

-- SumUsageForTenant, its column total_cost_cents.
unfoldable pub sum_usage_for_tenant : ℕ → ℕ → ℕ → Act Tables ℤ
sum_usage_for_tenant tenant start end_ts =
    query λ s. (ok (sum_cost_cents (select (in_window tenant start end_ts) s.usage_records)), s)
