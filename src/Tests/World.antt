-- ===== src/Tests/World.antt =====
-- Concrete instances of the parameters, and the data of the examples.
use open_model_gateway.Base.{
  ℕ, ◌+◌, ◌-◌, ◌*◌, ◌%◌, refl, String, true, false, ℤ, pos, neg, ◌+ℤ◌, pos_part, neg_part, sub_ℕ,
  int_laws, none, some, [], ◌∷◌, Result, ok, if◌then◌else◌, arith, nat_eq, ltb,
}
use open_model_gateway.RequestContext.{RequestContext}
use open_model_gateway.Limits.Redis.{Redis, RedisKey}
use open_model_gateway.Limits.Limiter.{LimitConfig, equals}
use open_model_gateway.Limits.Counters.{Up}
use open_model_gateway.Limits.Semaphore.{key_beq, key_beq_iff, key_beq_refl}
use open_model_gateway.App.RateLimits.{RateLimits}
use open_model_gateway.Router.Engine.{Route, Engine}
use open_model_gateway.Usage.Tables.{Tables, Record}
use open_model_gateway.Usage.Alerts.{AlertPayload, Alerts}
use open_model_gateway.Usage.Logger.{Services, Ledger}
use open_model_gateway.Batches.Tables.{Batch, BatchItem, Status, ItemStatus, Db}
use open_model_gateway.Usage.Pricing.{Decimal}
use open_model_gateway.Usage.Budget.{Calendar}

-- Redis as a function from keys to counters; nothing runs out by itself.
abbrev pub memory : Redis
memory = record {
  Store = RedisKey → ℤ;
  counter = λ k s. s k;
  incr_by = λ k d s. (ok (s k +ℤ d), λ j. if key_beq k j then s k +ℤ d else s j);
  expire = λ k ttl s. s;
  lapse = λ k s j. if key_beq k j then pos 0 else s j;
  incr_by-value = λ k d s e. (ground arith, ground (arith, key_beq_refl k));
  incr_by-other = λ k j d s e apart. ground (arith, key_beq_iff k j);
  counter-expire = λ k j ttl s. refl;
  counter-lapse = λ k s. ground (arith, key_beq_refl k);
}

abbrev pub memory-Up : Up memory
memory-Up k d s = refl

abbrev pub empty_store : RedisKey → ℤ
empty_store k = pos 0

-- Months of thirty days.
abbrev pub thirty_days : Calendar
thirty_days = record {
  month_start = λ now. now - now % 2592000;
  next_month = λ now. (now - now % 2592000) + 2592000;
  in_month = λ now. (omega arith, omega arith);
}

abbrev pub mul_ℤ : ℤ → ℤ → ℤ
mul_ℤ a b =
    sub_ℕ (pos_part a * pos_part b + neg_part a * neg_part b)
      (pos_part a * neg_part b + neg_part a * pos_part b)

-- Whole numbers as decimals.
abbrev pub whole : Decimal
whole = record {
  D = ℤ;
  of_int = λ n. n;
  add = λ a b. a +ℤ b;
  sub = λ a b. a +ℤ neg b;
  mul = mul_ℤ;
  div = λ a b. a;
  truncate = λ a. a;
  round = λ a. a;
  int_part = λ a. a;
  is_zero = λ a. equals a (pos 0);
  is_negative = λ a. ltb 0 (neg_part a);
  add-sub = λ a b. omega int_laws;
  add-zero = λ a. omega int_laws;
  zero-add = λ a. omega int_laws;
  is_zero-eq = λ a h. ground arith;
  int_part-truncate = λ a. refl;
  mul-zero = λ a. ground arith;
}

-- Two requests a minute, ten tokens a minute, two at once.
abbrev pub two_at_once : LimitConfig
two_at_once = record {
  requests_per_minute = pos 2;
  tokens_per_minute = pos 10;
  parallel_requests = pos 2;
}

-- A tenant with a budget of 100 cents, whose alerts go to one address.
abbrev pub tenant : RequestContext
tenant = record {
  tenant_id = 7;
  api_key_id = 3;
  api_key_prefix = "sk";
  scopes = [];
  budget_limit_cents = pos 100;
  warning_threshold = pos 800000;
  budget_refresh_schedule = "weekly";
  alerts_enabled = true;
  alert_emails = "ops@example.org" ∷ [];
  alert_webhooks = [];
  alert_cooldown = pos 60;
  alert_last_level = "";
  alert_last_sent = 0;
  has_budget_override = false;
}

abbrev pub plain_limits : RateLimits
plain_limits = record {
  config = record {
    default_requests_per_minute = pos 2;
    default_tokens_per_minute = pos 10;
    default_parallel_requests_key = pos 2;
    default_parallel_requests_tenant = pos 2;
  };
  default_key_limit = two_at_once;
  default_tenant_limit = two_at_once;
  key_rate_limits = [];
  tenant_rate_limits = [];
}

abbrev pub same : String → String
same s = s

abbrev pub show_id : ℕ → String
show_id n = "t"

abbrev route : String → ℤ → Route
route model weight = record {
  alias = "gpt";
  provider = "openai";
  model = model;
  weight = weight;
  metadata = [];
  has_chat = true;
  has_embedding = false;
  has_image = false;
  has_health = false;
}

abbrev pub heavy : Route
heavy = route "gpt-large" (pos 3)

abbrev pub light : Route
light = route "gpt-small" (pos 1)

abbrev pub unweighted : Route
unweighted = route "gpt-trial" (pos 0)

abbrev pub engine : Engine
engine = record { routes = ("gpt", heavy ∷ light ∷ []) ∷ []; state = [] }

-- The last number below n.
abbrev pub last_of : ℕ → ℕ
last_of n = n - 1

abbrev pub no_tables : Tables
no_tables = record { requests = []; usage_records = []; faults = [] }

-- A success of the tenant under the idempotency key "once", of 70 cents.
abbrev pub paid : Record
paid = record {
  context = some tenant;
  alias = "gpt";
  provider = "openai";
  usage = record { prompt_tokens = pos 2; completion_tokens = pos 1; total_tokens = pos 3 };
  latency_ms = pos 120;
  status = pos 200;
  error_code = "";
  idempotency_key = "once";
  trace_id = "t1";
  timestamp = 1000000;
  success = true;
  override_cost_cents = some (pos 70);
}

abbrev pub quiet : Alerts
quiet = record { state = []; overrides = []; attempts = [] }

abbrev pub taken : AlertPayload → Result (Unit {0})
taken payload = ok tt

abbrev pub services : Services
services = record {
  decimal = whole;
  calendar = thirty_days;
  atoi = λ s. ok (pos 30);
  to_lower = same;
  notify = taken;
  reply = ok tt;
  prices = ("gpt", record { input = pos 1; output = pos 2 }) ∷ [];
  config = record { default_cents = pos 500; refresh_schedule = "calendar_month" };
}

abbrev pub ledger : Ledger services
ledger = record { tables = no_tables; remainders = []; alerts = quiet }

abbrev pub running_batch : Batch
running_batch = record {
  id = 1;
  tenant_id = 7;
  api_key_id = 3;
  status = Status.in_progress;
  endpoint = "/v1/chat/completions";
  input_file_id = 5;
  result_file_id = none;
  error_file_id = none;
  errors = [];
  completion_window = "24h";
  max_concurrency = 2;
  request_count_total = 2;
  request_count_completed = 0;
  request_count_failed = 0;
  request_count_cancelled = 0;
  created_at = 10;
  updated_at = 11;
  in_progress_at = some 11;
  completed_at = none;
  cancelled_at = none;
  cancelling_at = none;
  finalizing_at = none;
  failed_at = none;
  expires_at = 99;
  expired_at = none;
}

abbrev pub item : ℕ → BatchItem
item n = record {
  id = 100 + n;
  batch_id = 1;
  item_index = n;
  status = ItemStatus.queued;
  custom_id = none;
  input = "{}";
  response = none;
  error = none;
  started_at = none;
  completed_at = none;
}

abbrev pub two_items : Db
two_items = record { batches = running_batch ∷ []; items = item 0 ∷ item 1 ∷ []; next_id = 200 }

-- The row after Cancel has found it in progress.
abbrev pub cancelling_batch : Batch
cancelling_batch = record running_batch { status = Status.cancelling }
