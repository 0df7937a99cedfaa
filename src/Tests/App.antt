-- ===== src/Tests/App.antt =====
-- Examples for rate limit settings, leases and model access.
use open_model_gateway.Base.{
  arith, ◌≡◌, refl, true, ◌&&◌, not, pos, negsuc, List, [], ◌∷◌, some, ok, ◌==◌, string_eq, nat_eq,
}
use open_model_gateway.Limits.Redis.{plain}
use open_model_gateway.App.RateLimits.{
  update_defaults, rate_limit_config_from_record, all_positive, RateLimitConfig, Defaults,
}
use open_model_gateway.App.Overrides.{update_defaults-roundtrip}
use open_model_gateway.App.Acquire.{Grant, acquire_rate_limits, release_grant}
use open_model_gateway.App.Leases.{settled, acquire_balanced}
use open_model_gateway.App.ModelAccess.{
  Access, ModelRow, normalize_model_alias, is_model_allowed, set_tenant_models,
  load_tenant_model_access,
}
use open_model_gateway.App.Allowed.{
  is_listed, is_granted, is_model_allowed-set, is_model_allowed-load,
}
use open_model_gateway.Tests.World.{
  memory, memory-Up, empty_store, tenant, plain_limits, same, show_id,
}

abbrev asked : RateLimitConfig
asked = record {
  default_requests_per_minute = pos 60;
  default_tokens_per_minute = pos 9000;
  default_parallel_requests_key = pos 4;
  default_parallel_requests_tenant = pos 8;
}

abbrev file_config : RateLimitConfig
file_config = record {
  default_requests_per_minute = pos 1;
  default_tokens_per_minute = pos 2;
  default_parallel_requests_key = pos 3;
  default_parallel_requests_tenant = pos 4;
}

abbrev defaults : Defaults
defaults = record {
  stored = record {
    requests_per_minute = negsuc 0;
    tokens_per_minute = negsuc 0;
    parallel_requests_key = negsuc 0;
    parallel_requests_tenant = negsuc 0;
  };
  config = file_config;
}

abbrev access : Access
access = (7, "gpt" ∷ []) ∷ []

update_defaults-roundtrip_example :
    let s' = (update_defaults true (ok tt) asked defaults).1 in
    (rate_limit_config_from_record file_config s'.stored ≡ asked) × (s'.config ≡ asked)
unfolding update_defaults all_positive
update_defaults-roundtrip_example =
    update_defaults-roundtrip asked file_config defaults refl (omega arith) (omega arith)
      (omega arith) (omega arith)

acquire_balanced_example :
    (memory.counter (plain "sem:tenant:t") (
        settled memory memory-Up true
          (acquire_rate_limits memory show_id true plain_limits (some tenant) "gpt" 30 empty_store))
      ≡ pos 0)
    × ((g : Grant) (t : memory.Store)
        → let once = release_grant memory true g t in
          release_grant memory true once.0 once.1 ≡ once)
acquire_balanced_example =
    acquire_balanced memory memory-Up show_id true plain_limits (some tenant) "gpt" "sem:tenant:t"
      30 empty_store

is_model_allowed-set_example :
    is_model_allowed same (set_tenant_models same access 8 ("llama" ∷ " gpt " ∷ [])) 8 "gpt" ≡ (
      not (normalize_model_alias same "gpt" == "")
      && is_listed same (normalize_model_alias same "gpt") ("llama" ∷ " gpt " ∷ []))
is_model_allowed-set_example = is_model_allowed-set same access 8 8 ("llama" ∷ " gpt " ∷ []) "gpt"

abbrev rows : List ModelRow
rows = record { tenant_id = some 7; alias = "gpt" } ∷ []

is_model_allowed-load_example :
    is_model_allowed same
      (load_tenant_model_access same (ok (some 7 ∷ some 8 ∷ [])) (ok rows) access).1
      8
      "gpt"
    ≡ (not (normalize_model_alias same "gpt" == "")
        && is_granted same 8 (normalize_model_alias same "gpt") rows)
is_model_allowed-load_example =
    is_model_allowed-load same (some 7 ∷ some 8 ∷ []) rows access 8 "gpt" refl
