-- ===== src/Executor/Slots.antt =====
-- Slots of the concurrency limits during a chat completion.
use open_model_gateway.Base.{
  ℕ, ◌≡◌, refl, ◌∙◌, String, Bool, ℤ, neg, is_pos, Option, none, some, List, [], ◌∷◌, ◌==◌,
  string_eq, Result, ok, err, Error, Act, ◌>>=◌, ◌>>◌, return, fail, after, handle, Bool-cases, inl,
  inr, arith,
}
use open_model_gateway.Limits.Redis.{Redis, plain}
use open_model_gateway.Limits.Limiter.{LimitConfig, token_allowance, minute, tpm_key, release}
use open_model_gateway.Limits.Counters.{Up, incr_by-ok}
use open_model_gateway.Limits.Semaphore.{counter-incr_by_any, release-slots}
use open_model_gateway.App.Acquire.{
  Resolved, Grant, acquire_rate_limits, release_grant, key_storage, tenant_storage,
}
use open_model_gateway.App.Leases.{settled, acquire_balanced}
use open_model_gateway.Router.Engine.{Route, select_routes, resolve_deployment}
use open_model_gateway.Usage.Budget.{BudgetStatus, check_budget}
use open_model_gateway.Usage.Logger.{log_record}
use open_model_gateway.Executor.Chat.{
  Call, Gateway, ChatResponse, ChatResult, charge_tokens, consume_tokens, after_answer, all_failed,
  on_answer, try_routes, released, with_limits, within_budget, chat_over, chat, too_many,
  note_success, charge_answer, record_answer, success_record,
}

module _ (redis : Redis) (up : Up redis) where
  open redis use {Store, counter, incr_by, expire, counter-expire}

  -- A charge of tokens leaves every slot counter as it was.
  pub token_allowance-plain :
      (connected : Bool) (key name : String) (tokens : ℤ) (cfg : LimitConfig) (now : ℕ) (s : Store)
      → counter (plain name) (token_allowance redis connected key tokens cfg now s).1
        ≡ counter (plain name) s
  unfolding token_allowance
  token_allowance-plain connected key name tokens cfg now s =
      elim (Bool-cases (is_pos cfg.tokens_per_minute)) [
        | inr unlimited ↦ rw (unlimited, token_allowance) refl
        | inl limited ↦ elim (Bool-cases connected) [
          | inr absent ↦ rw (limited, absent) refl
          | inl present ↦
              rw (limited, present, incr_by-ok redis up (tpm_key key now) tokens s)
                (ground (
                  arith,
                  counter-expire (tpm_key key now) (plain name) minute
                      (incr_by (tpm_key key now) tokens s).1,
                  counter-incr_by_any redis up (tpm_key key now) (plain name) tokens s,
                  counter-incr_by_any redis up (tpm_key key now) (plain name) (neg tokens)
                      (incr_by (tpm_key key now) tokens s).1,
                  counter-incr_by_any redis up (tpm_key key now) (plain name) (neg tokens)
                      (expire (tpm_key key now) minute (incr_by (tpm_key key now) tokens s).1),
                ))
        ]
      ]

  -- Equal counts before a release are equal after it.
  pub release_grant-slots :
      (connected : Bool) (g : Grant) (name : String) (t u : Store)
      → counter (plain name) t ≡ counter (plain name) u
      → counter (plain name) (release_grant redis connected g t).1
        ≡ counter (plain name) (release_grant redis connected g u).1
  unfolding release_grant
  release_grant-slots connected g name t u e =
      let given : Store → Store =
        λ s. release redis connected (tenant_storage g.resolved) g.tenant_cfg s in
      ground (
        arith,
        e,
        release-slots redis up connected (tenant_storage g.resolved) name g.tenant_cfg t,
        release-slots redis up connected (tenant_storage g.resolved) name g.tenant_cfg u,
        release-slots redis up connected (key_storage g.resolved) name g.key_cfg t,
        release-slots redis up connected (key_storage g.resolved) name g.key_cfg u,
        release-slots redis up connected (key_storage g.resolved) name g.key_cfg (given t),
        release-slots redis up connected (key_storage g.resolved) name g.key_cfg (given u),
      )

module _ (call : Call) (up : Up call.redis) (name : String) where
  -- The slot counter.
  abbrev pub slots : Gateway call → ℤ
  slots s = call.redis.counter (plain name) s.store

  -- The code leaves the slot counter as it was.
  abbrev pub Keeps : {A : Type 0} → Act (Gateway call) A → Type 0
  Keeps run = (s : Gateway call) → slots (run s).1 ≡ slots s

  handle-slots :
      {A B : Type 0} (f : A → Act (Gateway call) B) (g : Error → Act (Gateway call) B)
      (r : Result A) (s : Gateway call)
      → ((a : A) → Keeps (f a))
      → ((e : Error) → Keeps (g e))
      → slots (handle f g r s).1 ≡ slots s
  handle-slots f g (ok a) s keep keep' = keep a s
  handle-slots f g (err e) s keep keep' = keep' e s

  then-Keeps :
      {A B : Type 0} (m : Act (Gateway call) A) (f : A → Act (Gateway call) B)
      → Keeps m
      → ((a : A) → Keeps (f a))
      → Keeps (m >>= f)
  then-Keeps m f keep later s = after-slots (m s).0 (m s).1 ∙ keep s
    where
      after-slots : (r : Result _) (t : Gateway call) → slots (after f r t).1 ≡ slots t
      after-slots (ok a) t = later a t
      after-slots (err e) t = refl

  charge_tokens-slots :
      (key : String) (cfg : LimitConfig) (tokens : ℤ) → Keeps (charge_tokens call key cfg tokens)
  unfolding charge_tokens
  charge_tokens-slots key cfg tokens s =
      handle-slots _ _ (token_allowance call.redis call.connected key tokens cfg call.now s.store).0
        _ (λ a t. refl) (λ e t. refl)
      ∙ token_allowance-plain call.redis up call.connected key name tokens cfg call.now s.store

  consume_tokens-slots : (r : Resolved) (tokens : ℤ) → Keeps (consume_tokens call r tokens)
  unfolding consume_tokens
  consume_tokens-slots r tokens =
      then-Keeps _ _ (charge_tokens-slots r.key_key r.key_cfg tokens)
        λ _. charge_tokens-slots r.tenant_key r.tenant_cfg tokens

  charge_answer-slots : (r : Resolved) (resp : ChatResponse) → Keeps (charge_answer call r resp)
  unfolding charge_answer
  charge_answer-slots r resp s = ground (arith, consume_tokens-slots r resp.usage.total_tokens s)

  record_answer-slots :
      (route : Route) (resp : ChatResponse) → Keeps (record_answer call route resp)
  unfolding record_answer
  record_answer-slots route resp s =
      handle-slots (λ status. return (record { response = resp; budget_status = status })) fail
        (log_record call.services (success_record call route resp) call.now s.ledger).0 _
        (λ status t. refl) (λ e t. refl)

  after_answer-slots :
      (r : Resolved) (route : Route) (resp : ChatResponse) → Keeps (after_answer call r route resp)
  unfolding after_answer
  after_answer-slots r route resp =
      then-Keeps (note_success call route >> charge_answer call r resp)
        (λ _. record_answer call route resp)
        (then-Keeps (note_success call route) (λ _. charge_answer call r resp) (λ s. refl)
          λ _. charge_answer-slots r resp)
        λ _. record_answer-slots route resp

  all_failed-slots : (last : Option (Error × Route)) → Keeps (all_failed call last)
  unfolding all_failed
  all_failed-slots none s = refl
  all_failed-slots (some (e, route)) s = elim (Bool-cases (route.provider == "")) [
    | inl unnamed ↦ rw unnamed refl
    | inr named ↦ rw named refl
  ]

  on_answer-slots :
      (r : Resolved) (route : Route)
      (later : Option (Error × Route) → Act (Gateway call) ChatResult) (reply : Result ChatResponse)
      → ((l : Option (Error × Route)) → Keeps (later l))
      → Keeps (on_answer call r route later reply)
  unfolding on_answer
  on_answer-slots r route later (ok resp) keep s = after_answer-slots r route resp s
  on_answer-slots r route later (err e) keep s = keep (some (e, route)) _

  try_routes-slots :
      (r : Resolved) (routes : List Route) (last : Option (Error × Route))
      → Keeps (try_routes call r routes last)
  unfolding try_routes
  try_routes-slots r [] last s = all_failed-slots last s
  try_routes-slots r (route ∷ routes) last s = ground (
    arith,
    try_routes-slots r routes last s,
    on_answer-slots r route (try_routes call r routes)
        (call.answer route (resolve_deployment route)) (try_routes-slots r routes) s,
  )

  with_limits-slots : (routes : List Route) → Keeps (with_limits call routes)
  unfolding with_limits released
  with_limits-slots routes s =
      by_result
        (acquire_rate_limits call.redis call.uuid_string call.connected call.limits call.rc
          call.alias call.now s.store).0
        (acquire_rate_limits call.redis call.uuid_string call.connected call.limits call.rc
          call.alias call.now s.store).1
        (acquire_balanced call.redis up call.uuid_string call.connected call.limits call.rc
          call.alias name call.now s.store).0
    where
      by_result :
          (r : Result Grant) (t : call.redis.Store)
          → call.redis.counter (plain name) (settled call.redis up call.connected (r, t)) ≡ slots s
          → slots
              (handle
                (λ g u. released call g (try_routes call g.resolved routes none u))
                (λ e. fail (too_many "rate limit exceeded" e))
                r
                (record s { store = t })).1
            ≡ slots s
      by_result (ok g) t h =
          release_grant-slots call.redis up call.connected g name _ t
            (try_routes-slots g.resolved routes none (record s { store = t }))
          ∙ h
      by_result (err e) t h = h

  within_budget-slots :
      (routes : List Route) (status : BudgetStatus) → Keeps (within_budget call routes status)
  unfolding within_budget
  within_budget-slots routes status s = elim (Bool-cases status.exceeded) [
    | inl over ↦ rw over refl
    | inr under ↦ rw under (with_limits-slots routes s)
  ]

  chat_over-slots : (routes : List Route) → Keeps (chat_over call routes)
  unfolding chat_over
  chat_over-slots [] s = refl
  chat_over-slots (route ∷ routes) s =
      handle-slots (within_budget call (route ∷ routes)) fail
        (check_budget call.services.calendar call.services.atoi call.services.to_lower
          call.services.config call.rc call.now s.ledger.tables).0
        _ (within_budget-slots (route ∷ routes)) λ e t. refl

  -- While Redis answers, a chat completion leaves every slot counter as it found it, however it ends:
  -- refused by the budget or a limit, answered, failed by every provider, or unable to charge its
  -- tokens or record its usage.
  pub chat-slots : (s : Gateway call) → slots (chat call s).1 ≡ slots s
  unfolding chat
  chat-slots s = chat_over-slots (select_routes call.intn s.engine call.alias call.nanos) s
