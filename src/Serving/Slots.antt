-- ===== src/Serving/Slots.antt =====
-- The slot counters around the guards.
use open_model_gateway.Base.{
  ℤ, ◌≡◌, refl, ap, ◌∙◌, String, Bool, true, false, Result, ok, err, Error, Act, ◌>>=◌, return,
  on_result, ignore, is_pos, bind-Post, on_result-Post, some, none, if◌then◌else◌, handle,
}
use open_model_gateway.RequestContext.{RequestContext}
use open_model_gateway.Limits.Redis.{plain}
use open_model_gateway.Limits.Limiter.{LimitConfig, token_allowance}
use open_model_gateway.Limits.Counters.{Up}
use open_model_gateway.App.Acquire.{Resolved, Grant, acquire_rate_limits}
use open_model_gateway.App.Leases.{settled, acquire_balanced}
use open_model_gateway.Usage.Budget.{BudgetStatus}
use open_model_gateway.Executor.Chat.{on_store, released}
use open_model_gateway.Executor.Slots.{
  slots, chat-slots, token_allowance-plain, release_grant-slots,
}
use open_model_gateway.Serving.Node.{
  Node, Site, ChatRequest, on_gateway, chat_call, to_call, run_chat,
}
use open_model_gateway.Serving.Guards.{
  note, check_budget_of, failed_record, charge_both, budgeted, limited, leave, Held, on_site,
  release_now, close, limited_early,
}

module _ (node : Node) (up : Up node.call.redis) (name : String) where
  -- The slot counter of a name.
  abbrev pub slots_of : Site node → ℤ
  slots_of s = slots node.call up name s.gateway

  -- The code leaves the slot counter as it was.
  abbrev pub Preserves : {A : Type 0} → Act (Site node) A → Type 0
  Preserves run = (s : Site node) → slots_of (run s).1 ≡ slots_of s

  module _ {A B : Type 0} where
    pub bind-Preserves :
        (m : Act (Site node) A) (f : A → Act (Site node) B)
        → Preserves m
        → ((a : A) → Preserves (f a))
        → Preserves (m >>= f)
    bind-Preserves m f first later s =
        bind-Post (λ r t. slots_of t ≡ slots_of s) (λ r t. slots_of t ≡ slots_of s) m f s (first s)
          (λ a t h. later a t ∙ h) (λ e t h. h)

    pub on_result-Preserves :
        (m : Act (Site node) A) (f : A → Act (Site node) B) (g : Error → Act (Site node) B)
        → Preserves m
        → ((a : A) → Preserves (f a))
        → ((e : Error) → Preserves (g e))
        → Preserves (on_result m f g)
    on_result-Preserves m f g first good bad s =
        on_result-Post (λ r t. slots_of t ≡ slots_of s) (λ r t. slots_of t ≡ slots_of s) m f g s
          (first s) (λ a t h. good a t ∙ h) (λ e t h. bad e t ∙ h)

  pub if-Preserves :
      {A : Type 0} (b : Bool) (m n : Act (Site node) A)
      → Preserves m
      → Preserves n
      → Preserves (if b then m else n)
  if-Preserves true m n p q = p
  if-Preserves false m n p q = q

  charge-Preserves :
      (key : String) (tokens : ℤ) (cfg : LimitConfig)
      → Preserves (
          on_gateway node (
            on_store node.call
              (token_allowance node.call.redis node.call.connected key tokens cfg node.call.now)))
  charge-Preserves key tokens cfg s =
      token_allowance-plain node.call.redis up node.call.connected key name tokens cfg node.call.now
        s.gateway.store

  pub charge_both-Preserves : (r : Resolved) (tokens : ℤ) → Preserves (charge_both node r tokens)
  unfolding charge_both
  charge_both-Preserves r tokens =
      if-Preserves (is_pos tokens) _ (return tt)
        (bind-Preserves _ _ (charge-Preserves r.key_key tokens r.key_cfg)
          (λ _. charge-Preserves r.tenant_key tokens r.tenant_cfg))
        (λ s. refl)

  pub run_chat-Preserves :
      (rc : RequestContext) (alias : String) (req : ChatRequest) (key : String)
      → Preserves (on_gateway node (run_chat node rc alias req key))
  unfolding run_chat
  run_chat-Preserves rc alias req key s =
      chat-slots (chat_call node rc alias req key) up name (to_call node rc alias req key s.gateway)

  module _ {B : Type 0} where
    pub budgeted-Preserves :
        (rc : RequestContext) (alias : String) (unknown : Error → Act (Site node) B)
        (over within : BudgetStatus → Act (Site node) B)
        → ((e : Error) → Preserves (unknown e))
        → ((status : BudgetStatus) → Preserves (over status))
        → ((status : BudgetStatus) → Preserves (within status))
        → Preserves (budgeted node rc alias unknown over within)
    unfolding budgeted
    budgeted-Preserves rc alias unknown over within p q r =
        on_result-Preserves (check_budget_of node rc) _ unknown (λ s. refl)
          (λ status.
            if-Preserves status.exceeded _ (within status)
              (bind-Preserves
                (ignore (note node (failed_record node rc alias "budget" _ _ "budget_exceeded")))
                (λ _. over status) (λ s. refl) (λ _. q status))
              (r status))
          p

    -- What is acquired is released, however the body ends.
    pub limited-Preserves :
        (rc : RequestContext) (alias : String) (refused : Error → Act (Site node) B)
        (body : Resolved → Act (Site node) B)
        → ((e : Error) → Preserves (refused e))
        → ((r : Resolved) → Preserves (body r))
        → Preserves (limited node rc alias refused body)
    unfolding limited released
    limited-Preserves rc alias refused body p q s =
        by_result
          (acquire_rate_limits node.call.redis node.call.uuid_string node.call.connected
            node.call.limits (some rc) alias node.call.now s.gateway.store).0
          (acquire_rate_limits node.call.redis node.call.uuid_string node.call.connected
            node.call.limits (some rc) alias node.call.now s.gateway.store).1
          (acquire_balanced node.call.redis up node.call.uuid_string node.call.connected
            node.call.limits (some rc) alias name node.call.now s.gateway.store).0
      where
        by_result :
            (r : Result Grant) (t : node.call.redis.Store)
            → node.call.redis.counter
                (plain name)
                (settled node.call.redis up node.call.connected (r, t))
              ≡ slots_of s
            → slots_of
                (handle
                  (λ g u. leave node g (body g.resolved u))
                  refused
                  r
                  (record s { gateway = record s.gateway { store = t } })).1
              ≡ slots_of s
        by_result (ok g) t h =
            release_grant-slots node.call.redis up node.call.connected g name _ t
              (q g.resolved (record s { gateway = record s.gateway { store = t } }))
            ∙ h
        by_result (err e) t h = p e _ ∙ h

  -- The slot counter once the closure of a handler's grant has been called by defer.
  abbrev pub settled_of : Held node → ℤ
  settled_of h = slots_of (release_now node h).1.site

  -- The code leaves that counter as it was.
  abbrev pub Steady : {A : Type 0} → Act (Held node) A → Type 0
  Steady run = (h : Held node) → settled_of (run h).1 ≡ settled_of h

  module _ {A B : Type 0} where
    pub bind-Steady :
        (m : Act (Held node) A) (f : A → Act (Held node) B)
        → Steady m
        → ((a : A) → Steady (f a))
        → Steady (m >>= f)
    bind-Steady m f first later h =
        bind-Post (λ r t. settled_of t ≡ settled_of h) (λ r t. settled_of t ≡ settled_of h) m f h
          (first h) (λ a t e. later a t ∙ e) (λ x t e. e)

    pub on_result-Steady :
        (m : Act (Held node) A) (f : A → Act (Held node) B) (g : Error → Act (Held node) B)
        → Steady m
        → ((a : A) → Steady (f a))
        → ((e : Error) → Steady (g e))
        → Steady (on_result m f g)
    on_result-Steady m f g first good bad h =
        on_result-Post (λ r t. settled_of t ≡ settled_of h) (λ r t. settled_of t ≡ settled_of h) m f
          g h (first h) (λ a t e. good a t ∙ e) (λ x t e. bad x t ∙ e)

  module _ {A : Type 0} where
    pub if-Steady :
        (b : Bool) (m n : Act (Held node) A) → Steady m → Steady n → Steady (if b then m else n)
    if-Steady true m n p q = p
    if-Steady false m n p q = q

    pub on_site-Steady : (run : Act (Site node) A) → Preserves run → Steady (on_site node run)
    unfolding release_now
    on_site-Steady run p h =
        release_grant-slots node.call.redis up node.call.connected h.grant name _ _ (p h.site)

  -- A second call of the closure changes nothing.
  pub release_now-Steady : Steady (release_now node)
  unfolding release_now
  release_now-Steady h =
      ap (λ w. node.call.redis.counter (plain name) w.1)
        ((acquire_balanced node.call.redis up node.call.uuid_string node.call.connected
            node.call.limits none "" name node.call.now h.site.gateway.store).1
          h.grant h.site.gateway.store)

  module _ {B : Type 0} where
    -- What is acquired is released, whether or not the body has called the closure itself.
    pub limited_early-Preserves :
        (rc : RequestContext) (alias : String) (refused : Error → Act (Site node) B)
        (body : Resolved → Act (Held node) B)
        → ((e : Error) → Preserves (refused e))
        → ((r : Resolved) → Steady (body r))
        → Preserves (limited_early node rc alias refused body)
    unfolding limited_early release_now
    limited_early-Preserves rc alias refused body p q s =
        by_result
          (acquire_rate_limits node.call.redis node.call.uuid_string node.call.connected
            node.call.limits (some rc) alias node.call.now s.gateway.store).0
          (acquire_rate_limits node.call.redis node.call.uuid_string node.call.connected
            node.call.limits (some rc) alias node.call.now s.gateway.store).1
          (acquire_balanced node.call.redis up node.call.uuid_string node.call.connected
            node.call.limits (some rc) alias name node.call.now s.gateway.store).0
      where
        by_result :
            (r : Result Grant) (t : node.call.redis.Store)
            → node.call.redis.counter
                (plain name)
                (settled node.call.redis up node.call.connected (r, t))
              ≡ slots_of s
            → slots_of
                (handle
                  (λ g u. close node (body g.resolved (record { site = u; grant = g })))
                  refused
                  r
                  (record s { gateway = record s.gateway { store = t } })).1
              ≡ slots_of s
        by_result (ok g) t h =
            q g.resolved
              (record { site = record s { gateway = record s.gateway { store = t } }; grant = g })
            ∙ h
        by_result (err e) t h = p e _ ∙ h
