-- ===== src/Limits/Slots.antt =====
-- Requests that share one semaphore key, one Redis call at a time, in any order.
use Prim.Native.Nat.{min}
use open_model_gateway.Base.{
  ℕ, zero, suc, ◌+◌, ◌-◌, ◌≤◌, ◌≡◌, refl, ◌∙◌, ap, subst, Bool, true, false, not, ◌&&◌, ℤ, pos,
  negsuc, ◌+ℤ◌, ◌≤ℤ◌, ltb_ℤ, Result, ok, err, Error, is_ok, arith, if◌then◌else◌, Bool-cases, inl,
  inr, ◌⊎◌, ◌<◌,
}
use open_model_gateway.Limits.Redis.{Redis, RedisKey}
use open_model_gateway.Limits.Limiter.{semaphore_acquire, expire_if, equals}
use open_model_gateway.Limits.Counters.{Up, incr_by-ok}
use open_model_gateway.Limits.Semaphore.{shift, semaphore_acquire_lem, key_beq_refl}

-- `inside` requests hold a slot; `refused` requests were over the limit and have their DECR to do.
pub record Slots (redis : Redis) : Type 0 where
  pub store : redis.Store
  pub inside : ℕ
  pub refused : ℕ

module _ (redis : Redis) (k : RedisKey) (max : ℤ) where
  open redis use {Store, counter, incr_by, counter-expire, counter-lapse, lapse}

  -- One Redis call of `semaphore_acquire` or `semaphore_release` that Redis answers. `other` is any
  -- change of the store that leaves the key alone; no key lapses.
  pub data Step (s : Slots redis) : Slots redis → Type 0 where
    admit :
        {cnt : ℤ}
        → (incr_by k (pos 1) s.store).0 ≡ ok cnt
        → ltb_ℤ max cnt ≡ false
        → Step s (record s { store = (incr_by k (pos 1) s.store).1; inside = s.inside + 1 })
    refuse :
        {cnt : ℤ}
        → (incr_by k (pos 1) s.store).0 ≡ ok cnt
        → ltb_ℤ max cnt ≡ true
        → Step s (record s { store = (incr_by k (pos 1) s.store).1; refused = s.refused + 1 })
    undo :
        {v : ℤ}
        → 0 < s.refused
        → (incr_by k (negsuc 0) s.store).0 ≡ ok v
        → Step s (record s { store = (incr_by k (negsuc 0) s.store).1; refused = s.refused - 1 })
    leave :
        {v : ℤ}
        → 0 < s.inside
        → (incr_by k (negsuc 0) s.store).0 ≡ ok v
        → Step s (record s { store = (incr_by k (negsuc 0) s.store).1; inside = s.inside - 1 })
    other : (t : Store) → counter k t ≡ counter k s.store → Step s (record s { store = t })

  pub data Reach (s : Slots redis) : Slots redis → Type 0 where
    here : Reach s s
    next : {t u : Slots redis} → Reach s t → Step t u → Reach s u

  pub record Inv (s : Slots redis) : Type 0 where
    pub counted : counter k s.store ≡ pos (s.inside + s.refused)
    pub bounded : pos s.inside ≤ℤ max

module _ (redis : Redis) (k : RedisKey) (max : ℤ) where
  open redis use {Store, counter, incr_by, counter-expire, incr_by-value}

  Step-Inv : {s t : Slots redis} → Step redis k max s t → Inv redis k max s → Inv redis k max t
  unfolding ◌+ℤ◌
  Step-Inv {s} (admit e fits) v = ground (arith, incr_by-value k (pos 1) s.store e)
  Step-Inv {s} (refuse e over) v = ground (arith, incr_by-value k (pos 1) s.store e)
  Step-Inv {s} (undo h e) v = ground (arith, incr_by-value k (negsuc 0) s.store e)
  Step-Inv {s} (leave h e) v = ground (arith, incr_by-value k (negsuc 0) s.store e)
  Step-Inv (other t e) v = record { counted = e ∙ v.counted; bounded = v.bounded }

  -- However the Redis calls of any number of requests interleave, if at the start at most `max`
  -- requests hold a slot and the counter is the number of holders and of refusals not yet undone,
  -- both stay so, as long as the key does not lapse.
  pub Reach-Inv :
      {s t : Slots redis} → Inv redis k max s → Reach redis k max s t → Inv redis k max t
  Reach-Inv v here = v
  Reach-Inv v (next r st) = Step-Inv st (Reach-Inv v r)

  Reach-trans :
      {s t u : Slots redis} → Reach redis k max s t → Reach redis k max t u → Reach redis k max s u
  Reach-trans r here = r
  Reach-trans r (next r' st) = next (Reach-trans r r') st

  expire-Reach :
      (s : Slots redis) (fresh : Bool)
      → Reach redis k max s (record s { store = (expire_if redis fresh k 300 s.store).1 })
  expire-Reach s true = next here (other _ (counter-expire k k 300 s.store))
  expire-Reach s false = here

abbrev pub entered : Bool → ℕ → ℕ
entered true n = n + 1
entered false n = n

module _ (redis : Redis) (up : Up redis) (k : RedisKey) (max : ℤ) where
  open redis use {Store, counter, incr_by, lapse, counter-lapse}

  -- While Redis answers, a whole call of `semaphore_acquire` is a run of the system: it ends with
  -- one more holder or with none, and with no refusal left to undo.
  pub acquire-Reach :
      (s : Slots redis)
      → let r = semaphore_acquire redis k max s.store in
        Reach redis k max s
          (record { store = r.1; inside = entered (is_ok r.0) s.inside; refused = s.refused })
  unfolding semaphore_acquire
  acquire-Reach s =
      let e = incr_by-ok redis up k (pos 1) s.store in
      let cnt = counter k s.store +ℤ pos 1 in
      elim (Bool-cases (ltb_ℤ max cnt)) [
        | inl over ↦
            let s₁ = record s { store = (incr_by k (pos 1) s.store).1; refused = s.refused + 1 } in
            let s₂ = (expire_if redis (equals cnt (pos 1)) k 300 s₁.store).1 in
            let counted =
              Reach-trans redis k max (next here (refuse e over))
                (expire-Reach redis k max s₁ (equals cnt (pos 1))) in
            let undone = next counted (undo (omega arith) (incr_by-ok redis up k (negsuc 0) s₂)) in
            let back : s.refused + 1 - 1 ≡ s.refused = omega arith in
            rw (e, over)
              (subst
                (λ n.
                  Reach redis k max s (record {
                    store = (incr_by k (negsuc 0) s₂).1;
                    inside = s.inside;
                    refused = n;
                  }))
                back undone)
        | inr fits ↦
            let s₁ = record s { store = (incr_by k (pos 1) s.store).1; inside = s.inside + 1 } in
            rw (e, fits)
              (Reach-trans redis k max (next here (admit e fits))
                (expire-Reach redis k max s₁ (equals cnt (pos 1))))
      ]

-- `n` calls of `semaphore_acquire` one after the other: how many got a slot, and the store.
unfoldable pub acquires : (redis : Redis) → RedisKey → ℤ → ℕ → redis.Store → ℕ × redis.Store
acquires redis k max zero s = (0, s)
acquires redis k max (suc n) s =
    let r = semaphore_acquire redis k max s in
    let rest = acquires redis k max n r.1 in (entered (is_ok r.0) rest.0, rest.1)

slot_taken :
    (used max : ℕ) (r : Result (Unit {0})) (c : ℤ)
    → r ≡ (if ltb_ℤ (pos max) (pos used +ℤ pos 1) then err Error.limit_exceeded else ok tt)
    → c ≡ (if ltb_ℤ (pos max) (pos used +ℤ pos 1) then pos used else pos used +ℤ pos 1)
    → ((used < max) × (is_ok r ≡ true) × (c ≡ pos (used + 1)))
      ⊎ ((max ≤ used) × (is_ok r ≡ false) × (c ≡ pos used))
unfolding ◌+ℤ◌
slot_taken used max r c e f = ground arith

shift-not :
    (over : Bool) (c : ℤ) → shift (not over && true) (pos 1) c ≡ (if over then c else c +ℤ pos 1)
shift-not true c = refl
shift-not false c = refl

module _ (redis : Redis) (up : Up redis) (k : RedisKey) where
  open redis use {Store, counter, incr_by, lapse, counter-lapse}

  first_acquire :
      (max used : ℕ) (s : Store)
      → counter k s ≡ pos used
      → let r = semaphore_acquire redis k (pos max) s in
        ((used < max) × (is_ok r.0 ≡ true) × (counter k r.1 ≡ pos (used + 1)))
        ⊎ ((max ≤ used) × (is_ok r.0 ≡ false) × (counter k r.1 ≡ pos used))
  first_acquire max used s e =
      let l = semaphore_acquire_lem redis up k k (pos max) s in
      let l' = rw (e, key_beq_refl k) at l in
      slot_taken used max _ _ l'.0
        (l'.1 ∙ shift-not (ltb_ℤ (pos max) (pos used +ℤ pos 1)) (pos used))

  -- While Redis answers, with `used` slots counted, the next calls get a slot until `max` are
  -- taken, and the counter says how many are.
  pub acquires-exact :
      (max used n : ℕ) (s : Store)
      → counter k s ≡ pos used
      → let r = acquires redis k (pos max) n s in
        (r.0 ≡ min n (max - used)) × (counter k r.1 ≡ pos (used + r.0))
  unfolding acquires
  acquires-exact max used zero s e = (omega arith, e ∙ ap pos (omega arith))
  acquires-exact max used (suc n) s e =
      let s' = (semaphore_acquire redis k (pos max) s).1 in
      elim (first_acquire max used s e) [
        | inl (room, taken, c) ↦ ground (arith, acquires-exact max (used + 1) n s' c)
        | inr (full, missed, c) ↦ ground (arith, acquires-exact max used n s' c)
      ]
