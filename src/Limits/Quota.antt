-- ===== src/Limits/Quota.antt =====
-- Sequences of calls that fall into one window.
use open_model_gateway.Base.{
  ℕ, ◌+◌, ◌-◌, ◌/◌, ◌≡◌, ◌∙◌, ap, Bool, true, false, String, ℤ, pos, ◌+ℤ◌, ◌≤ℤ◌, ltb_ℤ, is_pos,
  Result, ok, err, Error, is_ok, arith, int_laws, if◌then◌else◌, List, [], ◌∷◌, All, length,
  Bool-cases, inl, inr,
}
use Prim.Native.Nat.{min}
use Prim.Native.String.{◌++◌}
use open_model_gateway.Limits.Redis.{Redis, window}
use open_model_gateway.Limits.Limiter.{LimitConfig, count_check, token_allowance, minute}
use open_model_gateway.Limits.Counters.{Up}
use open_model_gateway.Limits.Window.{count_check_lem, token_allowance_lem}

abbrev pub tally : Bool → ℕ → ℕ → ℕ
tally true n rest = n + rest
tally false n rest = rest

module _ (redis : Redis) where
  open redis use {Store}

  -- Calls of `count_check` at the given times: how many were admitted, and the store.
  unfoldable pub checks : String → ℕ → ℤ → List ℕ → Store → ℕ × Store
  checks key ttl limit [] s = (0, s)
  checks key ttl limit (now ∷ later) s =
      let r = count_check redis key ttl limit now s in
      let rest = checks key ttl limit later r.1 in (tally (is_ok r.0) 1 rest.0, rest.1)

  -- Calls of `token_allowance` as pairs of a time and a charge: the tokens admitted, and the store.
  unfoldable pub charges : String → LimitConfig → List (ℕ × ℕ) → Store → ℕ × Store
  charges key cfg [] s = (0, s)
  charges key cfg ((now, tokens) ∷ later) s =
      let r = token_allowance redis true key (pos tokens) cfg now s in
      let rest = charges key cfg later r.1 in (tally (is_ok r.0) tokens rest.0, rest.1)

pos_suc : (c : ℤ) (n : ℕ) → c ≡ pos n → c +ℤ pos 1 ≡ pos (n + 1)
unfolding ◌+ℤ◌
pos_suc c n e = rw e (ground arith)

judged :
    (r : Result (Unit {0})) (c c' limit : ℤ) (tokens : ℕ)
    → c' ≡ (if ltb_ℤ limit (c +ℤ pos tokens) then c else c +ℤ pos tokens)
    → r ≡ (if ltb_ℤ limit (c +ℤ pos tokens) then err Error.limit_exceeded else ok tt)
    → (c' ≡ c +ℤ pos (tally (is_ok r) tokens 0)) × (c ≤ℤ limit → c' ≤ℤ limit)
unfolding ◌+ℤ◌
judged r c c' limit tokens e f = elim (Bool-cases (ltb_ℤ limit (c +ℤ pos tokens))) [
  | inl over ↦ ground arith
  | inr fits ↦ ground arith
]

tally_add :
    (admitted : Bool) (c c₁ c₂ : ℤ) (n rest : ℕ)
    → c₁ ≡ c +ℤ pos (tally admitted n 0)
    → c₂ ≡ c₁ +ℤ pos rest
    → c₂ ≡ c +ℤ pos (tally admitted n rest)
tally_add true c c₁ c₂ n rest e f = rw (f, e) (omega int_laws)
tally_add false c c₁ c₂ n rest e f = rw (f, e) (omega int_laws)

module _ (redis : Redis) (up : Up redis) where
  open redis use {Store, counter}

  check_step :
      (key : String) (ttl limit m used now : ℕ) (s : Store)
      → now / ttl ≡ m
      → counter (window key m) s ≡ pos used
      → let r = count_check redis key ttl (pos limit) now s in
        (counter (window key m) r.1 ≡ pos (used + 1))
        × (r.0 ≡ (if ltb_ℤ (pos limit) (pos (used + 1)) then err Error.limit_exceeded else ok tt))
  check_step key ttl limit m used now s same e =
      let l = count_check_lem redis up key ttl (pos limit) now s in
      rw (same, pos_suc (counter (window key m) s) used e) at l

  charge_step :
      (key : String) (cfg : LimitConfig) (m now tokens : ℕ) (s : Store)
      → is_pos cfg.tokens_per_minute ≡ true
      → now / minute ≡ m
      → let k = window ("tpm:" ++ key) m in
        let r = token_allowance redis true key (pos tokens) cfg now s in
        (counter k r.1 ≡ counter k s +ℤ pos (tally (is_ok r.0) tokens 0))
        × (counter k s ≤ℤ cfg.tokens_per_minute → counter k r.1 ≤ℤ cfg.tokens_per_minute)
  charge_step key cfg m now tokens s h same =
      let k = window ("tpm:" ++ key) m in
      let c = counter k s in
      let r = token_allowance redis true key (pos tokens) cfg now s in
      let l = token_allowance_lem redis up key (pos tokens) cfg now s h in
      let l' = rw same at l in judged r.0 c (counter k r.1) cfg.tokens_per_minute tokens l'.0 l'.1

  -- While Redis answers, a window that holds `used` requests admits of the next calls exactly the
  -- first `limit - used`, and its counter counts all of them, the refused ones too.
  pub checks-exact :
      (key : String) (ttl limit m used : ℕ) (times : List ℕ) (s : Store)
      → All (λ now. now / ttl ≡ m) times
      → counter (window key m) s ≡ pos used
      → let r = checks redis key ttl (pos limit) times s in
        (r.0 ≡ min (length times) (limit - used))
        × (counter (window key m) r.1 ≡ pos (used + length times))
  unfolding checks
  checks-exact key ttl limit m used [] s same e = (omega arith, e ∙ ap pos (omega arith))
  checks-exact key ttl limit m used (now ∷ later) s same e =
      let first = check_step key ttl limit m used now s same.0 e in
      let s' = (count_check redis key ttl (pos limit) now s).1 in
      ground
        (arith, first.0, first.1, checks-exact key ttl limit m (used + 1) later s' same.1 first.0)

  -- While Redis answers, the counter of a minute grows by exactly the tokens that were admitted in
  -- it and never passes the limit, whatever charges are asked for.
  pub charges-within :
      (key : String) (cfg : LimitConfig) (m : ℕ) (asked : List (ℕ × ℕ)) (s : Store)
      → is_pos cfg.tokens_per_minute ≡ true
      → All (λ c. c.0 / minute ≡ m) asked
      → let k = window ("tpm:" ++ key) m in
        let r = charges redis key cfg asked s in
        (counter k r.1 ≡ counter k s +ℤ pos r.0)
        × (counter k s ≤ℤ cfg.tokens_per_minute → counter k r.1 ≤ℤ cfg.tokens_per_minute)
  unfolding charges
  charges-within key cfg m [] s h same = (omega int_laws, λ below. below)
  charges-within key cfg m ((now, tokens) ∷ later) s h same =
      let r = token_allowance redis true key (pos tokens) cfg now s in
      let first = charge_step key cfg m now tokens s h same.0 in
      let rest = charges-within key cfg m later r.1 h same.1 in
      (tally_add (is_ok r.0) _ _ _ tokens _ first.0 rest.0, λ below. rest.1 (first.1 below))
