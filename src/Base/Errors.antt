-- ===== src/Base/Errors.antt =====
-- Go's `error` values, and code that changes a state and may fail. A failure keeps the changes that
-- were made before it.
use Prim.Native.Nat.{ℕ}
use Prim.Native.String.{String}
use mathlib.Core.Path.{◌≡◌, refl}
use mathlib.Core.Bool.{Bool, true, false}
use mathlib.Core.Logic.{◌⊎◌, inl, inr}

-- `limit_exceeded` is limits.ErrLimitExceeded, `no_rows` is pgx.ErrNoRows, `api` is
-- executor.apiError, `message` any other error that the program makes, and `outside` an error of
-- Redis, the database or a provider.
pub data Error : Type 0 where
  limit_exceeded no_rows nil_pointer : Error
  api : ℕ → String → Error
  message : String → Error
  outside : String → Error

-- err.Error()
abbrev pub error_text : Error → String
error_text Error.limit_exceeded = "rate limit exceeded"
error_text Error.no_rows = "no rows in result set"
error_text Error.nil_pointer = "runtime error: invalid memory address or nil pointer dereference"
error_text (Error.api status msg) = msg
error_text (Error.message msg) = msg
error_text (Error.outside msg) = msg

-- errors.Is(err, limits.ErrLimitExceeded)
abbrev pub is_limit_exceeded : Error → Bool
is_limit_exceeded Error.limit_exceeded = true
is_limit_exceeded _ = false

-- A panic: no code that is modelled recovers from one.
abbrev pub is_panic : Error → Bool
is_panic Error.nil_pointer = true
is_panic _ = false

pub data Result {ℓ} (A : Type ℓ) : Type ℓ where
  ok : A → Result A
  err : Error → Result A

abbrev pub Act {ℓ κ} : Type ℓ → Type κ → Type (ℓ ⊔ κ)
Act S A = S → Result A × S

abbrev pub after {ℓ κ μ} :
    {S : Type ℓ} {A : Type κ} {B : Type μ} → (A → Act S B) → Result A → S → Result B × S
after f (ok a) s = f a s
after f (err e) s = (err e, s)

-- What a caller does with an error that it handles.
abbrev pub handle {ℓ κ μ} :
    {S : Type ℓ} {A : Type κ} {B : Type μ}
    → (A → Act S B)
    → (Error → Act S B)
    → Result A
    → S
    → Result B × S
handle f g (ok a) s = f a s
handle f g (err e) s = g e s

infixl 5 ◌>>=◌ ◌>>◌
abbrev pub ◌>>=◌ {ℓ κ μ} :
    {S : Type ℓ} {A : Type κ} {B : Type μ} → Act S A → (A → Act S B) → Act S B
◌>>=◌ m f s = after f (m s).0 (m s).1

abbrev pub ◌>>◌ {ℓ μ} : {S : Type ℓ} {B : Type μ} → Act S (Unit {0}) → Act S B → Act S B
m >> k = m >>= λ _. k

abbrev pub on_result {ℓ κ μ} :
    {S : Type ℓ} {A : Type κ} {B : Type μ} → Act S A → (A → Act S B) → (Error → Act S B) → Act S B
on_result m f g s = handle f g (m s).0 (m s).1

abbrev pub return {ℓ κ} : {S : Type ℓ} {A : Type κ} → A → Act S A
return a s = (ok a, s)

abbrev pub fail {ℓ κ} : {S : Type ℓ} {A : Type κ} → Error → Act S A
fail e s = (err e, s)

-- `_ = f()`: the error is dropped, and its changes stay.
abbrev pub ignore {ℓ κ} : {S : Type ℓ} {A : Type κ} → Act S A → Act S (Unit {0})
ignore m s = (ok tt, (m s).1)

abbrev pub is_ok {ℓ} : {A : Type ℓ} → Result A → Bool
is_ok (ok a) = true
is_ok (err e) = false

pub Result-cases {ℓ} :
    {A : Type ℓ} (r : Result A) → ((a : A) × (r ≡ ok a)) ⊎ ((e : Error) × (r ≡ err e))
Result-cases (ok a) = inl (a, refl)
Result-cases (err e) = inr (e, refl)
