-- ===== src/Auth/ApiKey.antt =====
-- auth/apikey.go, and splitAPIKey and the reading of the Authorization header in
-- httpserver/public/api_middleware.go. `lower` is unicode.ToLower on code points.
use Prim.Native.Char.{Char, code}
use open_model_gateway.Base.{
  ℕ, zero, suc, ◌≡◌, ◌<◌, String, ℤ, pos, is_pos, pos_part, Option, none, some, ◌==◌, string_eq,
  nat_eq, Result, ok, err, Error, Act, ◌>>=◌, return, fail, if◌then◌else◌, trim_space, ◌||◌, append,
}
use open_model_gateway.Usage.Budget.{strip_prefix}

-- rand.Int on rand.Reader: a number below n, or the reader's error.
pub record Random : Type 1 where
  pub Source : Type 0
  pub below : ℕ → Act Source ℕ
  pub below-lt : (n k : ℕ) (s : Source) → (below n s).0 ≡ ok k → k < n

abbrev pub alphabet : String
alphabet = "abcdefghijklmnopqrstuvwxyzABCDEFGHIJKLMNOPQRSTUVWXYZ0123456789"

abbrev pub size : String → ℕ
size String.[] = 0
size (String.◌∷◌ c s) = suc (size s)

-- s[i] of an ASCII text, `none` where Go panics.
unfoldable pub nth : String → ℕ → Option Char
nth String.[] i = none
nth (String.◌∷◌ c s) zero = some c
nth (String.◌∷◌ c s) (suc i) = nth s i

abbrev pub in_range {ℓ} : {S : Type ℓ} → Option Char → Act S Char
in_range none = fail (Error.message "index out of range")
in_range (some c) = return c

module _ (random : Random) where
  -- The loop of randomString.
  unfoldable pub random_chars : ℕ → Act random.Source String
  random_chars zero = return String.[]
  random_chars (suc n) = random.below (size alphabet) >>= λ k.
      in_range (nth alphabet k) >>= λ c. random_chars n >>= λ rest. return (String.◌∷◌ c rest)

  unfoldable pub random_string : ℤ → Act random.Source String
  random_string length =
      if is_pos length
      then random_chars (pos_part length)
      else fail (Error.message "length must be positive")

  -- The prefix, the secret and the token.
  unfoldable pub generate_api_key : Act random.Source (String × String × String)
  generate_api_key = random_string (pos 10) >>= λ prefix. random_string (pos 48) >>= λ secret.
      return (prefix, secret, append "sk-" (append prefix (append "." secret)))

abbrev pub with_head : Char → Option (String × String) → Option (String × String)
with_head c none = none
with_head c (some (before, after)) = some (String.◌∷◌ c before, after)

-- strings.SplitN(s, ".", 2), `none` when it gives one part.
unfoldable pub split_dot : String → Option (String × String)
split_dot String.[] = none
split_dot (String.◌∷◌ c s) =
    let rest = split_dot s in if code c == 46 then some (String.[], s) else with_head c rest

abbrev pub or_same : String → Option String → String
or_same s none = s
or_same s (some rest) = rest

-- strings.TrimPrefix
unfoldable pub trim_prefix : String → String → String
trim_prefix prefix s = or_same s (strip_prefix prefix s)

unfoldable pub check_parts : Option (String × String) → Result (String × String)
check_parts none = err (Error.message "api key format invalid")
check_parts (some (prefix, rest)) =
    let secret = trim_space rest in
    if prefix == "" || secret == ""
    then err (Error.message "api key format invalid")
    else ok (prefix, secret)

unfoldable pub split_api_key : String → Result (String × String)
split_api_key token =
    let without_prefix = trim_prefix "sk-" token in
    if token == ""
    then err (Error.message "api key required")
    else if without_prefix == token
    then err (Error.message "api key must start with sk-")
    else check_parts (split_dot without_prefix)

module _ (lower : ℕ → ℕ) where
  -- The rest of a text that starts with the prefix once its letters are lowered.
  unfoldable pub strip_lowered : String → String → Option String
  strip_lowered String.[] s = some s
  strip_lowered (String.◌∷◌ p prefix) String.[] = none
  strip_lowered (String.◌∷◌ p prefix) (String.◌∷◌ c s) =
      let rest = strip_lowered prefix s in if lower (code c) == code p then rest else none

  unfoldable pub bearer_key : Option String → Result (String × String)
  bearer_key none = err (Error.message "bearer token required")
  bearer_key (some rest) = split_api_key (trim_space rest)

  -- The prefix and the secret of an Authorization header; every error is a 401.
  unfoldable pub header_key : String → Result (String × String)
  header_key header =
      let raw = trim_space header in
      if raw == ""
      then err (Error.message "authorization header required")
      else bearer_key (strip_lowered "bearer " raw)
