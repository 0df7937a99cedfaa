-- ===== src/Auth/RoundTrip.antt =====
-- A generated API key is read back from the header that carries it.
use Prim.Native.Char.{Char, code}
use open_model_gateway.Base.{
  ℕ, zero, suc, ◌+◌, ◌≡◌, ◌≢◌, ◌<◌, refl, ap, ◌∙◌, String, true, false, Option, none, some, ◌==◌,
  string_eq, nat_eq, ◌&&◌, Result, ok, err, Act, ◌>>=◌, after, return, if◌then◌else◌, trim_space,
  append, is_space, leb, trim_left, trim_right, arith, Bool-cases, inl, inr, beq_refl,
}
use text.Mathlib.TextEquality.{eq_iff}
use open_model_gateway.Usage.Budget.{strip_prefix}
use open_model_gateway.Auth.ApiKey.{
  Random, alphabet, size, nth, in_range, random_chars, random_string, generate_api_key, split_dot,
  trim_prefix, check_parts, split_api_key, strip_lowered, bearer_key, header_key,
}
use open_model_gateway.Auth.Words.{
  is_plain, plain_text, alphabet-plain, nth-plain, nth-lt, spaceless, plain-spaceless,
  spaceless-append, trim_space-spaceless, trim_right-append,
}

-- The text before a dot is split off.
split_dot-append :
    (s t : String) → plain_text s ≡ true → split_dot (append s (append "." t)) ≡ some (s, t)
unfolding split_dot plain_text is_plain
split_dot-append String.[] t p = refl
split_dot-append (String.◌∷◌ c s) t p = rw (not_dot, split_dot-append s t (ground arith)) refl
  where
    not_dot : (code c == 46) ≡ false
    not_dot = ground arith

strip_prefix-append : (p s : String) → strip_prefix p (append p s) ≡ some s
unfolding strip_prefix
strip_prefix-append String.[] s = refl
strip_prefix-append (String.◌∷◌ c p) s = rw (beq_refl (code c)) (strip_prefix-append p s)

-- What random_chars gives when the source answers.
Drawn : (random : Random) → ℕ → Result String × random.Source → Type 0
Drawn random n (ok t, s) = (plain_text t ≡ true) × (size t ≡ n)
Drawn random n (err e, s) = (u : random.Source) × ((random.below 62 u).0 ≡ err e)

module _ (random : Random) where
  random_chars-Drawn : (n : ℕ) (s : random.Source) → Drawn random n (random_chars random n s)
  unfolding random_chars plain_text Drawn
  random_chars-Drawn zero s = (refl, refl)
  random_chars-Drawn (suc n) s =
      by_draw (random_chars-Drawn n) (random.below 62 s).0 (random.below 62 s).1 refl
    where
      more : Char → Act random.Source String
      more c = random_chars random n >>= λ rest. return (String.◌∷◌ c rest)

      by_rest :
          (c : Char) (r : Result String) (u : random.Source)
          → is_plain (code c) ≡ true
          → Drawn random n (r, u)
          → Drawn random (suc n) (after (λ rest. return (String.◌∷◌ c rest)) r u)
      by_rest c (ok t) u p h = (rw (p, h.0) refl, ap suc h.1)
      by_rest c (err e) u p h = h

      by_char :
          (ih : (u : random.Source) → Drawn random n (random_chars random n u)) (o : Option Char)
          (u : random.Source)
          → ((c : Char) → o ≡ some c → is_plain (code c) ≡ true)
          → ((c : Char) × (o ≡ some c))
          → Drawn random (suc n) ((in_range o >>= more) u)
      by_char ih none u p h = ground arith
      by_char ih (some c) u p h =
          by_rest c (random_chars random n u).0 (random_chars random n u).1 (p c refl) (ih u)

      by_draw :
          (ih : (u : random.Source) → Drawn random n (random_chars random n u)) (r : Result ℕ)
          (u : random.Source)
          → (random.below 62 s).0 ≡ r
          → Drawn random (suc n) (after (λ k. in_range (nth alphabet k) >>= more) r u)
      by_draw ih (ok k) u h =
          by_char ih (nth alphabet k) u (λ c e. nth-plain alphabet k c alphabet-plain e)
            (nth-lt alphabet k (random.below-lt 62 k s h))
      by_draw ih (err e) u h = (s, h)

differs_by_size : (s t : String) → size s ≢ size t → (s == t) ≡ false
differs_by_size s t h = elim (Bool-cases (s == t)) [
  | inl e ↦ elim (h (ap size ((eq_iff s t).0 e))) [ ]
  | inr e ↦ e
]

-- The token of a prefix and a secret.
abbrev token_of : String → String → String
token_of prefix secret = append "sk-" (append prefix (append "." secret))

split_api_key-token :
    (prefix secret : String)
    → plain_text prefix ≡ true
    → plain_text secret ≡ true
    → 0 < size prefix
    → 0 < size secret
    → split_api_key (token_of prefix secret) ≡ ok (prefix, secret)
unfolding split_api_key trim_prefix check_parts
split_api_key-token prefix secret p q m n =
    rw
      (
        differs_by_size (token_of prefix secret) "" (λ e. omega (arith, e)),
        strip_prefix-append "sk-" (append prefix (append "." secret)),
        differs_by_size (append prefix (append "." secret)) (token_of prefix secret)
            (λ e. omega (arith, e)),
        split_dot-append prefix secret p,
        trim_space-spaceless secret (plain-spaceless secret q),
        differs_by_size prefix "" (λ e. omega (arith, e)),
        differs_by_size secret "" (λ e. omega (arith, e)),
      )
      refl

-- unicode.ToLower on the ASCII letters.
abbrev pub LowersAscii : (ℕ → ℕ) → Type 0
LowersAscii lower = (c : ℕ) → c < 128 → lower c ≡ (if leb 65 c && leb c 90 then c + 32 else c)

module _ (lower : ℕ → ℕ) (ascii : LowersAscii lower) where
  strip_lowered-bearer : (s : String) → strip_lowered lower "bearer " (append "Bearer " s) ≡ some s
  unfolding strip_lowered
  strip_lowered-bearer s =
      rw
        (
          ascii 66 (omega arith),
          ascii 101 (omega arith),
          ascii 97 (omega arith),
          ascii 114 (omega arith),
          ascii 32 (omega arith),
        )
        refl

  trim_left-bearer : (s : String) → trim_left (append "Bearer " s) ≡ append "Bearer " s
  unfolding trim_left is_space
  trim_left-bearer s = refl

  token-spaceless :
      (prefix secret : String)
      → plain_text prefix ≡ true
      → plain_text secret ≡ true
      → spaceless (token_of prefix secret) ≡ true
  unfolding spaceless is_space
  token-spaceless prefix secret p q =
      spaceless-append "sk-" (append prefix (append "." secret)) sk (
        spaceless-append prefix (append "." secret) (plain-spaceless prefix p)
          (spaceless-append "." secret dot (plain-spaceless secret q)))
    where
      sk : spaceless "sk-" ≡ true
      sk = refl

      dot : spaceless "." ≡ true
      dot = refl

  header_key_lem :
      (header raw : String)
      → trim_space header ≡ raw
      → (raw == "") ≡ false
      → header_key lower header ≡ bearer_key lower (strip_lowered lower "bearer " raw)
  unfolding header_key
  header_key_lem header raw h e = rw (h, e) refl

  trim_space-bearer :
      (prefix secret : String)
      → plain_text prefix ≡ true
      → plain_text secret ≡ true
      → trim_space (append "Bearer " (token_of prefix secret))
        ≡ append "Bearer " (token_of prefix secret)
  unfolding trim_space
  trim_space-bearer prefix secret p q =
      ap trim_right (trim_left-bearer (token_of prefix secret))
      ∙ trim_right-append "Bearer " "s" (append "k-" (append prefix (append "." secret)))
          (token-spaceless prefix secret p q)

  header_key-token :
      (prefix secret : String)
      → plain_text prefix ≡ true
      → plain_text secret ≡ true
      → 0 < size prefix
      → 0 < size secret
      → header_key lower (append "Bearer " (token_of prefix secret)) ≡ ok (prefix, secret)
  unfolding bearer_key
  header_key-token prefix secret p q m n =
      header_key_lem (append "Bearer " (token_of prefix secret)) _
        (trim_space-bearer prefix secret p q)
        (differs_by_size (append "Bearer " (token_of prefix secret)) "" (λ e. omega (arith, e)))
      ∙ ap (bearer_key lower) (strip_lowered-bearer (token_of prefix secret))
      ∙ ap split_api_key
          (trim_space-spaceless (token_of prefix secret) (token-spaceless prefix secret p q))
      ∙ split_api_key-token prefix secret p q m n

  module _ (random : Random) where
    -- What a new key gives.
    abbrev pub IsReadBack : Result (String × String × String) × random.Source → Type 0
    IsReadBack (ok (prefix, secret, token), s) =
        (size prefix ≡ 10)
        × (size secret ≡ 48)
        × (split_api_key token ≡ ok (prefix, secret))
        × (header_key lower (append "Bearer " token) ≡ ok (prefix, secret))
    IsReadBack (err e, s) = (u : random.Source) × ((random.below 62 u).0 ≡ err e)

    -- A generated key has a prefix of ten characters and a secret of 48, splitAPIKey splits its token into
    -- these two, and so does the middleware's reading of the Authorization header "Bearer " followed
    -- by the token; generating fails only with an error of the random source.
    pub generate_api_key-roundtrip : (s : random.Source) → IsReadBack (generate_api_key random s)
    unfolding generate_api_key random_string Drawn
    generate_api_key-roundtrip s =
        by_prefix (random_chars random 10 s).0 (random_chars random 10 s).1
          (random_chars-Drawn random 10 s)
      where
        by_secret :
            (prefix : String) (r : Result String) (u : random.Source)
            → Drawn random 10 (ok prefix, u)
            → Drawn random 48 (r, u)
            → IsReadBack (
                after
                  (λ secret.
                    return (prefix, secret, append "sk-" (append prefix (append "." secret))))
                  r
                  u)
        by_secret prefix (ok secret) u p q = (
          p.1,
          q.1,
          split_api_key-token prefix secret p.0 q.0 (omega (arith, p.1)) (omega (arith, q.1)),
          header_key-token prefix secret p.0 q.0 (omega (arith, p.1)) (omega (arith, q.1)),
        )
        by_secret prefix (err e) u p q = q

        by_prefix :
            (r : Result String) (u : random.Source)
            → Drawn random 10 (r, u)
            → IsReadBack (
                after
                  (λ prefix. random_chars random 48 >>= λ secret.
                    return (prefix, secret, append "sk-" (append prefix (append "." secret))))
                  r
                  u)
        by_prefix (ok prefix) u p =
            by_secret prefix (random_chars random 48 u).0 (random_chars random 48 u).1 p
              (random_chars-Drawn random 48 u)
        by_prefix (err e) u p = p
