-- ===== src/Auth/Words.antt =====
-- Texts of key characters: neither a dot nor white space is among them, so trimming keeps them.
use Prim.Native.Char.{Char, code}
use open_model_gateway.Base.{
  ℕ, zero, suc, ◌+◌, ◌≡◌, ◌<◌, refl, String, Bool, true, false, some, ◌==◌, string_eq, nat_eq, ◌&&◌,
  not, trim_space, append, is_space, trim_left, trim_right, arith,
}
use open_model_gateway.Auth.ApiKey.{alphabet, size, nth}

-- Neither a dot nor white space.
unfoldable pub is_plain : ℕ → Bool
is_plain n = not (n == 46) && not (is_space n)

unfoldable pub plain_text : String → Bool
plain_text String.[] = true
plain_text (String.◌∷◌ c s) = is_plain (code c) && plain_text s

pub alphabet-plain : plain_text alphabet ≡ true
unfolding plain_text is_plain is_space
alphabet-plain = refl

pub nth-plain :
    (s : String) (k : ℕ) (c : Char)
    → plain_text s ≡ true
    → nth s k ≡ some c
    → is_plain (code c) ≡ true
unfolding nth plain_text
nth-plain String.[] k c p h = ground arith
nth-plain (String.◌∷◌ d s) zero c p h = ground arith
nth-plain (String.◌∷◌ d s) (suc k) c p h = nth-plain s k c (ground arith) h

pub nth-lt : (s : String) (k : ℕ) → k < size s → (c : Char) × (nth s k ≡ some c)
unfolding nth
nth-lt String.[] k h = ground arith
nth-lt (String.◌∷◌ d s) zero h = (d, refl)
nth-lt (String.◌∷◌ d s) (suc k) h = nth-lt s k (omega arith)

unfoldable pub spaceless : String → Bool
spaceless String.[] = true
spaceless (String.◌∷◌ c s) = not (is_space (code c)) && spaceless s

pub plain-spaceless : (s : String) → plain_text s ≡ true → spaceless s ≡ true
unfolding plain_text spaceless is_plain
plain-spaceless String.[] p = refl
plain-spaceless (String.◌∷◌ c s) p = ground (arith, plain-spaceless s)

pub spaceless-append :
    (s t : String) → spaceless s ≡ true → spaceless t ≡ true → spaceless (append s t) ≡ true
unfolding spaceless
spaceless-append String.[] t p q = q
spaceless-append (String.◌∷◌ c s) t p q = ground (arith, spaceless-append s t)

pub trim_left-spaceless : (s : String) → spaceless s ≡ true → trim_left s ≡ s
unfolding trim_left spaceless
trim_left-spaceless String.[] p = refl
trim_left-spaceless (String.◌∷◌ c s) p = ground arith

pub size-append : (s t : String) → size (append s t) ≡ size s + size t
size-append String.[] t = omega arith
size-append (String.◌∷◌ c s) t = omega (arith, size-append s t)

trim_right-cons :
    (c d : Char) (s t : String)
    → trim_right s ≡ String.◌∷◌ d t
    → trim_right (String.◌∷◌ c s) ≡ String.◌∷◌ c (String.◌∷◌ d t)
unfolding trim_right
trim_right-cons c d s t h = rw h refl

trim_right_nil : trim_right String.[] ≡ String.[]
unfolding trim_right
trim_right_nil = refl

trim_right_one :
    (c : Char)
    → is_space (code c) ≡ false
    → trim_right (String.◌∷◌ c String.[]) ≡ String.◌∷◌ c String.[]
unfolding trim_right
trim_right_one c h = rw h refl

pub trim_right-spaceless : (s : String) → spaceless s ≡ true → trim_right s ≡ s
unfolding spaceless
trim_right-spaceless String.[] p = trim_right_nil
trim_right-spaceless (String.◌∷◌ c String.[]) p = trim_right_one c (ground arith)
trim_right-spaceless (String.◌∷◌ c (String.◌∷◌ d s)) p =
    trim_right-cons c d (String.◌∷◌ d s) s (trim_right-spaceless (String.◌∷◌ d s) (ground arith))

pub trim_space-spaceless : (s : String) → spaceless s ≡ true → trim_space s ≡ s
unfolding trim_space
trim_space-spaceless s p = rw (trim_left-spaceless s p) (trim_right-spaceless s p)

-- A text that ends in a word is not cut.
pub trim_right-append :
    (p : String) (c : Char) (s : String)
    → spaceless (String.◌∷◌ c s) ≡ true
    → trim_right (append p (String.◌∷◌ c s)) ≡ append p (String.◌∷◌ c s)
trim_right-append String.[] c s h = trim_right-spaceless (String.◌∷◌ c s) h
trim_right-append (String.◌∷◌ d String.[]) c s h =
    trim_right-cons d c (String.◌∷◌ c s) s (trim_right-spaceless (String.◌∷◌ c s) h)
trim_right-append (String.◌∷◌ d (String.◌∷◌ e p)) c s h =
    trim_right-cons d e (append (String.◌∷◌ e p) (String.◌∷◌ c s)) (append p (String.◌∷◌ c s))
      (trim_right-append (String.◌∷◌ e p) c s h)
