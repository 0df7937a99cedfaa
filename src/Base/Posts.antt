-- ===== src/Base/Posts.antt =====
-- Postconditions of code that may fail: how a chain of calls meets one.
use open_model_gateway.Base.Errors.{Result, ok, err, Error, Act, ◌>>=◌, after, handle, on_result}

module _ {S A B : Type 0} where
  -- What the first call promises is enough for the second.
  pub bind-Post :
      (Q : Result A → S → Type 0) (P : Result B → S → Type 0) (m : Act S A) (f : A → Act S B)
      (s : S)
      → Q (m s).0 (m s).1
      → ((a : A) (t : S) → Q (ok a) t → P (f a t).0 (f a t).1)
      → ((e : Error) (t : S) → Q (err e) t → P (err e) t)
      → P ((m >>= f) s).0 ((m >>= f) s).1
  bind-Post Q P m f s q good bad = by_result (m s).0 (m s).1 q
    where
      by_result : (r : Result A) (t : S) → Q r t → P (after f r t).0 (after f r t).1
      by_result (ok a) t h = good a t h
      by_result (err e) t h = bad e t h

  pub on_result-Post :
      (Q : Result A → S → Type 0) (P : Result B → S → Type 0) (m : Act S A) (f : A → Act S B)
      (g : Error → Act S B) (s : S)
      → Q (m s).0 (m s).1
      → ((a : A) (t : S) → Q (ok a) t → P (f a t).0 (f a t).1)
      → ((e : Error) (t : S) → Q (err e) t → P (g e t).0 (g e t).1)
      → P (on_result m f g s).0 (on_result m f g s).1
  on_result-Post Q P m f g s q good bad = by_result (m s).0 (m s).1 q
    where
      by_result : (r : Result A) (t : S) → Q r t → P (handle f g r t).0 (handle f g r t).1
      by_result (ok a) t h = good a t h
      by_result (err e) t h = bad e t h
