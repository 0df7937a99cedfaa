-- ===== src/Tests/Limits.antt =====
-- Examples for the limiter.
use open_model_gateway.Base.{◌+◌, ◌≡◌, refl, pos, ◌+ℤ◌, ◌≤ℤ◌, [], ◌∷◌, is_ok}
use open_model_gateway.Limits.Redis.{plain, window}
use open_model_gateway.Limits.Limiter.{semaphore_acquire}
use open_model_gateway.Limits.Quota.{checks, charges, checks-exact, charges-within}
use open_model_gateway.Limits.Slots.{Slots, Reach, entered, acquires, acquire-Reach, acquires-exact}
use open_model_gateway.Tests.World.{memory, memory-Up, empty_store, two_at_once}

-- No request yet, on the key "k".
abbrev no_slots : Slots memory
no_slots = record { store = empty_store; inside = 0; refused = 0 }

abbrev after_one : Slots memory
after_one = record {
  store = (semaphore_acquire memory (plain "k") (pos 2) empty_store).1;
  inside = entered (is_ok (semaphore_acquire memory (plain "k") (pos 2) empty_store).0) 0;
  refused = 0;
}

checks-exact_example :
    ((checks memory "rpm:k" 60 (pos 2) (0 ∷ 20 ∷ 59 ∷ []) empty_store).0 ≡ 2)
    × (memory.counter
          (window "rpm:k" 0)
          (checks memory "rpm:k" 60 (pos 2) (0 ∷ 20 ∷ 59 ∷ []) empty_store).1
        ≡ pos 3)
checks-exact_example =
    checks-exact memory memory-Up "rpm:k" 60 2 0 0 (0 ∷ 20 ∷ 59 ∷ []) empty_store
      (refl, (refl, (refl, tt))) refl

charges-within_example :
    let r = charges memory "k" two_at_once ((5, 6) ∷ (9, 7) ∷ (30, 4) ∷ []) empty_store in
    (memory.counter (window "tpm:k" 0) r.1 ≡ pos 0 +ℤ pos r.0)
    × (pos 0 ≤ℤ pos 10 → memory.counter (window "tpm:k" 0) r.1 ≤ℤ pos 10)
charges-within_example =
    charges-within memory memory-Up "k" two_at_once 0 ((5, 6) ∷ (9, 7) ∷ (30, 4) ∷ []) empty_store
      refl (refl, (refl, (refl, tt)))

acquire-Reach_example : Reach memory (plain "k") (pos 2) no_slots after_one
acquire-Reach_example = acquire-Reach memory memory-Up (plain "k") (pos 2) no_slots

acquires-exact_example :
    let r = acquires memory (plain "k") (pos 2) 5 (λ k. pos 1) in
    (r.0 ≡ 1) × (memory.counter (plain "k") r.1 ≡ pos (1 + r.0))
acquires-exact_example = acquires-exact memory memory-Up (plain "k") 2 1 5 (λ k. pos 1) refl
