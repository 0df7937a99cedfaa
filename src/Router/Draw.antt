-- ===== src/Router/Draw.antt =====
-- The draw among healthy routes: weightedSelect and the swap of SelectRoutes.
use mathlib.Core.List.{Perm}
use mathlib.Core.List.Perm
use open_model_gateway.Base.{
  ℕ, zero, suc, ◌+◌, ◌≤◌, ◌<◌, ◌≡◌, ◌↔◌, refl, String, true, pos_part, is_pos, some, List, [], ◌∷◌,
  ◌++◌, leb, length, get_elem?, set, arith, inl, inr, All, Bool-cases, Option-cases, nat_eq,
}
use open_model_gateway.Router.Engine.{
  Route, Engine, total_weight, drawn_weight, draw_from, weighted_select, swap_first, select_routes,
  healthy_routes,
}

-- rand.Intn(n) is below n for a positive n.
abbrev pub IsIntn : (ℕ → ℕ) → Type 0
IsIntn intn = (n : ℕ) → 0 < n → intn n < n

-- The sum of the weights that the drawing loop uses.
unfoldable pub drawn_total : List Route → ℕ
drawn_total [] = 0
drawn_total (r ∷ rs) = drawn_weight r + drawn_total rs

total_weight-le : (rs : List Route) → total_weight rs ≤ drawn_total rs
unfolding total_weight drawn_total
total_weight-le [] = omega arith
total_weight-le (r ∷ rs) = ground (arith, total_weight-le rs)

-- A draw below the total of a front part stays in it.
draw_from_front :
    (front rest : List Route) (draw sum idx : ℕ)
    → draw < sum + drawn_total front
    → sum ≤ draw
    → (idx ≤ draw_from (front ++ rest) draw sum idx)
      × (draw_from (front ++ rest) draw sum idx < idx + length front)
unfolding draw_from drawn_total
draw_from_front [] rest draw sum idx h low = absurd (omega arith)
draw_from_front (r ∷ front) rest draw sum idx h low =
    ground (arith, draw_from_front front rest draw (sum + drawn_weight r) (suc idx))

draw_from_range :
    (rs : List Route) (draw sum idx : ℕ)
    → draw < sum + drawn_total rs
    → sum ≤ draw
    → (idx ≤ draw_from rs draw sum idx) × (draw_from rs draw sum idx < idx + length rs)
unfolding draw_from drawn_total
draw_from_range [] draw sum idx h low = absurd (omega arith)
draw_from_range (r ∷ rs) draw sum idx h low =
    ground (arith, draw_from_range rs draw (sum + drawn_weight r) (suc idx))

-- When rand.Intn keeps to its range and there is a route, the index that is drawn is an index of
-- the list.
pub weighted_select-lt :
    (intn : ℕ → ℕ) (routes : List Route)
    → IsIntn intn
    → 0 < length routes
    → weighted_select intn routes < length routes
unfolding weighted_select
weighted_select-lt intn routes law some_route = ground (
  arith,
  law (length routes),
  law (total_weight routes),
  total_weight-le routes,
  draw_from_range routes (intn (total_weight routes)) 0 0,
)

draw_from_exact :
    (front : List Route) (r : Route) (rest : List Route) (draw sum idx : ℕ)
    → sum ≤ draw
    → draw < sum + drawn_total (front ++ r ∷ rest)
    → let share = sum + drawn_total front in
      ((draw_from (front ++ r ∷ rest) draw sum idx ≡ idx + length front)
        → (share ≤ draw) × (draw < share + drawn_weight r))
      × ((share ≤ draw) × (draw < share + drawn_weight r)
          → draw_from (front ++ r ∷ rest) draw sum idx ≡ idx + length front)
unfolding draw_from drawn_total
draw_from_exact [] r rest draw sum idx low high =
    ground (arith, draw_from_range rest draw (sum + drawn_weight r) (suc idx))
draw_from_exact (x ∷ front) r rest draw sum idx low high =
    ground (arith, draw_from_exact front r rest draw (sum + drawn_weight x) (suc idx))

abbrev pub HasWeight : Route → Type 0
HasWeight r = is_pos r.weight ≡ true

drawn_total-eq : (rs : List Route) → All HasWeight rs → drawn_total rs ≡ total_weight rs
unfolding drawn_total total_weight
drawn_total-eq [] h = refl
drawn_total-eq (r ∷ rs) h = ground (arith, drawn_total-eq rs h.1)

weight_of_middle :
    (front : List Route) (r : Route) (rest : List Route)
    → All HasWeight (front ++ r ∷ rest)
    → (is_pos r.weight ≡ true) × (0 < total_weight (front ++ r ∷ rest))
unfolding total_weight
weight_of_middle [] r rest h = (h.0, ground arith)
weight_of_middle (x ∷ front) r rest h =
    let (mine, some_weight) = weight_of_middle front r rest h.1 in (mine, omega arith)

-- The sum of the weights.
unfoldable pub weight_sum : List Route → ℕ
weight_sum [] = 0
weight_sum (r ∷ rs) = pos_part r.weight + weight_sum rs

weight_sum-total : (rs : List Route) → total_weight rs ≡ weight_sum rs
unfolding weight_sum total_weight
weight_sum-total [] = refl
weight_sum-total (r ∷ rs) = ground (arith, weight_sum-total rs)

weight_sum-front :
    (front : List Route) (r : Route) (rest : List Route)
    → All HasWeight (front ++ r ∷ rest)
    → (drawn_total front ≡ weight_sum front)
      × (weight_sum front + pos_part r.weight ≤ weight_sum (front ++ r ∷ rest))
unfolding weight_sum drawn_total
weight_sum-front [] r rest h = (refl, omega arith)
weight_sum-front (x ∷ front) r rest h = ground (arith, weight_sum-front front r rest h.1)

-- When rand.Intn keeps to its range and every weight is positive, the draw is one of as many numbers
-- as the weights add up to, and each route is chosen exactly for those of an interval of these numbers,
-- as long as the route's weight, that begins where the weights before it end.
pub weighted_select_fair :
    (intn : ℕ → ℕ) (front : List Route) (r : Route) (rest : List Route)
    → IsIntn intn
    → All HasWeight (front ++ r ∷ rest)
    → let draw = intn (weight_sum (front ++ r ∷ rest)) in
      let share = weight_sum front in
      ((weighted_select intn (front ++ r ∷ rest) ≡ length front)
        ↔ ((share ≤ draw) × (draw < share + pos_part r.weight)))
      × (draw < weight_sum (front ++ r ∷ rest))
      × (share + pos_part r.weight ≤ weight_sum (front ++ r ∷ rest))
unfolding weighted_select
weighted_select_fair intn front r rest law h =
    let routes = front ++ r ∷ rest in
    let mine = weight_of_middle front r rest h in
    let total = weight_sum-total routes in
    rw (← total) (
      ground (
        arith,
        mine.0,
        mine.1,
        total,
        law (total_weight routes),
        drawn_total-eq routes h,
        weight_sum-front front r rest h,
        draw_from_exact front r rest (intn (total_weight routes)) 0 0,
      ))

-- When rand.Intn keeps to its range, some weight is positive, and the weights of a front part,
-- with 1 for each that is not positive, reach the total of the positive weights, no route behind
-- the front part is ever drawn.
pub weighted_select_starved :
    (intn : ℕ → ℕ) (front rest : List Route)
    → IsIntn intn
    → 0 < total_weight (front ++ rest)
    → total_weight (front ++ rest) ≤ drawn_total front
    → weighted_select intn (front ++ rest) < length front
unfolding weighted_select
weighted_select_starved intn front rest law positive starved = ground (
  arith,
  law (total_weight (front ++ rest)),
  draw_from_front front rest (intn (total_weight (front ++ rest))) 0 0,
)

swap_perm :
    {A : Type 0} (x y : A) (rest : List A) (i : ℕ)
    → get_elem? rest i ≡ some y
    → Perm (y ∷ set rest i x) (x ∷ rest)
swap_perm x y [] i e = cc
swap_perm x y (z ∷ rest) zero e =
    let same : z ≡ y = ground arith in rw (← same) (Perm.swap x z rest)
swap_perm x y (z ∷ rest) (suc i) e =
    Perm.trans (Perm.swap z y (set rest i x))
      (Perm.trans (Perm.cons z (swap_perm x y rest i e)) (Perm.swap x z rest))

swap_first-perm : (routes : List Route) (idx : ℕ) → Perm (swap_first routes idx) routes
unfolding swap_first
swap_first-perm [] idx = Perm.refl []
swap_first-perm (first ∷ rest) zero = Perm.refl _
swap_first-perm (first ∷ rest) (suc i) = elim (Option-cases (get_elem? rest i)) [
  | inl e ↦ rw (e, swap_first) (Perm.refl _)
  | inr (selected, e) ↦ rw (e, swap_first) (swap_perm first selected rest i e)
]

-- SelectRoutes returns the healthy routes of the alias, each as often as it is configured, in some
-- order; the order of a fallback loses none.
pub select_routes-perm :
    (intn : ℕ → ℕ) (e : Engine) (alias : String) (now : ℕ)
    → Perm (select_routes intn e alias now) (healthy_routes e alias now)
unfolding select_routes
select_routes-perm intn e alias now =
    elim (Bool-cases (leb (length (healthy_routes e alias now)) 1)) [
      | inl few ↦ rw few (Perm.refl _)
      | inr many ↦ rw many (swap_first-perm (healthy_routes e alias now) _)
    ]
