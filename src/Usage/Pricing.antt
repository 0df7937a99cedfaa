-- ===== src/Usage/Pricing.antt =====
-- What a request costs: costFor, allocateCostCents and usdToMicros of logger.go. Package decimal is a
-- parameter, with the laws of its documentation that the cents rely on.
use open_model_gateway.Base.{
  ℕ, ◌≡◌, refl, sym, ap, ◌∙◌, String, Bool, true, false, ◌&&◌, ℤ, pos, Option, none, some, GoMap,
  lookup, insert, lookup-insert, beq_refl, ◌==◌, nat_eq, string_eq, if◌then◌else◌, Bool-cases, inl,
  inr,
}
use open_model_gateway.Usage.Tables.{TokenUsage}

-- shopspring/decimal.
pub record Decimal : Type 1 where
  pub D : Type 0
  pub of_int : ℤ → D
  pub add : D → D → D
  pub sub : D → D → D
  pub mul : D → D → D
  pub div : D → D → D
  pub truncate : D → D
  pub round : D → D
  pub int_part : D → ℤ
  pub is_zero : D → Bool
  pub is_negative : D → Bool
  pub add-sub : (a b : D) → add b (sub a b) ≡ a
  pub add-zero : (a : D) → add a (of_int (pos 0)) ≡ a
  pub zero-add : (a : D) → add (of_int (pos 0)) a ≡ a
  pub is_zero-eq : (a : D) → is_zero a ≡ true → a ≡ of_int (pos 0)
  pub int_part-truncate : (a : D) → of_int (int_part (truncate a)) ≡ truncate a
  pub mul-zero : (a : D) → mul (of_int (pos 0)) a ≡ of_int (pos 0)

module _ (decimal : Decimal) where
  open decimal use {D, of_int, add, sub, mul, div, truncate, round, int_part, is_zero, is_negative}

  -- priceInfo, without the currency, which nothing reads.
  pub record PriceInfo : Type 0 where
    pub input : D
    pub output : D

  abbrev pub price_or_zero : Option PriceInfo → PriceInfo
  price_or_zero none = record { input = of_int (pos 0); output = of_int (pos 0) }
  price_or_zero (some price) = price

  unfoldable pub price_for : GoMap String PriceInfo → String → PriceInfo
  price_for prices alias = price_or_zero (lookup alias prices)

  abbrev pub million : D
  million = of_int (pos 1000000)

  abbrev pub total_usd : PriceInfo → TokenUsage → D
  total_usd price usage =
      add (div (mul price.input (of_int usage.prompt_tokens)) million)
        (div (mul price.output (of_int usage.completion_tokens)) million)

  unfoldable pub cost_for : GoMap String PriceInfo → String → TokenUsage → D
  cost_for prices alias usage =
      let price = price_for prices alias in
      if is_zero price.input && is_zero price.output
      then of_int (pos 0)
      else if is_negative (total_usd price usage)
      then of_int (pos 0)
      else total_usd price usage

  abbrev pub d_or_zero : Option D → D
  d_or_zero none = of_int (pos 0)
  d_or_zero (some d) = d

  abbrev pub remainder_of : GoMap ℕ D → ℕ → D
  remainder_of remainders tenant = d_or_zero (lookup tenant remainders)

  abbrev pub hundred : D → D
  hundred usd = mul usd (of_int (pos 100))

  -- The cents, and the remainders of the tenants.
  unfoldable pub allocate_cost_cents : ℕ → D → GoMap ℕ D → ℤ × GoMap ℕ D
  allocate_cost_cents tenant usd remainders =
      let total = add (remainder_of remainders tenant) (hundred usd) in
      if is_zero usd then (pos 0, remainders) else (
        (if is_zero (truncate total) then pos 0 else int_part (truncate total)),
        insert tenant (sub total (truncate total)) remainders,
      )

  unfoldable pub usd_to_micros : D → ℤ
  usd_to_micros value = if is_zero value then pos 0 else int_part (round (mul value million))

module _ (decimal : Decimal) where
  open decimal use {
    D, of_int, add, sub, mul, truncate, int_part, is_zero, add-sub, add-zero, zero-add, is_zero-eq,
    int_part-truncate, mul-zero,
  }

  whole_cents :
      (total : D)
      → of_int (if is_zero (truncate total) then pos 0 else int_part (truncate total))
        ≡ truncate total
  whole_cents total = elim (Bool-cases (is_zero (truncate total))) [
    | inl none_whole ↦ rw none_whole (sym (is_zero-eq (truncate total) none_whole))
    | inr some_whole ↦ rw some_whole (int_part-truncate total)
  ]

  -- Cents are neither lost nor made up: the cents charged and the tenant's new remainder add up to
  -- its old remainder and the cost in cents, and no other tenant's remainder changes.
  pub allocate_cost_cents_lem :
      (tenant other : ℕ) (usd : D) (remainders : GoMap ℕ D)
      → let r = allocate_cost_cents decimal tenant usd remainders in
        (add (of_int r.0) (remainder_of decimal r.1 tenant)
          ≡ add (remainder_of decimal remainders tenant) (hundred decimal usd))
        × ((tenant == other) ≡ false → lookup other r.1 ≡ lookup other remainders)
  unfolding allocate_cost_cents
  allocate_cost_cents_lem tenant other usd remainders =
      let old = remainder_of decimal remainders tenant in
      let total = add old (hundred decimal usd) in
      elim (Bool-cases (is_zero usd)) [
        | inl free ↦
            let nothing =
              ap (hundred decimal) (is_zero-eq usd free) ∙ mul-zero (of_int (pos 100)) in
            rw (free, allocate_cost_cents)
              (zero-add old ∙ sym (add-zero old) ∙ ap (add old) (sym nothing), λ _. refl)
        | inr costs ↦
            rw (costs, allocate_cost_cents)
              (
                rw
                    (
                      lookup-insert tenant tenant (sub total (truncate total)) remainders,
                      beq_refl tenant,
                    )
                    (ap (λ w. add w (sub total (truncate total))) (whole_cents total)
                      ∙ add-sub total (truncate total)),
                λ apart.
                    rw (lookup-insert tenant other (sub total (truncate total)) remainders, apart)
                      refl,
              )
      ]
