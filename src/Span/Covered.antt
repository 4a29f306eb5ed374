-- ===== src/Span/Covered.antt =====
-- rust/corsair_pricing/src/span.rs: what the margin of a portfolio covers.
use corsair.Base.{
  ℕ, ◌+◌, ◌≡◌, refl, sym, ap, ◌∙◌, ◌⊎◌, inl, inr, some, List, [], ◌∷◌, arith, All, All-map,
  Bool-cases, get_elem?, if◌then◌else◌, suc,
}
use corsair.Float.{Float, ◌≼◌, IsNumber, IsOrdered}
use corsair.Trader.Pricing.{Analysis}
use corsair.Span.{
  SpanConfig, SpanPosition, PortfolioMargin, Sums, zero as zero_usd, worst, margin_of,
  add_positions, no_sums, portfolio_margin,
}

-- `f64::max` gives the greater operand, or the one that is not NaN.
pub record IsMax {F : Type 0} ⦃f : Float F⦄ (x : Analysis F) : Type 0 where
  pub max_left : (a b : F) → IsNumber a → a ≼ x.max a b
  pub max_right : (a b : F) → IsNumber b → b ≼ x.max a b

module _ {F : Type 0} ⦃f : Float F⦄ (laws : IsOrdered F) where
  abbrev turn : F → F → ℕ → ℕ → F × ℕ
  turn m v i k = if f.lt m v then (v, i + 1) else (m, k)

  -- One turn of the search.
  step : (m v : F) (i k : ℕ) → IsNumber m → (m ≼ (turn m v i k).0) × IsNumber (turn m v i k).0
  step m v i k number = elim (Bool-cases (f.lt m v)) [
    | inl less ↦
        let up : m ≼ v = laws.le_of_lt m v less in rw less (up, (laws.numbers_of_le m v up).1)
    | inr kept ↦ rw kept (number, number)
  ]

  step_new : (m v : F) (i k : ℕ) → IsNumber m → IsNumber v → v ≼ (turn m v i k).0
  step_new m v i k number h = elim (Bool-cases (f.lt m v)) [
    | inl less ↦ rw less h
    | inr kept ↦ rw kept (ground (arith, laws.lt-eq-not-le m v number h, kept))
  ]

  -- The result of the search is no less than the bound that it starts from.
  worst_from :
      (i : ℕ) (vs : List F) (start : F × ℕ) → IsNumber start.0 → start.0 ≼ (worst i vs start).0
  unfolding worst
  worst_from i [] start number = number
  worst_from i (v ∷ vs) (m, k) number =
      let (up, next) = step m v i k number in
      laws.le_trans _ _ _ up (worst_from (i + 1) vs (turn m v i k) next)

  -- It is no less than any loss.
  pub worst-bound :
      (i : ℕ) (vs : List F) (start : F × ℕ)
      → IsNumber start.0
      → All (λ v. IsNumber v → v ≼ (worst i vs start).0) vs
  unfolding worst
  worst-bound i [] start number = tt
  worst-bound i (v ∷ vs) (m, k) number =
      let (up, next) = step m v i k number in
      (
        λ h.
            laws.le_trans _ _ _ (step_new m v i k number h)
              (worst_from (i + 1) vs (turn m v i k) next),
        worst-bound (i + 1) vs (turn m v i k) next,
      )

  -- Its index is that of the loss that it gives, or the one that it starts from.
  pub worst-at :
      (i : ℕ) (vs : List F) (m : F) (k : ℕ)
      → let r = worst i vs (m, k) in
        ((r.0 ≡ m) × (r.1 ≡ k)) ⊎ ((j : ℕ) × (r.1 ≡ i + j + 1) × (get_elem? vs j ≡ some r.0))
  unfolding worst
  worst-at i [] m k = inl (refl, refl)
  worst-at i (v ∷ vs) m k = elim (Bool-cases (f.lt m v)) [
    | inl less ↦
        rw (less, worst)
          (elim (worst-at (i + 1) vs v (i + 1)) [
            | inl (same, at) ↦ inr (0, at ∙ omega arith, ap some (sym same))
            | inr (j, at, found) ↦ inr (suc j, at ∙ omega arith, found)
          ])
    | inr kept ↦
        rw (kept, worst)
          (elim (worst-at (i + 1) vs m k) [
            | inl h ↦ inl h
            | inr (j, at, found) ↦ inr (suc j, at ∙ omega arith, found)
          ])
  ]

module _ {F : Type 0} ⦃f : Float F⦄ where
  -- The margin `r` covers the sums `s` of a portfolio.
  pub record IsCovered (s : Sums F) (r : PortfolioMargin F) : Type 0 where
    pub not_negative : zero_usd ≼ r.total_margin
    pub long : IsNumber s.long_premium → s.long_premium ≼ r.total_margin
    pub short : IsNumber r.short_minimum → r.short_minimum ≼ r.total_margin
    pub net : IsNumber (f.sub r.scan_risk s.nov) → f.sub r.scan_risk s.nov ≼ r.total_margin
    pub losses : All (λ v. IsNumber v → v ≼ r.scan_risk) s.portfolio
    pub scenario :
        (r.worst_scenario ≡ 0)
        ⊎ ((j : ℕ) × (v : F) × (r.worst_scenario ≡ j + 1)
            × (get_elem? s.portfolio j ≡ some v)
            × All (λ u. IsNumber u → u ≼ v) s.portfolio)

module _ {F : Type 0} ⦃f : Float F⦄ (x : Analysis F) where
  margin_of-IsCovered :
      (laws : IsOrdered F) (maxes : IsMax x) (cfg : SpanConfig F) (s : Sums F)
      → IsCovered s (margin_of x cfg s)
  unfolding margin_of
  margin_of-IsCovered laws maxes cfg s =
      let zero_number : IsNumber {F = F} zero_usd = laws.decimal_le 0 0 0 (omega arith) in
      let w : F × ℕ = worst 0 s.portfolio (zero_usd, 0) in
      let r : PortfolioMargin F = margin_of x cfg s in
      let net : F = f.sub r.scan_risk s.nov in
      let risk : F = x.max net zero_usd in
      let up : zero_usd ≼ risk = maxes.max_right net zero_usd zero_number in
      let risk_number : IsNumber risk = (laws.numbers_of_le zero_usd risk up).1 in
      let inner : F = x.max risk r.short_minimum in
      let risk_inner : risk ≼ inner = maxes.max_left risk r.short_minimum risk_number in
      let inner_total : inner ≼ r.total_margin =
        maxes.max_left inner s.long_premium (laws.numbers_of_le risk inner risk_inner).1 in
      let risk_total : risk ≼ r.total_margin =
        laws.le_trans risk inner r.total_margin risk_inner inner_total in
      let found : zero_usd ≼ w.0 = worst_from laws 0 s.portfolio (zero_usd, 0) zero_number in
      let scan : w.0 ≼ r.scan_risk =
        maxes.max_left w.0 zero_usd (laws.numbers_of_le zero_usd w.0 found).1 in
      let bound = worst-bound laws 0 s.portfolio (zero_usd, 0) zero_number in
      record {
        not_negative = laws.le_trans zero_usd risk r.total_margin up risk_total;
        long = λ h. maxes.max_right inner s.long_premium h;
        short = λ h.
            laws.le_trans r.short_minimum inner r.total_margin
              (maxes.max_right risk r.short_minimum h) inner_total;
        net = λ h. laws.le_trans net risk r.total_margin (maxes.max_left net zero_usd h) risk_total;
        losses =
            All-map _ _ s.portfolio bound (λ v h n. laws.le_trans v w.0 r.scan_risk (h n) scan);
        scenario = elim (Bool-cases (f.lt zero_usd r.scan_risk)) [
          | inr flat ↦ inl (rw flat refl)
          | inl risky ↦ elim (worst-at laws 0 s.portfolio zero_usd 0) [
            | inl (same, at) ↦ inl (rw risky at)
            | inr (j, at, here) ↦ inr (j, w.0, rw risky (at ∙ omega arith), here, bound)
          ]
        ];
      }

  -- The margin of a portfolio is not negative and covers its long premium, the minimum for its short
  -- options and the scanned risk less the net option value, each where it is a number; the scanned
  -- risk is no less than the loss of any of the scenarios, and the worst scenario is 0 or the number
  -- of one whose loss no other exceeds. The comparisons order the numbers, and `max` gives the
  -- greater operand or the one that is not NaN.
  pub portfolio_margin-IsCovered :
      (laws : IsOrdered F) (maxes : IsMax x) (fwd : F) (positions : List (SpanPosition F))
      (cfg : SpanConfig F)
      → IsCovered (add_positions x fwd cfg positions no_sums) (portfolio_margin x fwd positions cfg)
  unfolding portfolio_margin
  portfolio_margin-IsCovered laws maxes fwd positions cfg =
      margin_of-IsCovered laws maxes cfg (add_positions x fwd cfg positions no_sums)
