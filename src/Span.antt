-- ===== src/Span.antt =====
-- rust/corsair_pricing/src/span.rs: the synthetic SPAN margin. `black76_price_inner` of lib.rs has the
-- statements of the trader's `black76_price`. An array of 16 losses is a list.
pub mod Covered
mod Tests
use corsair.Base.{
  ℕ, ◌+◌, ◌%◌, ◌^◌, Bool, true, false, ◌||◌, List, [], ◌∷◌, ◌++◌, map, ◌==◌, if◌then◌else◌,
}
use corsair.Base.Integers.{ℤ, pos, negsuc, ltb_ℤ, ℤ_eq, unsigned_abs}
use corsair.Float.{Float}
use corsair.Trader.Pricing.{Analysis, black76_price}

pub record SpanConfig (F : Type 0) : Type 0 where
  pub up_scan_pct : F
  pub down_scan_pct : F
  pub vol_scan_pct : F
  pub extreme_mult : F
  pub extreme_cover : F
  pub short_option_minimum : F
  pub multiplier : F

-- (strike, right, T, iv, signed_qty)
pub record SpanPosition (F : Type 0) : Type 0 where
  pub strike : F
  pub right : ℕ
  pub t : F
  pub iv : F
  pub qty : ℤ

pub record PortfolioMargin (F : Type 0) : Type 0 where
  pub scan_risk : F
  pub net_option_value : F
  pub long_premium : F
  pub short_minimum : F
  pub total_margin : F
  pub worst_scenario : ℕ

-- The variables of the loop over the positions.
pub record Sums (F : Type 0) : Type 0 where
  pub portfolio : List F
  pub nov : F
  pub long_premium : F
  pub short_count : ℕ

module _ {F : Type 0} ⦃f : Float F⦄ where
  open f use {lt, le, add, sub, mul, div, neg, decimal, of_int}

  abbrev pub zero : F
  zero = decimal 0 0

  abbrev one : F
  one = decimal 1 0

  abbrev third : F
  third = div one (decimal 3 0)

  abbrev two_thirds : F
  two_thirds = div (decimal 2 0) (decimal 3 0)

  -- PRICE_FRACS and VOL_SIGNS, side by side
  unfoldable pub scenarios : List (F × F)
  scenarios =
      (zero, one)
      ∷ (zero, neg one)
      ∷ (third, one)
      ∷ (third, neg one)
      ∷ (div (neg one) (decimal 3 0), one)
      ∷ (div (neg one) (decimal 3 0), neg one)
      ∷ (two_thirds, one)
      ∷ (two_thirds, neg one)
      ∷ (div (neg (decimal 2 0)) (decimal 3 0), one)
      ∷ (div (neg (decimal 2 0)) (decimal 3 0), neg one)
      ∷ (one, one)
      ∷ (one, neg one)
      ∷ (neg one, one)
      ∷ (neg one, neg one)
      ∷ []

  abbrev pub no_losses : List F
  no_losses =
      zero ∷ zero ∷ zero ∷ zero ∷ zero ∷ zero ∷ zero ∷ zero ∷ zero ∷ zero ∷ zero ∷ zero ∷ zero
      ∷ zero ∷ zero ∷ zero ∷ []

  abbrev pub no_sums : Sums F
  no_sums = record { portfolio = no_losses; nov = zero; long_premium = zero; short_count = 0 }

  -- `portfolio[i] += ra[i] * qty_f`
  unfoldable pub add_scaled : F → List F → List F → List F
  add_scaled qty_f (p ∷ ps) (r ∷ rs) = add p (mul r qty_f) ∷ add_scaled qty_f ps rs
  add_scaled qty_f ps _ = ps

  -- The search for the greatest loss, from the index `i` on: (max_v, max_idx).
  unfoldable pub worst : ℕ → List F → F × ℕ → F × ℕ
  worst i [] (max_v, max_idx) = (max_v, max_idx)
  worst i (v ∷ vs) (max_v, max_idx) =
      worst (i + 1) vs (if lt max_v v then (v, i + 1) else (max_v, max_idx))

module _ {F : Type 0} ⦃f : Float F⦄ (x : Analysis F) where
  open f use {lt, le, add, sub, mul, div, neg, decimal, of_int}
  open x use {max}

  unfoldable pub black76_price_inner : F → F → F → F → F → ℕ → F
  black76_price_inner fwd k t sigma r right = black76_price x fwd k t sigma r right

  -- The loss of one scenario.
  unfoldable pub loss : F → F → F → F → ℕ → SpanConfig F → F × F → F
  unfolding black76_price_inner
  loss fwd k t iv right cfg (frac, sign) =
      let base = black76_price_inner fwd k t iv zero right in
      let up_scan = mul fwd cfg.up_scan_pct in
      let down_scan = mul fwd cfg.down_scan_pct in
      let shift = if le zero frac then mul frac up_scan else mul frac down_scan in
      let f_scen = max (add fwd shift) (decimal 1 0) in
      let iv_scen = max (add iv (mul sign (mul iv cfg.vol_scan_pct))) (decimal 1 2) in
      let p = black76_price_inner f_scen k t iv_scen zero right in
      mul (neg (sub p base)) cfg.multiplier

  -- The loss at a forward, covered in part.
  unfoldable pub extreme_loss : F → F → F → F → F → ℕ → SpanConfig F → F
  unfolding black76_price_inner
  extreme_loss moved fwd k t iv right cfg =
      let base = black76_price_inner fwd k t iv zero right in
      let p = black76_price_inner (max moved (decimal 1 0)) k t iv zero right in
      mul (mul (neg (sub p base)) cfg.multiplier) cfg.extreme_cover

  unfoldable pub position_risk_array : F → F → F → F → ℕ → SpanConfig F → List F
  unfolding scenarios loss extreme_loss
  position_risk_array fwd k t iv right cfg =
      let up_scan = mul fwd cfg.up_scan_pct in
      let down_scan = mul fwd cfg.down_scan_pct in
      if le fwd zero || le t zero || le iv zero
      then no_losses
      else map (loss fwd k t iv right cfg) scenarios
        ++ (extreme_loss (add fwd (mul cfg.extreme_mult up_scan)) fwd k t iv right cfg
            ∷ extreme_loss (sub fwd (mul cfg.extreme_mult down_scan)) fwd k t iv right cfg
            ∷ [])

  -- The body of the loop over the positions.
  unfoldable pub add_position : F → SpanConfig F → SpanPosition F → Sums F → Sums F
  unfolding position_risk_array add_scaled black76_price_inner
  add_position fwd cfg p s =
      let ra = position_risk_array fwd p.strike p.t p.iv p.right cfg in
      let qty_f = of_int p.qty in
      let value =
        mul (mul (black76_price_inner fwd p.strike p.t p.iv zero p.right) qty_f) cfg.multiplier in
      let is_long = ltb_ℤ (pos 0) p.qty in
      if p.qty == pos 0 || le p.t zero || le p.iv zero then s else record {
        portfolio = add_scaled qty_f s.portfolio ra;
        nov = add s.nov value;
        long_premium = if is_long then add s.long_premium value else s.long_premium;
        short_count =
            if is_long then s.short_count else (s.short_count + unsigned_abs p.qty) % 2 ^ 64;
      }

  unfoldable pub add_positions : F → SpanConfig F → List (SpanPosition F) → Sums F → Sums F
  unfolding add_position
  add_positions fwd cfg [] s = s
  add_positions fwd cfg (p ∷ ps) s = add_positions fwd cfg ps (add_position fwd cfg p s)

  -- The margin that follows from the sums.
  unfoldable pub margin_of : SpanConfig F → Sums F → PortfolioMargin F
  unfolding worst
  margin_of cfg s =
      let (max_v, max_idx) = worst 0 s.portfolio (zero, 0) in
      let scan_risk = max max_v zero in
      let short_min = mul (of_int (pos s.short_count)) cfg.short_option_minimum in
      let risk_margin = max (sub scan_risk s.nov) zero in
      record {
        scan_risk = scan_risk;
        net_option_value = s.nov;
        long_premium = s.long_premium;
        short_minimum = short_min;
        total_margin = max (max risk_margin short_min) s.long_premium;
        worst_scenario = if lt zero scan_risk then max_idx else 0;
      }

  unfoldable pub portfolio_margin : F → List (SpanPosition F) → SpanConfig F → PortfolioMargin F
  unfolding add_positions margin_of
  portfolio_margin fwd positions cfg = margin_of cfg (add_positions fwd cfg positions no_sums)
