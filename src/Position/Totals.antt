-- ===== src/Position/Totals.antt =====
-- rust/corsair_position/src/portfolio.rs and aggregation.rs: Greeks and P&L over the book. The Greeks
-- of one option (rust/corsair_pricing) and the time to expiry, which reads the clock, are arguments.
use corsair.Base.{
  ℕ, ◌+◌, ◌%◌, ◌^◌, Bool, ◌||◌, none, some, List, [], ◌∷◌, ◌==◌, string_eq, length, if◌then◌else◌,
  String, map,
}
use mathlib.Core.List.{foldl}
use corsair.Base.Integers.{ℤ, pos, ltb_ℤ, ℤ_eq}
use corsair.Base.Maps.{HashMap, get, insert}
use corsair.Float.{Float}
use corsair.Api.{Right, NaiveDate}
use corsair.Position.{Position, MarketView}
use corsair.Position.Portfolio.{PortfolioState}

-- `compute_greeks` of rust/corsair_pricing/src/greeks.rs, as far as it is read here
pub record Greeks (F : Type 0) : Type 0 where
  pub delta : F
  pub gamma : F
  pub theta : F
  pub vega : F

pub record PortfolioGreeks (F : Type 0) : Type 0 where
  pub net_delta : F
  pub net_theta : F
  pub net_vega : F
  pub net_gamma : F
  pub long_count : ℕ
  pub short_count : ℕ
  pub gross_positions : ℕ

pub record AggregateResult (F : Type 0) : Type 0 where
  pub total : PortfolioGreeks F
  pub per_product : HashMap String (PortfolioGreeks F)

abbrev inc : ℕ → ℕ
inc n = (n + 1) % 2 ^ 32

module _ {F : Type 0} ⦃f : Float F⦄ where
  open f use {lt, le, add, sub, mul, decimal, of_int}

  -- `.sum()` of an iterator of `f64`
  unfoldable pub sum : List F → F
  sum xs = foldl add (decimal 0 1) xs

  abbrev pub default_greeks : PortfolioGreeks F
  default_greeks = record {
    net_delta = decimal 0 1;
    net_theta = decimal 0 1;
    net_vega = decimal 0 1;
    net_gamma = decimal 0 1;
    long_count = 0;
    short_count = 0;
    gross_positions = 0;
  }

  -- `PortfolioGreeks::add`
  unfoldable pub add_greeks : ℤ → F → F → F → F → PortfolioGreeks F → PortfolioGreeks F
  add_greeks qty delta theta vega gamma g =
      let q = of_int qty in
      record {
        net_delta = add g.net_delta (mul delta q);
        net_theta = add g.net_theta (mul theta q);
        net_vega = add g.net_vega (mul vega q);
        net_gamma = add g.net_gamma (mul gamma q);
        long_count = if ltb_ℤ (pos 0) qty then inc g.long_count else g.long_count;
        short_count = if ltb_ℤ qty (pos 0) then inc g.short_count else g.short_count;
        gross_positions = if qty == pos 0 then g.gross_positions else inc g.gross_positions;
      }

  abbrev add_position : Position F → PortfolioGreeks F → PortfolioGreeks F
  add_position p = add_greeks p.quantity p.delta p.theta p.vega p.gamma

  unfoldable pub aggregate_from : List (Position F) → AggregateResult F → AggregateResult F
  aggregate_from [] a = a
  aggregate_from (p ∷ ps) a =
      let old : PortfolioGreeks F = elim (get p.product a.per_product) [
        | none ↦ default_greeks
        | some g ↦ g
      ] in
      aggregate_from ps (record {
        total = add_position p a.total;
        per_product = insert p.product (add_position p old) a.per_product;
      })

  unfoldable pub aggregate : PortfolioState F → AggregateResult F
  unfolding aggregate_from
  aggregate s = aggregate_from s.positions (record { total = default_greeks; per_product = [] })

  abbrev weighted : (Position F → F) → List (Position F) → List F
  weighted greek [] = []
  weighted greek (p ∷ ps) = mul (greek p) (of_int p.quantity) ∷ weighted greek ps

  abbrev pub keep : (Position F → Bool) → List (Position F) → List (Position F)
  keep test [] = []
  keep test (p ∷ ps) = if test p then p ∷ keep test ps else keep test ps

  unfoldable pub positions_for_product : String → PortfolioState F → List (Position F)
  positions_for_product product s = keep (λ p. p.product == product) s.positions

  unfoldable pub net_delta : PortfolioState F → F
  net_delta s = sum (weighted (λ p. p.delta) s.positions)

  unfoldable pub net_theta : PortfolioState F → F
  net_theta s = sum (weighted (λ p. p.theta) s.positions)

  unfoldable pub net_vega : PortfolioState F → F
  net_vega s = sum (weighted (λ p. p.vega) s.positions)

  unfoldable pub net_gamma : PortfolioState F → F
  net_gamma s = sum (weighted (λ p. p.gamma) s.positions)

  unfoldable pub delta_for_product : String → PortfolioState F → F
  unfolding positions_for_product
  delta_for_product product s = sum (weighted (λ p. p.delta) (positions_for_product product s))

  unfoldable pub theta_for_product : String → PortfolioState F → F
  unfolding positions_for_product
  theta_for_product product s = sum (weighted (λ p. p.theta) (positions_for_product product s))

  unfoldable pub vega_for_product : String → PortfolioState F → F
  unfolding positions_for_product
  vega_for_product product s = sum (weighted (λ p. p.vega) (positions_for_product product s))

  -- `.count() as u32`
  unfoldable pub long_count : PortfolioState F → ℕ
  long_count s = length (keep (λ p. ltb_ℤ (pos 0) p.quantity) s.positions) % 2 ^ 32

  unfoldable pub short_count : PortfolioState F → ℕ
  short_count s = length (keep (λ p. ltb_ℤ p.quantity (pos 0)) s.positions) % 2 ^ 32

  unfoldable pub gross_positions : PortfolioState F → ℕ
  gross_positions s =
      length (keep (λ p. ltb_ℤ p.quantity (pos 0) || ltb_ℤ (pos 0) p.quantity) s.positions) % 2 ^ 32

  unfoldable pub mtm_from : MarketView F → List (Position F) → F → F
  mtm_from market [] total = total
  mtm_from market (p ∷ ps) total =
      let live : F = elim (market.current_price p.product p.strike p.expiry p.right) [
        | none ↦ p.current_price
        | some v ↦ v
      ] in
      mtm_from market ps (
        if le live (decimal 0 1)
        then total
        else add total (mul (mul (of_int p.quantity) (sub live p.avg_fill_price)) p.multiplier))

  unfoldable pub compute_mtm_pnl : MarketView F → PortfolioState F → F
  unfolding mtm_from
  compute_mtm_pnl market s = mtm_from market s.positions (decimal 0 1)

  module _ (compute_greeks : F → F → F → F → F → Right → F → Greeks F)
      (time_to_expiry : NaiveDate → F) where
    -- The body of the loop of `refresh_greeks`; `continue` leaves the position as it is.
    unfoldable pub refresh_position : MarketView F → PortfolioState F → Position F → Position F
    refresh_position market s p =
        let tte = time_to_expiry p.expiry in
        let iv : F = elim (market.iv_for p.product p.strike p.expiry p.right) [
          | some v ↦ v
          | none ↦ elim (get p.product s.registry) [ some i ↦ i.default_iv | none ↦ decimal 30 2 ]
        ] in
        elim (market.underlying_price p.product) [
          | none ↦ p
          | some forward ↦
              let g = compute_greeks forward p.strike tte iv (decimal 0 1) p.right p.multiplier in
              let refreshed = record p {
                delta = g.delta;
                gamma = g.gamma;
                theta = g.theta;
                vega = g.vega;
                current_price = elim (market.current_price p.product p.strike p.expiry p.right) [
                  | none ↦ p.current_price
                  | some v ↦ if lt (decimal 0 1) v then v else p.current_price
                ];
              } in
              if lt (decimal 0 1) forward
              then (if le tte (decimal 0 1) then p else refreshed)
              else p
        ]

    unfoldable pub refresh_greeks : MarketView F → PortfolioState F → PortfolioState F
    refresh_greeks market s = record s { positions = map (refresh_position market s) s.positions }
