-- ===== src/Hedge/Fanout.antt =====
-- rust/corsair_hedge/src/fanout.rs: the managers of all products.
use corsair.Base.{Option, none, some, List, [], ◌∷◌, map, String, string_eq, ◌==◌, if◌then◌else◌}
use corsair.Base.Integers.{ℤ, pos}
use corsair.Float.{Float}
use corsair.Position.Portfolio.{PortfolioState}
use corsair.Position.Totals.{sum}
use corsair.Hedge.Manager.{HedgeManager, HedgeAction, mtm_usd, force_flat, flatten_on_halt}

abbrev pub HedgeFanout : Type 0 → Type 0
HedgeFanout F = List (HedgeManager F)

module _ {F : Type 0} ⦃f : Float F⦄ where
  open f use {decimal}

  unfoldable pub for_product : String → HedgeFanout F → Option (HedgeManager F)
  for_product product [] = none
  for_product product (m ∷ ms) =
      let rest = for_product product ms in if m.cfg.product == product then some m else rest

  unfoldable pub hedge_qty_for_product : String → HedgeFanout F → ℤ
  unfolding for_product
  hedge_qty_for_product product ms = elim (for_product product ms) [
    | none ↦ pos 0
    | some m ↦ m.state.hedge_qty
  ]

  abbrev forward_of : (String → Option F) → HedgeManager F → F
  forward_of forwards m = elim (forwards m.cfg.product) [ none ↦ decimal 0 1 | some x ↦ x ]

  unfoldable pub mtm_usd_total : (String → Option F) → HedgeFanout F → F
  mtm_usd_total forwards ms = sum (map (λ m. mtm_usd (forward_of forwards m) m) ms)

  unfoldable pub force_flat_all :
      PortfolioState F
      → (String → Option F)
      → HedgeFanout F
      → HedgeFanout F × List (String × HedgeAction F)
  force_flat_all portfolio forward_for [] = ([], [])
  force_flat_all portfolio forward_for (m ∷ ms) =
      let (m', action) = force_flat portfolio (forward_of forward_for m) m in
      let (ms', out) = force_flat_all portfolio forward_for ms in
      (m' ∷ ms', (m.cfg.product, action) ∷ out)

  unfoldable pub flatten_on_halt_all :
      (String → Option F) → HedgeFanout F → HedgeFanout F × List (String × HedgeAction F)
  flatten_on_halt_all forward_for [] = ([], [])
  flatten_on_halt_all forward_for (m ∷ ms) =
      let (m', action) = flatten_on_halt (forward_of forward_for m) m in
      let (ms', out) = flatten_on_halt_all forward_for ms in
      (m' ∷ ms', (m.cfg.product, action) ∷ out)
