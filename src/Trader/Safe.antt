-- ===== src/Trader/Safe.antt =====
-- rust/corsair_trader/src/decision.rs: every order that `decide_on_tick` returns.
use corsair.Base.{
  ℕ, ◌+◌, ◌≤◌, ◌≡◌, refl, inl, inr, Option, none, some, List, [], ◌∷◌, arith, All, All-append,
  Option-cases, length, length-append,
}
use corsair.Base.Maps.{get}
use corsair.Float.{Float}
use corsair.Api.{Side, buy, sell}
use corsair.Codec.Fields.{Text}
use corsair.Trader.Pricing.{Analysis}
use corsair.Trader.State.{
  TraderState, DecisionCounters, TickMsg, OurOrder, OrderKey, order_key_eq, order_key,
}
use corsair.Trader.Decision.{
  Decision, Quote, quote_for, decide_sides, decide_side, decide_on_tick, place_or_keep,
  cancel_before_replace, count_cross, count_risk_block, check_option, check_market,
}
use corsair.Trader.Orders.{IsOrder, decide_side-IsOrder}
use corsair.Trader.Quotes.{IsQuotable, quote_for-IsQuotable}

module _ {F : Type 0} ⦃f : Float F⦄ (x : Analysis F) (tte : Text → Option F) where
  -- An order that the checks before the loop and those of its side allow.
  unfoldable pub IsSafe : TraderState F → TickMsg F → ℕ → Decision F → Type 0
  IsSafe s t now d =
      (q : Quote F) × IsQuotable x tte s t now q
      × (side : Side) × IsOrder s q now side (get (order_key x t side) s.our_orders) d

  IsOrder-IsSafe :
      (s : TraderState F) (t : TickMsg F) (now : ℕ) (q : Quote F) (side : Side)
      → IsQuotable x tte s t now q
      → (ds : List (Decision F))
      → All (IsOrder s q now side (get (order_key x t side) s.our_orders)) ds
      → All (IsSafe s t now) ds
  unfolding IsSafe
  IsOrder-IsSafe s t now q side h [] p = tt
  IsOrder-IsSafe s t now q side h (d ∷ ds) p =
      ((q, h, side, p.0), IsOrder-IsSafe s t now q side h ds p.1)

  decide_sides-IsSafe :
      (s : TraderState F) (t : TickMsg F) (now : ℕ) (c : DecisionCounters) (o : Option (Quote F))
      → ((q : Quote F) → o ≡ some q → IsQuotable x tte s t now q)
      → All (IsSafe s t now) (decide_sides x s t now (c, o)).1
  unfolding decide_sides
  decide_sides-IsSafe s t now c none h = tt
  decide_sides-IsSafe s t now c (some q) h =
      let bought = decide_side s q (order_key x t buy) now buy c in
      All-append (IsSafe s t now) _ _
        (IsOrder-IsSafe s t now q buy (h q refl) bought.1
          (decide_side-IsOrder s q (order_key x t buy) now buy c))
        (IsOrder-IsSafe s t now q sell (h q refl) _
          (decide_side-IsOrder s q (order_key x t sell) now sell bought.0))

  -- Every order that a tick leads to is one that the checks allow: the forward is not 0 or less, no
  -- kill is active and no weekend pause; the delta is known, fresh and within the limits, that of
  -- the order's side included; the option is near the forward, not in the money, and its surface
  -- prices it; the book has two sides with sizes. The price is a target in whole ticks; the target
  -- is the theoretical price less (plus) the edge, or another that keeps that edge, and does not
  -- cross. An order that rests under the same key is past the cooldown, has left the band or is due
  -- for a refresh, and its id is cancelled exactly where more than a second of its life is left.
  pub decide_on_tick-IsSafe :
      (s : TraderState F) (c : DecisionCounters) (t : TickMsg F) (now : ℕ)
      → All (IsSafe s t now) (decide_on_tick x tte s c t now).1
  unfolding decide_on_tick
  decide_on_tick-IsSafe s c t now =
      decide_sides-IsSafe s t now (quote_for x tte s c t now).0 (quote_for x tte s c t now).1
        (quote_for-IsQuotable x tte s t now c)

module _ {F : Type 0} ⦃f : Float F⦄ where
  cancel_before_replace-place :
      (now : ℕ) (ex : OurOrder F) (c : DecisionCounters)
      → (cancel_before_replace now ex c).0.place ≡ c.place
  unfolding cancel_before_replace
  cancel_before_replace-place now ex c = ground arith

  decide_side-place :
      (s : TraderState F) (q : Quote F) (key : OrderKey) (now : ℕ) (side : Side)
      (c : DecisionCounters)
      → let r = decide_side s q key now side c in
        (r.0.place ≡ c.place + length r.1) × (length r.1 ≤ 1)
  unfolding decide_side place_or_keep count_cross count_risk_block
  decide_side-place s q key now buy c = elim (Option-cases (get key s.our_orders)) [
    | inl new ↦ rw new (ground arith)
    | inr (ex, resting) ↦ rw resting (ground (arith, cancel_before_replace-place now ex c))
  ]
  decide_side-place s q key now sell c = elim (Option-cases (get key s.our_orders)) [
    | inl new ↦ rw new (ground arith)
    | inr (ex, resting) ↦ rw resting (ground (arith, cancel_before_replace-place now ex c))
  ]

  quote_for-place :
      (x : Analysis F) (tte : Text → Option F) (s : TraderState F) (c : DecisionCounters)
      (t : TickMsg F) (now : ℕ)
      → (quote_for x tte s c t now).0.place ≡ c.place
  unfolding quote_for check_option check_market
  quote_for-place x tte s c t now = ground arith

  decide_sides-place :
      (x : Analysis F) (s : TraderState F) (t : TickMsg F) (now : ℕ) (c : DecisionCounters)
      (o : Option (Quote F))
      → let r = decide_sides x s t now (c, o) in
        (r.0.place ≡ c.place + length r.1) × (length r.1 ≤ 2)
  unfolding decide_sides
  decide_sides-place x s t now c none = ground arith
  decide_sides-place x s t now c (some q) =
      let bought = decide_side s q (order_key x t buy) now buy c in
      let sold = decide_side s q (order_key x t sell) now sell bought.0 in
      let buys = decide_side-place s q (order_key x t buy) now buy c in
      let sells = decide_side-place s q (order_key x t sell) now sell bought.0 in
      (
        omega (arith, length-append bought.1 sold.1, buys.0, sells.0),
        omega (arith, length-append bought.1 sold.1, buys.1, sells.1),
      )

  -- A tick leads to at most two orders, and the counter of placed orders grows by their number.
  pub decide_on_tick-place :
      (x : Analysis F) (tte : Text → Option F) (s : TraderState F) (c : DecisionCounters)
      (t : TickMsg F) (now : ℕ)
      → let r = decide_on_tick x tte s c t now in
        (r.0.place ≡ c.place + length r.1) × (length r.1 ≤ 2)
  unfolding decide_on_tick
  decide_on_tick-place x tte s c t now =
      let before = quote_for x tte s c t now in
      let counted = decide_sides-place x s t now before.0 before.1 in
      (omega (arith, counted.0, quote_for-place x tte s c t now), counted.1)
