-- ===== src/Trader/Live.antt =====
-- rust/corsair_trader/src/decision.rs: that `decide_on_tick` quotes where its checks allow it.
use corsair.Base.{
  ℕ, ◌≡◌, refl, sym, subst, inl, inr, false, Option, none, some, List, [], ◌∷◌, ◌++◌, arith,
  Option-cases, get_elem?, suc,
}
use corsair.Base.Maps.{get}
use corsair.Float.{Float}
use corsair.Api.{Side, buy, sell}
use corsair.Codec.Fields.{Text}
use corsair.Trader.Pricing.{Analysis}
use corsair.Trader.State.{
  TraderState, DecisionCounters, TickMsg, VolSurfaceEntry, OrderKey, order_key_eq, order_key,
}
use corsair.Trader.Decision.{
  Decision, place, Quote, zero, compute_risk_gates, check_market, check_option, quote_for,
  naive_target, jump, would_cross, quantize, risk_blocked, place_or_keep, decide_side, decide_sides,
  decide_on_tick,
}
use corsair.Trader.Quotes.{IsMarket, IsQuotedOption, IsWithinRisk, IsQuotable}

module _ {F : Type 0} where
  -- A decision that is among others.
  abbrev pub Has : Decision F → List (Decision F) → Type 0
  Has d ds = (i : ℕ) × (get_elem? ds i ≡ some d)

module _ {F : Type 0} ⦃f : Float F⦄ (x : Analysis F) (tte : Text → Option F) where
  open f use {le}

  IsMarket-check_market :
      (s : TraderState F) (t : TickMsg F) (vp : VolSurfaceEntry F) (y : F) (c : DecisionCounters)
      (q : Quote F)
      → IsMarket x tte s t vp y q
      → (check_market x s t q.risk_buy q.risk_sell vp y c).1 ≡ some q
  unfolding check_market IsMarket
  IsMarket-check_market s t vp y c q (drift, (iv, price), bid, ask, bids, asks, bsz, asz, edge) =
      ground arith

  IsQuotedOption-check_option :
      (s : TraderState F) (t : TickMsg F) (c : DecisionCounters) (q : Quote F)
      → IsQuotedOption x tte s t q
      → (check_option x tte s t (q.risk_buy, q.risk_sell, false) c).1 ≡ some q
  unfolding check_option IsQuotedOption
  IsQuotedOption-check_option s t c q (near, call, put, vp, y, surface, time, later, market) =
      ground (arith, IsMarket-check_market s t vp y c q market)

  IsWithinRisk-gates :
      (s : TraderState F) (now : ℕ) (q : Quote F)
      → IsWithinRisk x tte s now q
      → compute_risk_gates s now ≡ (q.risk_buy, q.risk_sell, false)
  unfolding compute_risk_gates IsWithinRisk
  IsWithinRisk-gates s now q (eff, known, fresh, kill, margin, buys, sells) =
      elim (Option-cases s.risk_margin_pct) [
        | inl unset ↦ rw (known, fresh, kill, unset, sym buys, sym sells) refl
        | inr (pct, at) ↦ rw (known, fresh, kill, at, margin pct at, sym buys, sym sells) refl
      ]

  IsQuotable-quote_for :
      (s : TraderState F) (t : TickMsg F) (now : ℕ) (c : DecisionCounters) (q : Quote F)
      → IsQuotable x tte s t now q
      → (quote_for x tte s c t now).1 ≡ some q
  unfolding quote_for IsQuotable
  IsQuotable-quote_for s t now c q (forward, kills, running, risk, option) =
      let checked : (check_option x tte s t (compute_risk_gates s now) c).1 ≡ some q =
        subst (λ gates. (check_option x tte s t gates c).1 ≡ some q)
          (sym (IsWithinRisk-gates s now q risk)) (IsQuotedOption-check_option s t c q option) in
      ground (arith, forward, kills, running, checked)

  decide_side-places :
      (s : TraderState F) (q : Quote F) (key : OrderKey) (now : ℕ) (side : Side)
      (c : DecisionCounters)
      → let target = jump side s.tick_size q (naive_target side q) in
        le (naive_target side q) zero ≡ false
        → would_cross side q target ≡ false
        → risk_blocked side q ≡ false
        → get key s.our_orders ≡ none
        → (decide_side s q key now side c).1 ≡ place side (quantize s.tick_size target) none ∷ []
  unfolding decide_side place_or_keep
  decide_side-places s q key now side c positive apart free new =
      rw (positive, apart, free, new) refl

  after : (others bs : List (Decision F)) (d : Decision F) → bs ≡ d ∷ [] → Has d (others ++ bs)
  after [] bs d h = (0, rw h refl)
  after (a ∷ rest) bs d h = let (i, at) = after rest bs d h in (suc i, at)

  sides-place :
      (s : TraderState F) (t : TickMsg F) (now : ℕ) (c : DecisionCounters) (q : Quote F)
      (side : Side)
      → let target = jump side s.tick_size q (naive_target side q) in
        le (naive_target side q) zero ≡ false
        → would_cross side q target ≡ false
        → risk_blocked side q ≡ false
        → get (order_key x t side) s.our_orders ≡ none
        → Has (place side (quantize s.tick_size target) none) (decide_sides x s t now (c, some q)).1
  unfolding decide_sides
  sides-place s t now c q buy positive apart free new =
      (0, rw (decide_side-places s q (order_key x t buy) now buy c positive apart free new) refl)
  sides-place s t now c q sell positive apart free new =
      let bought = decide_side s q (order_key x t buy) now buy c in
      after bought.1 _ _
        (decide_side-places s q (order_key x t sell) now sell bought.0 positive apart free new)

  -- A quotable option is quoted: where the checks before the loop hold and no order rests under the
  -- key of a side, the tick leads to an order on that side at its target in whole ticks, if the
  -- target is positive before the jump, does not cross and the side's risk limit is kept.
  pub decide_on_tick-places :
      (s : TraderState F) (c : DecisionCounters) (t : TickMsg F) (now : ℕ) (q : Quote F)
      (side : Side)
      → IsQuotable x tte s t now q
      → let target = jump side s.tick_size q (naive_target side q) in
        le (naive_target side q) zero ≡ false
        → would_cross side q target ≡ false
        → risk_blocked side q ≡ false
        → get (order_key x t side) s.our_orders ≡ none
        → Has (place side (quantize s.tick_size target) none) (decide_on_tick x tte s c t now).1
  unfolding decide_on_tick
  decide_on_tick-places s c t now q side quotable positive apart free new =
      let before = quote_for x tte s c t now in
      subst
        (λ o.
          Has
            (place side (quantize s.tick_size (jump side s.tick_size q (naive_target side q))) none)
            (decide_sides x s t now (before.0, o)).1)
        (sym (IsQuotable-quote_for s t now c q quotable))
        (sides-place s t now before.0 q side positive apart free new)
