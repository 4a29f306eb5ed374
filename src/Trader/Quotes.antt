-- ===== src/Trader/Quotes.antt =====
-- rust/corsair_trader/src/decision.rs: what `decide_on_tick` demands before it quotes.
use corsair.Base.{
  ℕ, ◌≡◌, inl, inr, Bool, true, false, Option, some, [], arith, Option-cases, if◌then◌else◌, ltb,
}
use corsair.Base.Integers.{pos, ltb_ℤ}
use corsair.Float.{Float}
use corsair.Codec.Fields.{Text}
use corsair.Trader.Pricing.{Analysis, compute_theo}
use corsair.Trader.State.{
  TraderState, DecisionCounters, TickMsg, VolSurfaceEntry, order_key_eq, first_char,
}
use corsair.Trader.Decision.{
  Quote, zero, age_s, max_strike_offset_usd, atm_tol_usd, risk_state_stale_s, unwrap_or,
  compute_risk_gates, surface_for, check_market, check_option, quote_for,
}

module _ {F : Type 0} ⦃f : Float F⦄ (x : Analysis F) (tte : Text → Option F) where
  open f use {lt, le, add, sub, mul, neg, abs, decimal, of_int, infinity}

  -- A market of two sides near the surface's forward, and the price that the surface gives.
  unfoldable pub IsMarket : TraderState F → TickMsg F → VolSurfaceEntry F → F → Quote F → Type 0
  IsMarket s t vp y q =
      (lt (mul (of_int (pos 200)) s.tick_size) (abs (sub s.underlying_price vp.forward)) ≡ false)
      × ((iv : F) × (compute_theo x vp.forward t.strike y (first_char t.right) vp.params
            ≡ some (iv, q.theo)))
      × (q.bid ≡ unwrap_or t.bid zero)
      × (q.ask ≡ unwrap_or t.ask zero)
      × (le q.bid zero ≡ false)
      × (le q.ask zero ≡ false)
      × (ltb_ℤ (unwrap_or t.bid_size (pos 0)) (pos 1) ≡ false)
      × (ltb_ℤ (unwrap_or t.ask_size (pos 0)) (pos 1) ≡ false)
      × (q.edge ≡ mul (of_int s.min_edge_ticks) s.tick_size)

  check_market-IsMarket :
      (s : TraderState F) (t : TickMsg F) (rb rs : Bool) (vp : VolSurfaceEntry F) (y : F)
      (c : DecisionCounters) (q : Quote F)
      → (check_market x s t rb rs vp y c).1 ≡ some q
      → IsMarket s t vp y q × (q.risk_buy ≡ rb) × (q.risk_sell ≡ rs)
  unfolding check_market IsMarket
  check_market-IsMarket s t rb rs vp y c q h =
      let theo = compute_theo x vp.forward t.strike y (first_char t.right) vp.params in
      elim (Option-cases theo) [
        | inl none_at ↦ absurd (ground (arith, h, none_at))
        | inr ((iv, price), at) ↦
            let same : price ≡ q.theo = ground (arith, h, at) in ground (arith, h, at, same)
      ]

  -- An option within reach of the forward and not in the money, with a surface that has not expired.
  unfoldable pub IsQuotedOption : TraderState F → TickMsg F → Quote F → Type 0
  IsQuotedOption s t q =
      (lt max_strike_offset_usd (abs (sub t.strike s.underlying_price)) ≡ false)
      × (first_char t.right ≡ b'C' → lt t.strike (sub s.underlying_price atm_tol_usd) ≡ false)
      × (first_char t.right ≡ b'P' → lt (add s.underlying_price atm_tol_usd) t.strike ≡ false)
      × (vp : VolSurfaceEntry F) × (y : F) × (surface_for t.expiry (first_char t.right) s ≡ some vp)
      × (tte t.expiry ≡ some y)
      × (lt zero y ≡ true)
      × IsMarket s t vp y q

  check_option-IsQuotedOption :
      (s : TraderState F) (t : TickMsg F) (rb rs ra : Bool) (c : DecisionCounters) (q : Quote F)
      → (check_option x tte s t (rb, rs, ra) c).1 ≡ some q
      → IsQuotedOption s t q × (q.risk_buy ≡ rb) × (q.risk_sell ≡ rs) × (ra ≡ false)
  unfolding check_option IsQuotedOption
  check_option-IsQuotedOption s t rb rs ra c q h =
      elim (Option-cases (surface_for t.expiry (first_char t.right) s)) [
        | inl no_surface ↦ absurd (ground (arith, h, no_surface))
        | inr (vp, surface) ↦ elim (Option-cases (tte t.expiry)) [
          | inl no_time ↦ absurd (ground (arith, h, surface, no_time))
          | inr (y, time) ↦
              let market : IsMarket s t vp y q × (q.risk_buy ≡ rb) × (q.risk_sell ≡ rs) =
                check_market-IsMarket s t rb rs vp y c q (ground (arith, h, surface, time)) in
              let later : lt zero y ≡ true = ground (arith, h, surface, time) in
              (
                (ground arith, ground arith, ground arith, vp, y, surface, time, later, market.0),
                market.1,
                market.2,
                ground arith,
              )
        ]
      ]

  -- A delta that is known and fresh, within the limits that block every order; the two flags of the
  -- quote are the limits of one side.
  unfoldable pub IsWithinRisk : TraderState F → ℕ → Quote F → Type 0
  IsWithinRisk s now q =
      (eff : F) × (s.risk_effective_delta ≡ some eff)
      × (lt risk_state_stale_s (
            if ltb 0 s.risk_state_age_monotonic_ns
            then age_s now s.risk_state_age_monotonic_ns
            else infinity)
          ≡ false)
      × (le (sub s.delta_kill (decimal 1000 3)) (abs eff) ≡ false)
      × ((pct : F) → s.risk_margin_pct ≡ some pct → le s.margin_ceiling_pct pct ≡ false)
      × (q.risk_buy ≡ le s.delta_ceiling (add eff (decimal 1000 3)))
      × (q.risk_sell ≡ le (sub eff (decimal 1000 3)) (neg s.delta_ceiling))

  risk_gates-IsWithinRisk :
      (s : TraderState F) (now : ℕ) (q : Quote F)
      → q.risk_buy ≡ (compute_risk_gates s now).0
      → q.risk_sell ≡ (compute_risk_gates s now).1
      → (compute_risk_gates s now).2 ≡ false
      → IsWithinRisk s now q
  unfolding compute_risk_gates IsWithinRisk
  risk_gates-IsWithinRisk s now q hb hs ha = elim (Option-cases s.risk_effective_delta) [
    | inl unknown ↦ absurd (ground (arith, ha, unknown))
    | inr (eff, known) ↦ (
      eff,
      known,
      ground (arith, ha, known),
      ground (arith, ha, known),
      λ pct at. ground (arith, ha, known, at),
      ground (arith, hb, ha, known),
      ground (arith, hs, ha, known),
    )
  ]

  -- All that stands before the loop over the sides.
  unfoldable pub IsQuotable : TraderState F → TickMsg F → ℕ → Quote F → Type 0
  IsQuotable s t now q =
      (le s.underlying_price zero ≡ false)
      × (s.kills ≡ [])
      × (s.weekend_paused ≡ false)
      × IsWithinRisk s now q
      × IsQuotedOption s t q

  pub quote_for-IsQuotable :
      (s : TraderState F) (t : TickMsg F) (now : ℕ) (c : DecisionCounters) (q : Quote F)
      → (quote_for x tte s c t now).1 ≡ some q
      → IsQuotable s t now q
  unfolding quote_for IsQuotable
  quote_for-IsQuotable s t now c q h =
      let (rb, rs, ra) = compute_risk_gates s now in
      let checked : (check_option x tte s t (rb, rs, ra) c).1 ≡ some q = ground (arith, h) in
      let option : IsQuotedOption s t q × (q.risk_buy ≡ rb) × (q.risk_sell ≡ rs) × (ra ≡ false) =
        check_option-IsQuotedOption s t rb rs ra c q checked in
      (
        ground (arith, h),
        ground (arith, h),
        ground (arith, h),
        risk_gates-IsWithinRisk s now q option.1 option.2 option.3,
        option.0,
      )
