-- ===== src/Hedge/Orders.antt =====
-- The orders of rust/corsair_hedge/src/manager.rs: what the hedge position is once they are filled.
use corsair.Base.{
  ℕ, String, ◌≡◌, ◌≢◌, ◌⊎◌, inl, inr, refl, sym, ap, ◌∙◌, subst, Bool, not, ◌&&◌, true, false,
  arith, ◌==◌, if◌then◌else◌, suc, zero,
}
use corsair.Base.Integers.{
  ℤ, pos, negsuc, pos_part, neg_part, ltb_ℤ, unsigned_abs, ◌+ℤ◌, ◌-ℤ◌, neg_ℤ, wrap_i32, neg_i32,
  add_i32, sub_i32, sub_i32-eq, add_i32-eq, IsI32, int_laws, ℤ_eq,
}
use corsair.Float.{Float}
use corsair.Position.Portfolio.{PortfolioState}
use corsair.Position.Totals.{delta_for_product}
use corsair.Hedge.{HedgeState, fill_effect, apply_fill}
use corsair.Hedge.Manager.{
  HedgeManager, HedgeAction, idle, log_only, place, target_qty, rebalance, observe, execute,
  flatten_on_halt, halt_order, HedgeMode, dispatch, is_small,
}

-- An order of a difference that fits an `i32` has just this effect.
fill_effect-unsigned_abs : (d : ℤ) → IsI32 d → fill_effect (ltb_ℤ (pos 0) d) (unsigned_abs d) ≡ d
unfolding fill_effect neg_i32 wrap_i32 neg_ℤ
fill_effect-unsigned_abs (pos zero) h = refl
fill_effect-unsigned_abs (pos (suc k)) h = ground arith
fill_effect-unsigned_abs (negsuc n) h = ground arith

-- An order against the whole position closes it.
closing : (q : ℤ) → IsI32 q → add_i32 q (fill_effect (ltb_ℤ q (pos 0)) (unsigned_abs q)) ≡ pos 0
unfolding fill_effect neg_i32 wrap_i32 neg_ℤ add_i32 ◌+ℤ◌
closing (pos zero) h = refl
closing (pos (suc k)) h = ground arith
closing (negsuc n) h = ground arith

add-sub : (q t : ℤ) → q +ℤ (t -ℤ q) ≡ t
add-sub q t = omega int_laws

at_target : (t q : ℤ) → IsI32 (t -ℤ q) → is_small (sub_i32 t q) ≡ true → q ≡ t
at_target t q fits h =
    let h' = subst (λ c. is_small c ≡ true) (sub_i32-eq t q fits) h in
    let zero_change : t -ℤ q ≡ pos 0 = ground (arith, h', fits) in
    omega (int_laws, ap pos_part zero_change, ap neg_part zero_change)

module _ {F : Type 0} ⦃f : Float F⦄ where
  -- On every branch the quantity is the sum.
  pub hedge_qty-apply_fill :
      (is_buy : Bool) (qty : ℕ) (price multiplier : F) (s : HedgeState F)
      → (apply_fill is_buy qty price multiplier s).hedge_qty
        ≡ add_i32 s.hedge_qty (fill_effect is_buy qty)
  unfolding apply_fill
  hedge_qty-apply_fill is_buy qty price multiplier s = ground arith

  -- An order of the difference to a target, filled at any price, brings the position there.
  fill-reaches :
      (t : ℤ) (price multiplier : F) (s : HedgeState F)
      → IsI32 t
      → IsI32 (t -ℤ s.hedge_qty)
      → let d = sub_i32 t s.hedge_qty in
        (apply_fill (ltb_ℤ (pos 0) d) (unsigned_abs d) price multiplier s).hedge_qty ≡ t
  fill-reaches t price multiplier s small fits =
      let d = t -ℤ s.hedge_qty in
      let sum = add-sub s.hedge_qty t in
      subst (λ c. (apply_fill (ltb_ℤ (pos 0) c) (unsigned_abs c) price multiplier s).hedge_qty ≡ t)
        (sym (sub_i32-eq t s.hedge_qty fits))
        (hedge_qty-apply_fill (ltb_ℤ (pos 0) d) (unsigned_abs d) price multiplier s
          ∙ ap (add_i32 s.hedge_qty) (fill_effect-unsigned_abs d fits)
          ∙ add_i32-eq s.hedge_qty d (subst IsI32 (sym sum) small)
          ∙ sum)

  -- What an outcome means for a target quantity: an order, once filled at any price, takes the
  -- position there; where it is only logged, the position is there; with no order it was there.
  pub Meets : ℤ → HedgeManager F → HedgeManager F × HedgeAction F → Type 0
  Meets t m (m', idle) = (m' ≡ m) × (m.state.hedge_qty ≡ t)
  Meets t m (m', log_only is_buy qty reason forward) =
      (m'.state ≡ apply_fill is_buy qty forward m.cfg.multiplier m.state) × (m'.state.hedge_qty ≡ t)
  Meets t m (m', place is_buy qty reason effective target) =
      (m' ≡ m)
      × (target ≡ t)
      × ((price : F) → (apply_fill is_buy qty price m.cfg.multiplier m.state).hedge_qty ≡ t)

  -- What the answer to a halt means. It never changes the manager. There is no order only where the
  -- flattening is switched off or the hedge is flat; else, in execute mode, an order that leaves no
  -- hedge once it is filled, at any price. In observe mode that order is only logged: the hedge
  -- stays, and just the fill at the logged price, which is not applied, would leave none.
  pub Flattens : HedgeManager F → HedgeManager F × HedgeAction F → Type 0
  Flattens m (m', idle) =
      (m' ≡ m) × ((m.cfg.flatten_on_halt_enabled ≡ false) ⊎ (m.state.hedge_qty ≡ pos 0))
  Flattens m (m', log_only is_buy qty reason forward) =
      (m' ≡ m)
      × (m.cfg.mode ≡ observe)
      × (m'.state.hedge_qty ≢ pos 0)
      × ((apply_fill is_buy qty forward m.cfg.multiplier m.state).hedge_qty ≡ pos 0)
  Flattens m (m', place is_buy qty reason effective target) =
      (m' ≡ m)
      × (m.cfg.mode ≡ execute)
      × (m.state.hedge_qty ≢ pos 0)
      × (target ≡ pos 0)
      × ((price : F) → (apply_fill is_buy qty price m.cfg.multiplier m.state).hedge_qty ≡ pos 0)

  dispatch-Meets :
      (mode : HedgeMode) (t : ℤ) (reason : String) (effective forward : F) (m : HedgeManager F)
      → IsI32 t
      → IsI32 (t -ℤ m.state.hedge_qty)
      → Meets t m (dispatch mode (sub_i32 t m.state.hedge_qty) reason effective t forward m)
  unfolding Meets
  dispatch-Meets observe t reason effective forward m small fits =
      (refl, fill-reaches t forward m.cfg.multiplier m.state small fits)
  dispatch-Meets execute t reason effective forward m small fits =
      (refl, refl, λ price. fill-reaches t price m.cfg.multiplier m.state small fits)

  choice-Meets :
      (a b : Bool) (t : ℤ) (m : HedgeManager F) (outcome : HedgeManager F × HedgeAction F)
      → (a ≡ true → m.state.hedge_qty ≡ t)
      → (b ≡ true → m.state.hedge_qty ≡ t)
      → Meets t m outcome
      → Meets t m (if a then (m, idle) else if b then (m, idle) else outcome)
  unfolding Meets
  choice-Meets true b t m outcome at_a at_b h = (refl, at_a refl)
  choice-Meets false true t m outcome at_a at_b h = (refl, at_b refl)
  choice-Meets false false t m outcome at_a at_b h = h

  -- The quantity that offsets the options: their delta in the product, rounded and negated.
  abbrev pub offset_qty : PortfolioState F → HedgeManager F → ℤ
  offset_qty portfolio m = f.to_i32 (f.neg (f.round (delta_for_product m.cfg.product portfolio)))

  -- Adding the held quantity to the delta and taking it away again leaves the rounded delta as it
  -- is. In `f64` it does, but for a delta as near to a half as the rounding of the sum.
  abbrev pub IsRestored : PortfolioState F → HedgeManager F → Type 0
  IsRestored portfolio m =
      let held = f.of_int m.state.hedge_qty in
      let delta = delta_for_product m.cfg.product portfolio in
      f.round (f.sub (f.add delta held) held) ≡ f.round delta

  reaches_target :
      (portfolio : PortfolioState F) (forced : Bool) (reason : String) (forward : F)
      (m : HedgeManager F)
      → IsI32 (target_qty portfolio m)
      → IsI32 (target_qty portfolio m -ℤ m.state.hedge_qty)
      → Meets (target_qty portfolio m) m (rebalance portfolio forced reason forward m)
  unfolding rebalance
  reaches_target portfolio forced reason forward m small fits =
      let t = target_qty portfolio m in
      let change = sub_i32 t m.state.hedge_qty in
      choice-Meets (not forced && is_small change) (change == pos 0) t m
        (dispatch m.cfg.mode change reason
          (f.add (delta_for_product m.cfg.product portfolio) (f.of_int m.state.hedge_qty)) t forward
          m)
        (λ h. at_target t m.state.hedge_qty fits (ground arith))
        (λ h. at_target t m.state.hedge_qty fits (ground arith))
        (dispatch-Meets m.cfg.mode t reason
          (f.add (delta_for_product m.cfg.product portfolio) (f.of_int m.state.hedge_qty)) forward m
          small fits)

  target_qty-offset_qty :
      (portfolio : PortfolioState F) (m : HedgeManager F)
      → IsRestored portfolio m
      → target_qty portfolio m ≡ offset_qty portfolio m
  unfolding target_qty
  target_qty-offset_qty portfolio m restored = ap (λ x. f.to_i32 (f.neg x)) restored

  -- A rebalancing, forced or not, meets the quantity that offsets the options, their delta rounded
  -- and negated, where adding and taking away the held quantity does not change the rounded delta,
  -- and that quantity and its distance from the held one fit an `i32`. The order that it places
  -- names that target and, filled at any price, takes the hedge there; in observe mode the hedge is
  -- there already; and it places none only where the hedge is there.
  pub rebalance-Meets :
      (portfolio : PortfolioState F) (forced : Bool) (reason : String) (forward : F)
      (m : HedgeManager F)
      → IsRestored portfolio m
      → IsI32 (offset_qty portfolio m)
      → IsI32 (offset_qty portfolio m -ℤ m.state.hedge_qty)
      → Meets (offset_qty portfolio m) m (rebalance portfolio forced reason forward m)
  rebalance-Meets portfolio forced reason forward m restored small fits =
      let same = target_qty-offset_qty portfolio m restored in
      subst (λ t. Meets t m (rebalance portfolio forced reason forward m)) same
        (reaches_target portfolio forced reason forward m (subst IsI32 (sym same) small)
          (subst (λ t. IsI32 (t -ℤ m.state.hedge_qty)) (sym same) fits))

  halt_order-Flattens :
      (mode : HedgeMode) (forward : F) (m : HedgeManager F)
      → IsI32 m.state.hedge_qty
      → m.cfg.mode ≡ mode
      → m.state.hedge_qty ≢ pos 0
      → Flattens m (halt_order mode m.state.hedge_qty forward m)
  unfolding Flattens
  halt_order-Flattens observe forward m small is_mode unflat = (
    refl,
    is_mode,
    unflat,
    hedge_qty-apply_fill _ _ forward m.cfg.multiplier m.state ∙ closing m.state.hedge_qty small,
  )
  halt_order-Flattens execute forward m small is_mode unflat = (
    refl,
    is_mode,
    unflat,
    refl,
    λ price.
        hedge_qty-apply_fill _ _ price m.cfg.multiplier m.state ∙ closing m.state.hedge_qty small,
  )

  flat_or :
      (a b : Bool) (m : HedgeManager F) (outcome : HedgeManager F × HedgeAction F)
      → (a ≡ true → m.cfg.flatten_on_halt_enabled ≡ false)
      → (b ≡ true → m.state.hedge_qty ≡ pos 0)
      → (b ≡ false → Flattens m outcome)
      → Flattens m (if a then (m, idle) else if b then (m, idle) else outcome)
  unfolding Flattens
  flat_or true b m outcome off flat h = (refl, inl (off refl))
  flat_or false true m outcome off flat h = (refl, inr (flat refl))
  flat_or false false m outcome off flat h = h refl

  -- A halt, where the held quantity fits an `i32`, never changes the manager itself. It gives no
  -- order only where the flattening on a halt is switched off or the hedge is flat; in execute mode
  -- it places an order with target 0 that leaves no hedge once it is filled, at any price; in
  -- observe mode it logs an order whose fill at the logged price would leave none, but that fill is
  -- not applied, and the hedge stays.
  pub flatten_on_halt-Flattens :
      (forward : F) (m : HedgeManager F)
      → IsI32 m.state.hedge_qty
      → Flattens m (flatten_on_halt forward m)
  unfolding flatten_on_halt
  flatten_on_halt-Flattens forward m small =
      flat_or (not m.cfg.flatten_on_halt_enabled) (m.state.hedge_qty == pos 0) m
        (halt_order m.cfg.mode m.state.hedge_qty forward m) (λ h. ground arith)
        (λ h. (ℤ_eq.eq_iff _ _).0 h)
        (λ h.
          halt_order-Flattens m.cfg.mode forward m small refl
            (λ e. cc (h, (ℤ_eq.eq_iff m.state.hedge_qty (pos 0)).1 e)))
