-- ===== src/Hedge/Calls.antt =====
-- Sequences of calls of the hedge manager: rust/corsair_hedge/src/manager.rs.
use corsair.Base.{
  ℕ, ◌≡◌, refl, sym, ◌∙◌, subst, Bool, not, ◌&&◌, true, false, List, [], ◌∷◌, arith, ◌==◌,
  if◌then◌else◌, string_eq, String,
}
use corsair.Base.Integers.{ℤ, pos, sub_i32, ℤ_eq}
use corsair.Float.{Float}
use corsair.Position.Portfolio.{PortfolioState}
use corsair.Position.Totals.{delta_for_product}
use corsair.Hedge.Manager.{
  HedgeManager, HedgeAction, HedgeMode, observe, halt_order, flatten_on_halt, target_qty, is_small,
  execute, Fill, apply_broker_fill, reconcile_with_position, rebalance, maybe_rebalance,
  rebalance_on_fill, rebalance_periodic, force_flat, request_priority_drain, set_hedge_contract,
  dispatch,
}

-- The calls that change a manager.
pub data Call (F : Type 0) : Type 0 where
  contract_set : ℕ → Call F
  option_filled : PortfolioState F → Call F
  periodic : PortfolioState F → F → ℕ → Call F
  delta_killed : PortfolioState F → F → Call F
  halted : F → Call F
  drain_requested : ℕ → Call F
  confirmed : Fill F → Call F
  reconciled : ℤ → F → Call F

-- A call that does not bring news from the broker.
unfoldable pub is_own : {F : Type 0} → Call F → Bool
is_own (confirmed fill) = false
is_own (reconciled qty cost) = false
is_own c = true

module _ {F : Type 0} ⦃f : Float F⦄ where
  unfoldable pub step : Call F → HedgeManager F → HedgeManager F
  step (contract_set c) m = set_hedge_contract c m
  step (option_filled portfolio) m = (rebalance_on_fill portfolio m).0
  step (periodic portfolio forward now) m = (rebalance_periodic portfolio forward now m).0
  step (delta_killed portfolio forward) m = (force_flat portfolio forward m).0
  step (halted forward) m = (flatten_on_halt forward m).0
  step (drain_requested until) m = request_priority_drain until m
  step (confirmed fill) m = (apply_broker_fill fill m).0
  step (reconciled qty cost) m = (reconcile_with_position qty cost m).0

  unfoldable pub run : List (Call F) → HedgeManager F → HedgeManager F
  run [] m = m
  run (c ∷ cs) m = run cs (step c m)

  unfoldable pub all_own : List (Call F) → Bool
  unfolding is_own
  all_own [] = true
  all_own (c ∷ cs) = is_own c && all_own cs

  -- Two managers with one hedge position and one mode.
  pub record IsSameHedge (m m' : HedgeManager F) : Type 0 where
    pub state : m'.state ≡ m.state
    pub mode : m'.cfg.mode ≡ m.cfg.mode
    pub ids : m'.exec_ids ≡ m.exec_ids

  same_hedge : (m : HedgeManager F) → IsSameHedge m m
  same_hedge m = record { state = refl; mode = refl; ids = refl }

  -- What holds of the manager in both outcomes holds in the chosen one.
  pub chosen :
      (P : HedgeManager F → Type 0) (b : Bool) (x y : HedgeManager F × HedgeAction F)
      → P x.0
      → P y.0
      → P (if b then x else y).0
  chosen P true x y hx hy = hx
  chosen P false x y hx hy = hy

  rebalance-execute :
      (portfolio : PortfolioState F) (forced : Bool) (reason : String) (forward : F)
      (m : HedgeManager F)
      → m.cfg.mode ≡ execute
      → (rebalance portfolio forced reason forward m).0 ≡ m
  unfolding rebalance
  rebalance-execute portfolio forced reason forward m h =
      let change = sub_i32 (target_qty portfolio m) m.state.hedge_qty in
      chosen (λ m'. m' ≡ m) (not forced && is_small change) _ _ refl
        (chosen (λ m'. m' ≡ m) (change == pos 0) _ _ refl
          (subst
            (λ mode.
              (dispatch mode change reason
                (f.add (delta_for_product m.cfg.product portfolio) (f.of_int m.state.hedge_qty))
                (target_qty portfolio m) forward m).0
              ≡ m)
            (sym h) refl))

  maybe_rebalance-execute :
      (portfolio : PortfolioState F) (reason : String) (forward : F) (m : HedgeManager F)
      → m.cfg.mode ≡ execute
      → (maybe_rebalance portfolio reason forward m).0 ≡ m
  unfolding maybe_rebalance
  maybe_rebalance-execute portfolio reason forward m h =
      ground (arith, rebalance-execute portfolio false reason forward m h)

  maybe_rebalance-IsSameHedge :
      (portfolio : PortfolioState F) (reason : String) (forward : F) (m m' : HedgeManager F)
      → m'.cfg.mode ≡ execute
      → IsSameHedge m m'
      → IsSameHedge m (maybe_rebalance portfolio reason forward m').0
  maybe_rebalance-IsSameHedge portfolio reason forward m m' h same =
      subst (IsSameHedge m) (sym (maybe_rebalance-execute portfolio reason forward m' h)) same

  rebalance_periodic-IsSameHedge :
      (portfolio : PortfolioState F) (forward : F) (now : ℕ) (m : HedgeManager F)
      → m.cfg.mode ≡ execute
      → IsSameHedge m (rebalance_periodic portfolio forward now m).0
  unfolding rebalance_periodic
  rebalance_periodic-IsSameHedge portfolio forward now m h =
      let timed : HedgeManager F = record m { last_periodic_ns = now } in
      let cleared : HedgeManager F = record m {
        last_periodic_ns = now;
        priority_drain_until_ns = 0;
      } in
      chosen (IsSameHedge m) _ _ _
        (maybe_rebalance-IsSameHedge portfolio "priority_drain_periodic" forward m timed h
          (record { state = refl; mode = refl; ids = refl }))
        (chosen (IsSameHedge m) _ _ _
          (maybe_rebalance-IsSameHedge portfolio "priority_drain_clear" forward m cleared h
            (record { state = refl; mode = refl; ids = refl }))
          (chosen (IsSameHedge m) _ _ _ (same_hedge m) (
            maybe_rebalance-IsSameHedge portfolio "periodic" forward m timed h
              (record { state = refl; mode = refl; ids = refl }))))

  -- In both modes the order of a halt leaves the manager as it is.
  pub flatten_on_halt-same : (forward : F) (m : HedgeManager F) → (flatten_on_halt forward m).0 ≡ m
  unfolding flatten_on_halt
  flatten_on_halt-same forward m =
      chosen (λ m'. m' ≡ m) (not m.cfg.flatten_on_halt_enabled) _ _ refl
        (chosen (λ m'. m' ≡ m) (m.state.hedge_qty == pos 0) _ _ refl (either m.cfg.mode))
    where
      either : (mode : HedgeMode) → (halt_order mode m.state.hedge_qty forward m).0 ≡ m
      either observe = refl
      either execute = refl

  step-IsSameHedge :
      (c : Call F) (m : HedgeManager F)
      → is_own c ≡ true
      → m.cfg.mode ≡ execute
      → IsSameHedge m (step c m)
  unfolding step is_own set_hedge_contract request_priority_drain rebalance_on_fill force_flat
  step-IsSameHedge (contract_set c) m own h = record { state = refl; mode = refl; ids = refl }
  step-IsSameHedge (option_filled portfolio) m own h =
      chosen (IsSameHedge m) (not m.cfg.rebalance_on_fill) _ _ (same_hedge m)
        (maybe_rebalance-IsSameHedge portfolio "fill" (f.decimal 60 1) m m h (same_hedge m))
  step-IsSameHedge (periodic portfolio forward now) m own h =
      rebalance_periodic-IsSameHedge portfolio forward now m h
  step-IsSameHedge (delta_killed portfolio forward) m own h =
      subst (IsSameHedge m)
        (sym (rebalance-execute portfolio true "delta_kill_force_flat" forward m h)) (same_hedge m)
  step-IsSameHedge (halted forward) m own h =
      subst (IsSameHedge m) (sym (flatten_on_halt-same forward m)) (same_hedge m)
  step-IsSameHedge (drain_requested until) m own h = record {
    state = refl;
    mode = refl;
    ids = refl;
  }
  step-IsSameHedge (confirmed fill) m own h = absurd (cc own)
  step-IsSameHedge (reconciled qty cost) m own h = absurd (cc own)

  -- In execute mode the hedge position and the ids of the processed executions are what the broker
  -- has confirmed: no sequence of rebalancings, forced flattenings, halts, drain requests and contract
  -- changes, without a confirmation or a reconciliation, changes them, or the mode.
  pub run-execute :
      (cs : List (Call F)) (m : HedgeManager F)
      → all_own cs ≡ true
      → m.cfg.mode ≡ execute
      → IsSameHedge m (run cs m)
  unfolding run all_own
  run-execute [] m own h = same_hedge m
  run-execute (c ∷ cs) m own h =
      let first = step-IsSameHedge c m (ground arith) h in
      let rest = run-execute cs (step c m) (ground arith) (first.mode ∙ h) in
      record {
        state = rest.state ∙ first.state;
        mode = rest.mode ∙ first.mode;
        ids = rest.ids ∙ first.ids;
      }
