-- ===== src/Hedge/Queued.antt =====
-- The processed execution ids over sequences of calls: rust/corsair_hedge/src/manager.rs.
use corsair.Base.{
  ℕ, ◌-◌, ltb, leb, ◌≡◌, refl, sym, subst, Bool, not, ◌&&◌, true, false, List, [], ◌∷◌, arith, ◌==◌,
  if◌then◌else◌, string_eq, String,
}
use corsair.Base.Integers.{ℤ, pos, sub_i32, ℤ_eq}
use corsair.Float.{Float}
use corsair.Position.Portfolio.{PortfolioState}
use corsair.Position.Totals.{delta_for_product}
use corsair.Hedge.ExecIds.{IsQueued, contains, unique}
use corsair.Hedge.Manager.{
  HedgeManager, HedgeConfig, HedgeMode, observe, idle, target_qty, is_small, execute,
  reconcile_with_position, rebalance, maybe_rebalance, rebalance_on_fill, rebalance_periodic,
  force_flat, request_priority_drain, set_hedge_contract, processed_exec_ids_max, new, dispatch,
}
use corsair.Hedge.Fills.{apply_broker_fill-IsOnce}
use corsair.Hedge.Calls.{
  Call, step, run, chosen, contract_set, option_filled, periodic, delta_killed, halted,
  drain_requested, flatten_on_halt-same, confirmed, reconciled,
}

module _ {F : Type 0} ⦃f : Float F⦄ where
  -- The ids of the processed executions are in order.
  IsInStep : HedgeManager F → Type 0
  IsInStep m = IsQueued processed_exec_ids_max m.exec_ids

  dispatch-IsInStep :
      (mode : HedgeMode) (change : ℤ) (reason : String) (effective : F) (target : ℤ) (forward : F)
      (m : HedgeManager F)
      → IsInStep m
      → IsInStep (dispatch mode change reason effective target forward m).0
  unfolding IsInStep
  dispatch-IsInStep observe change reason effective target forward m q = q
  dispatch-IsInStep execute change reason effective target forward m q = q

  rebalance-IsInStep :
      (portfolio : PortfolioState F) (forced : Bool) (reason : String) (forward : F)
      (m : HedgeManager F)
      → IsInStep m
      → IsInStep (rebalance portfolio forced reason forward m).0
  unfolding rebalance
  rebalance-IsInStep portfolio forced reason forward m q =
      let target = target_qty portfolio m in
      let change = sub_i32 target m.state.hedge_qty in
      let effective =
        f.add (delta_for_product m.cfg.product portfolio) (f.of_int m.state.hedge_qty) in
      let order = dispatch m.cfg.mode change reason effective target forward m in
      chosen IsInStep (not forced && is_small change) (m, idle)
        (if change == pos 0 then (m, idle) else order) q
        (chosen IsInStep (change == pos 0) (m, idle) order q
          (dispatch-IsInStep m.cfg.mode change reason effective target forward m q))

  maybe_rebalance-IsInStep :
      (portfolio : PortfolioState F) (reason : String) (forward : F) (m : HedgeManager F)
      → IsInStep m
      → IsInStep (maybe_rebalance portfolio reason forward m).0
  unfolding maybe_rebalance
  maybe_rebalance-IsInStep portfolio reason forward m q =
      let effective =
        f.add (delta_for_product m.cfg.product portfolio) (f.of_int m.state.hedge_qty) in
      chosen IsInStep (f.le (f.abs effective) m.cfg.tolerance_deltas) (m, idle)
        (rebalance portfolio false reason forward m) q
        (rebalance-IsInStep portfolio false reason forward m q)

  reconcile_with_position-exec_ids :
      (qty : ℤ) (cost : F) (m : HedgeManager F)
      → (reconcile_with_position qty cost m).0.exec_ids ≡ m.exec_ids
  unfolding reconcile_with_position
  reconcile_with_position-exec_ids qty cost m = ground arith

  reconcile_with_position-IsInStep :
      (qty : ℤ) (cost : F) (m : HedgeManager F)
      → IsInStep m
      → IsInStep (reconcile_with_position qty cost m).0
  unfolding IsInStep
  reconcile_with_position-IsInStep qty cost m q =
      subst (IsQueued processed_exec_ids_max) (sym (reconcile_with_position-exec_ids qty cost m)) q

  keep-IsInStep : (m m' : HedgeManager F) → m'.exec_ids ≡ m.exec_ids → IsInStep m → IsInStep m'
  unfolding IsInStep
  keep-IsInStep m m' same q = subst (IsQueued processed_exec_ids_max) (sym same) q

  rebalance_on_fill-IsInStep :
      (portfolio : PortfolioState F) (m : HedgeManager F)
      → IsInStep m
      → IsInStep (rebalance_on_fill portfolio m).0
  unfolding rebalance_on_fill
  rebalance_on_fill-IsInStep portfolio m q =
      chosen IsInStep (not m.cfg.rebalance_on_fill) (m, idle)
        (maybe_rebalance portfolio "fill" (f.decimal 60 1) m) q
        (maybe_rebalance-IsInStep portfolio "fill" (f.decimal 60 1) m q)

  rebalance_periodic-IsInStep :
      (portfolio : PortfolioState F) (forward : F) (now : ℕ) (m : HedgeManager F)
      → IsInStep m
      → IsInStep (rebalance_periodic portfolio forward now m).0
  unfolding rebalance_periodic
  rebalance_periodic-IsInStep portfolio forward now m q =
      let until = m.priority_drain_until_ns in
      let timed : HedgeManager F = record m { last_periodic_ns = now } in
      let cleared : HedgeManager F = record m {
        last_periodic_ns = now;
        priority_drain_until_ns = 0;
      } in
      let elapsed = f.div (f.of_int (pos (now - m.last_periodic_ns))) (f.decimal 1_000_000_000 0) in
      let drained = maybe_rebalance portfolio "priority_drain_periodic" forward timed in
      let expired = maybe_rebalance portfolio "priority_drain_clear" forward cleared in
      let regular = maybe_rebalance portfolio "periodic" forward timed in
      let within = f.lt elapsed m.cfg.rebalance_cadence_sec in
      let ended = ltb 0 until && leb until now in
      chosen IsInStep (ltb 0 until && ltb now until) drained
        (if ended then expired else if within then (m, idle) else regular)
        (maybe_rebalance-IsInStep portfolio "priority_drain_periodic" forward timed
          (keep-IsInStep m timed refl q))
        (chosen IsInStep ended expired (if within then (m, idle) else regular)
          (maybe_rebalance-IsInStep portfolio "priority_drain_clear" forward cleared
            (keep-IsInStep m cleared refl q))
          (chosen IsInStep within (m, idle) regular q
            (maybe_rebalance-IsInStep portfolio "periodic" forward timed
              (keep-IsInStep m timed refl q))))

  step-IsInStep : (c : Call F) (m : HedgeManager F) → IsInStep m → IsInStep (step c m)
  unfolding step IsInStep set_hedge_contract request_priority_drain force_flat
  step-IsInStep (contract_set c) m q = q
  step-IsInStep (option_filled portfolio) m q = rebalance_on_fill-IsInStep portfolio m q
  step-IsInStep (periodic portfolio forward now) m q =
      rebalance_periodic-IsInStep portfolio forward now m q
  step-IsInStep (delta_killed portfolio forward) m q =
      rebalance-IsInStep portfolio true "delta_kill_force_flat" forward m q
  step-IsInStep (halted forward) m q = subst IsInStep (sym (flatten_on_halt-same forward m)) q
  step-IsInStep (drain_requested until) m q = q
  step-IsInStep (confirmed fill) m q = (apply_broker_fill-IsOnce fill m q).queued
  step-IsInStep (reconciled qty cost) m q = reconcile_with_position-IsInStep qty cost m q

  run-IsInStep : (cs : List (Call F)) (m : HedgeManager F) → IsInStep m → IsInStep (run cs m)
  unfolding run
  run-IsInStep [] m q = q
  run-IsInStep (c ∷ cs) m q = run-IsInStep cs (step c m) (step-IsInStep c m q)

  new-IsInStep : (cfg : HedgeConfig F) → IsInStep (new cfg)
  unfolding IsInStep new contains unique
  new-IsInStep cfg = record { same = λ x. refl; once = refl; bounded = ground arith }

  -- Over every sequence of calls on a new manager, the set and the queue of processed execution ids
  -- hold the same ids, the queue each of them once, and never more than 10,000.
  pub run-IsQueued :
      (cs : List (Call F)) (cfg : HedgeConfig F)
      → IsQueued processed_exec_ids_max (run cs (new cfg)).exec_ids
  unfolding IsInStep
  run-IsQueued cs cfg = run-IsInStep cs (new cfg) (new-IsInStep cfg)
