-- ===== src/Hedge/Manager.antt =====
-- rust/corsair_hedge/src/manager.rs: when to hedge, and by how much. Log lines are left out; of the
-- resolved hedge contract only the id is kept, which is all that the manager reads.
use corsair.Base.{
  ℕ, ◌-◌, Bool, true, false, not, ◌&&◌, ◌||◌, Option, none, some, [], String, string_eq, nat_eq,
  ◌==◌, if◌then◌else◌, ltb, leb, max,
}
use corsair.Base.Integers.{ℤ, pos, ltb_ℤ, ℤ_eq, sub_i32, unsigned_abs}
use corsair.Float.{Float}
use corsair.Api.{Side, OrderId, buy, sell}
use corsair.Position.Portfolio.{PortfolioState}
use corsair.Position.Totals.{delta_for_product}
use corsair.Hedge.{HedgeState}
use corsair.Hedge
use corsair.Hedge.ExecIds.{ExecIds, contains, record_id}

-- rust/corsair_broker_api/src/events.rs
pub record Fill (F : Type 0) : Type 0 where
  pub exec_id : String
  pub order_id : OrderId
  pub instrument_id : ℕ
  pub side : Side
  pub qty : ℕ
  pub price : F
  pub timestamp_ns : ℕ
  pub commission : Option F

pub data HedgeMode : Type 0 where
  observe execute : HedgeMode

pub record HedgeConfig (F : Type 0) : Type 0 where
  pub product : String
  pub multiplier : F
  pub mode : HedgeMode
  pub tolerance_deltas : F
  pub rebalance_on_fill : Bool
  pub rebalance_cadence_sec : F
  pub include_in_daily_pnl : Bool
  pub flatten_on_halt_enabled : Bool
  pub ioc_tick_offset : ℤ
  pub hedge_tick_size : F
  pub lockout_days : ℤ

-- `place is_buy qty reason effective_delta_pre target_qty` and `log_only is_buy qty reason forward`
pub data HedgeAction (F : Type 0) : Type 0 where
  idle : HedgeAction F
  place : Bool → ℕ → String → F → ℤ → HedgeAction F
  log_only : Bool → ℕ → String → F → HedgeAction F

pub record HedgeManager (F : Type 0) : Type 0 where
  pub cfg : HedgeConfig F
  pub state : HedgeState F
  pub hedge_contract : Option ℕ
  pub last_periodic_ns : ℕ
  pub priority_drain_until_ns : ℕ
  pub exec_ids : ExecIds String

abbrev pub processed_exec_ids_max : ℕ
processed_exec_ids_max = 10_000

-- `desired_change.abs() < 1`, where the least `i32` is its own absolute value.
abbrev pub is_small : ℤ → Bool
is_small change = change == pos 0 || unsigned_abs change == 2_147_483_648

abbrev pub is_buy_side : Side → Bool
is_buy_side buy = true
is_buy_side sell = false

abbrev pub is_execute : HedgeMode → Bool
is_execute observe = false
is_execute execute = true

module _ {F : Type 0} ⦃f : Float F⦄ where
  open f use {lt, le, add, sub, div, neg, abs, round, decimal, of_int, to_i32}

  unfoldable pub new : HedgeConfig F → HedgeManager F
  unfolding Hedge.new
  new cfg = record {
    cfg = cfg;
    state = Hedge.new;
    hedge_contract = none;
    last_periodic_ns = 0;
    priority_drain_until_ns = 0;
    exec_ids = record { processed = []; order = [] };
  }

  unfoldable pub mtm_usd : F → HedgeManager F → F
  mtm_usd current_f m = Hedge.mtm_usd current_f m.cfg.multiplier m.state

  unfoldable pub set_hedge_contract : ℕ → HedgeManager F → HedgeManager F
  set_hedge_contract c m = record m { hedge_contract = some c }

  -- `target_qty` of `rebalance`
  unfoldable pub target_qty : PortfolioState F → HedgeManager F → ℤ
  target_qty portfolio m =
      let held = of_int m.state.hedge_qty in
      let effective = add (delta_for_product m.cfg.product portfolio) held in
      to_i32 (neg (round (sub effective held)))

  -- `dispatch m change reason effective target forward` is the `match` on the mode in `rebalance`.
  abbrev pub dispatch :
      HedgeMode → ℤ → String → F → ℤ → F → HedgeManager F → HedgeManager F × HedgeAction F
  dispatch observe change reason effective target forward m =
      let is_buy = ltb_ℤ (pos 0) change in
      let qty = unsigned_abs change in
      (
        record m { state = Hedge.apply_fill is_buy qty forward m.cfg.multiplier m.state },
        log_only is_buy qty reason forward,
      )
  dispatch execute change reason effective target forward m =
      (m, place (ltb_ℤ (pos 0) change) (unsigned_abs change) reason effective target)

  -- `forced` is `tolerance_override.is_some()`.
  unfoldable pub rebalance :
      PortfolioState F → Bool → String → F → HedgeManager F → HedgeManager F × HedgeAction F
  rebalance portfolio forced reason forward m =
      let effective = add (delta_for_product m.cfg.product portfolio) (of_int m.state.hedge_qty) in
      let target = target_qty portfolio m in
      let change = sub_i32 target m.state.hedge_qty in
      if not forced && is_small change
      then (m, idle)
      else if change == pos 0
      then (m, idle)
      else dispatch m.cfg.mode change reason effective target forward m

  unfoldable pub maybe_rebalance :
      PortfolioState F → String → F → HedgeManager F → HedgeManager F × HedgeAction F
  maybe_rebalance portfolio reason forward m =
      let effective = add (delta_for_product m.cfg.product portfolio) (of_int m.state.hedge_qty) in
      if le (abs effective) m.cfg.tolerance_deltas
      then (m, idle)
      else rebalance portfolio false reason forward m

  unfoldable pub rebalance_on_fill :
      PortfolioState F → HedgeManager F → HedgeManager F × HedgeAction F
  rebalance_on_fill portfolio m =
      if not m.cfg.rebalance_on_fill
      then (m, idle)
      else maybe_rebalance portfolio "fill" (decimal 60 1) m

  unfoldable pub rebalance_periodic :
      PortfolioState F → F → ℕ → HedgeManager F → HedgeManager F × HedgeAction F
  rebalance_periodic portfolio forward now_ns m =
      let until = m.priority_drain_until_ns in
      let elapsed = div (of_int (pos (now_ns - m.last_periodic_ns))) (decimal 1_000_000_000 0) in
      if ltb 0 until && ltb now_ns until
      then maybe_rebalance portfolio "priority_drain_periodic" forward
          (record m { last_periodic_ns = now_ns })
      else if ltb 0 until && leb until now_ns
      then maybe_rebalance portfolio "priority_drain_clear" forward
          (record m { last_periodic_ns = now_ns; priority_drain_until_ns = 0 })
      else if lt elapsed m.cfg.rebalance_cadence_sec
      then (m, idle)
      else maybe_rebalance portfolio "periodic" forward (record m { last_periodic_ns = now_ns })

  unfoldable pub force_flat : PortfolioState F → F → HedgeManager F → HedgeManager F × HedgeAction F
  force_flat portfolio forward m = rebalance portfolio true "delta_kill_force_flat" forward m

  unfoldable pub request_priority_drain : ℕ → HedgeManager F → HedgeManager F
  request_priority_drain until m = record m {
    priority_drain_until_ns = max m.priority_drain_until_ns until;
  }

  -- The `match` on the mode in `flatten_on_halt`
  abbrev pub halt_order : HedgeMode → ℤ → F → HedgeManager F → HedgeManager F × HedgeAction F
  halt_order observe held forward m =
      (m, log_only (ltb_ℤ held (pos 0)) (unsigned_abs held) "halt_flatten" forward)
  halt_order execute held forward m =
      (m, place (ltb_ℤ held (pos 0)) (unsigned_abs held) "halt_flatten" (of_int held) (pos 0))

  unfoldable pub flatten_on_halt : F → HedgeManager F → HedgeManager F × HedgeAction F
  flatten_on_halt forward m =
      if not m.cfg.flatten_on_halt_enabled
      then (m, idle)
      else if m.state.hedge_qty == pos 0
      then (m, idle)
      else halt_order m.cfg.mode m.state.hedge_qty forward m

  unfoldable pub is_ours : Fill F → Option ℕ → Bool
  is_ours fill none = false
  is_ours fill (some c) = fill.instrument_id == c

  unfoldable pub apply_broker_fill : Fill F → HedgeManager F → HedgeManager F × Bool
  apply_broker_fill fill m =
      if not (is_execute m.cfg.mode)
      then (m, false)
      else if not (is_ours fill m.hedge_contract)
      then (m, false)
      else if fill.exec_id == "" || contains fill.exec_id m.exec_ids.processed
      then (m, false)
      else (
        record m {
          exec_ids = record_id processed_exec_ids_max fill.exec_id m.exec_ids;
          state =
              Hedge.apply_fill (is_buy_side fill.side) fill.qty fill.price m.cfg.multiplier m.state;
        },
        true,
      )

  unfoldable pub reconcile_with_position : ℤ → F → HedgeManager F → HedgeManager F × Bool
  reconcile_with_position broker_qty broker_avg_cost m =
      if broker_qty == m.state.hedge_qty
      then (m, false)
      else (record m { state = Hedge.replace broker_qty broker_avg_cost m.state }, true)
