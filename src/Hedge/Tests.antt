-- ===== src/Hedge/Tests.antt =====
-- A concrete hedge manager, and the theorems about it at concrete orders and fills.
use corsair.Base.{ℕ, ◌*◌, ◌≡◌, refl, true, false, some, none, [], ◌∷◌, arith, string_eq, nat_eq}
use corsair.Base.Integers.{
  pos, negsuc, ◌+ℤ◌, ◌-ℤ◌, ◌*ℤ◌, neg_ℤ, wrap_i32, neg_i32, add_i32, sub_i32,
}
use corsair.Float.{Fixed, fixed_float}
use corsair.Api.{call, sell}
use corsair.Position.{Position}
use corsair.Position.Portfolio.{PortfolioState}
use corsair.Position.Totals.{delta_for_product, sum}
use corsair.Hedge.{HedgeState, fill_effect, apply_fill}
use corsair.Hedge.ExecIds.{IsQueued, contains, unique}
use corsair.Hedge.Manager.{
  HedgeManager, HedgeConfig, place, log_only, observe, execute, Fill, apply_broker_fill, rebalance,
  target_qty, flatten_on_halt, new, processed_exec_ids_max, is_ours,
}
use corsair.Hedge.Fills.{IsOnce, apply_broker_fill-IsOnce}
use corsair.Hedge.Orders.{Meets, rebalance-Meets, Flattens, flatten_on_halt-Flattens}
use corsair.Hedge.Queued.{run-IsQueued}
use corsair.Hedge.Calls.{
  IsSameHedge, run, run-execute, contract_set, confirmed, delta_killed, halted, drain_requested,
  all_own, is_own,
}

abbrev units : ℕ → Fixed
units n = some (pos (n * 10_000))

abbrev config : HedgeConfig Fixed
config = record {
  product = "HG";
  multiplier = units 25_000;
  mode = execute;
  tolerance_deltas = some (pos 5_000);
  rebalance_on_fill = true;
  rebalance_cadence_sec = units 30;
  include_in_daily_pnl = true;
  flatten_on_halt_enabled = true;
  ioc_tick_offset = pos 2;
  hedge_tick_size = some (pos 5);
  lockout_days = pos 7;
}

-- One contract held, bought at 6.
abbrev held : HedgeState Fixed
held = record { hedge_qty = pos 1; avg_entry_f = units 6; realized_pnl_usd = units 0 }

abbrev manager : HedgeManager Fixed
manager = record {
  cfg = config;
  state = held;
  hedge_contract = some 7;
  last_periodic_ns = 0;
  priority_drain_until_ns = 0;
  exec_ids = record { processed = "a" ∷ []; order = "a" ∷ [] };
}

-- Two calls of delta 1.4 each: a delta of 2.8, which the hedge rounds to 3.
abbrev calls : Position Fixed
calls = record {
  product = "HG";
  strike = units 6;
  expiry = 20_630;
  right = call;
  quantity = pos 2;
  avg_fill_price = units 1;
  fill_time = 0;
  multiplier = units 25_000;
  delta = some (pos 14_000);
  gamma = units 0;
  theta = units 0;
  vega = units 0;
  current_price = units 1;
}

abbrev portfolio : PortfolioState Fixed
portfolio = record {
  positions = calls ∷ [];
  index = [];
  registry = [];
  fills_today = 0;
  spread_capture_today = units 0;
  spread_capture_mid_today = units 0;
  daily_pnl = units 0;
  realized_pnl_persisted = units 0;
  session_open_nlv = none;
}

-- Four contracts are sold, and the hedge is then short three.
sale :
    rebalance portfolio false "periodic" (units 6) manager
    ≡ (manager, place false 4 "periodic" (some (pos 38_000)) (negsuc 2))
unfolding rebalance target_qty delta_for_product sum ◌+ℤ◌ ◌-ℤ◌ ◌*ℤ◌ neg_ℤ sub_i32 wrap_i32
sale = refl

target : target_qty portfolio manager ≡ negsuc 2
unfolding target_qty delta_for_product sum ◌+ℤ◌ ◌-ℤ◌ ◌*ℤ◌ neg_ℤ
target = refl

rebalance-Meets_example :
    Meets (negsuc 2) manager (rebalance portfolio false "periodic" (units 6) manager)
unfolding delta_for_product sum ◌+ℤ◌ ◌-ℤ◌ ◌*ℤ◌ neg_ℤ
rebalance-Meets_example =
    rebalance-Meets portfolio false "periodic" (units 6) manager refl (ground arith, ground arith)
      (ground arith, ground arith)

flatten_on_halt-Flattens_example : Flattens manager (flatten_on_halt (units 6) manager)
flatten_on_halt-Flattens_example =
    flatten_on_halt-Flattens (units 6) manager (ground arith, ground arith)

-- In execute mode the one contract is sold; in observe mode the sale is logged, and it stays.
abbrev observer : HedgeManager Fixed
observer = record manager { cfg = record config { mode = observe } }

halts :
    (flatten_on_halt (units 6) manager ≡ (manager, place false 1 "halt_flatten" (units 1) (pos 0)))
    × (flatten_on_halt (units 6) observer ≡ (observer, log_only false 1 "halt_flatten" (units 6)))
unfolding flatten_on_halt ◌*ℤ◌
halts = (refl, refl)

abbrev confirmation : Fill Fixed
confirmation = record {
  exec_id = "b";
  order_id = 40;
  instrument_id = 7;
  side = sell;
  qty = 3;
  price = units 7;
  timestamp_ns = 100;
  commission = none;
}

manager-IsQueued : IsQueued processed_exec_ids_max manager.exec_ids
unfolding contains unique
manager-IsQueued = record { same = λ x. refl; once = refl; bounded = ground arith }

apply_broker_fill-IsOnce_example :
    IsOnce confirmation manager (apply_broker_fill confirmation manager)
apply_broker_fill-IsOnce_example = apply_broker_fill-IsOnce confirmation manager manager-IsQueued

-- It is applied: the hedge turns from one long to two short, at the price of the fill.
sold :
    ((apply_broker_fill confirmation manager).1 ≡ true)
    × ((apply_broker_fill confirmation manager).0.state.hedge_qty ≡ negsuc 1)
    × ((apply_broker_fill confirmation manager).0.state.avg_entry_f ≡ units 7)
unfolding apply_broker_fill apply_fill fill_effect ◌+ℤ◌ add_i32 neg_i32 wrap_i32 neg_ℤ contains
    is_ours
sold = (refl, refl, refl)

run-execute_example :
    IsSameHedge manager
      (run (delta_killed portfolio (units 6) ∷ halted (units 6) ∷ drain_requested 5 ∷ []) manager)
unfolding all_own is_own
run-execute_example =
    run-execute (delta_killed portfolio (units 6) ∷ halted (units 6) ∷ drain_requested 5 ∷ [])
      manager refl refl

run-IsQueued_example :
    IsQueued processed_exec_ids_max
      (run
        (contract_set 7 ∷ confirmed confirmation ∷ confirmed confirmation ∷ [])
        (new config)).exec_ids
run-IsQueued_example =
    run-IsQueued (contract_set 7 ∷ confirmed confirmation ∷ confirmed confirmation ∷ []) config
