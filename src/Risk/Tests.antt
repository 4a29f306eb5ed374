-- ===== src/Risk/Tests.antt =====
-- Concrete monitors, and the theorems about the kill switch at concrete inputs.
use corsair.Base.{ℕ, ◌≡◌, ◌*◌, ◌≢◌, ◌↔◌, refl, true, some, none, List, [], ◌∷◌, arith}
use corsair.Base.Integers.{pos, negsuc, ◌+ℤ◌, ◌*ℤ◌, neg_ℤ}
use corsair.Float.{Fixed, fixed_float, Fixed-IsOrdered}
use corsair.Position.{MarketView}
use corsair.Position.Portfolio.{PortfolioState}
use corsair.Position.Totals.{compute_mtm_pnl}
use corsair.Risk.{
  halt, hedge_flat, risk, daily_halt, Reason, KillEvent, Directory, file_exists, remove_file,
  check_induced_sentinels, induced_sentinels, check_sentinels, RiskMonitor, healthy, is_killed,
  daily_pnl, check, check_daily_pnl_only, is_disconnect, is_daily_clearable, clear_daily_halt,
  resolve_daily_halt_threshold,
}
use corsair.Risk.Fired.{
  Agrees, check-Agrees, FiredBy, check_induced_sentinels-FiredBy, IsWithin, check-healthy_iff,
  check_daily_pnl_only-check,
}
use corsair.Risk.Sticky.{Call, run, run-sticky}

abbrev units : ℕ → Fixed
units n = some (pos (n * 10_000))

abbrev market : MarketView Fixed
market = record {
  underlying_price = λ p. none;
  iv_for = λ p s e r. none;
  current_price = λ p s e r. none;
}

abbrev flat : PortfolioState Fixed
flat = record {
  positions = [];
  index = [];
  registry = [];
  fills_today = 0;
  spread_capture_today = units 0;
  spread_capture_mid_today = units 0;
  daily_pnl = units 0;
  realized_pnl_persisted = units 0;
  session_open_nlv = none;
}

abbrev losing : PortfolioState Fixed
losing = record flat { realized_pnl_persisted = some (negsuc 29_999_999) }

abbrev monitor : RiskMonitor Fixed
monitor = record {
  cfg = record {
    capital = units 200_000;
    margin_kill_pct = some (pos 7_000);
    daily_halt_threshold = some (some (negsuc 24_999_999));
    delta_kill = units 5;
    vega_kill = units 1_000;
    theta_kill = some (negsuc 1_999_999);
    margin_ceiling_pct = some (pos 5_000);
    effective_delta_gating = true;
  };
  kill = none;
}

abbrev empty_dir : Directory
empty_dir = record { files = []; removable = λ n. true }

abbrev delta_dir : Directory
delta_dir = record { files = "notes" ∷ "corsair_induce_delta" ∷ []; removable = λ n. true }

-- A sentinel for the delta kill fires it, and its file alone goes.
induces : (check_induced_sentinels 3 delta_dir).0.files ≡ "notes" ∷ []
unfolding check_induced_sentinels check_sentinels file_exists remove_file
induces = refl

thresholds :
    (resolve_daily_halt_threshold (some (some (pos 500))) none (units 200_000)
      ≡ some (some (negsuc 99_999_999)))
    × (resolve_daily_halt_threshold none (some (some (negsuc 24_999_999))) (units 200_000)
        ≡ some (some (negsuc 24_999_999)))
unfolding resolve_daily_halt_threshold neg_ℤ ◌*ℤ◌
thresholds = (refl, refl)

check_induced_sentinels-FiredBy_example :
    let r = check_induced_sentinels 3 delta_dir in FiredBy 3 delta_dir r.0 induced_sentinels r.1
check_induced_sentinels-FiredBy_example = check_induced_sentinels-FiredBy 3 delta_dir

check-Agrees_example :
    let (d', m', out) =
      check flat (units 0) (units 6) (units 0) (units 0) market 3 delta_dir monitor in
    Agrees out monitor m' × (monitor.kill ≢ none → d' ≡ delta_dir)
check-Agrees_example =
    check-Agrees flat (units 0) (units 6) (units 0) (units 0) market 3 delta_dir monitor

check-healthy_iff_example :
    ((check flat (units 0) (units 2) (units 0) (units 0) market 3 empty_dir monitor).2 ≡ healthy)
    ↔ IsWithin monitor.cfg flat (units 0) (units 2) (units 0) (units 0) market
unfolding check_induced_sentinels check_sentinels file_exists daily_pnl compute_mtm_pnl ◌+ℤ◌ ◌*ℤ◌
check-healthy_iff_example =
    check-healthy_iff Fixed-IsOrdered flat (units 0) (units 2) (units 0) (units 0) market 3
      empty_dir monitor refl refl
      (record {
        margin_kill_number = refl;
        margin_number = refl;
        delta_number = refl;
        delta_kill_number = refl;
        vega_number = refl;
        vega_kill_number = refl;
        theta_number = refl;
        theta_kill_number = refl;
        zero_number = refl;
        pnl_number = refl;
        threshold_number = λ t e. ground (arith, e);
      })

abbrev fill_halt : KillEvent
fill_halt = record {
  reason = Reason.daily_pnl_halt_fill;
  source = daily_halt;
  kill_type = halt;
  timestamp_ns = 3;
}

check_daily_pnl_only-check_example :
    let r = check losing (units 0) (units 0) (units 0) (units 0) market 3 empty_dir monitor in
    (monitor.kill ≡ none) × (r.2 ≢ healthy) × (is_killed r.1 ≡ true)
unfolding check_daily_pnl_only daily_pnl compute_mtm_pnl ◌+ℤ◌
check_daily_pnl_only-check_example =
    check_daily_pnl_only-check losing (units 0) (units 0) (units 0) (units 0) market 3 empty_dir
      monitor fill_halt refl

abbrev delta_kill : KillEvent
delta_kill = record {
  reason = Reason.delta_kill;
  source = risk;
  kill_type = hedge_flat;
  timestamp_ns = 3;
}

abbrev calls : List (Call Fixed)
calls = Call.reconnected ∷ Call.rolled_over ∷ Call.filled losing market 4 ∷ []

run-sticky_example :
    run calls (record monitor { kill = some delta_kill })
    ≡ record monitor { kill = some delta_kill }
unfolding is_disconnect is_daily_clearable
run-sticky_example =
    run-sticky calls (record monitor { kill = some delta_kill }) delta_kill refl
      (λ e. cc e, (λ e. cc e, (λ e. e, tt)))

-- A daily halt is cleared at the rollover.
halt_clears : (clear_daily_halt (record monitor { kill = some fill_halt })).1 ≡ true
unfolding clear_daily_halt is_daily_clearable
halt_clears = refl
