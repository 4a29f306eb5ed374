-- ===== src/Constraint/Tests.antt =====
-- A concrete checker, and the theorems about the gates at concrete fills.
use corsair.Base.{ℕ, ◌*◌, ◌≡◌, ◌↔◌, ◌⊎◌, refl, true, false, some, none, []}
use corsair.Base.Integers.{pos, negsuc, ◌+ℤ◌, ◌*ℤ◌}
use corsair.Float.{Fixed, fixed_float, Fixed-IsOrdered}
use corsair.Api.{call}
use corsair.Position.Portfolio.{PortfolioState}
use corsair.Position.Totals.{delta_for_product, theta_for_product, sum}
use corsair.Constraint.{
  ConstraintConfig, ConstraintCheck, ConstraintChecker, GateOutcome, accepted, rejected,
  accepted_margin_escape, is_accepted, margin_ceiling, margin_kill, exposure, check,
  update_cached_margin,
}
use corsair.Constraint
use corsair.Constraint.Gates.{IsWithinHard, IsWithinSoft, IsSolvent, Escapes, check-accepted_iff}
use corsair.Constraint.Scale.{IsInBand, update_cached_margin_bounds}

abbrev units : ℕ → Fixed
units n = some (pos (n * 10_000))

abbrev limits : ConstraintConfig Fixed
limits = record {
  product = "HG";
  capital = units 200_000;
  margin_ceiling_pct = some (pos 5_000);
  delta_ceiling = units 3;
  theta_floor = some (negsuc 1_999_999);
  margin_kill_pct = some (pos 7_000);
  delta_kill = units 5;
  theta_kill = some (negsuc 4_999_999);
  effective_delta_gating = true;
  margin_escape_enabled = false;
}

abbrev escaping : ConstraintConfig Fixed
escaping = record limits { margin_escape_enabled = true }

abbrev checker : ConstraintConfig Fixed → ConstraintChecker Fixed
checker cfg = record { cfg = cfg; ibkr_scale = units 1; last_calibration = none }

abbrev portfolio : PortfolioState Fixed
portfolio = record {
  positions = [];
  index = [];
  registry = [];
  fills_today = 0;
  spread_capture_today = units 0;
  spread_capture_mid_today = units 0;
  daily_pnl = units 0;
  realized_pnl_persisted = units 0;
  session_open_nlv = none;
}

-- A fill of one contract of delta 2, hedged by a short of 3, that lowers the margin to 105000.
abbrev fill : ConstraintCheck Fixed
fill = record {
  option_strike = some (pos 60_500);
  option_right = call;
  option_expiry = 20_630;
  option_delta_per_contract = units 2;
  option_theta_per_contract = units 0;
  fill_qty_signed = pos 1;
  multiplier = units 25_000;
  cur_margin = units 110_000;
  post_margin = units 105_000;
  cur_long_premium = units 0;
  post_long_premium = units 0;
  hedge_qty = negsuc 2;
}

outcomes :
    (check portfolio fill (checker limits) ≡ accepted)
    × (check portfolio fill (checker escaping) ≡ accepted_margin_escape)
    × (check portfolio (record fill { post_margin = units 115_000 }) (checker limits)
        ≡ rejected "margin")
    × (check portfolio (record fill { hedge_qty = pos 2 }) (checker limits) ≡ rejected "delta")
unfolding check delta_for_product theta_for_product sum ◌+ℤ◌ ◌*ℤ◌
outcomes = (refl, refl, refl, refl)

check-accepted_iff_example :
    let x = exposure limits portfolio fill in
    (is_accepted (check portfolio fill (checker limits)) ≡ true) ↔ (
      IsWithinHard limits fill x
      × IsSolvent limits fill x
      × (Escapes limits fill x ⊎ IsWithinSoft limits fill x))
unfolding exposure delta_for_product theta_for_product sum margin_kill margin_ceiling ◌+ℤ◌ ◌*ℤ◌
check-accepted_iff_example =
    check-accepted_iff Fixed-IsOrdered portfolio fill (checker limits) (record {
      post_margin = refl;
      cur_margin = refl;
      kill = refl;
      ceiling = refl;
      post_delta = refl;
      cur_delta = refl;
      delta_kill = refl;
      delta_ceiling = refl;
      post_theta = refl;
      cur_theta = refl;
      theta_kill = refl;
      theta_floor = refl;
      zero_number = refl;
      post_premium = refl;
      cur_premium = refl;
      capital = refl;
    })

update_cached_margin_bounds_example :
    let r = update_cached_margin (units 80) (units 100) 5 (checker limits) in
    IsInBand (Constraint.new limits)
    × IsInBand r.0
    × (r.1 ≡ r.0.ibkr_scale)
    × ((fixed_float.le (units 80) (fixed_float.decimal 0 2) ≡ true)
          ⊎ (fixed_float.le (units 100) (fixed_float.decimal 0 2) ≡ true)
        → r.0 ≡ checker limits)
unfolding ◌*ℤ◌
update_cached_margin_bounds_example =
    update_cached_margin_bounds Fixed-IsOrdered (units 80) (units 100) 5 limits (checker limits)
      refl (refl, refl)
