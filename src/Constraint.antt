-- ===== src/Constraint.antt =====
-- rust/corsair_constraint/src/checker.rs and gates.rs: the pre-fill gates. The texts of a rejection
-- (`detail`) are only logged and are left out.
pub mod Gates
pub mod Scale
mod Tests
use corsair.Base.{Bool, true, false, not, ◌&&◌, ◌||◌, Option, none, some, if◌then◌else◌, ℕ, String}
use corsair.Base.Integers.{ℤ, pos}
use corsair.Float.{Float}
use corsair.Api.{Right, NaiveDate}
use corsair.Position.Portfolio.{PortfolioState}
use corsair.Position.Totals.{delta_for_product, theta_for_product}

pub record ConstraintConfig (F : Type 0) : Type 0 where
  pub product : String
  pub capital : F
  pub margin_ceiling_pct : F
  pub delta_ceiling : F
  pub theta_floor : F
  pub margin_kill_pct : F
  pub delta_kill : F
  pub theta_kill : F
  pub effective_delta_gating : Bool
  pub margin_escape_enabled : Bool

pub record ConstraintCheck (F : Type 0) : Type 0 where
  pub option_strike : F
  pub option_right : Right
  pub option_expiry : NaiveDate
  pub option_delta_per_contract : F
  pub option_theta_per_contract : F
  pub fill_qty_signed : ℤ
  pub multiplier : F
  pub cur_margin : F
  pub post_margin : F
  pub cur_long_premium : F
  pub post_long_premium : F
  pub hedge_qty : ℤ

pub data GateOutcome : Type 0 where
  accepted accepted_margin_escape : GateOutcome
  rejected : String → GateOutcome

unfoldable pub is_accepted : GateOutcome → Bool
is_accepted accepted = true
is_accepted accepted_margin_escape = true
is_accepted (rejected reason) = false

unfoldable pub rejection_reason : GateOutcome → Option String
rejection_reason (rejected reason) = some reason
rejection_reason _ = none

pub record MarginCalibration (F : Type 0) : Type 0 where
  pub raw_synthetic : F
  pub ibkr_actual : F
  pub scale : F
  pub timestamp_ns : ℕ

pub record ConstraintChecker (F : Type 0) : Type 0 where
  pub cfg : ConstraintConfig F
  pub ibkr_scale : F
  pub last_calibration : Option (MarginCalibration F)

-- The numbers that the gates compare, as `check` computes them first.
pub record Exposure (F : Type 0) : Type 0 where
  pub cur_delta : F
  pub post_delta : F
  pub cur_theta : F
  pub post_theta : F

module _ {F : Type 0} ⦃f : Float F⦄ where
  open f use {lt, le, add, mul, div, abs, decimal, of_int}

  abbrev pub ibkr_scale_lower : F
  ibkr_scale_lower = decimal 50 2

  abbrev pub ibkr_scale_upper : F
  ibkr_scale_upper = decimal 125 2

  -- `ConstraintChecker::new`
  unfoldable pub new : ConstraintConfig F → ConstraintChecker F
  new cfg = record { cfg = cfg; ibkr_scale = decimal 100 2; last_calibration = none }

  unfoldable pub scale : F → ConstraintChecker F → F
  scale raw_synthetic c = mul raw_synthetic c.ibkr_scale

  -- The scale that a calibration adopts.
  abbrev pub bounded_scale : F → F
  bounded_scale proposed =
      if lt proposed ibkr_scale_lower || lt ibkr_scale_upper proposed
      then decimal 100 2
      else proposed

  unfoldable pub update_cached_margin : F → F → ℕ → ConstraintChecker F → ConstraintChecker F × F
  update_cached_margin ibkr_actual raw_synthetic timestamp_ns c =
      let bounded = bounded_scale (div ibkr_actual raw_synthetic) in
      if le ibkr_actual (decimal 0 2) || le raw_synthetic (decimal 0 2)
      then (c, c.ibkr_scale)
      else (
        record c {
          ibkr_scale = bounded;
          last_calibration = some (record {
            raw_synthetic = raw_synthetic;
            ibkr_actual = ibkr_actual;
            scale = bounded;
            timestamp_ns = timestamp_ns;
          });
        },
        bounded,
      )

  unfoldable pub margin_ceiling : ConstraintConfig F → F
  margin_ceiling cfg = mul cfg.capital cfg.margin_ceiling_pct

  unfoldable pub margin_kill : ConstraintConfig F → F
  margin_kill cfg = mul cfg.capital cfg.margin_kill_pct

  unfoldable pub exposure : ConstraintConfig F → PortfolioState F → ConstraintCheck F → Exposure F
  exposure cfg portfolio c =
      let qty = of_int c.fill_qty_signed in
      let hedge = if cfg.effective_delta_gating then c.hedge_qty else pos 0 in
      let cur_delta = add (delta_for_product cfg.product portfolio) (of_int hedge) in
      let cur_theta = theta_for_product cfg.product portfolio in
      record {
        cur_delta = cur_delta;
        post_delta = add cur_delta (mul c.option_delta_per_contract qty);
        cur_theta = cur_theta;
        post_theta = add cur_theta (mul (mul c.option_theta_per_contract c.multiplier) qty);
      }

  abbrev premium_breach : ConstraintConfig F → ConstraintCheck F → Bool
  premium_breach cfg c =
      lt cfg.capital c.post_long_premium && lt c.cur_long_premium c.post_long_premium

  -- The gates of `check` after the hard limits and the margin escape.
  unfoldable pub strict_gates : ConstraintConfig F → ConstraintCheck F → Exposure F → GateOutcome
  unfolding margin_ceiling
  strict_gates cfg c x =
      let ceiling = margin_ceiling cfg in
      if lt ceiling c.post_margin && lt ceiling c.cur_margin && le c.cur_margin c.post_margin
      then rejected "margin"
      else if lt ceiling c.post_margin && le c.cur_margin ceiling
      then rejected "margin"
      else if lt cfg.delta_ceiling (abs x.post_delta) && le (abs x.cur_delta) (abs x.post_delta)
      then rejected "delta"
      else if lt x.post_theta cfg.theta_floor && le x.post_theta x.cur_theta
      then rejected "theta"
      else if premium_breach cfg c
      then rejected "long_premium"
      else accepted

  -- All gates of `check`, in the order of the source.
  unfoldable pub gates : ConstraintConfig F → ConstraintCheck F → Exposure F → GateOutcome
  unfolding margin_kill margin_ceiling strict_gates
  gates cfg c x =
      if lt (margin_kill cfg) c.post_margin
      then rejected "margin_kill"
      else if lt cfg.delta_kill (abs x.post_delta)
      then rejected "delta_kill"
      else if lt cfg.theta_kill (decimal 0 2) && lt x.post_theta cfg.theta_kill
      then rejected "theta_kill"
      else if cfg.margin_escape_enabled
          && lt (margin_ceiling cfg) c.cur_margin
          && lt c.post_margin c.cur_margin
      then (if premium_breach cfg c then rejected "long_premium" else accepted_margin_escape)
      else strict_gates cfg c x

  unfoldable pub check : PortfolioState F → ConstraintCheck F → ConstraintChecker F → GateOutcome
  unfolding gates exposure
  check portfolio c k = gates k.cfg c (exposure k.cfg portfolio c)
