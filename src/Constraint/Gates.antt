-- ===== src/Constraint/Gates.antt =====
-- corsair_constraint/src/checker.rs: which fills `check` lets through.
use corsair.Base.{◌≡◌, ◌↔◌, ◌⊎◌, true, false, arith}
use corsair.Float.{Float, IsOrdered, ◌≼◌, ◌≺◌, IsNumber}
use corsair.Position.Portfolio.{PortfolioState}
use corsair.Constraint.{
  ConstraintConfig, ConstraintCheck, ConstraintChecker, Exposure, accepted, accepted_margin_escape,
  is_accepted, margin_ceiling, margin_kill, exposure, gates, strict_gates, check,
}

module _ {F : Type 0} ⦃f : Float F⦄ where
  open f use {abs, decimal, lt, le}

  module _ (cfg : ConstraintConfig F) (c : ConstraintCheck F) (x : Exposure F) where
    -- The limits that bind in every mode.
    pub record IsWithinHard : Type 0 where
      pub margin : c.post_margin ≼ margin_kill cfg
      pub delta : abs x.post_delta ≼ cfg.delta_kill
      pub theta : (decimal 0 2 ≼ cfg.theta_kill) ⊎ (cfg.theta_kill ≼ x.post_theta)

    -- The margin is above its ceiling, and the fill lowers it.
    abbrev pub Escapes : Type 0
    Escapes =
        (cfg.margin_escape_enabled ≡ true)
        × (margin_ceiling cfg ≺ c.cur_margin)
        × (c.post_margin ≺ c.cur_margin)

    -- The soft limits, each of which an improving fill may stay beyond.
    pub record IsWithinSoft : Type 0 where
      pub margin : (c.post_margin ≼ margin_ceiling cfg) ⊎ (c.post_margin ≺ c.cur_margin)
      pub delta : (abs x.post_delta ≼ cfg.delta_ceiling) ⊎ (abs x.post_delta ≺ abs x.cur_delta)
      pub theta : (cfg.theta_floor ≼ x.post_theta) ⊎ (x.cur_theta ≺ x.post_theta)

    abbrev pub IsSolvent : Type 0
    IsSolvent = (c.post_long_premium ≼ cfg.capital) ⊎ (c.post_long_premium ≼ c.cur_long_premium)

    -- No number that the gates compare is NaN.
    pub record IsFinite : Type 0 where
      pub post_margin : IsNumber c.post_margin
      pub cur_margin : IsNumber c.cur_margin
      pub kill : IsNumber (margin_kill cfg)
      pub ceiling : IsNumber (margin_ceiling cfg)
      pub post_delta : IsNumber (abs x.post_delta)
      pub cur_delta : IsNumber (abs x.cur_delta)
      pub delta_kill : IsNumber cfg.delta_kill
      pub delta_ceiling : IsNumber cfg.delta_ceiling
      pub post_theta : IsNumber x.post_theta
      pub cur_theta : IsNumber x.cur_theta
      pub theta_kill : IsNumber cfg.theta_kill
      pub theta_floor : IsNumber cfg.theta_floor
      pub zero_number : IsNumber (decimal 0 2)
      pub post_premium : IsNumber c.post_long_premium
      pub cur_premium : IsNumber c.cur_long_premium
      pub capital : IsNumber cfg.capital

  module _ (laws : IsOrdered F) (cfg : ConstraintConfig F) (c : ConstraintCheck F) (x : Exposure F)
      (n : IsFinite cfg c x) where
    open laws use {lt-eq-not-le, le_of_lt, le_trans, le_total}

    -- The gates behind the hard limits and the escape.
    strict_iff :
        (is_accepted (strict_gates cfg c x) ≡ true) ↔ (IsWithinSoft cfg c x × IsSolvent cfg c x)
    unfolding is_accepted strict_gates
    strict_iff = ground (
      arith,
      lt-eq-not-le (margin_ceiling cfg) c.post_margin n.ceiling n.post_margin,
      lt-eq-not-le (margin_ceiling cfg) c.cur_margin n.ceiling n.cur_margin,
      lt-eq-not-le c.post_margin c.cur_margin n.post_margin n.cur_margin,
      le_of_lt c.post_margin c.cur_margin,
      le_trans c.post_margin c.cur_margin (margin_ceiling cfg),
      lt-eq-not-le cfg.delta_ceiling (abs x.post_delta) n.delta_ceiling n.post_delta,
      lt-eq-not-le (abs x.post_delta) (abs x.cur_delta) n.post_delta n.cur_delta,
      lt-eq-not-le x.post_theta cfg.theta_floor n.post_theta n.theta_floor,
      lt-eq-not-le x.cur_theta x.post_theta n.cur_theta n.post_theta,
      lt-eq-not-le cfg.capital c.post_long_premium n.capital n.post_premium,
      lt-eq-not-le c.cur_long_premium c.post_long_premium n.cur_premium n.post_premium,
    )

    gates_iff :
        (is_accepted (gates cfg c x) ≡ true)
        ↔ (IsWithinHard cfg c x × IsSolvent cfg c x × (Escapes cfg c x ⊎ IsWithinSoft cfg c x))
    unfolding is_accepted gates
    gates_iff = ground (
      arith,
      lt-eq-not-le (margin_kill cfg) c.post_margin n.kill n.post_margin,
      lt-eq-not-le cfg.delta_kill (abs x.post_delta) n.delta_kill n.post_delta,
      lt-eq-not-le cfg.theta_kill (decimal 0 2) n.theta_kill n.zero_number,
      lt-eq-not-le x.post_theta cfg.theta_kill n.post_theta n.theta_kill,
      lt-eq-not-le cfg.capital c.post_long_premium n.capital n.post_premium,
      lt-eq-not-le c.cur_long_premium c.post_long_premium n.cur_premium n.post_premium,
      strict_iff,
    )

  -- Where the comparisons are those of IEEE 754 and no number that the gates compare is NaN, `check`
  -- accepts a fill exactly when it is within the hard limits on margin, delta and theta; its long
  -- premium is within the capital or does not grow; and it either lowers a margin that is above the
  -- ceiling while the escape is enabled, or leaves each of margin, delta and theta within its soft
  -- limit or better than before.
  pub check-accepted_iff :
      (laws : IsOrdered F) (p : PortfolioState F) (c : ConstraintCheck F) (k : ConstraintChecker F)
      → let x = exposure k.cfg p c in
        IsFinite k.cfg c x
        → (is_accepted (check p c k) ≡ true) ↔ (
            IsWithinHard k.cfg c x
            × IsSolvent k.cfg c x
            × (Escapes k.cfg c x ⊎ IsWithinSoft k.cfg c x))
  unfolding check
  check-accepted_iff laws p c k n = gates_iff laws k.cfg c (exposure k.cfg p c) n

  -- `check` answers with the margin escape only to a fill that lowers a margin above the ceiling while
  -- the escape is enabled, and that no hard limit's own test rejects.
  pub check-escape :
      (p : PortfolioState F) (c : ConstraintCheck F) (k : ConstraintChecker F)
      → check p c k ≡ accepted_margin_escape
      → let x = exposure k.cfg p c in
        Escapes k.cfg c x
        × (lt (margin_kill k.cfg) c.post_margin ≡ false)
        × (lt k.cfg.delta_kill (abs x.post_delta) ≡ false)
  unfolding check gates strict_gates
  check-escape p c k h = ground arith

  -- A margin after the fill that is NaN passes every margin test: with the escape disabled, a fill
  -- whose delta, theta and long premium no test rejects is accepted.
  pub nan_margin_accepted :
      (laws : IsOrdered F) (p : PortfolioState F) (c : ConstraintCheck F) (k : ConstraintChecker F)
      → ¬ IsNumber c.post_margin
      → k.cfg.margin_escape_enabled ≡ false
      → let x = exposure k.cfg p c in
        lt k.cfg.delta_kill (abs x.post_delta) ≡ false
        → lt x.post_theta k.cfg.theta_kill ≡ false
        → lt k.cfg.delta_ceiling (abs x.post_delta) ≡ false
        → lt x.post_theta k.cfg.theta_floor ≡ false
        → lt k.cfg.capital c.post_long_premium ≡ false
        → check p c k ≡ accepted
  unfolding check gates strict_gates
  nan_margin_accepted laws p c k nan off hd ht hc hf hp = ground (
    arith,
    laws.le_of_lt (margin_kill k.cfg) c.post_margin,
    laws.numbers_of_le (margin_kill k.cfg) c.post_margin,
    laws.le_of_lt (margin_ceiling k.cfg) c.post_margin,
    laws.numbers_of_le (margin_ceiling k.cfg) c.post_margin,
  )
