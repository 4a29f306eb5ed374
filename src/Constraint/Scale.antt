-- ===== src/Constraint/Scale.antt =====
-- corsair_constraint/src/checker.rs: the calibration of the margin scale.
use corsair.Base.{ℕ, ◌≡◌, ◌⊎◌, true, arith}
use corsair.Float.{Float, IsOrdered, ◌≼◌, IsNumber}
use corsair.Constraint.{
  ConstraintConfig, ConstraintChecker, ibkr_scale_lower, ibkr_scale_upper, new, bounded_scale,
  update_cached_margin,
}

module _ {F : Type 0} ⦃f : Float F⦄ where
  open f use {le, div, decimal}

  -- The scale is within the calibration band.
  abbrev pub IsInBand : ConstraintChecker F → Type 0
  IsInBand k = (ibkr_scale_lower ≼ k.ibkr_scale) × (k.ibkr_scale ≼ ibkr_scale_upper)

  module _ (laws : IsOrdered F) where
    open laws use {decimal_le, numbers_of_le, lt-eq-not-le}

    new-IsInBand : (cfg : ConstraintConfig F) → IsInBand (new cfg)
    unfolding new
    new-IsInBand cfg = (decimal_le 50 100 2 (omega arith), decimal_le 100 125 2 (omega arith))

    bounded_scale_bounds :
        (s : F)
        → IsNumber s
        → (ibkr_scale_lower ≼ bounded_scale s) × (bounded_scale s ≼ ibkr_scale_upper)
    bounded_scale_bounds s n =
        let low = decimal_le 50 100 2 (omega arith) in
        let high = decimal_le 100 125 2 (omega arith) in
        ground (
          arith,
          low,
          high,
          lt-eq-not-le s (decimal 50 2) n (numbers_of_le _ _ low).0,
          lt-eq-not-le (decimal 125 2) s (numbers_of_le _ _ high).1 n,
        )

    -- A calibration whose quotient is a number keeps the scale within the band, and the scale of a new
    -- checker is within it; the call returns the scale that is then in force; and inputs that are not
    -- positive leave the checker as it was.
    pub update_cached_margin_bounds :
        (ibkr raw : F) (now : ℕ) (cfg : ConstraintConfig F) (k : ConstraintChecker F)
        → IsNumber (div ibkr raw)
        → IsInBand k
        → let r = update_cached_margin ibkr raw now k in
          IsInBand (new cfg)
          × IsInBand r.0
          × (r.1 ≡ r.0.ibkr_scale)
          × ((le ibkr (decimal 0 2) ≡ true) ⊎ (le raw (decimal 0 2) ≡ true) → r.0 ≡ k)
    unfolding update_cached_margin
    update_cached_margin_bounds ibkr raw now cfg k n v =
        ground (arith, bounded_scale_bounds (div ibkr raw) n, new-IsInBand cfg)
