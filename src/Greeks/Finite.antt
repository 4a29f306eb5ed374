-- ===== src/Greeks/Finite.antt =====
-- rust/corsair_pricing/src/greeks.rs: that no NaN and no infinity leaves `compute_greeks`.
use corsair.Base.{ℕ, ◌≡◌, Bool, true, ◌||◌, arith, nat_beq}
use corsair.Float.{Float}
use corsair.Trader.Pricing.{Analysis}
use corsair.Greeks.{GreeksOut, compute_greeks, intrinsic, raw_greeks, is_finite}

-- The literals of the intrinsic deltas, and these less one, are finite.
pub record IsFiniteLiterals (F : Type 0) ⦃f : Float F⦄ : Type 0 where
  pub zero_finite : is_finite (f.decimal 0 1) ≡ true
  pub half_finite : is_finite (f.decimal 5 1) ≡ true
  pub one_finite : is_finite (f.decimal 10 1) ≡ true
  pub put_zero : is_finite (f.sub (f.decimal 0 1) (f.decimal 10 1)) ≡ true
  pub put_half : is_finite (f.sub (f.decimal 5 1) (f.decimal 10 1)) ≡ true
  pub put_one : is_finite (f.sub (f.decimal 10 1) (f.decimal 10 1)) ≡ true

module _ {F : Type 0} ⦃f : Float F⦄ where
  unfoldable pub IsFinite : GreeksOut F → Type 0
  IsFinite g =
      (is_finite g.delta ≡ true)
      × (is_finite g.gamma ≡ true)
      × (is_finite g.theta ≡ true)
      × (is_finite g.vega ≡ true)

  intrinsic-IsFinite :
      (literals : IsFiniteLiterals F) (is_call : Bool) (fwd k sigma : F)
      → IsFinite (intrinsic is_call fwd k sigma)
  unfolding intrinsic IsFinite
  intrinsic-IsFinite l is_call fwd k sigma =
      ground (arith, l.zero_finite, l.half_finite, l.one_finite, l.put_zero, l.put_half, l.put_one)

  -- Whatever the inputs, NaN and infinities included, the delta, gamma, theta and vega that come out
  -- are finite, where the literals of the intrinsic deltas are.
  pub compute_greeks-IsFinite :
      (x : Analysis F) (literals : IsFiniteLiterals F) (fwd k t sigma r : F) (right : ℕ)
      (multiplier : F)
      → IsFinite (compute_greeks x fwd k t sigma r right multiplier)
  unfolding compute_greeks IsFinite
  compute_greeks-IsFinite x l fwd k t sigma r right multiplier =
      let is_call = nat_beq right b'C' || nat_beq right b'c' in
      let g = raw_greeks x is_call fwd k t sigma r multiplier in
      ground (arith, intrinsic-IsFinite l is_call fwd k sigma)
