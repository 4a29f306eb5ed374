-- ===== src/Greeks/Tests.antt =====
-- The Greeks of an option without a volatility, and of one whose volatility is NaN.
use corsair.Base.{ℕ, ◌≡◌, refl, none, some}
use corsair.Base.Integers.{pos, ◌+ℤ◌, ◌-ℤ◌, ◌*ℤ◌, neg_ℤ}
use corsair.Float.{Fixed, fixed_float}
use corsair.Trader.Pricing.{Analysis}
use corsair.Greeks.{compute_greeks}
use corsair.Greeks.Finite.{IsFiniteLiterals, IsFinite, compute_greeks-IsFinite}

abbrev units : ℕ → Fixed
units n = some (pos n)

abbrev analysis : Analysis Fixed
analysis = record {
  sqrt = λ a. a;
  ln = λ a. units 0;
  exp = λ a. units 10_000;
  powf = λ a b. a;
  powi = λ a n. a;
  max = λ a b. a;
  cdf = λ a. units 5000;
  to_bits = λ a. 0;
  from_bits = units;
}

literals : IsFiniteLiterals Fixed
unfolding ◌-ℤ◌
literals = record {
  zero_finite = refl;
  half_finite = refl;
  one_finite = refl;
  put_zero = refl;
  put_half = refl;
  put_one = refl;
}

-- A NaN among the inputs gives the intrinsic delta.
intrinsic_put :
    let g =
      compute_greeks analysis
        (units 60_000)
        (units 50_000)
        (units 1000)
        none
        (units 0)
        b'P'
        (units 1) in
    g.delta ≡ units 0
unfolding compute_greeks ◌+ℤ◌ ◌-ℤ◌ ◌*ℤ◌ neg_ℤ
intrinsic_put = refl

compute_greeks-IsFinite_example : IsFinite (
    compute_greeks analysis
      (units 60_000)
      (units 50_000)
      (units 1000)
      none
      (units 0)
      b'P'
      (units 1))
compute_greeks-IsFinite_example =
    compute_greeks-IsFinite analysis literals (units 60_000) (units 50_000) (units 1000) none
      (units 0) b'P' (units 1)
