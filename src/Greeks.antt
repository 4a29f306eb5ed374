-- ===== src/Greeks.antt =====
-- rust/corsair_pricing/src/greeks.rs: the Greeks of an option. `is_finite` is that the absolute value is
-- less than infinity, which a NaN fails.
pub mod Finite
mod Tests
use corsair.Base.{ℕ, Bool, true, false, not, ◌||◌, if◌then◌else◌, nat_beq}
use corsair.Float.{Float}
use corsair.Trader.Pricing.{Analysis}

pub record GreeksOut (F : Type 0) : Type 0 where
  pub delta : F
  pub gamma : F
  pub theta : F
  pub vega : F
  pub iv : F

module _ {F : Type 0} ⦃f : Float F⦄ where
  open f use {lt, sub, abs, decimal, infinity}

  abbrev pub zero : F
  zero = decimal 0 1

  abbrev pub is_finite : F → Bool
  is_finite v = lt (abs v) infinity

  -- The Greeks of an option that has expired or cannot be priced.
  unfoldable pub intrinsic : Bool → F → F → F → GreeksOut F
  intrinsic is_call fwd k sigma =
      let in_money = if lt k fwd then decimal 10 1 else if lt fwd k then zero else decimal 5 1 in
      record {
        delta = if is_call then in_money else sub in_money (decimal 10 1);
        gamma = zero;
        theta = zero;
        vega = zero;
        iv = sigma;
      }

module _ {F : Type 0} ⦃f : Float F⦄ (x : Analysis F) where
  open f use {lt, le, add, sub, mul, div, neg, abs, decimal, infinity}
  open x use {sqrt, ln, exp, cdf}

  unfoldable pub norm_pdf : F → F
  norm_pdf v = mul (decimal 3_989_422_804_014_327 16) (exp (mul (mul (neg (decimal 5 1)) v) v))

  -- The Greeks before the test that they are finite.
  unfoldable pub raw_greeks : Bool → F → F → F → F → F → F → GreeksOut F
  unfolding norm_pdf
  raw_greeks is_call fwd k t sigma r multiplier =
      let discount = exp (mul (neg r) t) in
      let sqrt_t = sqrt t in
      let half_variance = mul (mul (mul (decimal 5 1) sigma) sigma) t in
      let d1 = div (add (ln (div fwd k)) half_variance) (mul sigma sqrt_t) in
      let d2 = sub d1 (mul sigma sqrt_t) in
      let n_d1 = norm_pdf d1 in
      let big_n_d1 = cdf d1 in
      let common =
        div (mul (mul (mul (neg discount) fwd) n_d1) sigma) (mul (decimal 20 1) sqrt_t) in
      let carry = mul (mul r k) discount in
      let theta =
        div
          (if is_call
            then sub common (mul carry (cdf d2))
            else add common (mul carry (cdf (neg d2))))
          (decimal 3650 1) in
      record {
        delta =
            if is_call then mul discount big_n_d1 else mul discount (sub big_n_d1 (decimal 10 1));
        gamma = mul (div (mul discount n_d1) (mul (mul fwd sigma) sqrt_t)) multiplier;
        theta = mul theta multiplier;
        vega = mul (div (mul (mul (mul fwd discount) n_d1) sqrt_t) (decimal 1000 1)) multiplier;
        iv = sigma;
      }

  unfoldable pub compute_greeks : F → F → F → F → F → ℕ → F → GreeksOut F
  unfolding intrinsic raw_greeks
  compute_greeks fwd k t sigma r right multiplier =
      let is_call = nat_beq right b'C' || nat_beq right b'c' in
      let g = raw_greeks is_call fwd k t sigma r multiplier in
      if lt t (decimal 1 10) || le sigma zero || le fwd zero || le k zero
      then intrinsic is_call fwd k sigma
      else if not (is_finite g.delta)
          || not (is_finite g.gamma)
          || not (is_finite g.theta)
          || not (is_finite g.vega)
      then intrinsic is_call fwd k sigma
      else g
