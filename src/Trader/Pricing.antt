-- ===== src/Trader/Pricing.antt =====
-- rust/corsair_trader/src/pricing.rs: theoretical prices. The elementary functions of `f64`, its bit
-- patterns and the normal distribution of the crate statrs are the record `Analysis`.
use corsair.Base.{ℕ, not, ◌||◌, Option, none, some, String, ◌==◌, string_eq, if◌then◌else◌, nat_beq}
use corsair.Float.{Float}

pub record Analysis (F : Type 0) : Type 0 where
  pub sqrt : F → F
  pub ln : F → F
  pub exp : F → F
  pub powf : F → F → F
  pub powi : F → ℕ → F
  pub max : F → F → F
  -- `Normal::new(0.0, 1.0).cdf`
  pub cdf : F → F
  pub to_bits : F → ℕ
  pub from_bits : ℕ → F

pub record VolParams (F : Type 0) : Type 0 where
  pub model : String
  pub a : Option F
  pub b : Option F
  pub rho : Option F
  pub m : Option F
  pub sigma : Option F
  pub alpha : Option F
  pub beta : Option F
  pub nu : Option F

infixl 5 ◌>>=◌
abbrev ◌>>=◌ : {A : Type 0} {B : Type 0} → Option A → (A → Option B) → Option B
none >>= g = none
some a >>= g = g a

module _ {F : Type 0} ⦃f : Float F⦄ (x : Analysis F) where
  open f use {lt, le, add, sub, mul, div, neg, abs, decimal}
  open x use {sqrt, ln, exp, powf, powi, max, cdf}

  infixl 6 ◌⊕◌ ◌⊖◌
  infixl 7 ◌⊗◌ ◌⊘◌
  abbrev ◌⊕◌ : F → F → F
  a ⊕ b = add a b

  abbrev ◌⊖◌ : F → F → F
  a ⊖ b = sub a b

  abbrev ◌⊗◌ : F → F → F
  a ⊗ b = mul a b

  abbrev ◌⊘◌ : F → F → F
  a ⊘ b = div a b

  abbrev zero : F
  zero = decimal 0 1

  abbrev one : F
  one = decimal 10 1

  abbrev two : F
  two = decimal 20 1

  unfoldable pub black76_price : F → F → F → F → F → ℕ → F
  black76_price fwd k t sigma r right =
      let is_call = nat_beq right b'C' || nat_beq right b'c' in
      let sqrt_t = sqrt t in
      let d1 = (ln (fwd ⊘ k) ⊕ decimal 5 1 ⊗ sigma ⊗ sigma ⊗ t) ⊘ (sigma ⊗ sqrt_t) in
      let d2 = d1 ⊖ sigma ⊗ sqrt_t in
      let disc = exp (neg r ⊗ t) in
      if le t zero || le sigma zero || le fwd zero || le k zero
      then (if is_call then max (fwd ⊖ k) zero else max (k ⊖ fwd) zero)
      else if is_call
      then disc ⊗ (fwd ⊗ cdf d1 ⊖ k ⊗ cdf d2)
      else disc ⊗ (k ⊗ cdf (neg d2) ⊖ fwd ⊗ cdf (neg d1))

  abbrev eps : F
  eps = decimal 1 7

  -- The case at the money of `sabr_implied_vol`.
  unfoldable pub sabr_at_the_money : F → F → F → F → F → F → F
  sabr_at_the_money fwd t alpha beta rho nu =
      let fmid_beta = powf fwd (one ⊖ beta) in
      let term1 = alpha ⊘ fmid_beta in
      let p1 = powi (one ⊖ beta) 2 ⊘ decimal 240 1 ⊗ alpha ⊗ alpha ⊘ powf fwd (two ⊖ two ⊗ beta) in
      let p2 = decimal 25 2 ⊗ rho ⊗ beta ⊗ nu ⊗ alpha ⊘ fmid_beta in
      let p3 = (two ⊖ decimal 30 1 ⊗ rho ⊗ rho) ⊗ nu ⊗ nu ⊘ decimal 240 1 in
      term1 ⊗ (one ⊕ (p1 ⊕ p2 ⊕ p3) ⊗ t)

  unfoldable pub sabr_implied_vol : F → F → F → F → F → F → F → F
  unfolding sabr_at_the_money
  sabr_implied_vol fwd k t alpha beta rho nu =
      let fk = fwd ⊗ k in
      let fk_beta = powf fk ((one ⊖ beta) ⊘ two) in
      let log_fk = ln (fwd ⊘ k) in
      let z = nu ⊘ alpha ⊗ fk_beta ⊗ log_fk in
      let sqrt_term = sqrt (one ⊖ two ⊗ rho ⊗ z ⊕ z ⊗ z) in
      let xz = if lt (abs z) eps then one else z ⊘ ln ((sqrt_term ⊕ z ⊖ rho) ⊘ (one ⊖ rho)) in
      let one_minus_beta = one ⊖ beta in
      let denom1 =
        fk_beta
        ⊗ (one
            ⊕ powi one_minus_beta 2 ⊘ decimal 240 1 ⊗ powi log_fk 2
            ⊕ powi one_minus_beta 4 ⊘ decimal 19_200 1 ⊗ powi log_fk 4) in
      let p1 = powi one_minus_beta 2 ⊘ decimal 240 1 ⊗ alpha ⊗ alpha ⊘ powf fk one_minus_beta in
      let p2 = decimal 25 2 ⊗ rho ⊗ beta ⊗ nu ⊗ alpha ⊘ fk_beta in
      let p3 = (two ⊖ decimal 30 1 ⊗ rho ⊗ rho) ⊗ nu ⊗ nu ⊘ decimal 240 1 in
      if le t zero || le alpha zero || le fwd zero || le k zero
      then (if lt zero alpha then alpha else decimal 1 2)
      else if lt (abs (fwd ⊖ k)) (eps ⊗ fwd)
      then sabr_at_the_money fwd t alpha beta rho nu
      else alpha ⊘ denom1 ⊗ xz ⊗ (one ⊕ (p1 ⊕ p2 ⊕ p3) ⊗ t)

  unfoldable pub svi_total_variance : F → F → F → F → F → F → F
  svi_total_variance k a b rho m sigma =
      let dk = k ⊖ m in a ⊕ b ⊗ (rho ⊗ dk ⊕ sqrt (dk ⊗ dk ⊕ sigma ⊗ sigma))

  unfoldable pub svi_implied_vol : F → F → F → F → F → F → F → F → F
  unfolding svi_total_variance
  svi_implied_vol fwd k_strike t a b rho m sigma =
      let w = svi_total_variance (ln (k_strike ⊘ fwd)) a b rho m sigma in
      if le t zero || le k_strike zero || le fwd zero
      then zero
      else if le w zero
      then decimal 1 3
      else sqrt (w ⊘ t)

  -- The arms of the `match` on the model in `compute_theo`, where a parameter that is missing makes the
  -- whole `None`.
  abbrev svi_arm : F → F → F → VolParams F → Option F
  svi_arm forward strike tte p = do
    a ← p.a
    b ← p.b
    rho ← p.rho
    m ← p.m
    sigma ← p.sigma
    some (svi_implied_vol forward strike tte a b rho m sigma)

  abbrev sabr_arm : F → F → F → VolParams F → Option F
  sabr_arm forward strike tte p = do
    alpha ← p.alpha
    beta ← p.beta
    rho ← p.rho
    nu ← p.nu
    some (sabr_implied_vol forward strike tte alpha beta rho nu)

  unfoldable pub implied_vol : F → F → F → VolParams F → Option F
  implied_vol forward strike tte p =
      if p.model == "svi"
      then svi_arm forward strike tte p
      else if p.model == "sabr"
      then sabr_arm forward strike tte p
      else none

  -- What `compute_theo` makes of an implied volatility; `iv.is_nan()` is that `iv` is not itself.
  unfoldable pub theo_at : F → F → F → ℕ → F → Option (F × F)
  theo_at forward strike tte right iv =
      let theo = black76_price forward strike tte iv zero right in
      if le iv zero || not (le iv iv) then none else if le theo zero then none else some (iv, theo)

  -- decision.rs, `compute_theo`
  unfoldable pub compute_theo : F → F → F → ℕ → VolParams F → Option (F × F)
  compute_theo forward strike tte right p =
      if le forward zero || le strike zero || le tte zero
      then none
      else implied_vol forward strike tte p >>= theo_at forward strike tte right
