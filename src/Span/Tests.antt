-- ===== src/Span/Tests.antt =====
-- A short call and a long put, priced by the analysis below in units of 1/10000.
use corsair.Base.{ℕ, ◌≡◌, refl, none, some, List, [], ◌∷◌, arith, if◌then◌else◌}
use corsair.Base.Integers.{pos, negsuc, leb_ℤ, ◌+ℤ◌, ◌-ℤ◌, ◌*ℤ◌, neg_ℤ}
use corsair.Float.{Fixed, fixed_float, Fixed-IsOrdered}
use corsair.Trader.Pricing.{Analysis, black76_price}
use corsair.Span.{SpanConfig, SpanPosition, portfolio_margin, add_positions, no_sums}
use corsair.Span.Covered.{IsMax, IsCovered, portfolio_margin-IsCovered}

abbrev units : ℕ → Fixed
units n = some (pos n)

abbrev greater : Fixed → Fixed → Fixed
greater none b = b
greater (some a) none = some a
greater (some a) (some b) = if leb_ℤ a b then some b else some a

abbrev analysis : Analysis Fixed
analysis = record {
  sqrt = λ a. a;
  ln = λ a. units 0;
  exp = λ a. units 10_000;
  powf = λ a b. a;
  powi = λ a n. a;
  max = greater;
  cdf = λ a. units 5000;
  to_bits = λ a. 0;
  from_bits = units;
}

analysis-IsMax : IsMax analysis
analysis-IsMax = record { max_left = ground arith; max_right = ground arith }

abbrev cfg : SpanConfig Fixed
cfg = record {
  up_scan_pct = units 600;
  down_scan_pct = units 600;
  vol_scan_pct = units 2500;
  extreme_mult = units 30_000;
  extreme_cover = units 3300;
  short_option_minimum = units 5_000_000;
  multiplier = units 250_000_000;
}

abbrev positions : List (SpanPosition Fixed)
positions =
    record { strike = units 50_000; right = b'C'; t = units 1000; iv = units 3000; qty = negsuc 0 }
    ∷ record { strike = units 70_000; right = b'P'; t = units 1000; iv = units 3000; qty = pos 2 }
    ∷ []

portfolio_margin-IsCovered_example :
    IsCovered
      (add_positions analysis (units 60_000) cfg positions no_sums)
      (portfolio_margin analysis (units 60_000) positions cfg)
portfolio_margin-IsCovered_example =
    portfolio_margin-IsCovered analysis Fixed-IsOrdered analysis-IsMax (units 60_000) positions cfg

-- The short call loses most in the full scan up, and the premium of the long puts is the margin.
margin :
    let r = portfolio_margin analysis (units 60_000) positions cfg in
    (r.worst_scenario ≡ 11) × (r.total_margin ≡ units 250_000_000)
unfolding portfolio_margin black76_price ◌+ℤ◌ ◌-ℤ◌ ◌*ℤ◌ neg_ℤ
margin = (refl, refl)
