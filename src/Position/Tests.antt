-- ===== src/Position/Tests.antt =====
-- Concrete fills, and the theorem about fills at a concrete book.
use corsair.Base.{◌≡◌, refl, some, none, [], ◌∷◌, arith, nat_eq}
use corsair.Base.Integers.{pos, negsuc, ◌+ℤ◌, ◌*ℤ◌}
use corsair.Base.Maps.{get, insert}
use corsair.Base.Keyed.{find, index_of, IsDistinct}
use corsair.Float.{Fixed, fixed_float}
use corsair.Api.{call}
use corsair.Position.{
  Position, FillOutcome, opened, increased, partially_closed, flipped, make_key, strike_key,
  multiplier_for,
}
use corsair.Position.Portfolio.{PortfolioState, new, add_fill, merge_outcome}
use corsair.Position.Fills.{IsConsistent, Filled, add_fill-Filled}

abbrev bought : Position Fixed
bought = record {
  product = "HG";
  strike = some (pos 60_500);
  expiry = 20_630;
  right = call;
  quantity = pos 2;
  avg_fill_price = some (pos 250);
  fill_time = 7;
  multiplier = some (pos 1_000_000);
  delta = some (pos 0);
  gamma = some (pos 0);
  theta = some (pos 0);
  vega = some (pos 0);
  current_price = some (pos 0);
}

abbrev book : PortfolioState Fixed
book = record {
  positions = bought ∷ [];
  index = (make_key "HG" (some (pos 60_500)) 20_630 call, 0) ∷ [];
  registry = [];
  fills_today = 2;
  spread_capture_today = some (pos 0);
  spread_capture_mid_today = some (pos 0);
  daily_pnl = some (pos 0);
  realized_pnl_persisted = some (pos 0);
  session_open_nlv = none;
}

-- Two bought in a book with no products open a position at the default multiplier of 100.
opens :
    add_fill "HG"
      (some (pos 60_500))
      20_630
      call
      (pos 2)
      (some (pos 250))
      (some (pos 0))
      (some (pos 0))
      7
      (new [])
    ≡ some (book, opened)
unfolding new add_fill multiplier_for get insert ◌+ℤ◌
opens = refl

outcomes :
    (merge_outcome (pos 2) (pos 5) ≡ increased)
    × (merge_outcome (pos 2) (pos 1) ≡ partially_closed)
    × (merge_outcome (pos 2) (negsuc 0) ≡ flipped)
unfolding merge_outcome
outcomes = (refl, refl, refl)

book-IsConsistent : IsConsistent book
unfolding find index_of IsDistinct get make_key strike_key ◌*ℤ◌
book-IsConsistent = record { distinct = (refl, tt); indexed = λ k. refl; nonempty = (λ e. cc, tt) }

add_fill-Filled_example :
    (s' : PortfolioState Fixed) × (out : FillOutcome) × (add_fill "HG"
        (some (pos 60_500))
        20_630
        call
        (negsuc 2)
        (some (pos 300))
        (some (pos 0))
        (some (pos 0))
        8
        book
      ≡ some (s', out))
    × Filled (make_key "HG" (some (pos 60_500)) 20_630 call) (negsuc 2) book s' out
unfolding find make_key strike_key ◌*ℤ◌ ◌+ℤ◌
add_fill-Filled_example =
    add_fill-Filled "HG" (some (pos 60_500)) 20_630 call (negsuc 2) (some (pos 300)) (some (pos 0))
      (some (pos 0)) 8 book book-IsConsistent (λ e. cc) (omega arith)
