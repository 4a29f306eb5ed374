-- ===== src/Market/Tests.antt =====
-- Ticks of one option and of its underlying, in units of 1/10000.
use corsair.Base.{ℕ, ◌≡◌, refl, some, List, [], ◌∷◌}
use corsair.Base.Integers.{pos, ◌+ℤ◌, ◌-ℤ◌, ◌*ℤ◌}
use corsair.Base.Maps.{get, insert}
use corsair.Float.{Fixed, fixed_float}
use corsair.Api.{call}
use corsair.Position.{make_key, strike_key}
use corsair.Market.{
  AtmTracker, StrikeWindow, new, new_tick, market_view, underlying_price, current_price, mid,
  option, maybe_recenter, window_around,
}
use corsair.Market
use corsair.Market.Routed.{
  Call, register_option, register_underlying, update_bid, update_ask, run, IsRouted, run-new,
}

abbrev units : ℕ → Fixed
units n = some (pos n)

abbrev calls : List (Call Fixed)
calls =
    register_option "HG" (units 60_000) 9 call 1
    ∷ register_underlying "HG" 2
    ∷ update_bid 1 (units 100) 5 7
    ∷ update_ask 1 (units 140) 5 8
    ∷ update_bid 2 (units 60_100) 1 9
    ∷ []

-- The mark of the option is the mid price, and the id 2 moves the underlying.
marks :
    ((market_view (run calls new)).current_price "HG" (units 60_000) 9 call ≡ some (units 120))
    × ((market_view (run calls new)).underlying_price "HG" ≡ some (units 60_100))
unfolding run market_view new new_tick get insert make_key strike_key ◌+ℤ◌ ◌-ℤ◌ ◌*ℤ◌
    Market.update_bid Market.update_ask Market.register_underlying Market.register_option
marks = (refl, refl)

-- The first fix centres the window at the nearest strike.
recentred :
    (maybe_recenter
      (units 60_200)
      (units 500)
      (pos 2)
      (pos 1)
      (record { atm_strike = units 0; window = record { low = units 0; high = units 0 } })).1
    ≡ some (record { low = units 59_000; high = units 61_000 })
unfolding maybe_recenter ◌+ℤ◌ ◌-ℤ◌ ◌*ℤ◌
recentred = refl

run-new_example : IsRouted (run calls new)
run-new_example = run-new calls
