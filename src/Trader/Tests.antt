-- ===== src/Trader/Tests.antt =====
-- A call a little below the forward, priced at 0.02 by a toy analysis, and the theorems about the
-- trader at its ticks.
use corsair.Base.{
  ℕ, ◌-◌, ◌*◌, ◌≡◌, refl, true, false, Option, none, some, [], ◌∷◌, arith, All, length,
}
use corsair.Base.Integers.{pos, negsuc, ◌+ℤ◌, ◌-ℤ◌, ◌*ℤ◌, neg_ℤ, ℤ_eq}
use corsair.Base.Maps.{get, insert, remove, IsMap}
use corsair.Base.Links.{IsLinks, IsFreeFor, link-IsLinks}
use corsair.Float.{Fixed, fixed_float}
use corsair.Api.{buy, sell}
use corsair.Codec.Fields.{Text}
use corsair.Trader.Pricing.{
  Analysis, VolParams, compute_theo, implied_vol, theo_at, svi_implied_vol, svi_total_variance,
  black76_price,
}
use corsair.Trader.State.{
  TraderState, DecisionCounters, TickMsg, OurOrder, OrderKey, order_key, first_char, as_char,
  order_key_eq, surface_key_eq, option_key_eq,
}
use corsair.Trader.Decision.{
  Quote, quote_for, place, decide_on_tick, surface_for, naive_target, jump, would_cross,
  risk_blocked, quantize,
}
use corsair.Trader.Events.{
  PlaceAckMsg, place_ack, ack_key, on_place_ack, on_order_ack, is_terminal_status, on_tick,
  process_event, store_option, cancel_order,
}
use corsair.Trader.Staleness.{staleness_check}
use corsair.Trader.Safe.{IsSafe, decide_on_tick-IsSafe}
use corsair.Trader.Cooldown.{IsOnSide, on_tick-cooldown}
use corsair.Trader.Linked.{IsLinked, IsFresh, id_of}
use corsair.Trader.Tracking.{IsFreshEvent, process_event-IsLinked, staleness_check-IsLinked}
use corsair.Trader.Expiry.{
  Calendar, IsCache, time_to_expiry_years, time_to_expiry_years-eq, until, parse_expiry, parse_ymd,
  panicked,
}
use corsair.Trader.Live.{Has, decide_on_tick-places}
use corsair.Trader.Quotes.{quote_for-IsQuotable}
use corsair.Trader.LateAck.{on_order_ack-stale}

abbrev fixed : ℕ → Fixed
fixed n = some (pos n)

abbrev analysis : Analysis Fixed
analysis = record {
  sqrt = λ a. a;
  ln = λ a. fixed 0;
  exp = λ a. fixed 10_000;
  powf = λ a b. a;
  powi = λ a n. a;
  max = λ a b. a;
  cdf = λ a. fixed 10_000;
  to_bits = λ a. elim a [ none ↦ 0 | some n ↦ elim n [ pos m ↦ m | negsuc m ↦ m ] ];
  from_bits = fixed;
}

abbrev one_year : Text → Option Fixed
one_year expiry = some (fixed 10_000)

abbrev tick : TickMsg Fixed
tick = record {
  strike = fixed 59_800;
  expiry = b'6' ∷ [];
  right = b'c' ∷ [];
  bid = some (fixed 180);
  ask = some (fixed 220);
  bid_size = some (pos 10);
  ask_size = some (pos 10);
  ts_ns = some 1;
}

abbrev params : VolParams Fixed
params = record {
  model = "svi";
  a = some (fixed 10_000);
  b = some (fixed 0);
  rho = some (fixed 0);
  m = some (fixed 0);
  sigma = some (fixed 0);
  alpha = none;
  beta = none;
  nu = none;
}

abbrev state : TraderState Fixed
state = record {
  options = [];
  vol_surfaces =
      (
        record { expiry = b'6' ∷ []; right_char = b'C' },
        record { forward = fixed 60_000; params = params },
      )
      ∷ [];
  underlying_price = fixed 60_000;
  our_orders = [];
  orderid_to_key = [];
  risk_effective_delta = some (fixed 0);
  risk_margin_pct = some (fixed 0);
  risk_state_age_monotonic_ns = 1_000_000_000;
  min_edge_ticks = pos 2;
  tick_size = fixed 5;
  delta_ceiling = fixed 30_000;
  delta_kill = fixed 50_000;
  margin_ceiling_pct = fixed 5000;
  ipc_us = [];
  ttt_us = [];
  kills = [];
  weekend_paused = false;
}

abbrev counters : DecisionCounters
counters = record {
  place = 0;
  skip_no_vol_surface = 0;
  skip_off_atm = 0;
  skip_itm = 0;
  skip_thin_book = 0;
  skip_one_sided_or_dark = 0;
  skip_forward_drift = 0;
  skip_in_band = 0;
  skip_cooldown = 0;
  skip_dark_at_place = 0;
  skip_target_nonpositive = 0;
  skip_would_cross_ask = 0;
  skip_would_cross_bid = 0;
  skip_other = 0;
  risk_block = 0;
  risk_block_buy = 0;
  risk_block_sell = 0;
  staleness_cancel = 0;
  staleness_cancel_dark = 0;
  replace_cancel = 0;
  replace_skip_cancel_near_gtd = 0;
}

-- Both sides are quoted, with two ticks of edge.
decisions :
    (decide_on_tick analysis one_year state counters tick 2_000_000_000).1
    ≡ place buy (fixed 190) none ∷ place sell (fixed 210) none ∷ []
unfolding decide_on_tick first_char get compute_theo implied_vol theo_at svi_implied_vol
    svi_total_variance black76_price naive_target jump would_cross risk_blocked quantize order_key
    as_char ◌+ℤ◌ ◌-ℤ◌ ◌*ℤ◌ neg_ℤ
decisions = refl

decide_on_tick-IsSafe_example :
    All
      (IsSafe analysis one_year state tick 2_000_000_000)
      (decide_on_tick analysis one_year state counters tick 2_000_000_000).1
decide_on_tick-IsSafe_example =
    decide_on_tick-IsSafe analysis one_year state counters tick 2_000_000_000

abbrev sent : TraderState Fixed
sent = (on_tick analysis one_year true 2_000_000_000 7 tick state counters).0

on_tick-cooldown_example :
    All
      (λ d.
        IsOnSide buy d
        → All
            (λ e. ¬ IsOnSide buy e)
            (decide_on_tick analysis one_year sent counters tick 2_100_000_000).1)
      (decide_on_tick analysis one_year
        (store_option analysis tick state)
        counters
        tick
        2_000_000_000).1
on_tick-cooldown_example =
    on_tick-cooldown analysis one_year state sent counters counters tick tick 2_000_000_000
      2_100_000_000 7 buy refl refl (omega arith) (omega arith) (omega arith)

abbrev ack : PlaceAckMsg Fixed
ack = record {
  order_id = pos 7;
  strike = fixed 59_800;
  expiry = b'6' ∷ [];
  right = b'C' ∷ [];
  side = "BUY";
  price = fixed 190;
}

state-IsLinked : IsLinked state
unfolding IsLinked IsMap IsLinks get
state-IsLinked = (tt, λ k o i found at. absurd (cc found))

ack-IsFresh : IsFreshEvent analysis one_year (place_ack ack) state
unfolding IsFreshEvent IsFresh IsFreeFor get
ack-IsFresh = λ key named k found. absurd (cc found)

process_event-IsLinked_example :
    IsLinked (process_event analysis one_year true 0 0 0 none (place_ack ack) state counters).0
process_event-IsLinked_example =
    process_event-IsLinked analysis one_year true 0 0 0 none (place_ack ack) state counters
      ack-IsFresh state-IsLinked

abbrev key : OrderKey
key = record { strike_bits = 59_800; expiry = b'6' ∷ []; right_char = b'C'; side_char = b'B' }

-- The order 7 bids 0.03 where the theoretical price is 0.02, more than a tick below.
abbrev bid : OurOrder Fixed
bid = record { price = fixed 300; send_ns = 0; place_monotonic_ns = 0; order_id = some (pos 7) }

abbrev overpaying : TraderState Fixed
overpaying = record state { our_orders = (key, bid) ∷ []; orderid_to_key = (pos 7, key) ∷ [] }

overpaying-IsLinked : IsLinked overpaying
unfolding IsLinked IsMap IsLinks IsFreeFor get insert
overpaying-IsLinked = (
  (refl, tt),
  link-IsLinks id_of [] [] key (pos 7) bid (λ k o i found at. absurd (cc found))
      (λ k found. absurd (cc found)) refl,
)

overpaying_cancelled :
    let after = staleness_check analysis (λ k. one_year k.expiry) (λ tc. 9) overpaying counters in
    (after.0.our_orders ≡ [])
    × (after.0.orderid_to_key ≡ [])
    × (after.2 ≡ cancel_order 9 (pos 7) ∷ [])
unfolding staleness_check get remove compute_theo implied_vol theo_at svi_implied_vol
    svi_total_variance black76_price ◌+ℤ◌ ◌-ℤ◌ ◌*ℤ◌ neg_ℤ surface_for
overpaying_cancelled = (refl, refl, refl)

staleness_check-IsLinked_example :
    IsLinked (staleness_check analysis (λ k. one_year k.expiry) (λ tc. 9) overpaying counters).0
staleness_check-IsLinked_example =
    staleness_check-IsLinked analysis (λ k. one_year k.expiry) (λ tc. 9) overpaying counters
      overpaying-IsLinked

-- The order 3 was replaced without a cancel, and 7 is acknowledged before 3 ends.
abbrev replaced : TraderState Fixed
replaced = record state {
  our_orders =
      (key, record { price = fixed 190; send_ns = 0; place_monotonic_ns = 0; order_id = none })
      ∷ [];
  orderid_to_key = (pos 3, key) ∷ [];
}

on_order_ack-stale_example :
    let after =
      on_order_ack (some (pos 3)) (some "Cancelled") (on_place_ack analysis 0 0 ack replaced) in
    (get key after.our_orders ≡ none) × (get (pos 7) after.orderid_to_key ≡ some key)
unfolding get ack_key first_char as_char is_terminal_status
on_order_ack-stale_example =
    on_order_ack-stale analysis 0 0 ack replaced (pos 3) key "Cancelled" refl refl
      (λ e. absurd (cc e)) refl

-- Days stand for the calendar's times, and an expiry's first character for its day.
abbrev calendar : Calendar ℕ
calendar = record {
  parse_i32 = λ s. some (pos (length s));
  parse_u32 = λ s. elim s [ [] ↦ none | c ∷ rest ↦ some (c - b'0') ];
  at_settlement = λ year month day. some day;
  seconds_between = λ a b. pos (a * 86_400) -ℤ pos (b * 86_400);
}

abbrev expiry : Text
expiry = b'2' ∷ b'0' ∷ b'2' ∷ b'6' ∷ b'0' ∷ b'5' ∷ b'8' ∷ b'0' ∷ []

empty-IsCache : IsCache calendar []
unfolding IsCache get
empty-IsCache = (λ k v found. absurd (cc found), omega arith)

cached_expiry : (time_to_expiry_years {F = Fixed} calendar 1 expiry []).0 ≡ (expiry, 8) ∷ []
unfolding time_to_expiry_years parse_ymd insert get
cached_expiry = refl

-- "202é052" has eight bytes, and the slice of its year ends inside the `é`.
split_character :
    parse_expiry calendar (b'2' ∷ b'0' ∷ b'2' ∷ 195 ∷ 169 ∷ b'0' ∷ b'5' ∷ b'2' ∷ []) ≡ panicked
unfolding parse_expiry
split_character = refl

filled-IsCache : IsCache calendar ((expiry, 8) ∷ [])
unfolding time_to_expiry_years parse_ymd insert get
filled-IsCache = (time_to_expiry_years-eq {F = Fixed} calendar 1 expiry [] empty-IsCache).1

-- The second call finds the entry of the first.
time_to_expiry_years-eq_example :
    ((time_to_expiry_years {F = Fixed} calendar 2 expiry ((expiry, 8) ∷ [])).1
      ≡ until calendar 2 (parse_expiry calendar expiry))
    × IsCache calendar (time_to_expiry_years {F = Fixed} calendar 2 expiry ((expiry, 8) ∷ [])).0
time_to_expiry_years-eq_example =
    time_to_expiry_years-eq calendar 2 expiry ((expiry, 8) ∷ []) filled-IsCache

abbrev quote : Quote Fixed
quote = record {
  theo = fixed 200;
  bid = fixed 180;
  ask = fixed 220;
  edge = fixed 10;
  risk_buy = false;
  risk_sell = false;
}

quoted : (quote_for analysis one_year state counters tick 2_000_000_000).1 ≡ some quote
unfolding decide_on_tick quote_for first_char get compute_theo implied_vol theo_at svi_implied_vol
    svi_total_variance black76_price ◌+ℤ◌ ◌-ℤ◌ ◌*ℤ◌ neg_ℤ
quoted = refl

decide_on_tick-places_example :
    Has
      (place sell (fixed 210) none)
      (decide_on_tick analysis one_year state counters tick 2_000_000_000).1
unfolding naive_target jump would_cross risk_blocked quantize get ◌+ℤ◌ ◌-ℤ◌ ◌*ℤ◌ neg_ℤ
decide_on_tick-places_example =
    decide_on_tick-places analysis one_year state counters tick 2_000_000_000 quote sell
      (quote_for-IsQuotable analysis one_year state tick 2_000_000_000 counters quote quoted) refl
      refl refl refl
