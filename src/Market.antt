-- ===== src/Market.antt =====
-- rust/corsair_market_data/src: the quotes of options and underlyings, and the window of strikes around
-- the money. The key of an option has the fields of a `PositionKey`, and its strike key is the same.

pub mod Routed
mod Tests
use corsair.Base.{
  ℕ, Bool, true, false, ◌&&◌, ◌||◌, Option, none, some, List, [], ◌∷◌, String, ◌==◌, string_eq,
  nat_eq, if◌then◌else◌, length,
}
use corsair.Base.Integers.{ℤ, ltb_ℤ}
use corsair.Base.Maps.{HashMap, get, insert}
use corsair.Float.{Float}
use corsair.Api.{Right, NaiveDate}
use corsair.Position.{PositionKey, position_key_eq, make_key, MarketView}

pub record StrikeWindow (F : Type 0) : Type 0 where
  pub low : F
  pub high : F

pub record AtmTracker (F : Type 0) : Type 0 where
  pub atm_strike : F
  pub window : StrikeWindow F

pub record OptionTick (F : Type 0) : Type 0 where
  pub instrument_id : Option ℕ
  pub strike : F
  pub expiry : NaiveDate
  pub right : Right
  pub bid : F
  pub ask : F
  pub bid_size : ℕ
  pub ask_size : ℕ
  pub last : F
  pub iv : F
  pub last_updated_ns : ℕ

pub record OptionMeta (F : Type 0) : Type 0 where
  pub product : String
  pub strike : F
  pub expiry : NaiveDate
  pub right : Right

pub record MarketDataState (F : Type 0) : Type 0 where
  pub underlying : HashMap String F
  pub options : HashMap PositionKey (OptionTick F)
  pub by_instrument : HashMap ℕ PositionKey
  pub underlying_instruments : HashMap ℕ String

module _ {F : Type 0} ⦃f : Float F⦄ where
  open f use {lt, le, add, sub, mul, div, abs, round, decimal, of_int, to_i32}

  abbrev pub zero : F
  zero = decimal 0 1

  -- The window around a strike.
  unfoldable pub window_around : F → F → ℤ → StrikeWindow F
  window_around atm strike_increment width_ticks =
      let half = mul (of_int width_ticks) strike_increment in
      record { low = sub atm half; high = add atm half }

  -- `self.atm_strike == 0.0` is that neither is less.
  unfoldable pub maybe_recenter :
      F → F → ℤ → ℤ → AtmTracker F → AtmTracker F × Option (StrikeWindow F)
  unfolding window_around
  maybe_recenter underlying strike_increment width_ticks recenter_threshold_ticks tracker =
      let new_atm = mul (round (div underlying strike_increment)) strike_increment in
      let window = window_around new_atm strike_increment width_ticks in
      let recentred : AtmTracker F × Option (StrikeWindow F) =
        (record { atm_strike = new_atm; window = window }, some window) in
      let drift_ticks = to_i32 (abs (div (sub new_atm tracker.atm_strike) strike_increment)) in
      if le underlying zero || le strike_increment zero
      then (tracker, none)
      else if le tracker.atm_strike zero && le zero tracker.atm_strike
      then recentred
      else if ltb_ℤ drift_ticks recenter_threshold_ticks
      then (tracker, none)
      else recentred

  unfoldable pub contains : F → AtmTracker F → Bool
  contains strike tracker = le tracker.window.low strike && le strike tracker.window.high

  -- `OptionTick::new`
  unfoldable pub new_tick : F → NaiveDate → Right → OptionTick F
  new_tick strike expiry right = record {
    instrument_id = none;
    strike = strike;
    expiry = expiry;
    right = right;
    bid = zero;
    ask = zero;
    bid_size = 0;
    ask_size = 0;
    last = zero;
    iv = zero;
    last_updated_ns = 0;
  }

  unfoldable pub mid : OptionTick F → Option F
  mid t =
      if lt zero t.bid && lt zero t.ask && lt t.bid t.ask
      then some (div (add t.bid t.ask) (decimal 20 1))
      else none

  unfoldable pub current_price : OptionTick F → F
  unfolding mid
  current_price t =
      let last = if lt zero t.last then t.last else zero in
      elim (mid t) [ none ↦ last | some price ↦ price ]

  -- `MarketDataState::new`
  unfoldable pub new : MarketDataState F
  new = record { underlying = []; options = []; by_instrument = []; underlying_instruments = [] }

  abbrev registered : F → NaiveDate → Right → ℕ → Option (OptionTick F) → OptionTick F
  registered strike expiry right instrument_id none = record (new_tick strike expiry right) {
    instrument_id = some instrument_id;
  }
  registered strike expiry right instrument_id (some t) = t

  unfoldable pub register_option :
      String → F → NaiveDate → Right → ℕ → MarketDataState F → MarketDataState F
  unfolding new_tick
  register_option product strike expiry right instrument_id s =
      let k = make_key product strike expiry right in
      record s {
        options =
            insert k (registered strike expiry right instrument_id (get k s.options)) s.options;
        by_instrument = insert instrument_id k s.by_instrument;
      }

  unfoldable pub register_underlying : String → ℕ → MarketDataState F → MarketDataState F
  register_underlying product instrument_id s = record s {
    underlying_instruments = insert instrument_id product s.underlying_instruments;
  }

  abbrev pub filter_positive : Option F → Option F
  filter_positive none = none
  filter_positive (some p) = if lt zero p then some p else none

  unfoldable pub underlying_price : String → MarketDataState F → Option F
  underlying_price product s = filter_positive (get product s.underlying)

  unfoldable pub set_underlying : String → F → MarketDataState F → MarketDataState F
  set_underlying product price s =
      if lt zero price then record s { underlying = insert product price s.underlying } else s

  -- `options.get_mut(&k)` and an assignment to what is there
  unfoldable pub modify :
      PositionKey → (OptionTick F → OptionTick F) → MarketDataState F → MarketDataState F
  modify k change s = elim (get k s.options) [
    | none ↦ s
    | some t ↦ record s { options = insert k (change t) s.options }
  ]

  -- The branch of an id that is not an option's.
  unfoldable pub underlying_tick : ℕ → F → MarketDataState F → MarketDataState F
  unfolding set_underlying
  underlying_tick iid price s = elim (get iid s.underlying_instruments) [
    | none ↦ s
    | some product ↦ set_underlying product price s
  ]

  abbrev pub if_positive : F → F → F
  if_positive price old = if lt zero price then price else old

  unfoldable pub update_bid : ℕ → F → ℕ → ℕ → MarketDataState F → MarketDataState F
  unfolding modify underlying_tick
  update_bid iid price size ts_ns s = elim (get iid s.by_instrument) [
    | none ↦ underlying_tick iid price s
    | some k ↦
        modify k
          (λ t. record t {
            bid = if_positive price t.bid;
            bid_size = size;
            last_updated_ns = ts_ns;
          })
          s
  ]

  unfoldable pub update_ask : ℕ → F → ℕ → ℕ → MarketDataState F → MarketDataState F
  unfolding modify
  update_ask iid price size ts_ns s = elim (get iid s.by_instrument) [
    | none ↦ s
    | some k ↦
        modify k
          (λ t. record t {
            ask = if_positive price t.ask;
            ask_size = size;
            last_updated_ns = ts_ns;
          })
          s
  ]

  unfoldable pub update_last : ℕ → F → ℕ → MarketDataState F → MarketDataState F
  unfolding modify underlying_tick
  update_last iid price ts_ns s = elim (get iid s.by_instrument) [
    | none ↦ underlying_tick iid price s
    | some k ↦
        modify k (λ t. record t { last = if_positive price t.last; last_updated_ns = ts_ns }) s
  ]

  unfoldable pub option : String → F → NaiveDate → Right → MarketDataState F → Option (OptionTick F)
  option product strike expiry right s = get (make_key product strike expiry right) s.options

  abbrev ticks_of : String → HashMap PositionKey (OptionTick F) → List (OptionTick F)
  ticks_of product [] = []
  ticks_of product ((k, t) ∷ rest) =
      let others = ticks_of product rest in if k.product == product then t ∷ others else others

  unfoldable pub options_for_product : String → MarketDataState F → List (OptionTick F)
  options_for_product product s = ticks_of product s.options

  unfoldable pub option_count : MarketDataState F → ℕ
  option_count s = length s.options

  unfoldable pub option_meta : ℕ → MarketDataState F → Option (OptionMeta F)
  option_meta iid s = elim (get iid s.by_instrument) [
    | none ↦ none
    | some key ↦ elim (get key s.options) [
      | none ↦ none
      | some tick ↦ some (record {
        product = key.product;
        strike = tick.strike;
        expiry = tick.expiry;
        right = tick.right;
      })
    ]
  ]

  abbrev positive_iv : Option (OptionTick F) → Option F
  positive_iv none = none
  positive_iv (some t) = if lt zero t.iv then some t.iv else none

  abbrev positive_price : Option (OptionTick F) → Option F
  positive_price none = none
  positive_price (some t) = if lt zero (current_price t) then some (current_price t) else none

  -- `impl MarketView for MarketDataState`, in view.rs
  unfoldable pub market_view : MarketDataState F → MarketView F
  unfolding underlying_price option current_price
  market_view s = record {
    underlying_price = λ product. underlying_price product s;
    iv_for = λ product strike expiry right. positive_iv (option product strike expiry right s);
    current_price =
        λ product strike expiry right. positive_price (option product strike expiry right s);
  }
