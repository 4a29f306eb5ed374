-- ===== src/Trader/Decision.antt =====
-- rust/corsair_trader/src/decision.rs: which orders a tick leads to. `tte` is the result of
-- `time_to_expiry_years` at the time of the call, which reads the clock, of a call that returns.
use corsair.Base.{
  ℕ, ◌+◌, Bool, true, false, not, ◌&&◌, ◌||◌, Option, none, some, List, [], ◌∷◌, ◌++◌, ltb,
  if◌then◌else◌, nat_beq,
}
use corsair.Base.Integers.{ℤ, pos, ltb_ℤ, sub_u64}
use corsair.Base.Maps.{get}
use corsair.Float.{Float}
use corsair.Api.{Side, buy, sell}
use corsair.Codec.Fields.{Text}
use corsair.Trader.Pricing.{Analysis, compute_theo}
use corsair.Trader.State.{
  TraderState, DecisionCounters, TickMsg, VolSurfaceEntry, OurOrder, OrderKey, surface_key_eq,
  order_key, order_key_eq, first_char,
}

-- `place side price cancel_old_oid`
pub data Decision (F : Type 0) : Type 0 where
  skip : Decision F
  place : Side → F → Option ℤ → Decision F

-- The values that the loop over the sides reads, which the checks before it compute.
pub record Quote (F : Type 0) : Type 0 where
  pub theo : F
  pub bid : F
  pub ask : F
  pub edge : F
  pub risk_buy : Bool
  pub risk_sell : Bool

abbrev pub cooldown_ns : ℕ
cooldown_ns = 250_000_000

abbrev pub unwrap_or : {A : Type 0} → Option A → A → A
unwrap_or none d = d
unwrap_or (some a) d = a

abbrev pub or_else : {A : Type 0} → Option A → Option A → Option A
or_else none other = other
or_else (some a) other = some a

abbrev is_empty : {A : Type 0} → List A → Bool
is_empty [] = true
is_empty (a ∷ rest) = false

unfoldable pub count_cross : Side → DecisionCounters → DecisionCounters
count_cross buy c = record c { skip_would_cross_ask = c.skip_would_cross_ask + 1 }
count_cross sell c = record c { skip_would_cross_bid = c.skip_would_cross_bid + 1 }

unfoldable pub count_risk_block : Side → DecisionCounters → DecisionCounters
count_risk_block buy c = record c { risk_block_buy = c.risk_block_buy + 1 }
count_risk_block sell c = record c { risk_block_sell = c.risk_block_sell + 1 }

module _ {F : Type 0} ⦃f : Float F⦄ where
  open f use {lt, le, add, sub, mul, div, neg, abs, round, decimal, infinity, of_int}

  abbrev pub zero : F
  zero = decimal 0 3

  -- The constants in dollars and seconds, on one scale.
  abbrev pub max_strike_offset_usd : F
  max_strike_offset_usd = decimal 300 3

  abbrev pub atm_tol_usd : F
  atm_tol_usd = decimal 25 3

  abbrev pub risk_state_stale_s : F
  risk_state_stale_s = decimal 5000 3

  abbrev pub gtd_lifetime_s : F
  gtd_lifetime_s = decimal 5000 3

  abbrev pub gtd_refresh_lead_s : F
  gtd_refresh_lead_s = decimal 1500 3

  abbrev pub cancel_threshold_s : F
  cancel_threshold_s = decimal 1000 3

  -- `(now_monotonic_ns - then_ns) as f64 / 1e9`
  abbrev pub age_s : ℕ → ℕ → F
  age_s now_monotonic_ns then_ns =
      div (of_int (pos (sub_u64 now_monotonic_ns then_ns))) (decimal 1_000_000_000 0)

  abbrev is_over : F → Option F → Bool
  is_over ceiling none = false
  is_over ceiling (some margin_pct) = le ceiling margin_pct

  -- (buy_blocked, sell_blocked, all_blocked)
  unfoldable pub compute_risk_gates : TraderState F → ℕ → Bool × Bool × Bool
  compute_risk_gates s now_monotonic_ns =
      let at = s.risk_state_age_monotonic_ns in
      let age = if ltb 0 at then age_s now_monotonic_ns at else infinity in
      elim s.risk_effective_delta [
        | none ↦ (false, false, true)
        | some eff ↦ if lt risk_state_stale_s age then (false, false, true) else (
          le s.delta_ceiling (add eff (decimal 1000 3)),
          le (sub eff (decimal 1000 3)) (neg s.delta_ceiling),
          le (sub s.delta_kill (decimal 1000 3)) (abs eff)
              || is_over s.margin_ceiling_pct s.risk_margin_pct,
        )
      ]

  -- The surface of the option's side, or else of either side.
  unfoldable pub surface_for : Text → ℕ → TraderState F → Option (VolSurfaceEntry F)
  surface_for expiry r_char s =
      or_else (get (record { expiry = expiry; right_char = r_char }) s.vol_surfaces) (
        or_else (get (record { expiry = expiry; right_char = b'C' }) s.vol_surfaces)
          (get (record { expiry = expiry; right_char = b'P' }) s.vol_surfaces))

  -- Some(t) with t > 0.0
  abbrev pub positive : Option F → Option F
  positive none = none
  positive (some t) = if lt zero t then some t else none

  -- The checks from the forward drift on, given the surface and the time to expiry.
  unfoldable pub check_market :
      Analysis F
      → TraderState F
      → TickMsg F
      → Bool
      → Bool
      → VolSurfaceEntry F
      → F
      → DecisionCounters
      → DecisionCounters × Option (Quote F)
  check_market x s tick risk_buy risk_sell vp tte c =
      let bid = unwrap_or tick.bid zero in
      let ask = unwrap_or tick.ask zero in
      let bid_size = unwrap_or tick.bid_size (pos 0) in
      let ask_size = unwrap_or tick.ask_size (pos 0) in
      if lt (mul (of_int (pos 200)) s.tick_size) (abs (sub s.underlying_price vp.forward))
      then (record c { skip_forward_drift = c.skip_forward_drift + 1 }, none)
      else elim (compute_theo x vp.forward tick.strike tte (first_char tick.right) vp.params) [
        | none ↦ (record c { skip_other = c.skip_other + 1 }, none)
        | some (iv, theo) ↦
            if le bid zero || le ask zero
            then (record c { skip_one_sided_or_dark = c.skip_one_sided_or_dark + 2 }, none)
            else if ltb_ℤ bid_size (pos 1) || ltb_ℤ ask_size (pos 1)
            then (record c { skip_thin_book = c.skip_thin_book + 2 }, none)
            else (
              c,
              some (record {
                theo = theo;
                bid = bid;
                ask = ask;
                edge = mul (of_int s.min_edge_ticks) s.tick_size;
                risk_buy = risk_buy;
                risk_sell = risk_sell;
              }),
            )
      ]

  -- The checks after the risk gates.
  unfoldable pub check_option :
      Analysis F
      → (Text → Option F)
      → TraderState F
      → TickMsg F
      → Bool × Bool × Bool
      → DecisionCounters
      → DecisionCounters × Option (Quote F)
  unfolding check_market surface_for
  check_option x tte s tick (risk_buy, risk_sell, risk_all) c =
      let r_char = first_char tick.right in
      let forward = s.underlying_price in
      if lt max_strike_offset_usd (abs (sub tick.strike forward))
      then (record c { skip_off_atm = c.skip_off_atm + 1 }, none)
      else if nat_beq r_char b'C' && lt tick.strike (sub forward atm_tol_usd)
          || nat_beq r_char b'P' && lt (add forward atm_tol_usd) tick.strike
      then (record c { skip_itm = c.skip_itm + 1 }, none)
      else if risk_all
      then (record c { risk_block = c.risk_block + 2 }, none)
      else elim (surface_for tick.expiry r_char s) [
        | none ↦ (record c { skip_no_vol_surface = c.skip_no_vol_surface + 1 }, none)
        | some vp ↦ elim (positive (tte tick.expiry)) [
          | none ↦ (c, none)
          | some t ↦ check_market x s tick risk_buy risk_sell vp t c
        ]
      ]

  -- The part of `decide_on_tick` before its loop: `none` where it returns with no decision.
  unfoldable pub quote_for :
      Analysis F
      → (Text → Option F)
      → TraderState F
      → DecisionCounters
      → TickMsg F
      → ℕ
      → DecisionCounters × Option (Quote F)
  unfolding check_option compute_risk_gates
  quote_for x tte s c tick now_monotonic_ns =
      if le s.underlying_price zero || not (is_empty s.kills) || s.weekend_paused
      then (c, none)
      else check_option x tte s tick (compute_risk_gates s now_monotonic_ns) c

  -- The target of a side before the tick jump, and after it.
  unfoldable pub naive_target : Side → Quote F → F
  naive_target buy q = sub q.theo q.edge
  naive_target sell q = add q.theo q.edge

  unfoldable pub jump : Side → F → Quote F → F → F
  jump buy tick_size q target =
      let jumped = add q.bid tick_size in
      if lt target jumped && le q.edge (sub q.theo jumped) then jumped else target
  jump sell tick_size q target =
      let jumped = sub q.ask tick_size in
      if lt jumped target && le q.edge (sub jumped q.theo) then jumped else target

  -- Cross-protect
  unfoldable pub would_cross : Side → Quote F → F → Bool
  would_cross buy q target = le q.ask target
  would_cross sell q target = le target q.bid

  unfoldable pub quantize : F → F → F
  quantize tick_size target =
      let on_grid = mul (round (div target tick_size)) tick_size in
      div (round (mul on_grid (decimal 10_000 0))) (decimal 10_000 0)

  unfoldable pub risk_blocked : Side → Quote F → Bool
  risk_blocked buy q = q.risk_buy
  risk_blocked sell q = q.risk_sell

  unfoldable pub in_band : F → F → OurOrder F → Bool
  in_band tick_size target_q ex = lt (abs (sub target_q ex.price)) (mul (of_int (pos 1)) tick_size)

  unfoldable pub needs_gtd_refresh : ℕ → OurOrder F → Bool
  needs_gtd_refresh now_monotonic_ns ex =
      lt (sub gtd_lifetime_s gtd_refresh_lead_s) (age_s now_monotonic_ns ex.place_monotonic_ns)

  unfoldable pub cooling_down : ℕ → OurOrder F → Bool
  cooling_down now_monotonic_ns ex =
      ltb (sub_u64 now_monotonic_ns ex.place_monotonic_ns) cooldown_ns

  -- `cancel_old_oid`, for an order that is replaced
  unfoldable pub cancel_before_replace :
      ℕ → OurOrder F → DecisionCounters → DecisionCounters × Option ℤ
  cancel_before_replace now_monotonic_ns ex c =
      let gtd_remaining = sub gtd_lifetime_s (age_s now_monotonic_ns ex.place_monotonic_ns) in
      elim ex.order_id [
        | none ↦ (c, none)
        | some oid ↦
            if lt cancel_threshold_s gtd_remaining
            then (record c { replace_cancel = c.replace_cancel + 1 }, some oid)
            else (
              record c { replace_skip_cancel_near_gtd = c.replace_skip_cancel_near_gtd + 1 },
              none,
            )
      ]

  -- The end of the loop's body, given the order that rests under the key.
  unfoldable pub place_or_keep :
      Side
      → F
      → F
      → ℕ
      → Option (OurOrder F)
      → DecisionCounters
      → DecisionCounters × List (Decision F)
  unfolding in_band needs_gtd_refresh cooling_down cancel_before_replace
  place_or_keep side tick_size target_q now none c =
      (record c { place = c.place + 1 }, place side target_q none ∷ [])
  place_or_keep side tick_size target_q now (some ex) c =
      if in_band tick_size target_q ex && not (needs_gtd_refresh now ex)
      then (record c { skip_in_band = c.skip_in_band + 1 }, [])
      else if cooling_down now ex
      then (record c { skip_cooldown = c.skip_cooldown + 1 }, [])
      else let (counted, cancel_old_oid) = cancel_before_replace now ex c in
        (record counted { place = counted.place + 1 }, place side target_q cancel_old_oid ∷ [])

  -- The body of the loop, for one side: a list of one decision, or none after a `continue`.
  unfoldable pub decide_side :
      TraderState F
      → Quote F
      → OrderKey
      → ℕ
      → Side
      → DecisionCounters
      → DecisionCounters × List (Decision F)
  unfolding place_or_keep
  decide_side s q key now side c =
      let naive = naive_target side q in
      let target = jump side s.tick_size q naive in
      if le naive zero
      then (record c { skip_target_nonpositive = c.skip_target_nonpositive + 1 }, [])
      else if would_cross side q target
      then (count_cross side c, [])
      else if risk_blocked side q
      then (count_risk_block side c, [])
      else place_or_keep side s.tick_size (quantize s.tick_size target) now (get key s.our_orders) c

  unfoldable pub decide_sides :
      Analysis F
      → TraderState F
      → TickMsg F
      → ℕ
      → DecisionCounters × Option (Quote F)
      → DecisionCounters × List (Decision F)
  unfolding decide_side
  decide_sides x s tick now (c, none) = (c, [])
  decide_sides x s tick now (c, some q) =
      let (after_buy, bought) = decide_side s q (order_key x tick buy) now buy c in
      let (after_sell, sold) = decide_side s q (order_key x tick sell) now sell after_buy in
      (after_sell, bought ++ sold)

  unfoldable pub decide_on_tick :
      Analysis F
      → (Text → Option F)
      → TraderState F
      → DecisionCounters
      → TickMsg F
      → ℕ
      → DecisionCounters × List (Decision F)
  unfolding quote_for decide_sides
  decide_on_tick x tte s c tick now = decide_sides x s tick now (quote_for x tte s c tick now)
