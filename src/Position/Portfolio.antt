-- ===== src/Position/Portfolio.antt =====
-- rust/corsair_position/src/portfolio.rs: the book of positions with its index. `Utc::now()` is an
-- argument, and `none` is a panic on an index out of range.
use corsair.Base.{
  ℕ, ◌+◌, ◌%◌, ◌^◌, not, ◌&&◌, ◌||◌, Option, none, some, List, [], ◌∷◌, ◌++◌, ◌==◌, length,
  get_elem?, set, remove_at, if◌then◌else◌, String, zero, suc,
}
use corsair.Base.Integers.{ℤ, pos, negsuc, ltb_ℤ, add_i32, unsigned_abs, ℤ_eq}
use corsair.Base.Maps.{HashMap, get, insert}
use corsair.Base.Keyed.{index_from}
use corsair.Float.{Float}
use corsair.Api.{Right, NaiveDate}
use corsair.Position.{
  PositionKey, position_key_eq, Position, ProductRegistry, FillOutcome, opened, increased,
  partially_closed, closed, flipped, rejected, multiplier_for, make_key, key_of,
}

pub record PortfolioState (F : Type 0) : Type 0 where
  pub positions : List (Position F)
  pub index : HashMap PositionKey ℕ
  pub registry : ProductRegistry F
  pub fills_today : ℕ
  pub spread_capture_today : F
  pub spread_capture_mid_today : F
  pub daily_pnl : F
  pub realized_pnl_persisted : F
  pub session_open_nlv : Option F

-- `i32::signum`
abbrev pub signum : ℤ → ℤ
signum (pos zero) = pos 0
signum (pos (suc n)) = pos 1
signum (negsuc n) = negsuc 0

-- The outcome of a fill that leaves a position open, from its quantity before and after.
unfoldable pub merge_outcome : ℤ → ℤ → FillOutcome
merge_outcome prev new =
    if (ltb_ℤ (pos 0) prev && ltb_ℤ (pos 0) new && ltb_ℤ prev new)
      || (ltb_ℤ prev (pos 0) && ltb_ℤ new (pos 0) && ltb_ℤ new prev)
    then increased
    else if not (signum prev == signum new) && not (signum prev == pos 0)
    then flipped
    else partially_closed

module _ {F : Type 0} ⦃f : Float F⦄ where
  open f use {add, decimal}

  -- `PortfolioState::new`
  unfoldable pub new : ProductRegistry F → PortfolioState F
  new registry = record {
    positions = [];
    index = [];
    registry = registry;
    fills_today = 0;
    spread_capture_today = decimal 0 1;
    spread_capture_mid_today = decimal 0 1;
    daily_pnl = decimal 0 1;
    realized_pnl_persisted = decimal 0 1;
    session_open_nlv = none;
  }

  -- `rebuild_index`: the loop enters the place of each position under its key.
  unfoldable pub rebuild_index : PortfolioState F → PortfolioState F
  rebuild_index s = record s { index = index_from key_of 0 s.positions [] }

  unfoldable pub replace_positions : List (Position F) → PortfolioState F → PortfolioState F
  unfolding rebuild_index
  replace_positions positions s = rebuild_index (record s { positions = positions })

  unfoldable pub record_fill_accounting : ℤ → F → F → PortfolioState F → PortfolioState F
  record_fill_accounting quantity spread_captured spread_captured_mid s = record s {
    fills_today = (s.fills_today + unsigned_abs quantity) % 2 ^ 32;
    spread_capture_today = add s.spread_capture_today spread_captured;
    spread_capture_mid_today = add s.spread_capture_mid_today spread_captured_mid;
  }

  -- The branch of `add_fill` for a position that is in the book, at index `i`.
  unfoldable pub merge_fill :
      ℕ → Position F → ℤ → F → F → F → ℕ → PortfolioState F → PortfolioState F × FillOutcome
  unfolding rebuild_index record_fill_accounting
  merge_fill i p quantity fill_price spread_captured spread_captured_mid now s =
      let new_qty = add_i32 p.quantity quantity in
      if new_qty == pos 0
      then (
        record_fill_accounting quantity spread_captured spread_captured_mid
            (rebuild_index (record s { positions = remove_at s.positions i })),
        closed,
      )
      else (
        record_fill_accounting quantity spread_captured spread_captured_mid (record s {
          positions =
              set s.positions i
                (record p { quantity = new_qty; avg_fill_price = fill_price; fill_time = now });
        }),
        merge_outcome p.quantity new_qty,
      )

  -- The position that a first fill opens.
  abbrev pub opening : String → F → NaiveDate → Right → ℤ → F → ℕ → PortfolioState F → Position F
  opening product strike expiry right quantity fill_price now s = record {
    product = product;
    strike = strike;
    expiry = expiry;
    right = right;
    quantity = quantity;
    avg_fill_price = fill_price;
    fill_time = now;
    multiplier = elim (multiplier_for product s.registry) [ some m ↦ m | none ↦ decimal 100 0 ];
    delta = decimal 0 1;
    gamma = decimal 0 1;
    theta = decimal 0 1;
    vega = decimal 0 1;
    current_price = decimal 0 1;
  }

  unfoldable pub add_fill :
      String
      → F
      → NaiveDate
      → Right
      → ℤ
      → F
      → F
      → F
      → ℕ
      → PortfolioState F
      → Option (PortfolioState F × FillOutcome)
  unfolding record_fill_accounting
  add_fill product strike expiry right quantity fill_price spread spread_mid now s =
      if quantity == pos 0
      then some (s, rejected "zero quantity")
      else let key = make_key product strike expiry right in
        elim (get key s.index) [
          | some i ↦ elim (get_elem? s.positions i) [
            | none ↦ none
            | some p ↦ some (merge_fill i p quantity fill_price spread spread_mid now s)
          ]
          | none ↦ some (
            record_fill_accounting quantity spread spread_mid (record s {
              positions =
                  s.positions
                  ++ (opening product strike expiry right quantity fill_price now s ∷ []);
              index = insert key (length s.positions) s.index;
            }),
            opened,
          )
        ]

  unfoldable pub get_position :
      String → F → NaiveDate → Right → PortfolioState F → Option (Position F)
  get_position product strike expiry right s =
      elim (get (make_key product strike expiry right) s.index) [
        | none ↦ none
        | some i ↦ get_elem? s.positions i
      ]

  unfoldable pub reset_daily : PortfolioState F → PortfolioState F
  reset_daily s = record s {
    fills_today = 0;
    spread_capture_today = decimal 0 1;
    spread_capture_mid_today = decimal 0 1;
    daily_pnl = decimal 0 1;
  }
