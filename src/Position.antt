-- ===== src/Position.antt =====
-- rust/corsair_position/src/position.rs, fill.rs, market_view.rs: positions, their keys, the product
-- registry, and the read interface to the market.
pub mod Portfolio
pub mod Totals
pub mod Fills
mod Tests
use corsair.Base.{
  ℕ, ◌≡◌, ◌↔◌, Bool, true, false, ◌&&◌, Option, none, some, List, [], ◌∷◌, arith, PartialEq, ◌==◌,
  nat_eq, string_eq, String, length, map,
}
use corsair.Base.Integers.{ℤ, ℤ_eq, ℤ_beq_iff}
use corsair.Base.Maps.{HashMap, get, insert}
use corsair.Float.{Float}
use corsair.Api.{Right, right_eq, NaiveDate}
use text.Mathlib.TextEquality.{eq_iff}

pub record PositionKey : Type 0 where
  pub product : String
  pub strike_key : ℤ
  pub expiry : NaiveDate
  pub right : Right

abbrev position_key_beq : PositionKey → PositionKey → Bool
position_key_beq a b =
    a.product == b.product
    && a.strike_key == b.strike_key
    && a.expiry == b.expiry
    && a.right == b.right

pub position_key_beq_iff : (a b : PositionKey) → (position_key_beq a b ≡ true) ↔ (a ≡ b)
position_key_beq_iff a b = ground (
  arith,
  eq_iff a.product b.product,
  ℤ_beq_iff a.strike_key b.strike_key,
  right_eq.eq_iff a.right b.right,
)

instance abbrev pub position_key_eq : PartialEq PositionKey
position_key_eq = record { eq = position_key_beq; eq_iff = position_key_beq_iff }

-- `quantity` is an `i32`: positive for long, negative for short.
pub record Position (F : Type 0) : Type 0 where
  pub product : String
  pub strike : F
  pub expiry : NaiveDate
  pub right : Right
  pub quantity : ℤ
  pub avg_fill_price : F
  pub fill_time : ℕ
  pub multiplier : F
  pub delta : F
  pub gamma : F
  pub theta : F
  pub vega : F
  pub current_price : F

pub record ProductInfo (F : Type 0) : Type 0 where
  pub product : String
  pub multiplier : F
  pub default_iv : F

pub data FillOutcome : Type 0 where
  opened increased partially_closed closed flipped : FillOutcome
  rejected : String → FillOutcome

-- `trait MarketView`
pub record MarketView (F : Type 0) : Type 0 where
  pub underlying_price : String → Option F
  pub iv_for : String → F → NaiveDate → Right → Option F
  pub current_price : String → F → NaiveDate → Right → Option F

abbrev pub ProductRegistry : Type 0 → Type 0
ProductRegistry F = HashMap String (ProductInfo F)

module _ {F : Type 0} where
  unfoldable pub register : ProductInfo F → ProductRegistry F → ProductRegistry F
  register info r = insert info.product info r

  unfoldable pub multiplier_for : String → ProductRegistry F → Option F
  multiplier_for product r = elim (get product r) [ none ↦ none | some i ↦ some i.multiplier ]

module _ {F : Type 0} ⦃f : Float F⦄ where
  open f use {mul, round, decimal, to_i64}

  -- `strike_key` of market_view.rs
  unfoldable pub strike_key : F → ℤ
  strike_key strike = to_i64 (round (mul strike (decimal 10_000 0)))

  -- `PortfolioState::make_key`
  unfoldable pub make_key : String → F → NaiveDate → Right → PositionKey
  make_key product strike expiry right = record {
    product = product;
    strike_key = strike_key strike;
    expiry = expiry;
    right = right;
  }

  abbrev pub key_of : Position F → PositionKey
  key_of p = make_key p.product p.strike p.expiry p.right
