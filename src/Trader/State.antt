-- ===== src/Trader/State.antt =====
-- rust/corsair_trader/src/state.rs, and the messages of messages.rs that change it. A text is the
-- list of its characters' codes where its characters are read.
use corsair.Base.{
  ℕ, ◌≡◌, ◌↔◌, Bool, true, false, ◌&&◌, Option, none, List, [], ◌∷◌, String, arith, PartialEq, ◌==◌,
  nat_eq, if◌then◌else◌, leb, ◌-◌,
}
use corsair.Base.Integers.{ℤ, pos}
use corsair.Base.Maps.{HashMap}
use corsair.Float.{Float}
use corsair.Api.{Side, buy, sell}
use corsair.Codec.Fields.{Text, text_beq}
use corsair.Trader.Pricing.{Analysis, VolParams}

pub text_beq_iff : (s t : Text) → (text_beq s t ≡ true) ↔ (s ≡ t)
text_beq_iff [] [] = ground arith
text_beq_iff [] (b ∷ t) = ground arith
text_beq_iff (a ∷ s) [] = ground arith
text_beq_iff (a ∷ s) (b ∷ t) = ground (arith, text_beq_iff s t)

instance abbrev pub text_eq : PartialEq Text
text_eq = record { eq = text_beq; eq_iff = text_beq_iff }

-- (strike-bits, expiry, right-char), the key of `options`
pub record OptionKey : Type 0 where
  pub strike_bits : ℕ
  pub expiry : Text
  pub right_char : ℕ

-- (strike-bits, expiry, right-char, side-char), the key of `our_orders`
pub record OrderKey : Type 0 where
  pub strike_bits : ℕ
  pub expiry : Text
  pub right_char : ℕ
  pub side_char : ℕ

pub record SurfaceKey : Type 0 where
  pub expiry : Text
  pub right_char : ℕ

abbrev option_key_beq : OptionKey → OptionKey → Bool
option_key_beq a b =
    a.strike_bits == b.strike_bits && a.expiry == b.expiry && a.right_char == b.right_char

abbrev order_key_beq : OrderKey → OrderKey → Bool
order_key_beq a b =
    a.strike_bits == b.strike_bits
    && a.expiry == b.expiry
    && a.right_char == b.right_char
    && a.side_char == b.side_char

abbrev surface_key_beq : SurfaceKey → SurfaceKey → Bool
surface_key_beq a b = a.expiry == b.expiry && a.right_char == b.right_char

pub option_key_beq_iff : (a b : OptionKey) → (option_key_beq a b ≡ true) ↔ (a ≡ b)
option_key_beq_iff a b = ground (arith, text_beq_iff a.expiry b.expiry)

pub order_key_beq_iff : (a b : OrderKey) → (order_key_beq a b ≡ true) ↔ (a ≡ b)
order_key_beq_iff a b = ground (arith, text_beq_iff a.expiry b.expiry)

pub surface_key_beq_iff : (a b : SurfaceKey) → (surface_key_beq a b ≡ true) ↔ (a ≡ b)
surface_key_beq_iff a b = ground (arith, text_beq_iff a.expiry b.expiry)

instance abbrev pub option_key_eq : PartialEq OptionKey
option_key_eq = record { eq = option_key_beq; eq_iff = option_key_beq_iff }

instance abbrev pub order_key_eq : PartialEq OrderKey
order_key_eq = record { eq = order_key_beq; eq_iff = order_key_beq_iff }

instance abbrev pub surface_key_eq : PartialEq SurfaceKey
surface_key_eq = record { eq = surface_key_beq; eq_iff = surface_key_beq_iff }

pub record OptionState (F : Type 0) : Type 0 where
  pub strike : F
  pub bid : Option F
  pub ask : Option F
  pub bid_size : Option ℤ
  pub ask_size : Option ℤ
  pub ts_ns : Option ℕ

pub record VolSurfaceEntry (F : Type 0) : Type 0 where
  pub forward : F
  pub params : VolParams F

pub record OurOrder (F : Type 0) : Type 0 where
  pub price : F
  pub send_ns : ℕ
  pub place_monotonic_ns : ℕ
  pub order_id : Option ℤ

pub record TraderState (F : Type 0) : Type 0 where
  pub options : HashMap OptionKey (OptionState F)
  pub vol_surfaces : HashMap SurfaceKey (VolSurfaceEntry F)
  pub underlying_price : F
  pub our_orders : HashMap OrderKey (OurOrder F)
  pub orderid_to_key : HashMap ℤ OrderKey
  pub risk_effective_delta : Option F
  pub risk_margin_pct : Option F
  pub risk_state_age_monotonic_ns : ℕ
  pub min_edge_ticks : ℤ
  pub tick_size : F
  pub delta_ceiling : F
  pub delta_kill : F
  pub margin_ceiling_pct : F
  pub ipc_us : List ℕ
  pub ttt_us : List ℕ
  pub kills : HashMap String String
  pub weekend_paused : Bool

pub record DecisionCounters : Type 0 where
  pub place : ℕ
  pub skip_no_vol_surface : ℕ
  pub skip_off_atm : ℕ
  pub skip_itm : ℕ
  pub skip_thin_book : ℕ
  pub skip_one_sided_or_dark : ℕ
  pub skip_forward_drift : ℕ
  pub skip_in_band : ℕ
  pub skip_cooldown : ℕ
  pub skip_dark_at_place : ℕ
  pub skip_target_nonpositive : ℕ
  pub skip_would_cross_ask : ℕ
  pub skip_would_cross_bid : ℕ
  pub skip_other : ℕ
  pub risk_block : ℕ
  pub risk_block_buy : ℕ
  pub risk_block_sell : ℕ
  pub staleness_cancel : ℕ
  pub staleness_cancel_dark : ℕ
  pub replace_cancel : ℕ
  pub replace_skip_cancel_near_gtd : ℕ

pub record TickMsg (F : Type 0) : Type 0 where
  pub strike : F
  pub expiry : Text
  pub right : Text
  pub bid : Option F
  pub ask : Option F
  pub bid_size : Option ℤ
  pub ask_size : Option ℤ
  pub ts_ns : Option ℕ

-- `Side::as_char`
unfoldable pub as_char : Side → ℕ
as_char buy = b'B'
as_char sell = b'S'

abbrev to_ascii_uppercase : ℕ → ℕ
to_ascii_uppercase c = if leb 97 c && leb c 122 then c - 32 else c

-- `right.chars().next().unwrap_or('C').to_ascii_uppercase()`
unfoldable pub first_char : Text → ℕ
first_char [] = b'C'
first_char (c ∷ s) = to_ascii_uppercase c

-- The key of `our_orders` for a side of a tick's option.
unfoldable pub order_key : {F : Type 0} → Analysis F → TickMsg F → Side → OrderKey
order_key x t side = record {
  strike_bits = x.to_bits t.strike;
  expiry = t.expiry;
  right_char = first_char t.right;
  side_char = as_char side;
}

module _ {F : Type 0} ⦃f : Float F⦄ where
  open f use {decimal}

  -- `TraderState::new`
  unfoldable pub new : TraderState F
  new = record {
    options = [];
    vol_surfaces = [];
    underlying_price = decimal 0 1;
    our_orders = [];
    orderid_to_key = [];
    risk_effective_delta = none;
    risk_margin_pct = none;
    risk_state_age_monotonic_ns = 0;
    min_edge_ticks = pos 2;
    tick_size = decimal 5 4;
    delta_ceiling = decimal 30 1;
    delta_kill = decimal 50 1;
    margin_ceiling_pct = decimal 50 2;
    ipc_us = [];
    ttt_us = [];
    kills = [];
    weekend_paused = false;
  }
