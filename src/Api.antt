-- ===== src/Api.antt =====
-- rust/corsair_broker_api: the enumerations that the components share. `OrderId` and
-- `InstrumentId` wrap a `u64`, a number here.
use corsair.Base.{ℕ, ◌≡◌, ◌↔◌, Bool, true, false, arith, PartialEq}

pub data Right : Type 0 where
  call put : Right

pub data Side : Type 0 where
  buy sell : Side

-- orders.rs, `OrderStatus`
pub data OrderStatus : Type 0 where
  pending_submit submitted filled cancelled rejected pending_cancel inactive : OrderStatus

abbrev pub OrderId : Type 0
OrderId = ℕ

-- A `NaiveDate` is only compared and copied: its day number stands for it.
abbrev pub NaiveDate : Type 0
NaiveDate = ℕ

abbrev right_beq : Right → Right → Bool
right_beq call call = true
right_beq put put = true
right_beq _ _ = false

pub right_beq_iff : (a b : Right) → (right_beq a b ≡ true) ↔ (a ≡ b)
right_beq_iff a b = ground arith

abbrev side_beq : Side → Side → Bool
side_beq buy buy = true
side_beq sell sell = true
side_beq _ _ = false

pub side_beq_iff : (a b : Side) → (side_beq a b ≡ true) ↔ (a ≡ b)
side_beq_iff a b = ground arith

instance abbrev pub right_eq : PartialEq Right
right_eq = record { eq = right_beq; eq_iff = right_beq_iff }

instance abbrev pub side_eq : PartialEq Side
side_eq = record { eq = side_beq; eq_iff = side_beq_iff }

-- `OrderStatus::is_terminal`
unfoldable pub is_terminal : OrderStatus → Bool
is_terminal filled = true
is_terminal cancelled = true
is_terminal rejected = true
is_terminal _ = false
