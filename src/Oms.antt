-- ===== src/Oms.antt =====
-- rust/corsair_oms/src/book.rs and key.rs: the book of our resting orders, with its reverse index
-- from order ids to keys. `Utc::now()` is an argument of the operation that reads it.
pub mod Consistent
mod Steps
pub mod Status
pub mod Stale
pub mod Counts
mod Tests
use corsair.Base.{
  ℕ, ◌+◌, ◌%◌, ◌^◌, ◌≡◌, ◌↔◌, Bool, true, false, ◌&&◌, Option, none, some, List, [], ◌∷◌, arith,
  if◌then◌else◌, PartialEq, ◌==◌, nat_eq, length, map,
}
use corsair.Base.Integers.{ℤ, ℤ_eq, ℤ_beq, ℤ_beq_iff}
use corsair.Base.Maps.{HashMap, get, insert, remove}
use corsair.Base.Index.{id_at, unlink}
use corsair.Float.{Float}
use corsair.Api.{
  Right, Side, right_eq, side_eq, NaiveDate, OrderId, OrderStatus, pending_submit, submitted,
  filled, cancelled, rejected, inactive,
}
use mathlib.Core.List.{foldl}

pub record OurKey : Type 0 where
  pub strike_key : ℤ
  pub expiry : NaiveDate
  pub right : Right
  pub side : Side

abbrev key_beq : OurKey → OurKey → Bool
key_beq a b =
    a.strike_key == b.strike_key && a.expiry == b.expiry && a.right == b.right && a.side == b.side

pub key_beq_iff : (a b : OurKey) → (key_beq a b ≡ true) ↔ (a ≡ b)
key_beq_iff a b = ground (
  arith,
  ℤ_beq_iff a.strike_key b.strike_key,
  right_eq.eq_iff a.right b.right,
  side_eq.eq_iff a.side b.side,
)

instance abbrev pub key_eq : PartialEq OurKey
key_eq = record { eq = key_beq; eq_iff = key_beq_iff }

module _ {F : Type 0} ⦃f : Float F⦄ where
  open f use {mul, div, round, decimal, of_int, to_i64}

  -- `OurKey::new`
  unfoldable pub our_key : F → NaiveDate → Right → Side → OurKey
  our_key strike expiry right side = record {
    strike_key = to_i64 (round (mul strike (decimal 10_000 0)));
    expiry = expiry;
    right = right;
    side = side;
  }

  -- `OurKey::strike`
  unfoldable pub key_strike : OurKey → F
  key_strike k = div (of_int k.strike_key) (decimal 10_000 0)

pub data OrderState : Type 0 where
  pending live pending_cancel terminal : OrderState

pub record OrderRecord (F : Type 0) : Type 0 where
  pub key : OurKey
  pub order_id : Option OrderId
  pub price : F
  pub qty : ℕ
  pub state : OrderState
  pub placed_at : ℕ
  pub last_send_ns : ℕ

pub record OrderBookCounters : Type 0 where
  pub places : ℕ
  pub cancels : ℕ
  pub modifies : ℕ
  pub dead_band_skips : ℕ
  pub gtd_refreshes : ℕ
  pub cooldown_skips : ℕ
  pub place_acks : ℕ
  pub fills : ℕ
  pub rejects : ℕ

pub record OrderBook (F : Type 0) : Type 0 where
  pub by_key : HashMap OurKey (OrderRecord F)
  pub by_order_id : HashMap OrderId OurKey
  pub counters : OrderBookCounters

-- `+= 1` on a `u32`
abbrev pub inc : ℕ → ℕ
inc n = (n + 1) % 2 ^ 32

abbrev no_counts : OrderBookCounters
no_counts = record {
  places = 0;
  cancels = 0;
  modifies = 0;
  dead_band_skips = 0;
  gtd_refreshes = 0;
  cooldown_skips = 0;
  place_acks = 0;
  fills = 0;
  rejects = 0;
}

abbrev state_beq : OrderState → OrderState → Bool
state_beq OrderState.pending OrderState.pending = true
state_beq OrderState.live OrderState.live = true
state_beq OrderState.pending_cancel OrderState.pending_cancel = true
state_beq OrderState.terminal OrderState.terminal = true
state_beq _ _ = false

-- The arms of the `match` of `apply_status`: the record's new state, whether it is removed, and
-- the counter that goes up.
abbrev next_state : OrderStatus → OrderState
next_state pending_submit = OrderState.pending
next_state OrderStatus.pending_cancel = OrderState.pending
next_state submitted = OrderState.live
next_state _ = OrderState.terminal

abbrev should_remove : OrderStatus → Bool
should_remove pending_submit = false
should_remove OrderStatus.pending_cancel = false
should_remove submitted = false
should_remove _ = true

abbrev count_status : OrderStatus → OrderBookCounters → OrderBookCounters
count_status filled c = record c { fills = inc c.fills }
count_status cancelled c = record c { cancels = inc c.cancels }
count_status rejected c = record c { rejects = inc c.rejects }
count_status _ c = c

abbrev count_slot : OrderState → OrderState × ℕ → OrderState × ℕ
count_slot s slot = if state_beq slot.0 s then (slot.0, inc slot.1) else slot

module _ {F : Type 0} where
  abbrev pub id_of : OrderRecord F → Option OrderId
  id_of r = r.order_id

  -- `OrderRecord::is_live`
  unfoldable pub is_live : OrderRecord F → Bool
  is_live r = elim r.state [ OrderState.live ↦ true | OrderState.pending ↦ true | _ ↦ false ]

  -- `OrderBook::new`
  unfoldable pub new : OrderBook F
  new = record { by_key = []; by_order_id = []; counters = no_counts }

  unfoldable pub len : OrderBook F → ℕ
  len b = length b.by_key

  unfoldable pub get_record : OurKey → OrderBook F → Option (OrderRecord F)
  get_record key b = get key b.by_key

  unfoldable pub get_by_order_id : OrderId → OrderBook F → Option (OrderRecord F)
  get_by_order_id oid b = elim (get oid b.by_order_id) [ none ↦ none | some key ↦ get key b.by_key ]

  -- `now` is the value of `Utc::now()`. The source hands out the record that it has just written.
  unfoldable pub upsert_pending : OurKey → F → ℕ → ℕ → ℕ → OrderBook F → OrderBook F
  upsert_pending key price qty last_send_ns now b = record {
    by_key =
        insert key
          (record {
            key = key;
            order_id = none;
            price = price;
            qty = qty;
            state = OrderState.pending;
            placed_at = now;
            last_send_ns = last_send_ns;
          })
          b.by_key;
    by_order_id = unlink (id_at id_of b.by_key key) b.by_order_id;
    counters = record (b.counters) { places = inc b.counters.places };
  }

  unfoldable pub link_order_id : OurKey → OrderId → OrderBook F → OrderBook F
  link_order_id key oid b =
      let counters' = record (b.counters) { place_acks = inc b.counters.place_acks } in
      elim (get key b.by_key) [
        | none ↦ record b { counters = counters' }
        | some r ↦ record {
          by_key = insert key (record r { order_id = some oid }) b.by_key;
          by_order_id = insert oid key b.by_order_id;
          counters = counters';
        }
      ]

  -- The `match` on the status, at the record of a key, and the removal behind it.
  abbrev status_arms :
      OrderId → OurKey → OrderRecord F → OrderStatus → OrderBook F → OrderBook F × Bool
  status_arms oid key r status b =
      let counters' = count_status status b.counters in
      let by_key' = insert key (record r { state = next_state status }) b.by_key in
      if should_remove status
      then (
        record {
          by_key = remove key by_key';
          by_order_id = remove oid b.by_order_id;
          counters = counters';
        },
        true,
      )
      else (record b { by_key = by_key'; counters = counters' }, true)

  unfoldable pub apply_status : OrderId → OrderStatus → OrderBook F → OrderBook F × Bool
  apply_status oid status b = elim (get oid b.by_order_id) [
    | none ↦ (b, false)
    | some key ↦ elim (get key b.by_key) [
      | none ↦ (b, true)
      | some r ↦ status_arms oid key r status b
    ]
  ]

  unfoldable pub mark_pending_cancel : OurKey → OrderBook F → OrderBook F
  mark_pending_cancel key b = elim (get key b.by_key) [
    | none ↦ b
    | some r ↦ record b {
      by_key = insert key (record r { state = OrderState.pending_cancel }) b.by_key;
    }
  ]

  unfoldable pub clear : OrderBook F → OrderBook F
  clear b = record b { by_key = []; by_order_id = [] }

  -- `by_key.values()`, in the order of the association list
  abbrev pub values : OrderBook F → List (OrderRecord F)
  values b = map (λ (e : OurKey × OrderRecord F). e.1) b.by_key

  unfoldable pub live_orders : OrderBook F → List (OrderRecord F)
  live_orders b = keep_live (values b)
    where
      keep_live : List (OrderRecord F) → List (OrderRecord F)
      keep_live [] = []
      keep_live (r ∷ rs) = if is_live r then r ∷ keep_live rs else keep_live rs

  abbrev count_record : List (OrderState × ℕ) → OrderRecord F → List (OrderState × ℕ)
  count_record counts r = map (count_slot r.state) counts

  unfoldable pub snapshot_state_counts : OrderBook F → List (OrderState × ℕ)
  snapshot_state_counts b =
      foldl count_record
        ((OrderState.pending, 0)
          ∷ (OrderState.live, 0)
          ∷ (OrderState.pending_cancel, 0)
          ∷ (OrderState.terminal, 0)
          ∷ [])
        (values b)
