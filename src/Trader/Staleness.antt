-- ===== src/Trader/Staleness.antt =====
-- rust/corsair_trader/src/main.rs: `staleness_check`, which cancels the resting orders whose price
-- has left the theoretical one or whose market has gone dark. `tte key` is the result of the call
-- of `time_to_expiry_years` for the order at `key`; each call reads the clock.
use corsair.Base.{
  ℕ, ◌+◌, Bool, true, false, not, ◌||◌, Option, none, some, List, [], ◌∷◌, if◌then◌else◌, nat_beq,
}
use corsair.Base.Integers.{ℤ, pos, leb_ℤ, ℤ_eq}
use corsair.Base.Maps.{HashMap, get, remove}
use corsair.Float.{Float}
use corsair.Trader.Pricing.{Analysis, compute_theo}
use corsair.Trader.State.{
  TraderState, DecisionCounters, OptionState, OurOrder, OrderKey, order_key_eq, option_key_eq,
}
use corsair.Trader.Decision.{surface_for, positive, unwrap_or, zero}
use corsair.Trader.Events.{Command, cancel_order}

pub record ToCancel : Type 0 where
  pub order_id : ℤ
  pub key : OrderKey
  pub reason_dark : Bool

abbrev count_cancel : Bool → DecisionCounters → DecisionCounters
count_cancel true c = record c { staleness_cancel_dark = c.staleness_cancel_dark + 1 }
count_cancel false c = record c { staleness_cancel = c.staleness_cancel + 1 }

module _ {F : Type 0} ⦃f : Float F⦄ where
  open f use {lt, sub, mul, of_int}

  abbrev alive : Option F → Bool
  alive none = false
  alive (some price) = lt zero price

  unfoldable pub market_dark : OptionState F → Bool
  market_dark latest =
      not (alive latest.bid)
      || not (alive latest.ask)
      || leb_ℤ (unwrap_or latest.bid_size (pos 0)) (pos 0)
      || leb_ℤ (unwrap_or latest.ask_size (pos 0)) (pos 0)

  -- How far the price of an order is to our disadvantage.
  unfoldable pub drift : OrderKey → OurOrder F → F → F
  drift key order theo =
      if nat_beq key.side_char b'B' then sub order.price theo else sub theo order.price

  -- `compute_theo` for a resting order, `none` where the loop goes on to the next order.
  unfoldable pub resting_theo :
      Analysis F → (OrderKey → Option F) → TraderState F → OrderKey → Option F
  resting_theo x tte s key = elim (surface_for key.expiry key.right_char s) [
    | none ↦ none
    | some vp ↦ elim (positive (tte key)) [
      | none ↦ none
      | some t ↦
          elim (compute_theo x vp.forward (x.from_bits key.strike_bits) t key.right_char
            vp.params) [ none ↦ none | some (iv, theo) ↦ some theo ]
    ]
  ]

  abbrev is_dark : Option (OptionState F) → Bool
  is_dark none = false
  is_dark (some latest) = market_dark latest

  -- Whether to cancel an order, with the reason.
  unfoldable pub cancel_for :
      Analysis F → (OrderKey → Option F) → TraderState F → OrderKey → OurOrder F → Option ToCancel
  unfolding resting_theo drift market_dark
  cancel_for x tte s key order = elim order.order_id [
    | none ↦ none
    | some oid ↦ elim (resting_theo x tte s key) [
      | none ↦ none
      | some theo ↦
          if lt (mul (of_int (pos 1)) s.tick_size) (drift key order theo)
          then some (record { order_id = oid; key = key; reason_dark = false })
          else if is_dark (
              get
                (record {
                  strike_bits = key.strike_bits;
                  expiry = key.expiry;
                  right_char = key.right_char;
                })
                s.options)
          then some (record { order_id = oid; key = key; reason_dark = true })
          else none
    ]
  ]

  -- The first loop of `staleness_check`.
  unfoldable pub to_cancel :
      Analysis F
      → (OrderKey → Option F)
      → TraderState F
      → HashMap OrderKey (OurOrder F)
      → List ToCancel
  unfolding cancel_for
  to_cancel x tte s [] = []
  to_cancel x tte s ((key, order) ∷ rest) =
      let others = to_cancel x tte s rest in
      elim (cancel_for x tte s key order) [ none ↦ others | some tc ↦ tc ∷ others ]

  -- The second loop: the cancels are sent, and the orders no longer tracked. `wall tc` is the clock's
  -- reading for the cancel `tc`.
  unfoldable pub cancel_all :
      (ToCancel → ℕ)
      → List ToCancel
      → TraderState F
      → DecisionCounters
      → TraderState F × DecisionCounters × List (Command F)
  cancel_all wall [] s c = (s, c, [])
  cancel_all wall (tc ∷ rest) s c =
      let forgotten : TraderState F = record s {
        our_orders = remove tc.key s.our_orders;
        orderid_to_key = remove tc.order_id s.orderid_to_key;
      } in
      let (left, counted, written) =
        cancel_all wall rest forgotten (count_cancel tc.reason_dark c) in
      (left, counted, cancel_order (wall tc) tc.order_id ∷ written)

  unfoldable pub staleness_check :
      Analysis F
      → (OrderKey → Option F)
      → (ToCancel → ℕ)
      → TraderState F
      → DecisionCounters
      → TraderState F × DecisionCounters × List (Command F)
  unfolding to_cancel cancel_all
  staleness_check x tte wall s c = cancel_all wall (to_cancel x tte s s.our_orders) s c
