-- ===== src/Trader/LateAck.antt =====
-- rust/corsair_trader/src/main.rs: the end of an order that another has replaced without a cancel, as
-- `decide_on_tick` does when the old order expires within a second.
use corsair.Base.{◌≡◌, sym, none, some, String, true, ℕ}
use corsair.Base.Integers.{ℤ, ℤ_eq}
use corsair.Base.Maps.{get, get-remove_self, get-remove_ne, get-insert_ne, get-insert_self}
use corsair.Trader.Pricing.{Analysis}
use corsair.Trader.State.{TraderState, OrderKey, order_key_eq}
use corsair.Trader.Events.{
  PlaceAckMsg, ack_key, on_place_ack, on_order_ack, forget, is_terminal_status,
}
use corsair.Base.{◌≢◌, ◌∙◌}

module _ {F : Type 0} where
  forget-get :
      (i : ℤ) (key : OrderKey) (s : TraderState F)
      → get i s.orderid_to_key ≡ some key
      → get key (forget i s).our_orders ≡ none
  unfolding forget
  forget-get i key s h = rw (h, forget) (get-remove_self key s.our_orders)

  on_place_ack-other :
      (x : Analysis F) (now wall : ℕ) (p : PlaceAckMsg F) (s : TraderState F) (i : ℤ)
      (key : OrderKey)
      → ack_key x p ≡ some key
      → p.order_id ≢ i
      → get i (on_place_ack x now wall p s).orderid_to_key ≡ get i s.orderid_to_key
  unfolding on_place_ack
  on_place_ack-other x now wall p s i key h other =
      rw (h, on_place_ack) (get-insert_ne p.order_id i key s.orderid_to_key other)

  -- The end of an order that was replaced without a cancel removes its replacement: after the
  -- replacement was acknowledged under the same key, a terminal status of the old id leaves no order
  -- under the key, while the new id still leads to it.
  pub on_order_ack-stale :
      (x : Analysis F) (now wall : ℕ) (p : PlaceAckMsg F) (s : TraderState F) (old : ℤ)
      (key : OrderKey) (status : String)
      → get old s.orderid_to_key ≡ some key
      → ack_key x p ≡ some key
      → p.order_id ≢ old
      → is_terminal_status status ≡ true
      → let after = on_order_ack (some old) (some status) (on_place_ack x now wall p s) in
        (get key after.our_orders ≡ none) × (get p.order_id after.orderid_to_key ≡ some key)
  unfolding on_order_ack forget on_place_ack
  on_order_ack-stale x now wall p s old key status h named other ended =
      let acked = on_place_ack x now wall p s in
      let at : get old acked.orderid_to_key ≡ some key =
        on_place_ack-other x now wall p s old key named other ∙ h in
      rw (ended, on_order_ack)
        (
          forget-get old key acked at,
          rw (at, named, forget, on_place_ack)
              (get-remove_ne old p.order_id _ (λ e. other (sym e))
                ∙ get-insert_self p.order_id key s.orderid_to_key),
        )
