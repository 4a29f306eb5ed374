-- ===== src/Oms/Steps.antt =====
-- corsair_oms/src/book.rs: the calls at a record that is there, as equations for the two maps.
use corsair.Base.{refl, ◌≡◌, true, some, none, nat_eq}
use corsair.Base.Maps.{get, insert, remove, remove-insert}
use corsair.Api.{OrderId, OrderStatus}
use corsair.Oms.{
  OurKey, key_eq, OrderState, OrderRecord, OrderBook, get_by_order_id, link_order_id, apply_status,
  mark_pending_cancel, should_remove, status_arms,
}

module _ {F : Type 0} (key : OurKey) (oid : OrderId) (r : OrderRecord F) (b : OrderBook F) where
  pub get_by_order_id_found :
      get oid b.by_order_id ≡ some key → get_by_order_id oid b ≡ get key b.by_key
  unfolding get_by_order_id
  get_by_order_id_found e = rw (e, get_by_order_id) refl

  pub get_by_order_id_unknown : get oid b.by_order_id ≡ none → get_by_order_id oid b ≡ none
  unfolding get_by_order_id
  get_by_order_id_unknown e = rw (e, get_by_order_id) refl

  pub link_found :
      get key b.by_key ≡ some r
      → ((link_order_id key oid b).by_key ≡ insert key (record r { order_id = some oid }) b.by_key)
        × ((link_order_id key oid b).by_order_id ≡ insert oid key b.by_order_id)
  unfolding link_order_id
  link_found e = rw (e, link_order_id) (refl, refl)

  pub mark_found :
      get key b.by_key ≡ some r
      → mark_pending_cancel key b
        ≡ record b { by_key = insert key (record r { state = OrderState.pending_cancel }) b.by_key }
  unfolding mark_pending_cancel
  mark_found e = rw (e, mark_pending_cancel) refl

  pub status_found :
      (st : OrderStatus)
      → get oid b.by_order_id ≡ some key
      → get key b.by_key ≡ some r
      → apply_status oid st b ≡ status_arms oid key r st b
  unfolding apply_status
  status_found st e e' = rw (e, e', apply_status) refl

  pub leave_found :
      (st : OrderStatus)
      → should_remove st ≡ true
      → get oid b.by_order_id ≡ some key
      → get key b.by_key ≡ some r
      → let after = (apply_status oid st b).0 in
        (after.by_key ≡ remove key b.by_key) × (after.by_order_id ≡ remove oid b.by_order_id)
  leave_found st leaves e e' =
      rw (status_found st e e', leaves) (remove-insert key _ b.by_key, refl)
