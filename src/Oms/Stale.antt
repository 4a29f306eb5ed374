-- ===== src/Oms/Stale.antt =====
-- corsair_oms/src/book.rs: two ways in which a status update acts against the book's intent.
use corsair.Base.{refl, ◌≡◌, ◌≢◌, true, none, some, nat_eq, sym, ap, ◌∙◌}
use corsair.Base.Maps.{get, get-insert_self, get-insert_ne, get-remove_self, get-remove_ne}
use corsair.Base.Index.{id_at_found}
use corsair.Api.{OrderId, OrderStatus}
use corsair.Oms.{
  OurKey, key_eq, OrderState, OrderRecord, OrderBook, id_of, get_record, get_by_order_id,
  link_order_id, apply_status, mark_pending_cancel, should_remove, is_live,
}
use corsair.Oms.Steps.{link_found, mark_found, status_found, leave_found, get_by_order_id_found}
use corsair.Oms.Consistent.{IsConsistent}

module _ {F : Type 0} where
  -- A second acknowledgement at a key whose record carries another order id, in a consistent book:
  -- the first id still resolves, to the record that now carries the second id; and a terminal status
  -- of the first order takes that record out of the book, while the second id stays in the index.
  pub relink_keeps_stale :
      (key : OurKey) (old new : OrderId) (r : OrderRecord F) (b : OrderBook F) (st : OrderStatus)
      → IsConsistent b
      → get_record key b ≡ some r
      → r.order_id ≡ some old
      → old ≢ new
      → should_remove st ≡ true
      → let linked = link_order_id key new b in
        let after = (apply_status old st linked).0 in
        (get_by_order_id old linked ≡ some (record r { order_id = some new }))
        × (get_record key after ≡ none)
        × (get new after.by_order_id ≡ some key)
  unfolding get_record
  relink_keeps_stale key old new r b st v here carries ne ends =
      let linked = link_order_id key new b in
      let r' = record r { order_id = some new } in
      let maps = link_found key new r b here in
      let indexed : get old b.by_order_id ≡ some key =
        (v.linked key old).0 (id_at_found id_of b.by_key key r here ∙ carries) in
      let stale : get old linked.by_order_id ≡ some key =
        ap (get old) maps.1 ∙ get-insert_ne new old key b.by_order_id (λ e. ne (sym e)) ∙ indexed in
      let found : get key linked.by_key ≡ some r' =
        ap (get key) maps.0 ∙ get-insert_self key r' b.by_key in
      let gone = leave_found key old r' linked st ends stale found in
      (
        get_by_order_id_found key old r linked stale ∙ found,
        ap (get key) gone.0 ∙ get-remove_self key linked.by_key,
        ap (get new) gone.1
            ∙ get-remove_ne old new linked.by_order_id ne
            ∙ ap (get new) maps.1
            ∙ get-insert_self new key b.by_order_id,
      )

  -- The broker's `PendingCancel` ("cancel sent, awaiting confirmation") for an order of a consistent
  -- book that was marked so makes its record pending, and so live, again.
  pub pending_cancel_revives :
      (key : OurKey) (oid : OrderId) (r : OrderRecord F) (b : OrderBook F)
      → IsConsistent b
      → get_record key b ≡ some r
      → r.order_id ≡ some oid
      → let marked = mark_pending_cancel key b in
        let after = (apply_status oid OrderStatus.pending_cancel marked).0 in
        (r' : OrderRecord F) × (get_record key after ≡ some r')
        × (r'.state ≡ OrderState.pending)
        × (is_live r' ≡ true)
  unfolding get_record is_live
  pending_cancel_revives key oid r b v here carries =
      let r' = record r { state = OrderState.pending_cancel } in
      let marked = mark_pending_cancel key b in
      let shape = mark_found key oid r b here in
      let indexed : get oid marked.by_order_id ≡ some key =
        ap (λ c. get oid c.by_order_id) shape
        ∙ (v.linked key oid).0 (id_at_found id_of b.by_key key r here ∙ carries) in
      let found : get key marked.by_key ≡ some r' =
        ap (λ c. get key c.by_key) shape ∙ get-insert_self key r' b.by_key in
      (
        record r { state = OrderState.pending },
        ap (λ p. get key p.0.by_key)
              (status_found key oid r' marked OrderStatus.pending_cancel indexed found)
            ∙ get-insert_self key _ marked.by_key,
        refl,
        refl,
      )
