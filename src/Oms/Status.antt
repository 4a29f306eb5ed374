-- ===== src/Oms/Status.antt =====
-- corsair_oms/src/book.rs: what each call of the order book does to every key.
use corsair.Base.{
  ℕ, refl, ◌≡◌, ◌≢◌, true, Option, none, some, Option-cases, inl, inr, nat_eq, Bool-cases, sym, ap,
  ◌∙◌, subst,
}
use corsair.Base.Maps.{
  HashMap, insert, get, get-insert_self, get-insert_ne, get-remove_self, get-remove_ne,
  get-remove_absent, remove, remove-insert,
}
use corsair.Base.Index.{id_at, id_at_found}
use corsair.Api.{
  OrderId, OrderStatus, pending_submit, submitted, filled, cancelled, rejected, inactive,
}
use corsair.Oms.{
  OurKey, key_eq, OrderState, OrderRecord, OrderBookCounters, OrderBook, id_of, get_record,
  get_by_order_id, upsert_pending, link_order_id, apply_status, should_remove, status_arms,
}
use corsair.Oms.Steps.{link_found, leave_found, get_by_order_id_unknown}
use corsair.Oms.Consistent.{IsConsistent, upsert_pending-IsConsistent}

module _ {F : Type 0} where
  -- Where an id resolves, the update is one of the record that it resolves to.
  resolved :
      (oid : OrderId) (st : OrderStatus) (b : OrderBook F) (r : OrderRecord F)
      → IsConsistent b
      → get_by_order_id oid b ≡ some r
      → (get oid b.by_order_id ≡ some r.key)
        × (get r.key b.by_key ≡ some r)
        × (apply_status oid st b ≡ status_arms oid r.key r st b)
  unfolding get_by_order_id apply_status
  resolved oid st b r v e = elim (Option-cases (get oid b.by_order_id)) [
    | inl n ↦ absurd (cc (ap (at b) n))
    | inr (key, found) ↦
        let here : get key b.by_key ≡ some r = sym (ap (at b) found) ∙ e in
        let own : r.key ≡ key = (v.resting key r here).0 in
        (cc, cc, rw (found, here, own, apply_status) refl)
  ]
    where
      at : OrderBook F → Option OurKey → Option (OrderRecord F)
      at b k = elim k [ none ↦ none | some key ↦ get key b.by_key ]

  -- What stands of a record after the broker has reported a status of its order: `pending_submit`
  -- and `pending_cancel` leave it pending, `submitted` makes it live, and after any other it is gone.
  pub IsAfter : OrderStatus → OrderRecord F → Option (OrderRecord F) → Type 0
  IsAfter pending_submit r o = o ≡ some (record r { state = OrderState.pending })
  IsAfter OrderStatus.pending_cancel r o = o ≡ some (record r { state = OrderState.pending })
  IsAfter submitted r o = o ≡ some (record r { state = OrderState.live })
  IsAfter filled r o = o ≡ none
  IsAfter cancelled r o = o ≡ none
  IsAfter rejected r o = o ≡ none
  IsAfter inactive r o = o ≡ none

  both_kept :
      (oid : OrderId) (key : OurKey) (r : OrderRecord F) (c : OrderBookCounters) (b : OrderBook F)
      → get oid b.by_order_id ≡ some key
      → let b' : OrderBook F = record b { by_key = insert key r b.by_key; counters = c } in
        (get_record key b' ≡ some r) × (get_by_order_id oid b' ≡ some r)
  unfolding get_record get_by_order_id
  both_kept oid key r c b found =
      let here = get-insert_self key r b.by_key in (here, rw (found, get_by_order_id) here)

  both_gone :
      (oid : OrderId) (key : OurKey) (m : HashMap OurKey (OrderRecord F)) (c : OrderBookCounters)
      (b : OrderBook F)
      → let b' : OrderBook F = record {
        by_key = remove key m;
        by_order_id = remove oid b.by_order_id;
        counters = c;
      } in
        (get_record key b' ≡ none) × (get_by_order_id oid b' ≡ none)
  unfolding get_record get_by_order_id
  both_gone oid key m c b =
      (get-remove_self key m, rw (get-remove_self oid b.by_order_id, get_by_order_id) refl)

  status_arms-IsAfter :
      (oid : OrderId) (key : OurKey) (r : OrderRecord F) (st : OrderStatus) (b : OrderBook F)
      → get oid b.by_order_id ≡ some key
      → let b' = (status_arms oid key r st b).0 in
        IsAfter st r (get_record key b') × IsAfter st r (get_by_order_id oid b')
  unfolding IsAfter
  status_arms-IsAfter oid key r pending_submit b found = both_kept oid key _ _ b found
  status_arms-IsAfter oid key r OrderStatus.pending_cancel b found = both_kept oid key _ _ b found
  status_arms-IsAfter oid key r submitted b found = both_kept oid key _ _ b found
  status_arms-IsAfter oid key r filled b found = both_gone oid key _ _ b
  status_arms-IsAfter oid key r cancelled b found = both_gone oid key _ _ b
  status_arms-IsAfter oid key r rejected b found = both_gone oid key _ _ b
  status_arms-IsAfter oid key r inactive b found = both_gone oid key _ _ b

  status_arms-others :
      (oid : OrderId) (key : OurKey) (r : OrderRecord F) (st : OrderStatus) (b : OrderBook F)
      (k : OurKey)
      → key ≢ k
      → get k (status_arms oid key r st b).0.by_key ≡ get k b.by_key
  status_arms-others oid key r st b k ne = elim (Bool-cases (should_remove st)) [
    | inl leaves ↦
        rw leaves (ap (get k) (remove-insert key _ b.by_key) ∙ get-remove_ne key k b.by_key ne)
    | inr stays ↦ rw stays (get-insert_ne key k _ b.by_key ne)
  ]

  unresolved :
      (oid : OrderId) (st : OrderStatus) (b : OrderBook F)
      → get_by_order_id oid b ≡ none
      → (apply_status oid st b).0 ≡ b
  unfolding get_by_order_id apply_status
  unresolved oid st b e = elim (Option-cases (get oid b.by_order_id)) [
    | inl n ↦ rw (n, apply_status) refl
    | inr (key, found) ↦
        let gone : get key b.by_key ≡ none = rw (found, get_by_order_id) at e in
        rw (found, gone, apply_status) refl
  ]

  -- In a consistent book, a status update of an order id that resolves to no record changes nothing.
  -- Where it resolves to a record, the call returns true; `pending_submit` and `pending_cancel` leave
  -- that record pending, `submitted` makes it live, both at its key and under the id, and after
  -- `filled`, `cancelled`, `rejected` or `inactive` neither the key nor the id leads to a record;
  -- and every other key has the record that it had.
  pub apply_status_effect :
      (oid : OrderId) (st : OrderStatus) (b : OrderBook F)
      → IsConsistent b
      → let after = apply_status oid st b in
        ((get_by_order_id oid b ≡ none → after.0 ≡ b))
        × ((r : OrderRecord F)
            → get_by_order_id oid b ≡ some r
            → (after.1 ≡ true)
              × IsAfter st r (get_record r.key after.0)
              × IsAfter st r (get_by_order_id oid after.0)
              × ((k : OurKey) → r.key ≢ k → get_record k after.0 ≡ get_record k b))
  unfolding get_record
  apply_status_effect oid st b v = (
    unresolved oid st b,
    λ r e.
        let at = resolved oid st b r v e in
        let stands = status_arms-IsAfter oid r.key r st b at.0 in
        (
          rw at.2 (elim (Bool-cases (should_remove st)) [
            | inl leaves ↦ rw leaves refl
            | inr stays ↦ rw stays refl
          ]),
          rw at.2 stands.0,
          rw at.2 stands.1,
          λ k ne. rw at.2 (status_arms-others oid r.key r st b k ne),
        ),
  )

  -- After `upsert_pending`, in a consistent book, the key has just the record of the placement: its
  -- price, quantity and times, pending and with no order id; every other key has the record that it
  -- had; and no order id resolves to the record at the key, so that no status update of an earlier
  -- order reaches it.
  pub upsert_pending_effect :
      (key : OurKey) (price : F) (qty ns now : ℕ) (b : OrderBook F)
      → IsConsistent b
      → let b' = upsert_pending key price qty ns now b in
        (get_record key b'
          ≡ some (record {
            key = key;
            order_id = none;
            price = price;
            qty = qty;
            state = OrderState.pending;
            placed_at = now;
            last_send_ns = ns;
          }))
        × ((k : OurKey) → key ≢ k → get_record k b' ≡ get_record k b)
        × ((o : OrderId) (r : OrderRecord F) → get_by_order_id o b' ≡ some r → r.key ≢ key)
  unfolding get_record get_by_order_id upsert_pending
  upsert_pending_effect key price qty ns now b v = (
    get-insert_self key _ b.by_key,
    λ k ne. get-insert_ne key k _ b.by_key ne,
    λ o r e own.
        let v' = upsert_pending-IsConsistent key price qty ns now b v in
        let at = resolved o filled (upsert_pending key price qty ns now b) r v' e in
        let carried = (v'.linked r.key o).1 at.0 in
        let free : id_at id_of (upsert_pending key price qty ns now b).by_key key ≡ none =
          id_at_found id_of _ key _ (get-insert_self key _ b.by_key) in
        cc (
          free,
          subst
              (λ k. id_at (id_of {F = F}) (upsert_pending key price qty ns now b).by_key k ≡ some o)
              own carried,
        ),
  )

  -- The life of an order, from a consistent book with no order at the key and an id that leads to no
  -- key: a placement, its acknowledgement and a terminal or inactive status. Afterwards every key has
  -- the record that it had before, the key itself none, and the id resolves to nothing.
  pub order_life :
      (key : OurKey) (price : F) (qty ns now : ℕ) (oid : OrderId) (st : OrderStatus)
      (b : OrderBook F)
      → IsConsistent b
      → get_record key b ≡ none
      → get oid b.by_order_id ≡ none
      → should_remove st ≡ true
      → let linked = link_order_id key oid (upsert_pending key price qty ns now b) in
        let b' = (apply_status oid st linked).0 in
        ((k : OurKey) → get_record k b' ≡ get_record k b) × (get_by_order_id oid b' ≡ none)
  unfolding get_record upsert_pending
  order_life key price qty ns now oid st b v empty fresh ends =
      let b1 = upsert_pending key price qty ns now b in
      let b2 = link_order_id key oid b1 in
      let new : OrderRecord F = record {
        key = key;
        order_id = none;
        price = price;
        qty = qty;
        state = OrderState.pending;
        placed_at = now;
        last_send_ns = ns;
      } in
      let linked = link_found key oid new b1 (get-insert_self key new b.by_key) in
      let gone =
        leave_found key oid (record new { order_id = some oid }) b2 st ends
          (ap (get oid) linked.1 ∙ get-insert_self oid key b1.by_order_id)
          (ap (get key) linked.0 ∙ get-insert_self key _ b1.by_key) in
      let before : remove key b2.by_key ≡ remove key b.by_key =
        ap (remove key) linked.0 ∙ remove-insert key _ b1.by_key ∙ remove-insert key new b.by_key in
      (
        λ k. ap (get k) (gone.0 ∙ before) ∙ get-remove_absent key k b.by_key empty,
        get_by_order_id_unknown key oid new _
            (ap (get oid) gone.1 ∙ get-remove_self oid b2.by_order_id),
      )
