-- ===== src/Oms/Consistent.antt =====
-- corsair_oms/src/book.rs: the two maps of the order book agree, whatever the order of the calls.
use corsair.Base.{
  ℕ, refl, ◌≡◌, ◌≢◌, nat_eq, ◌⊎◌, none, some, arith, Option-cases, inl, inr, true, false,
}
use corsair.Base.Maps.{get, Holds, insert-Holds, remove-Holds, remove-insert}
use corsair.Base.Index.{
  id_at, IsLinked, insert-unlink-IsLinked, insert-insert-IsLinked, insert-IsLinked, remove-IsLinked,
}
use corsair.Api.{OrderId, OrderStatus}
use corsair.Oms.{
  OurKey, key_eq, OrderState, OrderRecord, OrderBook, id_of, new, upsert_pending, link_order_id,
  apply_status, mark_pending_cancel, clear, next_state, should_remove, status_arms,
}

stays_or_leaves :
    (st : OrderStatus)
    → ((should_remove st ≡ false) × (next_state st ≢ OrderState.terminal))
      ⊎ (should_remove st ≡ true)
stays_or_leaves st = ground arith

module _ {F : Type 0} where
  -- A record stands under its own key and is not terminal.
  abbrev pub IsResting : OurKey → OrderRecord F → Type 0
  IsResting k r = (r.key ≡ k) × (r.state ≢ OrderState.terminal)

  pub record IsConsistent (b : OrderBook F) : Type 0 where
    pub linked : IsLinked id_of b.by_key b.by_order_id
    pub resting : Holds IsResting b.by_key

  pub new-IsConsistent : IsConsistent (new {F = F})
  unfolding new get
  new-IsConsistent = record { linked = λ k o. (λ e. cc, λ e. cc); resting = λ k r e. cc }

  pub clear-IsConsistent : (b : OrderBook F) → IsConsistent (clear b)
  unfolding clear get
  clear-IsConsistent b = record { linked = λ k o. (λ e. cc, λ e. cc); resting = λ k r e. cc }

  pub upsert_pending-IsConsistent :
      (key : OurKey) (price : F) (qty ns now : ℕ) (b : OrderBook F)
      → IsConsistent b
      → IsConsistent (upsert_pending key price qty ns now b)
  unfolding upsert_pending
  upsert_pending-IsConsistent key price qty ns now b v = record {
    linked = insert-unlink-IsLinked id_of b.by_key b.by_order_id v.linked key _ _ refl refl;
    resting = insert-Holds IsResting key _ b.by_key v.resting (refl, λ e. cc);
  }

  pub link_order_id-IsConsistent :
      (key : OurKey) (oid : OrderId) (b : OrderBook F)
      → id_at id_of b.by_key key ≡ none
      → get oid b.by_order_id ≡ none
      → IsConsistent b
      → IsConsistent (link_order_id key oid b)
  unfolding link_order_id
  link_order_id-IsConsistent key oid b unlinked fresh v = elim (Option-cases (get key b.by_key)) [
    | inl e ↦ rw (e, link_order_id) (record { linked = v.linked; resting = v.resting })
    | inr (r, e) ↦
        rw (e, link_order_id)
          (record {
            linked =
                insert-insert-IsLinked id_of b.by_key b.by_order_id v.linked key _ oid unlinked
                  fresh refl;
            resting = insert-Holds IsResting key _ b.by_key v.resting (v.resting key r e);
          })
  ]

  pub mark_pending_cancel-IsConsistent :
      (key : OurKey) (b : OrderBook F) → IsConsistent b → IsConsistent (mark_pending_cancel key b)
  unfolding mark_pending_cancel
  mark_pending_cancel-IsConsistent key b v = elim (Option-cases (get key b.by_key)) [
    | inl e ↦ rw (e, mark_pending_cancel) v
    | inr (r, e) ↦
        rw (e, mark_pending_cancel)
          (record {
            linked =
                insert-IsLinked id_of b.by_key b.by_order_id v.linked key _ (ground (arith, e));
            resting =
                insert-Holds IsResting key _ b.by_key v.resting ((v.resting key r e).0, λ e. cc);
          })
  ]

  -- The arms of the `match`: the record stays in another state, or leaves with its id.
  arms :
      (b : OrderBook F)
      → IsConsistent b
      → (oid : OrderId) (key : OurKey) (r : OrderRecord F) → get oid b.by_order_id ≡ some key
      → get key b.by_key ≡ some r
      → (st : OrderStatus) → IsConsistent (status_arms oid key r st b).0
  arms b v oid key r e e' st = elim (stays_or_leaves st) [
    | inl (stays, resting) ↦ rw stays (record {
      linked = insert-IsLinked id_of b.by_key b.by_order_id v.linked key _ (ground (arith, e'));
      resting = insert-Holds IsResting key _ b.by_key v.resting ((v.resting key r e').0, resting);
    })
    | inr leaves ↦ rw leaves (record {
      linked = remove-IsLinked id_of b.by_key b.by_order_id v.linked key _ oid e;
      resting = rw remove-insert (remove-Holds IsResting key b.by_key v.resting);
    })
  ]

  pub apply_status-IsConsistent :
      (oid : OrderId) (status : OrderStatus) (b : OrderBook F)
      → IsConsistent b
      → IsConsistent (apply_status oid status b).0
  unfolding apply_status
  apply_status-IsConsistent oid status b v = elim (Option-cases (get oid b.by_order_id)) [
    | inl e ↦ rw (e, apply_status) v
    | inr (key, e) ↦ elim (Option-cases (get key b.by_key)) [
      | inl e' ↦ rw (e, e', apply_status) v
      | inr (r, e') ↦ rw (e, e', apply_status) (arms b v oid key r e e' status)
    ]
  ]

  -- What can happen to the book: a placement, its acknowledgement by an id that is new and at a
  -- record that has none, a status update for any id, a cancel request, and a reset.
  pub data Step : OrderBook F → OrderBook F → Type 0 where
    place :
        (b : OrderBook F) (key : OurKey) (price : F) (qty ns now : ℕ)
        → Step b (upsert_pending key price qty ns now b)
    acknowledge :
        (b : OrderBook F) (key : OurKey) (oid : OrderId)
        → id_at id_of b.by_key key ≡ none
        → get oid b.by_order_id ≡ none
        → Step b (link_order_id key oid b)
    report : (b : OrderBook F) (oid : OrderId) (st : OrderStatus) → Step b (apply_status oid st b).0
    request_cancel : (b : OrderBook F) (key : OurKey) → Step b (mark_pending_cancel key b)
    reset : (b : OrderBook F) → Step b (clear b)

  pub data Reach : OrderBook F → Type 0 where
    start : Reach new
    next : {b c : OrderBook F} → Reach b → Step b c → Reach c

  Step-IsConsistent : {b c : OrderBook F} → Step b c → IsConsistent b → IsConsistent c
  Step-IsConsistent (place b key price qty ns now) v =
      upsert_pending-IsConsistent key price qty ns now b v
  Step-IsConsistent (acknowledge b key oid n fresh) v =
      link_order_id-IsConsistent key oid b n fresh v
  Step-IsConsistent (report b oid st) v = apply_status-IsConsistent oid st b v
  Step-IsConsistent (request_cancel b key) v = mark_pending_cancel-IsConsistent key b v
  Step-IsConsistent (reset b) v = clear-IsConsistent b

  -- In every book that such steps reach from the empty one, an order id leads to a key exactly when
  -- the record at that key carries it, each record stands under its own key, and none is terminal.
  pub Reach-IsConsistent : {b : OrderBook F} → Reach b → IsConsistent b
  Reach-IsConsistent start = new-IsConsistent
  Reach-IsConsistent (next r st) = Step-IsConsistent st (Reach-IsConsistent r)
