-- ===== src/Trader/Tracking.antt =====
-- rust/corsair_trader/src/main.rs: every handler keeps the ids of the resting orders in step with the
-- map from ids to keys.
use corsair.Base.{
  ℕ, ◌≡◌, refl, sym, ap, ◌∙◌, inl, inr, Bool, true, false, Option, none, some, List, [], ◌∷◌, arith,
  Bool-cases, Option-cases, All, All-map,
}
use mathlib.Core.Option.{some-injective}
use corsair.Base.Integers.{ℤ, ℤ_eq}
use corsair.Base.Maps.{HashMap, get, remove-IsMap, All-entries}
use corsair.Base.Links.{IsLinks, IsFreeFor, remove-IsFreeFor, remove-IsLinks}
use corsair.Float.{Float}
use corsair.Api.{Side}
use corsair.Codec.Fields.{Text}
use corsair.Trader.Pricing.{Analysis}
use corsair.Trader.State.{
  TraderState, DecisionCounters, TickMsg, OurOrder, OrderKey, order_key_eq, order_key,
}
use corsair.Trader.Decision.{Decision, Quote, skip, place, decide_on_tick, unwrap_or, quantize}
use corsair.Trader.Orders.{IsOrder, IsReplacing, id_to_cancel}
use corsair.Trader.Safe.{IsSafe, decide_on_tick-IsSafe}
use corsair.Trader.Events.{
  on_order_ack, on_hello, is_terminal_status, on_tick, handle, process_event, Event, tick,
  underlying_tick, vol_surface, risk_state, place_ack, order_ack, kill, resume, weekend_pause,
  hello, ignored, store_option, stamp, timed,
}
use corsair.Trader.Staleness.{ToCancel, cancel_for, to_cancel, cancel_all, staleness_check}
use corsair.Trader.Linked.{
  IsLinked, IsFresh, Owns, id_of, on_place_ack-IsLinked, forget-IsLinked, send-IsLinked,
}

module _ {F : Type 0} ⦃f : Float F⦄ (x : Analysis F) (tte : Text → Option F) where
  cancelled_id :
      (now : ℕ) (ex : OurOrder F) (i : ℤ) → some i ≡ id_to_cancel now ex → ex.order_id ≡ some i
  cancelled_id now ex i h = ground arith

  -- The order that a decision cancels rests under the decision's key.
  replaced :
      (side other : Side) (tick_size price p : F) (now : ℕ) (resting : Option (OurOrder F)) (i : ℤ)
      → IsReplacing other tick_size price now resting (place side p (some i))
      → (side ≡ other) × (ex : OurOrder F) × (resting ≡ some ex) × (ex.order_id ≡ some i)
  unfolding IsReplacing
  replaced side other tick_size price p now none i h = absurd (cc h.2)
  replaced side other tick_size price p now (some ex) i h =
      (h.0, ex, refl, cancelled_id now ex i h.3)

  replaced-Owns :
      (s : TraderState F) (t : TickMsg F) (now : ℕ) (q : Quote F) (side other : Side) (p : F)
      (i : ℤ)
      → IsLinked s
      → IsOrder s q now other (get (order_key x t other) s.our_orders) (place side p (some i))
      → IsFreeFor (order_key x t side) i s.orderid_to_key
  unfolding IsLinked IsLinks IsFreeFor
  replaced-Owns s t now q side other p i (d, h) order key found =
      let (same, ex, resting, id) =
        replaced side other s.tick_size (quantize s.tick_size order.target) p now
          (get (order_key x t other) s.our_orders) i order.replacing in
      let at : get i s.orderid_to_key ≡ some (order_key x t other) =
        h (order_key x t other) ex i resting id in
      let back : key ≡ order_key x t other =
        some-injective key (order_key x t other) (sym found ∙ at) in
      back ∙ ap (order_key x t) (sym same)

  safe-Owns :
      (s : TraderState F) (t : TickMsg F) (now : ℕ) (d : Decision F)
      → IsLinked s
      → IsSafe x tte s t now d
      → Owns x t s d
  unfolding IsSafe Owns
  safe-Owns s t now skip h safe = tt
  safe-Owns s t now (place side p none) h safe = tt
  safe-Owns s t now (place side p (some i)) h (q, quotable, other, order) =
      replaced-Owns s t now q side other p i h order

  decide_on_tick-Owns :
      (s : TraderState F) (t : TickMsg F) (now : ℕ) (c : DecisionCounters)
      → IsLinked s
      → All (Owns x t s) (decide_on_tick x tte s c t now).1
  decide_on_tick-Owns s t now c h =
      All-map _ _ (decide_on_tick x tte s c t now).1 (decide_on_tick-IsSafe x tte s c t now)
        (λ d safe. safe-Owns s t now d h safe)

  on_tick-IsLinked :
      (places : Bool) (now wall : ℕ) (t : TickMsg F) (s : TraderState F) (c : DecisionCounters)
      → IsLinked s
      → IsLinked (on_tick x tte places now wall t s c).0
  unfolding on_tick IsLinked
  on_tick-IsLinked false now wall t s c h = h
  on_tick-IsLinked true now wall t s c h =
      send-IsLinked x now wall t (decide_on_tick x tte (store_option x t s) c t now).1
        (store_option x t s) (decide_on_tick-Owns (store_option x t s) t now c h) h

  -- The ids that an event brings are new.
  unfoldable pub IsFreshEvent : Event F → TraderState F → Type 0
  IsFreshEvent (place_ack p) s = IsFresh x p s
  IsFreshEvent event s = Unit

  handle-IsLinked :
      (places : Bool) (now wall : ℕ) (event : Event F) (s : TraderState F) (c : DecisionCounters)
      → IsFreshEvent event s
      → IsLinked s
      → IsLinked (handle x tte places now wall event s c).0
  unfolding handle IsFreshEvent IsLinked on_order_ack on_hello
  handle-IsLinked places now wall (tick t) s c fresh h = on_tick-IsLinked places now wall t s c h
  handle-IsLinked places now wall (underlying_tick price) s c fresh h = h
  handle-IsLinked places now wall (vol_surface expiry side entry) s c fresh h = h
  handle-IsLinked places now wall (risk_state delta margin) s c fresh h = h
  handle-IsLinked places now wall (place_ack p) s c fresh h =
      on_place_ack-IsLinked x now wall p s fresh h
  handle-IsLinked places now wall (order_ack none status) s c fresh h = h
  handle-IsLinked places now wall (order_ack (some i) status) s c fresh h =
      elim (Bool-cases (is_terminal_status (unwrap_or status ""))) [
        | inl ended ↦ rw (ended, on_order_ack) (forget-IsLinked i s h)
        | inr live ↦ rw (live, on_order_ack) h
      ]
  handle-IsLinked places now wall (kill source reason) s c fresh h = h
  handle-IsLinked places now wall (resume source) s c fresh h = h
  handle-IsLinked places now wall (weekend_pause paused) s c fresh h = h
  handle-IsLinked places now wall (hello cfg) s c fresh h = h
  handle-IsLinked places now wall ignored s c fresh h = h

  stamp-IsFreshEvent :
      (wall : ℕ) (ts_ns : Option ℕ) (event : Event F) (s : TraderState F)
      → IsFreshEvent event s
      → IsFreshEvent (stamp ts_ns event) (timed wall ts_ns s)
  unfolding IsFreshEvent IsFresh
  stamp-IsFreshEvent wall ts_ns (place_ack p) s fresh = fresh
  stamp-IsFreshEvent wall ts_ns (tick t) s fresh = tt
  stamp-IsFreshEvent wall ts_ns event s fresh = fresh

  -- Every message keeps the tracked orders consistent: one order for each key, and the id of an order
  -- leads back to its key, where an acknowledgement brings an id that no other key has.
  pub process_event-IsLinked :
      (places : Bool) (recv_wall now wall : ℕ) (ts_ns : Option ℕ) (event : Event F)
      (s : TraderState F) (c : DecisionCounters)
      → IsFreshEvent event s
      → IsLinked s
      → IsLinked (process_event x tte places recv_wall now wall ts_ns event s c).0
  unfolding process_event IsLinked
  process_event-IsLinked places recv_wall now wall ts_ns event s c fresh h =
      handle-IsLinked places now wall (stamp ts_ns event) (timed recv_wall ts_ns s) c
        (stamp-IsFreshEvent recv_wall ts_ns event s fresh) h

module _ {F : Type 0} ⦃f : Float F⦄ (x : Analysis F) (tte : OrderKey → Option F) where
  cancel_all-IsLinked :
      (wall : ToCancel → ℕ) (cancels : List ToCancel) (s : TraderState F) (c : DecisionCounters)
      → All (λ tc. IsFreeFor tc.key tc.order_id s.orderid_to_key) cancels
      → IsLinked s
      → IsLinked (cancel_all wall cancels s c).0
  unfolding cancel_all IsLinked
  cancel_all-IsLinked wall [] s c own h = h
  cancel_all-IsLinked wall (tc ∷ rest) s c (own, owns) (d, h) =
      cancel_all-IsLinked wall rest _ _
        (All-map _ _ rest owns
          (λ e o. remove-IsFreeFor e.key e.order_id tc.order_id s.orderid_to_key o))
        (
          remove-IsMap tc.key s.our_orders d,
          remove-IsLinks id_of s.our_orders s.orderid_to_key tc.key tc.order_id h own,
        )

  cancel_for-key :
      (s : TraderState F) (key : OrderKey) (o : OurOrder F) (tc : ToCancel)
      → cancel_for x tte s key o ≡ some tc
      → (o.order_id ≡ some tc.order_id) × (tc.key ≡ key)
  unfolding cancel_for
  cancel_for-key s key o tc h = ground arith

  to_cancel-IsFreeFor :
      (s : TraderState F) (orders : HashMap OrderKey (OurOrder F))
      → All (λ e. (i : ℤ) → e.1.order_id ≡ some i → get i s.orderid_to_key ≡ some e.0) orders
      → All (λ tc. IsFreeFor tc.key tc.order_id s.orderid_to_key) (to_cancel x tte s orders)
  unfolding to_cancel IsFreeFor
  to_cancel-IsFreeFor s [] h = tt
  to_cancel-IsFreeFor s ((key, o) ∷ rest) (h, hs) = elim (Option-cases (cancel_for x tte s key o)) [
    | inl kept ↦ rw (kept, to_cancel) (to_cancel-IsFreeFor s rest hs)
    | inr (tc, cancelled) ↦
        let (id, same) = cancel_for-key s key o tc cancelled in
        rw (cancelled, to_cancel)
          (
            λ k found. some-injective k key (sym found ∙ h tc.order_id id) ∙ sym same,
            to_cancel-IsFreeFor s rest hs,
          )
  ]

  -- The check for stale orders, which cancels several at once, keeps the tracked orders consistent: one
  -- order for each key, and the id of an order leads back to its key.
  pub staleness_check-IsLinked :
      (wall : ToCancel → ℕ) (s : TraderState F) (c : DecisionCounters)
      → IsLinked s
      → IsLinked (staleness_check x tte wall s c).0
  unfolding staleness_check IsLinked IsLinks
  staleness_check-IsLinked wall s c (d, h) =
      cancel_all-IsLinked wall (to_cancel x tte s s.our_orders) s c
        (to_cancel-IsFreeFor s s.our_orders (
          All-entries (λ k o. (i : ℤ) → o.order_id ≡ some i → get i s.orderid_to_key ≡ some k)
            s.our_orders d (λ k o found i id. h k o i found id)))
        (d, h)
