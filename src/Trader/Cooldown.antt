-- ===== src/Trader/Cooldown.antt =====
-- rust/corsair_trader: two ticks of one option in succession, `on_tick` of main.rs with
-- `decide_on_tick` of decision.rs.
use corsair.Base.{
  ℕ, ◌+◌, ◌<◌, ◌≤◌, ◌^◌, ◌≡◌, refl, sym, ◌∙◌, subst, inl, inr, true, false, Option, none, some,
  List, [], ◌∷◌, arith, All, All-map, Bool-cases, ltb,
}
use corsair.Base.Integers.{sub_u64}
use corsair.Base.Maps.{get, insert, get-insert, get-insert_self}
use corsair.Float.{Float}
use corsair.Api.{Side}
use corsair.Codec.Fields.{Text}
use corsair.Trader.Pricing.{Analysis}
use corsair.Trader.State.{
  TraderState, DecisionCounters, TickMsg, OurOrder, OrderKey, order_key_eq, order_key,
}
use corsair.Trader.Decision.{
  Decision, Quote, skip, place, decide_on_tick, cooldown_ns, cooling_down,
}
use corsair.Trader.Orders.{IsOrder, IsReplacing}
use corsair.Trader.Safe.{IsSafe, decide_on_tick-IsSafe}
use corsair.Trader.Events.{track, track_all, send, on_tick, store_option}

module _ {F : Type 0} where
  -- The order under a key was placed at a time.
  unfoldable IsPlacedAt : ℕ → OrderKey → TraderState F → Type 0
  IsPlacedAt now k s =
      (o : OurOrder F) × (get k s.our_orders ≡ some o) × (o.place_monotonic_ns ≡ now)

  -- The side of an order; a `Skip` has none.
  unfoldable pub IsOnSide : Side → Decision F → Type 0
  IsOnSide side skip = true ≡ false
  IsOnSide side (place s price old) = s ≡ side

  -- Only the orders matter.
  moved :
      (next s : TraderState F) (now : ℕ) (k : OrderKey)
      → next.our_orders ≡ s.our_orders
      → IsPlacedAt now k s
      → IsPlacedAt now k next
  unfolding IsPlacedAt
  moved next s now k same (o, found, at) = (o, rw same found, at)

  track-IsPlacedAt :
      (x : Analysis F) (now wall : ℕ) (t : TickMsg F) (d : Decision F) (side : Side)
      (s : TraderState F)
      → IsOnSide side d
      → IsPlacedAt now (order_key x t side) (track x now wall t d s)
  unfolding track IsPlacedAt IsOnSide
  track-IsPlacedAt x now wall t skip side s h = absurd (cc h)
  track-IsPlacedAt x now wall t (place sd price old) side s h =
      let order : OurOrder F = record {
        price = price;
        send_ns = wall;
        place_monotonic_ns = now;
        order_id = none;
      } in
      (
        order,
        subst
            (λ b. get (order_key x t b) (insert (order_key x t sd) order s.our_orders) ≡ some order)
            h (get-insert_self (order_key x t sd) order s.our_orders),
        refl,
      )

  track-keeps :
      (x : Analysis F) (now wall : ℕ) (t : TickMsg F) (d : Decision F) (k : OrderKey)
      (s : TraderState F)
      → IsPlacedAt now k s
      → IsPlacedAt now k (track x now wall t d s)
  unfolding track IsPlacedAt
  track-keeps x now wall t skip k s h = h
  track-keeps x now wall t (place sd price old) k s (o, found, at) =
      let order : OurOrder F = record {
        price = price;
        send_ns = wall;
        place_monotonic_ns = now;
        order_id = none;
      } in
      let after = get-insert (order_key x t sd) k order s.our_orders in
      elim (Bool-cases (order_key_eq.eq (order_key x t sd) k)) [
        | inl same ↦ (order, after ∙ rw same refl, refl)
        | inr other ↦ (o, after ∙ rw other found, at)
      ]

  track_all-keeps :
      (x : Analysis F) (now wall : ℕ) (t : TickMsg F) (ds : List (Decision F)) (k : OrderKey)
      (s : TraderState F)
      → IsPlacedAt now k s
      → IsPlacedAt now k (track_all x now wall t ds s)
  unfolding track_all
  track_all-keeps x now wall t [] k s h = h
  track_all-keeps x now wall t (d ∷ ds) k s h =
      track_all-keeps x now wall t ds k (track x now wall t d s) (track-keeps x now wall t d k s h)

  track_all-IsPlacedAt :
      (x : Analysis F) (now wall : ℕ) (t : TickMsg F) (ds : List (Decision F)) (s : TraderState F)
      → All
          (λ d.
            (side : Side)
            → IsOnSide side d
            → IsPlacedAt now (order_key x t side) (track_all x now wall t ds s))
          ds
  unfolding track_all
  track_all-IsPlacedAt x now wall t [] s = tt
  track_all-IsPlacedAt x now wall t (d ∷ ds) s = (
    λ side h.
        track_all-keeps x now wall t ds (order_key x t side) _
          (track-IsPlacedAt x now wall t d side s h),
    track_all-IsPlacedAt x now wall t ds (track x now wall t d s),
  )

  send-IsPlacedAt :
      (x : Analysis F) (now wall : ℕ) (t : TickMsg F) (ds : List (Decision F)) (s : TraderState F)
      → All
          (λ d.
            (side : Side)
            → IsOnSide side d
            → IsPlacedAt now (order_key x t side) (send x now wall t ds s).0)
          ds
  unfolding send
  send-IsPlacedAt x now wall t [] s = tt
  send-IsPlacedAt x now wall t (d ∷ ds) s = track_all-IsPlacedAt x now wall t (d ∷ ds) _

module _ {F : Type 0} ⦃f : Float F⦄ (x : Analysis F) (tte : Text → Option F) where
  -- An order can follow one under its key only after the cooldown.
  IsOrder-waits :
      (s : TraderState F) (q : Quote F) (now later : ℕ) (side : Side) (o : OurOrder F)
      (resting : Option (OurOrder F)) (d : Decision F)
      → resting ≡ some o
      → o.place_monotonic_ns ≡ now
      → now ≤ later
      → later < now + cooldown_ns
      → later < 2 ^ 64
      → ¬ IsOrder s q later side resting d
  unfolding IsReplacing cooling_down
  IsOrder-waits s q now later side o none d h at le lt bound order = absurd (cc h)
  IsOrder-waits s q now later side o (some ex) skip h at le lt bound order =
      absurd (cc order.replacing)
  IsOrder-waits s q now later side o (some ex) (place sd price old) h at le lt bound order =
      let placed : ex.place_monotonic_ns ≡ now = ground (arith, h, at) in
      let waited : ltb (sub_u64 later ex.place_monotonic_ns) cooldown_ns ≡ false =
        order.replacing.2 in
      absurd (ground (arith, waited, placed, le, lt, bound))

  order-IsOnSide :
      (s : TraderState F) (q : Quote F) (now : ℕ) (side other : Side)
      (resting : Option (OurOrder F)) (d : Decision F)
      → IsOrder s q now side resting d
      → IsOnSide other d
      → side ≡ other
  unfolding IsReplacing IsOnSide
  order-IsOnSide s q now side other resting skip order on = absurd (cc on)
  order-IsOnSide s q now side other none (place sd price old) order on = sym order.replacing.0 ∙ on
  order-IsOnSide s q now side other (some ex) (place sd price old) order on =
      sym order.replacing.0 ∙ on

  IsPlacedAt-none :
      (s : TraderState F) (t : TickMsg F) (now later : ℕ) (side : Side) (ds : List (Decision F))
      → IsPlacedAt now (order_key x t side) s
      → now ≤ later
      → later < now + cooldown_ns
      → later < 2 ^ 64
      → All (IsSafe x tte s t later) ds
      → All (λ d. ¬ IsOnSide side d) ds
  unfolding IsSafe IsPlacedAt
  IsPlacedAt-none s t now later side [] h le lt bound safe = tt
  IsPlacedAt-none s t now later side (d ∷ ds) (o, found, at) le lt bound
        ((q, quotable, other, order), rest) =
      (
        λ on.
            let same : other ≡ side =
              order-IsOnSide s q later other side (get (order_key x t other) s.our_orders) d order
                on in
            IsOrder-waits s q now later other o (get (order_key x t other) s.our_orders) d
              (subst (λ b. get (order_key x t b) s.our_orders ≡ some o) (sym same) found) at le lt
              bound order,
        IsPlacedAt-none s t now later side ds (o, found, at) le lt bound rest,
      )

  -- After a tick that placed an order on a side of an option, a tick of the same option within the
  -- cooldown, by a clock that does not go back, places none on that side, whatever else has changed in
  -- the state but the orders.
  pub on_tick-cooldown :
      (s next : TraderState F) (c counted : DecisionCounters) (t u : TickMsg F) (now later wall : ℕ)
      (side : Side)
      → next.our_orders ≡ (on_tick x tte true now wall t s c).0.our_orders
      → order_key x u side ≡ order_key x t side
      → now ≤ later
      → later < now + cooldown_ns
      → later < 2 ^ 64
      → All
          (λ d.
            IsOnSide side d
            → All (λ e. ¬ IsOnSide side e) (decide_on_tick x tte next counted u later).1)
          (decide_on_tick x tte (store_option x t s) c t now).1
  unfolding on_tick
  on_tick-cooldown s next c counted t u now later wall side kept same le lt bound =
      let stored = store_option x t s in
      let ds = (decide_on_tick x tte stored c t now).1 in
      let placed = send-IsPlacedAt x now wall t ds stored in
      All-map _ _ ds placed (λ d after on.
        IsPlacedAt-none next u now later side _
          (subst (λ k. IsPlacedAt now k next) (sym same) (moved next _ _ _ kept (after side on))) le
          lt bound (decide_on_tick-IsSafe x tte next counted u later))
