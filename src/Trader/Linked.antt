-- ===== src/Trader/Linked.antt =====
-- rust/corsair_trader/src/main.rs: the ids of the resting orders and the map from ids to keys, under
-- every operation that changes them.
use corsair.Base.{
  ℕ, ◌≡◌, refl, inl, inr, Option, none, some, List, [], ◌∷◌, arith, Option-cases, All, All-map,
}
use corsair.Base.Integers.{ℤ, ℤ_eq}
use corsair.Base.Maps.{get, IsMap, insert-IsMap, remove-IsMap}
use corsair.Base.Links.{
  IsLinks, IsFreeFor, remove-IsFreeFor, remove-IsLinks, insert-IsLinks, replace-IsLinks,
  link-IsLinks,
}
use corsair.Trader.Pricing.{Analysis}
use corsair.Trader.State.{TraderState, TickMsg, OurOrder, OrderKey, order_key_eq, order_key}
use corsair.Trader.Decision.{Decision, skip, place}
use corsair.Trader.Events.{PlaceAckMsg, ack_key, on_place_ack, forget, track, track_all, send}

module _ {F : Type 0} where
  abbrev pub id_of : OurOrder F → Option ℤ
  id_of o = o.order_id

  -- Each key has one order, and the id of an order leads back to its key.
  unfoldable pub IsLinked : TraderState F → Type 0
  IsLinked s = IsMap s.our_orders × IsLinks id_of s.our_orders s.orderid_to_key

  -- The broker gives an order's id to no order of another key.
  unfoldable pub IsFresh : Analysis F → PlaceAckMsg F → TraderState F → Type 0
  IsFresh x p s =
      (key : OrderKey) → ack_key x p ≡ some key → IsFreeFor key p.order_id s.orderid_to_key

  -- The id that a decision cancels belongs to the key of its order.
  unfoldable pub Owns : Analysis F → TickMsg F → TraderState F → Decision F → Type 0
  Owns x t s skip = Unit
  Owns x t s (place side price none) = Unit
  Owns x t s (place side price (some i)) = IsFreeFor (order_key x t side) i s.orderid_to_key

  pub on_place_ack-IsLinked :
      (x : Analysis F) (now wall : ℕ) (p : PlaceAckMsg F) (s : TraderState F)
      → IsFresh x p s
      → IsLinked s
      → IsLinked (on_place_ack x now wall p s)
  unfolding on_place_ack IsLinked IsFresh
  on_place_ack-IsLinked x now wall p s fresh (d, h) = elim (Option-cases (ack_key x p)) [
    | inl unknown ↦ rw (unknown, on_place_ack) (d, h)
    | inr (key, known) ↦ elim (Option-cases (get key s.our_orders)) [
      | inl new ↦
          rw (known, new, on_place_ack)
            (
              insert-IsMap key _ s.our_orders d,
              link-IsLinks id_of s.our_orders s.orderid_to_key key p.order_id _ h (fresh key known)
                  refl,
            )
      | inr (o, old) ↦
          rw (known, old, on_place_ack)
            (
              insert-IsMap key _ s.our_orders d,
              link-IsLinks id_of s.our_orders s.orderid_to_key key p.order_id _ h (fresh key known)
                  refl,
            )
    ]
  ]

  pub forget-IsLinked : (i : ℤ) (s : TraderState F) → IsLinked s → IsLinked (forget i s)
  unfolding forget IsLinked IsFreeFor
  forget-IsLinked i s (d, h) = elim (Option-cases (get i s.orderid_to_key)) [
    | inl unknown ↦ rw (unknown, forget) (d, h)
    | inr (key, known) ↦
        rw (known, forget)
          (
            remove-IsMap key s.our_orders d,
            remove-IsLinks id_of s.our_orders s.orderid_to_key key i h
                (λ k found. ground (arith, known)),
          )
  ]

  track-IsLinked :
      (x : Analysis F) (now wall : ℕ) (t : TickMsg F) (d : Decision F) (s : TraderState F)
      → Owns x t s d
      → IsLinked s
      → IsLinked (track x now wall t d s)
  unfolding track IsLinked Owns
  track-IsLinked x now wall t skip s own h = h
  track-IsLinked x now wall t (place side price none) s own (d, h) = (
    insert-IsMap (order_key x t side) _ s.our_orders d,
    insert-IsLinks id_of s.our_orders s.orderid_to_key (order_key x t side) _ h refl,
  )
  track-IsLinked x now wall t (place side price (some i)) s own (d, h) = (
    insert-IsMap (order_key x t side) _ s.our_orders d,
    replace-IsLinks id_of s.our_orders s.orderid_to_key (order_key x t side) i _ h own refl,
  )

  track-Owns :
      (x : Analysis F) (now wall : ℕ) (t : TickMsg F) (d e : Decision F) (s : TraderState F)
      → Owns x t s e
      → Owns x t (track x now wall t d s) e
  unfolding track Owns
  track-Owns x now wall t skip e s own = own
  track-Owns x now wall t (place side price none) skip s own = tt
  track-Owns x now wall t (place side price none) (place sd p none) s own = tt
  track-Owns x now wall t (place side price none) (place sd p (some j)) s own = own
  track-Owns x now wall t (place side price (some i)) skip s own = tt
  track-Owns x now wall t (place side price (some i)) (place sd p none) s own = tt
  track-Owns x now wall t (place side price (some i)) (place sd p (some j)) s own =
      remove-IsFreeFor (order_key x t sd) j i s.orderid_to_key own

  track_all-IsLinked :
      (x : Analysis F) (now wall : ℕ) (t : TickMsg F) (ds : List (Decision F)) (s : TraderState F)
      → All (Owns x t s) ds
      → IsLinked s
      → IsLinked (track_all x now wall t ds s)
  unfolding track_all
  track_all-IsLinked x now wall t [] s own h = h
  track_all-IsLinked x now wall t (d ∷ ds) s (own, owns) h =
      track_all-IsLinked x now wall t ds (track x now wall t d s)
        (All-map _ _ ds owns (λ e o. track-Owns x now wall t d e s o))
        (track-IsLinked x now wall t d s own h)

  pub send-IsLinked :
      (x : Analysis F) (now wall : ℕ) (t : TickMsg F) (ds : List (Decision F)) (s : TraderState F)
      → All (Owns x t s) ds
      → IsLinked s
      → IsLinked (send x now wall t ds s).0
  unfolding send IsLinked Owns
  send-IsLinked x now wall t [] s own h = h
  send-IsLinked x now wall t (d ∷ ds) s own h = track_all-IsLinked x now wall t (d ∷ ds) _ own h
