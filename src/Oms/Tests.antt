-- ===== src/Oms/Tests.antt =====
-- Concrete runs of the order book, and the theorems about it at concrete books.
use corsair.Base.{ℕ, ◌≡◌, ◌≢◌, refl, true, false, none, some, arith, nat_eq}
use corsair.Base.Integers.{pos, ◌*ℤ◌}
use corsair.Base.Maps.{get, insert, remove}
use corsair.Float.{Fixed, fixed_float}
use corsair.Api.{call, buy, sell, filled, submitted, cancelled, OrderStatus}
use corsair.Oms.{
  OurKey, key_eq, OrderState, OrderRecord, OrderBook, our_key, new, get_record, get_by_order_id,
  upsert_pending, link_order_id, apply_status, mark_pending_cancel, is_live,
}
use corsair.Oms.Consistent.{IsConsistent, Step, Reach, Reach-IsConsistent}
use corsair.Oms.Status.{IsAfter, apply_status_effect, upsert_pending_effect, order_life}
use corsair.Oms.Stale.{relink_keeps_stale, pending_cancel_revives}

abbrev bid_key : OurKey
bid_key = record { strike_key = pos 60_500; expiry = 20_630; right = call; side = buy }

abbrev offer_key : OurKey
offer_key = record { strike_key = pos 60_500; expiry = 20_630; right = call; side = sell }

-- A strike of 6.05
our_key_of_strike : our_key {F = Fixed} (some (pos 60_500)) 20_630 call buy ≡ bid_key
unfolding our_key ◌*ℤ◌
our_key_of_strike = refl

abbrev placed : OrderBook Fixed
placed = upsert_pending bid_key (some (pos 250)) 1 0 7 new

abbrev acknowledged : OrderBook Fixed
acknowledged = link_order_id bid_key 42 placed

lookups :
    (get_record bid_key placed ≢ none)
    × (get_record offer_key acknowledged ≡ none)
    × (get_by_order_id 42 (apply_status 42 filled acknowledged).0 ≡ none)
    × ((apply_status 43 filled acknowledged).1 ≡ false)
unfolding new upsert_pending link_order_id apply_status get_record get_by_order_id get insert remove
lookups = (λ e. cc, refl, refl, refl)

placed-Reach : Reach placed
placed-Reach = Reach.next Reach.start (Step.place new bid_key (some (pos 250)) 1 0 7)

acknowledged-Reach : Reach acknowledged
unfolding new upsert_pending get insert
acknowledged-Reach = Reach.next placed-Reach (Step.acknowledge placed bid_key 42 refl refl)

Reach-IsConsistent_example : IsConsistent acknowledged
Reach-IsConsistent_example = Reach-IsConsistent acknowledged-Reach

abbrev resting : OrderRecord Fixed
resting = record {
  key = bid_key;
  order_id = some 42;
  price = some (pos 250);
  qty = 1;
  state = OrderState.pending;
  placed_at = 7;
  last_send_ns = 0;
}

abbrev BookAfter : OrderStatus → Type 0
BookAfter st =
    let after = apply_status 42 st acknowledged in
    (get_by_order_id 42 acknowledged ≡ none → after.0 ≡ acknowledged)
    × ((r : OrderRecord Fixed)
        → get_by_order_id 42 acknowledged ≡ some r
        → (after.1 ≡ true)
          × IsAfter st r (get_record r.key after.0)
          × IsAfter st r (get_by_order_id 42 after.0)
          × ((k : OurKey) → r.key ≢ k → get_record k after.0 ≡ get_record k acknowledged))

apply_status_effect_example : BookAfter submitted
apply_status_effect_example =
    apply_status_effect 42 submitted acknowledged (Reach-IsConsistent acknowledged-Reach)

upsert_pending_effect_example :
    let b' = upsert_pending bid_key (some (pos 300)) 2 1 9 acknowledged in
    (get_record bid_key b'
      ≡ some (record {
        key = bid_key;
        order_id = none;
        price = some (pos 300);
        qty = 2;
        state = OrderState.pending;
        placed_at = 9;
        last_send_ns = 1;
      }))
    × ((k : OurKey) → bid_key ≢ k → get_record k b' ≡ get_record k acknowledged)
    × ((o : ℕ) (r : OrderRecord Fixed) → get_by_order_id o b' ≡ some r → r.key ≢ bid_key)
upsert_pending_effect_example =
    upsert_pending_effect bid_key (some (pos 300)) 2 1 9 acknowledged
      (Reach-IsConsistent acknowledged-Reach)

order_life_example :
    let linked =
      link_order_id offer_key 43 (upsert_pending offer_key (some (pos 300)) 2 1 9 acknowledged) in
    let b' = (apply_status 43 cancelled linked).0 in
    ((k : OurKey) → get_record k b' ≡ get_record k acknowledged) × (get_by_order_id 43 b' ≡ none)
unfolding new upsert_pending link_order_id get_record get insert
order_life_example =
    order_life offer_key (some (pos 300)) 2 1 9 43 cancelled acknowledged
      (Reach-IsConsistent acknowledged-Reach) refl refl refl

relink_keeps_stale_example :
    let linked = link_order_id bid_key 44 acknowledged in
    let after = (apply_status 42 filled linked).0 in
    (get_by_order_id 42 linked ≡ some (record resting { order_id = some 44 }))
    × (get_record bid_key after ≡ none)
    × (get 44 after.by_order_id ≡ some bid_key)
unfolding new upsert_pending link_order_id get_record get insert
relink_keeps_stale_example =
    relink_keeps_stale bid_key 42 44 resting acknowledged filled
      (Reach-IsConsistent acknowledged-Reach) refl refl (omega arith) refl

pending_cancel_revives_example :
    let marked = mark_pending_cancel bid_key acknowledged in
    let after = (apply_status 42 OrderStatus.pending_cancel marked).0 in
    (r' : OrderRecord Fixed) × (get_record bid_key after ≡ some r')
    × (r'.state ≡ OrderState.pending)
    × (is_live r' ≡ true)
unfolding new upsert_pending link_order_id get_record get insert
pending_cancel_revives_example =
    pending_cancel_revives bid_key 42 resting acknowledged (Reach-IsConsistent acknowledged-Reach)
      refl refl
