-- ===== src/Trader/Orders.antt =====
-- rust/corsair_trader/src/decision.rs: what the loop over the sides demands of an order, against the
-- quote and against the order that rests under the same key.
use corsair.Base.{
  ℕ, ◌≡◌, refl, ◌⊎◌, inl, inr, Bool, true, false, Option, none, some, List, [], ◌∷◌, arith,
  Bool-cases, All, if◌then◌else◌,
}
use corsair.Base.Integers.{ℤ}
use corsair.Base.Maps.{get}
use corsair.Float.{Float}
use corsair.Api.{Side, buy, sell}
use corsair.Trader.State.{TraderState, DecisionCounters, OurOrder, OrderKey, order_key_eq}
use corsair.Trader.Decision.{
  Decision, skip, place, Quote, zero, age_s, gtd_lifetime_s, cancel_threshold_s, naive_target, jump,
  would_cross, quantize, risk_blocked, in_band, needs_gtd_refresh, cooling_down,
  cancel_before_replace, place_or_keep, decide_side,
}

module _ {F : Type 0} ⦃f : Float F⦄ where
  open f use {lt, le, sub}

  -- A target with at least the configured edge to the theoretical price.
  unfoldable pub keeps_edge : Side → Quote F → F → Bool
  keeps_edge buy q target = le q.edge (sub q.theo target)
  keeps_edge sell q target = le q.edge (sub target q.theo)

  -- The id to cancel before `ex` is replaced: not when it expires within a second.
  abbrev pub id_to_cancel : ℕ → OurOrder F → Option ℤ
  id_to_cancel now ex =
      if lt cancel_threshold_s (sub gtd_lifetime_s (age_s now ex.place_monotonic_ns))
      then ex.order_id
      else none

  -- An order at a price where `resting` is what rests under its key.
  unfoldable pub IsReplacing : Side → F → F → ℕ → Option (OurOrder F) → Decision F → Type 0
  IsReplacing side tick_size price now resting skip = true ≡ false
  IsReplacing side tick_size price now none (place s p old) =
      (s ≡ side) × (p ≡ price) × (old ≡ none)
  IsReplacing side tick_size price now (some ex) (place s p old) =
      (s ≡ side)
      × (p ≡ price)
      × (cooling_down now ex ≡ false)
      × (old ≡ id_to_cancel now ex)
      × ((in_band tick_size price ex ≡ false) ⊎ (needs_gtd_refresh now ex ≡ true))

  pub record IsOrder (s : TraderState F) (q : Quote F) (now : ℕ) (side : Side)
      (resting : Option (OurOrder F)) (d : Decision F) : Type 0 where
    pub target : F
    pub naive_positive : le (naive_target side q) zero ≡ false
    pub edge : (target ≡ naive_target side q) ⊎ (keeps_edge side q target ≡ true)
    pub not_crossing : would_cross side q target ≡ false
    pub not_blocked : risk_blocked side q ≡ false
    pub replacing : IsReplacing side s.tick_size (quantize s.tick_size target) now resting d

  jump-edge :
      (side : Side) (tick_size : F) (q : Quote F) (t : F)
      → (jump side tick_size q t ≡ t) ⊎ (keeps_edge side q (jump side tick_size q t) ≡ true)
  unfolding jump keeps_edge
  jump-edge buy tick_size q t = ground arith
  jump-edge sell tick_size q t = ground arith

  place_or_keep-IsReplacing :
      (side : Side) (tick_size price : F) (now : ℕ) (resting : Option (OurOrder F))
      (c : DecisionCounters)
      → All
          (IsReplacing side tick_size price now resting)
          (place_or_keep side tick_size price now resting c).1
  unfolding place_or_keep IsReplacing cancel_before_replace
  place_or_keep-IsReplacing side tick_size price now none c = ((refl, refl, refl), tt)
  place_or_keep-IsReplacing side tick_size price now (some ex) c = ground arith

  IsReplacing-IsOrder :
      (s : TraderState F) (q : Quote F) (now : ℕ) (side : Side) (resting : Option (OurOrder F))
      → le (naive_target side q) zero ≡ false
      → would_cross side q (jump side s.tick_size q (naive_target side q)) ≡ false
      → risk_blocked side q ≡ false
      → (ds : List (Decision F))
      → All
          (IsReplacing side s.tick_size
            (quantize s.tick_size (jump side s.tick_size q (naive_target side q)))
            now
            resting)
          ds
      → All (IsOrder s q now side resting) ds
  IsReplacing-IsOrder s q now side resting positive crossing blocked [] h = tt
  IsReplacing-IsOrder s q now side resting positive crossing blocked (d ∷ ds) h = (
    record {
      target = jump side s.tick_size q (naive_target side q);
      naive_positive = positive;
      edge = jump-edge side s.tick_size q (naive_target side q);
      not_crossing = crossing;
      not_blocked = blocked;
      replacing = h.0;
    },
    IsReplacing-IsOrder s q now side resting positive crossing blocked ds h.1,
  )

  pub decide_side-IsOrder :
      (s : TraderState F) (q : Quote F) (key : OrderKey) (now : ℕ) (side : Side)
      (c : DecisionCounters)
      → All (IsOrder s q now side (get key s.our_orders)) (decide_side s q key now side c).1
  unfolding decide_side
  decide_side-IsOrder s q key now side c =
      let target = jump side s.tick_size q (naive_target side q) in
      elim (Bool-cases (le (naive_target side q) zero)) [
        | inl low ↦ rw low tt
        | inr positive ↦ elim (Bool-cases (would_cross side q target)) [
          | inl crossing ↦ rw (positive, crossing) tt
          | inr apart ↦ elim (Bool-cases (risk_blocked side q)) [
            | inl blocked ↦ rw (positive, apart, blocked) tt
            | inr free ↦
                rw (positive, apart, free)
                  (IsReplacing-IsOrder s q now side (get key s.our_orders) positive apart free _ (
                    place_or_keep-IsReplacing side s.tick_size (quantize s.tick_size target) now
                      (get key s.our_orders) c))
          ]
        ]
      ]
