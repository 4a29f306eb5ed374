-- ===== src/Market/Routed.antt =====
-- rust/corsair_market_data/src/state.rs: where the ticks of an instrument go, and the prices that are
-- kept, under every sequence of registrations and ticks.
use corsair.Base.{
  ℕ, ◌≡◌, refl, sym, ◌∙◌, subst, ◌⊎◌, inl, inr, true, none, some, List, [], ◌∷◌, String, string_eq,
  nat_eq, Bool-cases, Option-cases,
}
use corsair.Base.Maps.{HashMap, get, insert, get-insert, get-insert_self, Holds, insert-Holds}
use mathlib.Core.Option.{some-injective}
use corsair.Float.{Float}
use corsair.Api.{Right, NaiveDate}
use corsair.Position.{PositionKey, position_key_eq, make_key}
use corsair.Market.{
  MarketDataState, OptionTick, OptionMeta, zero, new, new_tick, modify, underlying_tick,
  option_meta, registered, if_positive,
}
use corsair.Market

-- The calls that change the state.
pub data Call (F : Type 0) : Type 0 where
  register_option : String → F → NaiveDate → Right → ℕ → Call F
  register_underlying : String → ℕ → Call F
  set_underlying : String → F → Call F
  update_bid : ℕ → F → ℕ → ℕ → Call F
  update_ask : ℕ → F → ℕ → ℕ → Call F
  update_last : ℕ → F → ℕ → Call F

module _ {F : Type 0} ⦃f : Float F⦄ where
  open f use {lt}

  unfoldable pub apply : Call F → MarketDataState F → MarketDataState F
  apply (register_option p k e r i) s = Market.register_option p k e r i s
  apply (register_underlying p i) s = Market.register_underlying p i s
  apply (set_underlying p v) s = Market.set_underlying p v s
  apply (update_bid i v n t) s = Market.update_bid i v n t s
  apply (update_ask i v n t) s = Market.update_ask i v n t s
  apply (update_last i v t) s = Market.update_last i v t s

  unfoldable pub run : List (Call F) → MarketDataState F → MarketDataState F
  unfolding apply
  run [] s = s
  run (c ∷ cs) s = run cs (apply c s)

  -- No quote yet, or a positive one.
  abbrev pub IsPrice : F → Type 0
  IsPrice p = (p ≡ zero) ⊎ (lt zero p ≡ true)

  -- An option under its own key, with its prices.
  unfoldable pub IsQuoted : PositionKey → OptionTick F → Type 0
  IsQuoted k t =
      (make_key k.product t.strike t.expiry t.right ≡ k)
      × IsPrice t.bid
      × IsPrice t.ask
      × IsPrice t.last

  -- Each registered id leads to an option.
  unfoldable pub IsRouting : HashMap ℕ PositionKey → HashMap PositionKey (OptionTick F) → Type 0
  IsRouting routes options =
      (i : ℕ) (k : PositionKey)
      → get i routes ≡ some k
      → (t : OptionTick F) × (get k options ≡ some t)

  unfoldable pub IsRouted : MarketDataState F → Type 0
  IsRouted s =
      IsRouting s.by_instrument s.options
      × Holds IsQuoted s.options
      × Holds (λ product price. lt zero price ≡ true) s.underlying

  if_positive-IsPrice : (price old : F) → IsPrice old → IsPrice (if_positive price old)
  if_positive-IsPrice price old h = elim (Bool-cases (lt zero price)) [
    | inl up ↦ rw up (inr up)
    | inr down ↦ rw down h
  ]

  insert-IsRouting :
      (routes : HashMap ℕ PositionKey) (options : HashMap PositionKey (OptionTick F))
      (k : PositionKey) (t : OptionTick F)
      → IsRouting routes options
      → IsRouting routes (insert k t options)
  unfolding IsRouting
  insert-IsRouting routes options k t h i j at =
      let (u, found) = h i j at in
      elim (Bool-cases (position_key_eq.eq k j)) [
        | inl same ↦ (t, get-insert k j t options ∙ rw same refl)
        | inr other ↦ (u, get-insert k j t options ∙ rw other found)
      ]

  modify-IsRouted :
      (k : PositionKey) (change : OptionTick F → OptionTick F) (s : MarketDataState F)
      → ((t : OptionTick F) → IsQuoted k t → IsQuoted k (change t))
      → IsRouted s
      → IsRouted (modify k change s)
  unfolding modify IsRouted
  modify-IsRouted k change s keeps (routes, quotes, prices) =
      elim (Option-cases (get k s.options)) [
        | inl absent ↦ rw (absent, modify) (routes, quotes, prices)
        | inr (t, found) ↦
            rw (found, modify)
              (
                insert-IsRouting s.by_instrument s.options k (change t) routes,
                insert-Holds IsQuoted k (change t) s.options quotes (keeps t (quotes k t found)),
                prices,
              )
      ]

  set_underlying-IsRouted :
      (product : String) (price : F) (s : MarketDataState F)
      → IsRouted s
      → IsRouted (Market.set_underlying product price s)
  unfolding Market.set_underlying IsRouted
  set_underlying-IsRouted product price s (routes, quotes, prices) =
      elim (Bool-cases (lt zero price)) [
        | inl up ↦
            rw (up, Market.set_underlying)
              (
                routes,
                quotes,
                insert-Holds (λ product price. lt zero price ≡ true) product price s.underlying
                    prices up,
              )
        | inr down ↦ rw (down, Market.set_underlying) (routes, quotes, prices)
      ]

  underlying_tick-IsRouted :
      (i : ℕ) (price : F) (s : MarketDataState F)
      → IsRouted s
      → IsRouted (underlying_tick i price s)
  unfolding underlying_tick
  underlying_tick-IsRouted i price s h = elim (Option-cases (get i s.underlying_instruments)) [
    | inl absent ↦ rw (absent, underlying_tick) h
    | inr (product, found) ↦ rw (found, underlying_tick) (set_underlying-IsRouted product price s h)
  ]

  update_bid-IsRouted :
      (i : ℕ) (price : F) (size ts_ns : ℕ) (s : MarketDataState F)
      → IsRouted s
      → IsRouted (Market.update_bid i price size ts_ns s)
  unfolding Market.update_bid IsQuoted
  update_bid-IsRouted i price size ts_ns s h = elim (Option-cases (get i s.by_instrument)) [
    | inl absent ↦ rw (absent, Market.update_bid) (underlying_tick-IsRouted i price s h)
    | inr (k, found) ↦
        rw (found, Market.update_bid)
          (modify-IsRouted k _ s (λ t q. (q.0, if_positive-IsPrice price t.bid q.1, q.2, q.3)) h)
  ]

  update_ask-IsRouted :
      (i : ℕ) (price : F) (size ts_ns : ℕ) (s : MarketDataState F)
      → IsRouted s
      → IsRouted (Market.update_ask i price size ts_ns s)
  unfolding Market.update_ask IsQuoted
  update_ask-IsRouted i price size ts_ns s h = elim (Option-cases (get i s.by_instrument)) [
    | inl absent ↦ rw (absent, Market.update_ask) h
    | inr (k, found) ↦
        rw (found, Market.update_ask)
          (modify-IsRouted k _ s (λ t q. (q.0, q.1, if_positive-IsPrice price t.ask q.2, q.3)) h)
  ]

  update_last-IsRouted :
      (i : ℕ) (price : F) (ts_ns : ℕ) (s : MarketDataState F)
      → IsRouted s
      → IsRouted (Market.update_last i price ts_ns s)
  unfolding Market.update_last IsQuoted
  update_last-IsRouted i price ts_ns s h = elim (Option-cases (get i s.by_instrument)) [
    | inl absent ↦ rw (absent, Market.update_last) (underlying_tick-IsRouted i price s h)
    | inr (k, found) ↦
        rw (found, Market.update_last)
          (modify-IsRouted k _ s (λ t q. (q.0, q.1, q.2, if_positive-IsPrice price t.last q.3)) h)
  ]

  route-IsRouting :
      (routes : HashMap ℕ PositionKey) (options : HashMap PositionKey (OptionTick F)) (i : ℕ)
      (k : PositionKey) (t : OptionTick F)
      → get k options ≡ some t
      → IsRouting routes options
      → IsRouting (insert i k routes) options
  unfolding IsRouting
  route-IsRouting routes options i k t there h j l at = elim (Bool-cases (nat_eq.eq i j)) [
    | inl same ↦
        let equal : k ≡ l =
          some-injective k l (sym (get-insert i j k routes ∙ rw same refl) ∙ at) in
        (t, subst (λ x. get x options ≡ some t) equal there)
    | inr other ↦ h j l (sym (get-insert i j k routes ∙ rw other refl) ∙ at)
  ]

  register_option-IsRouted :
      (product : String) (strike : F) (expiry : NaiveDate) (right : Right) (i : ℕ)
      (s : MarketDataState F)
      → IsRouted s
      → IsRouted (Market.register_option product strike expiry right i s)
  unfolding Market.register_option IsRouted IsQuoted make_key new_tick
  register_option-IsRouted product strike expiry right i s (routes, quotes, prices) =
      let k : PositionKey = make_key product strike expiry right in
      elim (Option-cases (get k s.options)) [
        | inl new ↦
            let t : OptionTick F = registered strike expiry right i none in
            rw (new, Market.register_option)
              (
                route-IsRouting s.by_instrument (insert k t s.options) i k t
                    (get-insert_self k t s.options)
                    (insert-IsRouting s.by_instrument s.options k t routes),
                insert-Holds IsQuoted k t s.options quotes (refl, inl refl, inl refl, inl refl),
                prices,
              )
        | inr (t, old) ↦
            rw (old, Market.register_option)
              (
                route-IsRouting s.by_instrument (insert k t s.options) i k t
                    (get-insert_self k t s.options)
                    (insert-IsRouting s.by_instrument s.options k t routes),
                insert-Holds IsQuoted k t s.options quotes (quotes k t old),
                prices,
              )
      ]

  apply-IsRouted : (c : Call F) (s : MarketDataState F) → IsRouted s → IsRouted (apply c s)
  unfolding apply IsRouted Market.register_underlying
  apply-IsRouted (register_option p k e r i) s h = register_option-IsRouted p k e r i s h
  apply-IsRouted (register_underlying p i) s h = h
  apply-IsRouted (set_underlying p v) s h = set_underlying-IsRouted p v s h
  apply-IsRouted (update_bid i v n t) s h = update_bid-IsRouted i v n t s h
  apply-IsRouted (update_ask i v n t) s h = update_ask-IsRouted i v n t s h
  apply-IsRouted (update_last i v t) s h = update_last-IsRouted i v t s h

  run-IsRouted : (cs : List (Call F)) (s : MarketDataState F) → IsRouted s → IsRouted (run cs s)
  unfolding run
  run-IsRouted [] s h = h
  run-IsRouted (c ∷ cs) s h = run-IsRouted cs (apply c s) (apply-IsRouted c s h)

  -- After any calls on a new state, each id that a registration entered leads to an option under the
  -- key of that option's own strike, expiry and right, and every price that is kept is positive or
  -- not yet set.
  pub run-new : (cs : List (Call F)) → IsRouted (run cs new)
  unfolding IsRouted IsRouting new get
  run-new cs =
      run-IsRouted cs new
        (λ i k at. absurd (cc at), λ k t at. absurd (cc at), λ p v at. absurd (cc at))
