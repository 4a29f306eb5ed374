-- ===== src/Position/Fills.antt =====
-- corsair_position/src/portfolio.rs: fills as additions to a map from keys to signed quantities.
use corsair.Base.{
  ℕ, ◌+◌, ◌%◌, ◌^◌, ◌<◌, ◌≡◌, ◌≢◌, Bool, true, false, ◌⊎◌, Option, none, some, List, [], ◌∷◌, ◌++◌,
  arith, length, get_elem?, set, remove_at, All, All-set, All-remove_at, All-append, All-get_elem?,
  sym, ap, ◌∙◌, refl, Bool-cases, Option-cases, inl, inr, if◌then◌else◌, ◌==◌, String, subst,
}
use corsair.Base.Integers.{
  ℤ, pos, negsuc, ◌+ℤ◌, +ℤ_parts, eq_of_parts, zero-+ℤ, ℤ_beq-zero_of_ne, pos_part, neg_part, IsI32,
  add_i32, add_i32-eq, unsigned_abs, ℤ_eq, ℤ_beq_iff, ◌<ℤ◌,
}
use corsair.Base.Maps.{get, insert}
use corsair.Base.Keyed.{
  find, find-get_elem?, IsDistinct, IsIndex, lookup-eq-find, index_from-IsIndex, find-set,
  find-remove_at, find-append_new, get_elem?-index_of, set-IsDistinct, remove_at-IsDistinct,
  append-IsDistinct, index_of-set, insert-IsIndex,
}
use corsair.Float.{Float}
use corsair.Api.{Right, NaiveDate}
use corsair.Position.{
  PositionKey, position_key_eq, Position, FillOutcome, opened, increased, partially_closed, closed,
  flipped, rejected, make_key, key_of,
}
use corsair.Position.Portfolio.{
  PortfolioState, merge_outcome, merge_fill, opening, add_fill, record_fill_accounting,
  rebuild_index,
}

-- What an outcome says of the quantity before and after a fill.
abbrev pub Describes : FillOutcome → ℤ → ℤ → Type 0
Describes opened prev new = (prev ≡ pos 0) × (new ≢ pos 0)
Describes closed prev new = (prev ≢ pos 0) × (new ≡ pos 0)
Describes increased prev new =
    (((pos 0 <ℤ prev) × (pos 0 <ℤ new)) ⊎ ((prev <ℤ pos 0) × (new <ℤ pos 0)))
    × (unsigned_abs prev < unsigned_abs new)
Describes partially_closed prev new =
    (((pos 0 <ℤ prev) × (pos 0 <ℤ new)) ⊎ ((prev <ℤ pos 0) × (new <ℤ pos 0)))
    × (unsigned_abs new < unsigned_abs prev)
Describes flipped prev new = ((pos 0 <ℤ prev) × (new <ℤ pos 0)) ⊎ ((prev <ℤ pos 0) × (pos 0 <ℤ new))
Describes (rejected reason) prev new = prev ≡ new

+ℤ-ne : (a b : ℤ) → b ≢ pos 0 → a ≢ a +ℤ b
+ℤ-ne a b h e =
    h (eq_of_parts b (pos 0) (omega (arith, +ℤ_parts a b, ap pos_part e, ap neg_part e)))

merge_outcome-Describes :
    (prev new : ℤ)
    → prev ≢ pos 0
    → new ≢ pos 0
    → prev ≢ new
    → Describes (merge_outcome prev new) prev new
unfolding merge_outcome
merge_outcome-Describes (pos m) (pos n) hp hn ne = ground arith
merge_outcome-Describes (pos m) (negsuc n) hp hn ne = ground arith
merge_outcome-Describes (negsuc m) (pos n) hp hn ne = ground arith
merge_outcome-Describes (negsuc m) (negsuc n) hp hn ne = ground arith

module _ {F : Type 0} ⦃f : Float F⦄ where
  abbrev IsOpen : Position F → Type 0
  IsOpen p = p.quantity ≢ pos 0

  -- No key stands twice, the index holds the place of each, and no position is empty.
  pub record IsConsistent (s : PortfolioState F) : Type 0 where
    pub distinct : IsDistinct key_of s.positions
    pub indexed : IsIndex key_of s.positions s.index
    pub nonempty : All IsOpen s.positions

  -- The book as a map from keys to signed quantities.
  abbrev pub held : Option (Position F) → ℤ
  held none = pos 0
  held (some p) = p.quantity

  held-if :
      (b : Bool) (o r : Option (Position F))
      → held (if b then o else r) ≡ (if b then held o else held r)
  held-if true o r = refl
  held-if false o r = refl

  abbrev pub quantity_in : PositionKey → List (Position F) → ℤ
  quantity_in k ps = held (find key_of k ps)

  abbrev pub quantity_of : PositionKey → PortfolioState F → ℤ
  quantity_of k s = quantity_in k s.positions

  -- What one fill of `q` at `key` has done.
  pub record Filled (key : PositionKey) (q : ℤ) (s s' : PortfolioState F) (out : FillOutcome)
      : Type 0 where
    pub consistent : IsConsistent s'
    pub quantities :
        (k : PositionKey)
        → quantity_of k s' ≡ (if key == k then quantity_of key s +ℤ q else quantity_of k s)
    pub outcome : Describes out (quantity_of key s) (quantity_of key s +ℤ q)
    pub counted : s'.fills_today ≡ (s.fills_today + unsigned_abs q) % 2 ^ 32

  quantity_here :
      (i : ℕ) (p : Position F) (s : PortfolioState F)
      → IsConsistent s
      → get_elem? s.positions i ≡ some p
      → quantity_of (key_of p) s ≡ p.quantity
  quantity_here i p s v at = ap held (find-get_elem? key_of i p s.positions v.distinct at)

  module _ (i : ℕ) (p : Position F) (q : ℤ) (price spread spread_mid : F) (now : ℕ)
      (s : PortfolioState F) (v : IsConsistent s) (at : get_elem? s.positions i ≡ some p)
      (open_ : p.quantity ≢ pos 0) (nonzero : q ≢ pos 0) (fits : IsI32 (p.quantity +ℤ q)) where
    here : quantity_of (key_of p) s ≡ p.quantity
    here = quantity_here i p s v at

    exact : add_i32 p.quantity q ≡ p.quantity +ℤ q
    exact = add_i32-eq p.quantity q fits

    merge_flat :
        p.quantity +ℤ q ≡ pos 0
        → Filled
            (key_of p)
            q
            s
            (record_fill_accounting q spread spread_mid
              (rebuild_index (record s { positions = remove_at s.positions i })))
            closed
    unfolding rebuild_index record_fill_accounting
    merge_flat flat =
        let d = remove_at-IsDistinct key_of i p s.positions v.distinct at in
        record {
          consistent = record {
            distinct = d;
            indexed = index_from-IsIndex key_of _ d;
            nonempty = All-remove_at IsOpen s.positions i v.nonempty;
          };
          quantities = λ k.
              ap held (find-remove_at key_of k i p s.positions v.distinct at)
              ∙ held-if (key_of p == k) none (find key_of k s.positions)
              ∙ ap (λ z. if key_of p == k then z else quantity_of k s)
                  (sym (ap (λ z. z +ℤ q) here ∙ flat));
          outcome = rw here (open_, flat);
          counted = refl;
        }

    merge_left :
        p.quantity +ℤ q ≢ pos 0
        → Filled
            (key_of p)
            q
            s
            (record_fill_accounting q spread spread_mid (record s {
              positions = set s.positions i (record p {
                quantity = p.quantity +ℤ q;
                avg_fill_price = price;
                fill_time = now;
              });
            }))
            (merge_outcome p.quantity (p.quantity +ℤ q))
    unfolding record_fill_accounting
    merge_left left =
        let p' = record p { quantity = p.quantity +ℤ q; avg_fill_price = price; fill_time = now } in
        record {
          consistent = record {
            distinct = set-IsDistinct key_of i p p' s.positions v.distinct at refl;
            indexed = λ k. v.indexed k ∙ sym (index_of-set key_of k i p p' s.positions at refl);
            nonempty = All-set IsOpen s.positions i p' v.nonempty left;
          };
          quantities = λ k.
              ap held (find-set key_of k i p p' s.positions v.distinct at refl)
              ∙ held-if (key_of p == k) (some p') (find key_of k s.positions)
              ∙ ap (λ z. if key_of p == k then z else quantity_of k s)
                  (sym (ap (λ z. z +ℤ q) here));
          outcome = rw here (
              merge_outcome-Describes p.quantity (p.quantity +ℤ q) open_ left
                (+ℤ-ne p.quantity q nonzero));
          counted = refl;
        }

    merge_fill-Filled :
        let r = merge_fill i p q price spread spread_mid now s in Filled (key_of p) q s r.0 r.1
    unfolding merge_fill
    merge_fill-Filled = elim (Bool-cases (add_i32 p.quantity q == pos 0)) [
      | inl flat ↦ rw (flat, merge_fill) (merge_flat (sym exact ∙ (ℤ_beq_iff _ _).0 flat))
      | inr left ↦
          rw (left, merge_fill, exact) (merge_left λ z. cc (left, (ℤ_beq_iff _ _).1 (exact ∙ z)))
    ]

  module _ (product : String) (strike : F) (expiry : NaiveDate) (right : Right) (q : ℤ)
      (price spread spread_mid : F) (now : ℕ) (s : PortfolioState F) where
    abbrev fill_key : PositionKey
    fill_key = make_key product strike expiry right

    open_Filled :
        IsConsistent s
        → q ≢ pos 0
        → get fill_key s.index ≡ none
        → Filled fill_key q s
            (record_fill_accounting q spread spread_mid (record s {
              positions = s.positions ++ (opening product strike expiry right q price now s ∷ []);
              index = insert fill_key (length s.positions) s.index;
            }))
            opened
    unfolding record_fill_accounting
    open_Filled v nonzero new =
        let p = opening product strike expiry right q price now s in
        let absent : find key_of fill_key s.positions ≡ none =
          sym (lookup-eq-find key_of s.positions s.index v.indexed fill_key)
          ∙ ap (λ (o : Option ℕ). elim o [ none ↦ none | some i ↦ get_elem? s.positions i ]) new in
        let nothing : quantity_of fill_key s ≡ pos 0 = ap held absent in
        record {
          consistent = record {
            distinct = append-IsDistinct key_of p s.positions v.distinct absent;
            indexed = insert-IsIndex key_of p s.positions s.index v.indexed absent;
            nonempty = All-append IsOpen s.positions (p ∷ []) v.nonempty (nonzero, tt);
          };
          quantities = λ k.
              ap held (find-append_new key_of k p s.positions absent)
              ∙ held-if (fill_key == k) (some p) (find key_of k s.positions)
              ∙ ap (λ z. if fill_key == k then z else quantity_of k s)
                  (sym (ap (λ z. z +ℤ q) nothing ∙ zero-+ℤ q));
          outcome = rw nothing (refl, λ e. nonzero (sym (zero-+ℤ q) ∙ e));
          counted = refl;
        }

    add_fill_known :
        (i : ℕ) (p : Position F)
        → q ≢ pos 0
        → get fill_key s.index ≡ some i
        → get_elem? s.positions i ≡ some p
        → add_fill product strike expiry right q price spread spread_mid now s
          ≡ some (merge_fill i p q price spread spread_mid now s)
    unfolding add_fill
    add_fill_known i p nonzero known at = rw (ℤ_beq-zero_of_ne q nonzero, known, at, add_fill) refl

    merge_known :
        (i : ℕ) (p : Position F)
        → IsConsistent s
        → q ≢ pos 0
        → IsI32 (quantity_of fill_key s +ℤ q)
        → get_elem? s.positions i ≡ some p
        → key_of p ≡ fill_key
        → let r = merge_fill i p q price spread spread_mid now s in Filled fill_key q s r.0 r.1
    merge_known i p v nonzero fits at own =
        let r = merge_fill i p q price spread spread_mid now s in
        let now_held : quantity_of fill_key s ≡ p.quantity =
          ap (λ k. quantity_of k s) (sym own) ∙ quantity_here i p s v at in
        subst (λ k. Filled k q s r.0 r.1) own
          (merge_fill-Filled i p q price spread spread_mid now s v at
            (All-get_elem? IsOpen s.positions i p v.nonempty at) nonzero
            (subst (λ z. IsI32 (z +ℤ q)) now_held fits))

    -- A fill of a quantity that is not zero, applied to a consistent book at whose key the new
    -- quantity fits an `i32`, does not panic: it gives a consistent book in which the quantity at the
    -- key has gone up by the fill's and every other quantity is unchanged, with an outcome that
    -- describes the quantities before and after, and with the fill's size counted in `fills_today`.
    pub add_fill-Filled :
        IsConsistent s
        → q ≢ pos 0
        → IsI32 (quantity_of fill_key s +ℤ q)
        → (s' : PortfolioState F) × (out : FillOutcome) × (add_fill product strike expiry right q
              price spread spread_mid now s
            ≡ some (s', out))
          × Filled fill_key q s s' out
    unfolding add_fill
    add_fill-Filled v nonzero fits = elim (Option-cases (get fill_key s.index)) [
      | inl new ↦ (
        _,
        opened,
        rw (ℤ_beq-zero_of_ne q nonzero, new, add_fill) refl,
        open_Filled v nonzero new,
      )
      | inr (i, known) ↦
          let (p, at, own) =
            get_elem?-index_of key_of fill_key i s.positions (sym (v.indexed fill_key) ∙ known) in
          let r = merge_fill i p q price spread spread_mid now s in
          (r.0, r.1, add_fill_known i p nonzero known at, merge_known i p v nonzero fits at own)
    ]
