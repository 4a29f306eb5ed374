-- ===== src/Base/Keyed.antt =====
-- A list of items that carry a key, searched from the front, and a map from keys to places.
use Prim.Native.Nat.{ℕ, zero, suc, ◌+◌}
use mathlib.Core.Path.{◌≡◌, refl, sym, ap, ◌∙◌, subst}
use mathlib.Core.Logic.{◌≢◌, inl, inr}
use mathlib.Core.Option.{Option, none, some}
use mathlib.Core.List.{List, [], ◌∷◌, ◌++◌}
use native.Mathlib.Omega.{arith}
use corsair.Base.Tests.{if◌then◌else◌, Bool-cases, Option-cases}
use corsair.Base.Lists.{length, get_elem?, set, remove_at}
use corsair.Base.Equality.{PartialEq, ◌==◌}
use corsair.Base.Maps.{HashMap, get, insert, get-insert}

module _ {K A : Type 0} ⦃e : PartialEq K⦄ (key : A → K) where
  -- The first item with a key.
  unfoldable pub find : K → List A → Option A
  find k [] = none
  find k (p ∷ ps) = if key p == k then some p else find k ps

  unfoldable pub index_of : K → List A → Option ℕ
  index_of k [] = none
  index_of k (p ∷ ps) =
      if key p == k then some 0 else elim (index_of k ps) [ none ↦ none | some i ↦ some (suc i) ]

  -- No key stands twice.
  unfoldable pub IsDistinct : List A → Type 0
  IsDistinct [] = Unit
  IsDistinct (p ∷ ps) = (find (key p) ps ≡ none) × IsDistinct ps

  -- The loop that enters the places of a list, from `i` on; a later place replaces an earlier one.
  unfoldable pub index_from : ℕ → List A → HashMap K ℕ → HashMap K ℕ
  index_from i [] ix = ix
  index_from i (p ∷ ps) ix = index_from (i + 1) ps (insert (key p) i ix)

  -- The map holds the place of each key.
  abbrev pub IsIndex : List A → HashMap K ℕ → Type 0
  IsIndex ps ix = (k : K) → get k ix ≡ index_of k ps

  find-eq-get_elem? :
      (k : K) (ps : List A)
      → find k ps ≡ (elim (index_of k ps) [ none ↦ none | some i ↦ get_elem? ps i ])
  unfolding find index_of
  find-eq-get_elem? k [] = refl
  find-eq-get_elem? k (p ∷ ps) = ground (arith, find-eq-get_elem? k ps)

  -- A lookup through the index finds what a search through the list finds.
  pub lookup-eq-find :
      (ps : List A) (ix : HashMap K ℕ)
      → IsIndex ps ix
      → (k : K) → (elim (get k ix) [ none ↦ none | some i ↦ get_elem? ps i ]) ≡ find k ps
  lookup-eq-find ps ix h k =
      ap (λ (o : Option ℕ). elim o [ none ↦ none | some i ↦ get_elem? ps i ]) (h k)
      ∙ sym (find-eq-get_elem? k ps)

  -- The place of a key holds an item with that key.
  pub get_elem?-index_of :
      (k : K) (i : ℕ) (ps : List A)
      → index_of k ps ≡ some i
      → (p : A) × (get_elem? ps i ≡ some p) × (key p ≡ k)
  unfolding index_of
  get_elem?-index_of k i [] h = absurd (cc h)
  get_elem?-index_of k i (p ∷ ps) h = elim (Bool-cases (key p == k)) [
    | inl here ↦
        let zero_at : i ≡ 0 = ground (arith, h, here) in
        (p, rw zero_at refl, (e.eq_iff (key p) k).0 here)
    | inr there ↦ elim (Option-cases (index_of k ps)) [
      | inl none_at ↦ absurd (ground (arith, h, there, none_at))
      | inr (j, at) ↦
          let suc_at : i ≡ suc j = ground (arith, h, there, at) in
          let (q, found, same) = get_elem?-index_of k j ps at in (q, rw suc_at found, same)
    ]
  ]

  index_of-find-none : (k : K) (ps : List A) → find k ps ≡ none → index_of k ps ≡ none
  unfolding find index_of
  index_of-find-none k [] h = refl
  index_of-find-none k (p ∷ ps) h = ground (arith, index_of-find-none k ps)

  get-index_from :
      (k : K) (n : ℕ) (ps : List A) (ix : HashMap K ℕ)
      → IsDistinct ps
      → get k (index_from n ps ix)
        ≡ (elim (index_of k ps) [ none ↦ get k ix | some i ↦ some (n + i) ])
  unfolding index_from index_of IsDistinct
  get-index_from k n [] ix d = refl
  get-index_from k n (p ∷ ps) ix d = ground (
    arith,
    get-index_from k (n + 1) ps (insert (key p) n ix),
    get-insert (key p) k n ix,
    e.eq_iff (key p) k,
    index_of-find-none k ps,
  )

  -- The loop over a list in which no key stands twice builds its index.
  pub index_from-IsIndex : (ps : List A) → IsDistinct ps → IsIndex ps (index_from 0 ps [])
  unfolding get
  index_from-IsIndex ps d k = ground (arith, get-index_from k 0 ps [] d)

  found_at : (i : ℕ) (p : A) (ps : List A) → get_elem? ps i ≡ some p → find (key p) ps ≢ none
  unfolding find
  found_at i p [] at = cc
  found_at zero p (q ∷ ps) at = ground (arith, e.eq_iff (key p) (key p))
  found_at (suc i) p (q ∷ ps) at = ground (arith, found_at i p ps)

  pub find-get_elem? :
      (i : ℕ) (p : A) (ps : List A)
      → IsDistinct ps
      → get_elem? ps i ≡ some p
      → find (key p) ps ≡ some p
  unfolding find IsDistinct
  find-get_elem? i p [] d at = cc
  find-get_elem? zero p (q ∷ ps) d at = ground (arith, e.eq_iff (key p) (key p))
  find-get_elem? (suc i) p (q ∷ ps) d at =
      ground (arith, find-get_elem? i p ps, e.eq_iff (key q) (key p))

  -- An item replaces one with the same key.
  pub find-set :
      (k : K) (i : ℕ) (p q : A) (ps : List A)
      → IsDistinct ps
      → get_elem? ps i ≡ some p
      → key q ≡ key p
      → find k (set ps i q) ≡ (if key p == k then some q else find k ps)
  unfolding find IsDistinct
  find-set k i p q [] d at same = cc
  find-set k zero p q (r ∷ ps) d at same = ground arith
  find-set k (suc i) p q (r ∷ ps) d at same =
      ground (arith, find-set k i p q ps, found_at i p ps, e.eq_iff (key r) k, e.eq_iff (key p) k)

  pub find-remove_at :
      (k : K) (i : ℕ) (p : A) (ps : List A)
      → IsDistinct ps
      → get_elem? ps i ≡ some p
      → find k (remove_at ps i) ≡ (if key p == k then none else find k ps)
  unfolding find IsDistinct
  find-remove_at k i p [] d at = cc
  find-remove_at k zero p (r ∷ ps) d at = ground (arith, e.eq_iff (key p) k)
  find-remove_at k (suc i) p (r ∷ ps) d at =
      ground
        (arith, find-remove_at k i p ps, found_at i p ps, e.eq_iff (key r) k, e.eq_iff (key p) k)

  pub find-append :
      (k : K) (p : A) (ps : List A)
      → find k (ps ++ (p ∷ []))
        ≡ (elim (find k ps) [ none ↦ (if key p == k then some p else none) | some q ↦ some q ])
  unfolding find
  find-append k p [] = refl
  find-append k p (r ∷ ps) = ground (arith, find-append k p ps)

  pub find-append_new :
      (k : K) (p : A) (ps : List A)
      → find (key p) ps ≡ none
      → find k (ps ++ (p ∷ [])) ≡ (if key p == k then some p else find k ps)
  find-append_new k p ps new = elim (Bool-cases (key p == k)) [
    | inl same ↦
        let here : find k ps ≡ none =
          subst (λ j. find j ps ≡ none) ((e.eq_iff (key p) k).0 same) new in
        ground (arith, find-append k p ps, same, here)
    | inr other ↦ ground (arith, find-append k p ps, other)
  ]

  -- The key of what a search finds.
  pub key-find : (k : K) (p : A) (ps : List A) → find k ps ≡ some p → key p ≡ k
  unfolding find
  key-find k p [] h = cc
  key-find k p (q ∷ ps) h = ground (arith, key-find k p ps, e.eq_iff (key q) k)

  pub set-IsDistinct :
      (i : ℕ) (p q : A) (ps : List A)
      → IsDistinct ps
      → get_elem? ps i ≡ some p
      → key q ≡ key p
      → IsDistinct (set ps i q)
  unfolding find IsDistinct
  set-IsDistinct i p q [] d at same = cc
  set-IsDistinct zero p q (r ∷ ps) d at same = ground (arith, e.eq_iff (key q) (key r))
  set-IsDistinct (suc i) p q (r ∷ ps) d at same = ground (
    arith,
    set-IsDistinct i p q ps,
    find-set (key r) i p q ps,
    found_at i p ps,
    e.eq_iff (key p) (key r),
  )

  pub remove_at-IsDistinct :
      (i : ℕ) (p : A) (ps : List A)
      → IsDistinct ps
      → get_elem? ps i ≡ some p
      → IsDistinct (remove_at ps i)
  unfolding find IsDistinct
  remove_at-IsDistinct i p [] d at = cc
  remove_at-IsDistinct zero p (r ∷ ps) d at = ground arith
  remove_at-IsDistinct (suc i) p (r ∷ ps) d at =
      ground (
        arith,
        remove_at-IsDistinct i p ps,
        find-remove_at (key r) i p ps,
        e.eq_iff (key p) (key r),
      )

  pub append-IsDistinct :
      (p : A) (ps : List A) → IsDistinct ps → find (key p) ps ≡ none → IsDistinct (ps ++ (p ∷ []))
  unfolding find IsDistinct
  append-IsDistinct p [] d h = (refl, tt)
  append-IsDistinct p (r ∷ ps) d h = ground (
    arith,
    append-IsDistinct p ps,
    find-append (key r) p ps,
    e.eq_iff (key p) (key r),
    e.eq_iff (key r) (key p),
  )

  -- The places after a replacement, and after an item at the end.
  pub index_of-set :
      (k : K) (i : ℕ) (p q : A) (ps : List A)
      → get_elem? ps i ≡ some p
      → key q ≡ key p
      → index_of k (set ps i q) ≡ index_of k ps
  unfolding index_of
  index_of-set k i p q [] at same = cc
  index_of-set k zero p q (r ∷ ps) at same = ground arith
  index_of-set k (suc i) p q (r ∷ ps) at same = ground (arith, index_of-set k i p q ps)

  pub index_of-append :
      (k : K) (p : A) (ps : List A)
      → index_of k (ps ++ (p ∷ [])) ≡ (elim (index_of k ps) [
        | none ↦ (if key p == k then some (length ps) else none)
        | some i ↦ some i
      ])
  unfolding index_of
  index_of-append k p [] = refl
  index_of-append k p (r ∷ ps) = ground (arith, index_of-append k p ps)

  -- The index after an item whose key is new was put at the end.
  pub insert-IsIndex :
      (p : A) (ps : List A) (ix : HashMap K ℕ)
      → IsIndex ps ix
      → find (key p) ps ≡ none
      → IsIndex (ps ++ (p ∷ [])) (insert (key p) (length ps) ix)
  insert-IsIndex p ps ix h new k = ground (
    arith,
    h k,
    get-insert (key p) k (length ps) ix,
    index_of-append k p ps,
    index_of-find-none (key p) ps,
    e.eq_iff (key p) k,
  )
