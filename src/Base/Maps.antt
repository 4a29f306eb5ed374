-- ===== src/Base/Maps.antt =====
-- `HashMap` as an association list: each key stands at most once in a map built by `insert`.
use Prim.Native.Nat.{◌+◌}
use mathlib.Core.Path.{◌≡◌, refl, sym, ap, ◌∙◌, subst}
use mathlib.Core.Logic.{◌≢◌, inl, inr}
use mathlib.Core.Option.{Option, none, some, some-injective}
use mathlib.Core.List.{List, [], ◌∷◌}
use native.Mathlib.Omega.{arith}
use corsair.Base.Tests.{if◌then◌else◌, Bool-cases}
use corsair.Base.Lists.{length, All}
use corsair.Base.Equality.{PartialEq, ◌==◌}

abbrev pub HashMap {ℓ} : Type ℓ → Type ℓ → Type ℓ
HashMap K V = List (K × V)

module _ {ℓ} {K V : Type ℓ} ⦃e : PartialEq K⦄ where
  unfoldable pub get : K → HashMap K V → Option V
  get k [] = none
  get k ((j, v) ∷ m) = if j == k then some v else get k m

  unfoldable pub insert : K → V → HashMap K V → HashMap K V
  insert key value ((other, old) ∷ rest) =
      if other == key then (key, value) ∷ rest else (other, old) ∷ insert key value rest
  insert key value [] = (key, value) ∷ []

  unfoldable pub remove : K → HashMap K V → HashMap K V
  remove k [] = []
  remove k ((j, w) ∷ m) = if j == k then remove k m else (j, w) ∷ remove k m

  pub get-insert :
      (k j : K) (v : V) (m : HashMap K V)
      → get j (insert k v m) ≡ (if k == j then some v else get j m)
  unfolding get insert
  get-insert k j v [] = refl
  get-insert k j v ((i, w) ∷ m) =
      ground (arith, e.eq_iff k j, e.eq_iff i k, e.eq_iff i j, get-insert k j v m)

  pub get-insert_self : (k : K) (v : V) (m : HashMap K V) → get k (insert k v m) ≡ some v
  get-insert_self k v m = ground (arith, get-insert k k v m, e.eq_iff k k)

  pub get-insert_ne : (k j : K) (v : V) (m : HashMap K V) → k ≢ j → get j (insert k v m) ≡ get j m
  get-insert_ne k j v m h = ground (arith, get-insert k j v m, e.eq_iff k j)

  pub get-remove :
      (k j : K) (m : HashMap K V) → get j (remove k m) ≡ (if k == j then none else get j m)
  unfolding get remove
  get-remove k j [] = ground arith
  get-remove k j ((i, w) ∷ m) =
      ground (arith, e.eq_iff k j, e.eq_iff i k, e.eq_iff i j, get-remove k j m)

  pub length-insert_new :
      (k : K) (v : V) (m : HashMap K V) → get k m ≡ none → length (insert k v m) ≡ length m + 1
  unfolding get insert
  length-insert_new k v [] h = omega arith
  length-insert_new k v ((j, w) ∷ m) h = ground (arith, length-insert_new k v m)

  pub get-remove_self : (k : K) (m : HashMap K V) → get k (remove k m) ≡ none
  get-remove_self k m = ground (arith, get-remove k k m, e.eq_iff k k)

  pub get-remove_ne : (k j : K) (m : HashMap K V) → k ≢ j → get j (remove k m) ≡ get j m
  get-remove_ne k j m h = ground (arith, get-remove k j m, e.eq_iff k j)

  -- What is not there can be removed.
  pub get-remove_absent :
      (k j : K) (m : HashMap K V) → get k m ≡ none → get j (remove k m) ≡ get j m
  get-remove_absent k j m h = elim (Bool-cases (k == j)) [
    | inl same ↦
        get-remove k j m
        ∙ ap (λ b. if b then none else get j m) same
        ∙ sym (subst (λ x. get x m ≡ none) ((e.eq_iff k j).0 same) h)
    | inr other ↦ get-remove k j m ∙ ap (λ b. if b then none else get j m) other
  ]

  pub remove-insert : (k : K) (v : V) (m : HashMap K V) → remove k (insert k v m) ≡ remove k m
  unfolding remove insert
  remove-insert k v [] = ground (arith, e.eq_iff k k)
  remove-insert k v ((j, w) ∷ m) = ground (arith, e.eq_iff k k, remove-insert k v m)

  -- Every entry that a lookup finds satisfies `P`.
  abbrev pub Holds {κ} : (K → V → Type κ) → HashMap K V → Type (ℓ ⊔ κ)
  Holds P m = (k : K) (v : V) → get k m ≡ some v → P k v

  pub insert-Holds {κ} :
      (P : K → V → Type κ) (k : K) (v : V) (m : HashMap K V)
      → Holds P m
      → P k v
      → Holds P (insert k v m)
  insert-Holds P k v m h p j w g = elim (Bool-cases (k == j)) [
    | inl same ↦
        let at : some v ≡ some w =
          sym (get-insert k j v m ∙ ap (λ b. if b then some v else get j m) same) ∙ g in
        subst (λ x. P x w) ((e.eq_iff k j).0 same) (subst (P k) (some-injective v w at) p)
    | inr other ↦
        h j w (sym (get-insert k j v m ∙ ap (λ b. if b then some v else get j m) other) ∙ g)
  ]

  pub remove-Holds {κ} :
      (P : K → V → Type κ) (k : K) (m : HashMap K V) → Holds P m → Holds P (remove k m)
  remove-Holds P k m h j w g = h j w (ground (arith, get-remove k j m))

  -- No key stands twice.
  unfoldable pub IsMap : HashMap K V → Type ℓ
  IsMap [] = Unit
  IsMap ((k, v) ∷ m) = (get k m ≡ none) × IsMap m

  pub insert-IsMap : (k : K) (v : V) (m : HashMap K V) → IsMap m → IsMap (insert k v m)
  unfolding IsMap get insert
  insert-IsMap k v [] h = (refl, tt)
  insert-IsMap k v ((j, w) ∷ m) h =
      ground (arith, insert-IsMap k v m, get-insert k j v m, e.eq_iff j k, e.eq_iff k j)

  pub remove-IsMap : (k : K) (m : HashMap K V) → IsMap m → IsMap (remove k m)
  unfolding IsMap remove
  remove-IsMap k [] h = h
  remove-IsMap k ((j, w) ∷ m) h = ground (arith, remove-IsMap k m, get-remove k j m)

  -- What holds of all that lookups find holds of the entries one after another.
  pub All-entries {κ} :
      (P : K → V → Type κ) (m : HashMap K V)
      → IsMap m
      → Holds P m
      → All (λ entry. P entry.0 entry.1) m
  unfolding IsMap get
  All-entries P [] d h = tt
  All-entries P ((k, v) ∷ m) d h = (
    h k v (ground (arith, e.eq_iff k k)),
    All-entries P m d.1 (λ j w found. h j w (elim (Bool-cases (k == j)) [
      | inl same ↦ absurd (cc (subst (λ i. get i m ≡ none) ((e.eq_iff k j).0 same) d.0, found))
      | inr other ↦ ground (arith, other, found)
    ])),
  )
