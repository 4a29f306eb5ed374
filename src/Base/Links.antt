-- ===== src/Base/Links.antt =====
-- A map of items that may have an id, and a map from ids back to keys.
use mathlib.Core.Path.{◌≡◌}
use mathlib.Core.Option.{Option, none, some}
use native.Mathlib.Omega.{arith}
use corsair.Base.Equality.{PartialEq}
use corsair.Base.Maps.{HashMap, get, insert, remove, get-insert, get-remove}

module _ {K I V : Type 0} ⦃ek : PartialEq K⦄ ⦃ei : PartialEq I⦄ (id : V → Option I) where
  -- The id of an item leads back to its key.
  unfoldable pub IsLinks : HashMap K V → HashMap I K → Type 0
  IsLinks items index =
      (k : K) (v : V) (i : I) → get k items ≡ some v → id v ≡ some i → get i index ≡ some k

module _ {K I : Type 0} ⦃ek : PartialEq K⦄ ⦃ei : PartialEq I⦄ where
  -- An id leads to no other key than this.
  unfoldable pub IsFreeFor : K → I → HashMap I K → Type 0
  IsFreeFor key i index = (k : K) → get i index ≡ some k → k ≡ key

  pub remove-IsFreeFor :
      (key : K) (i j : I) (index : HashMap I K)
      → IsFreeFor key i index
      → IsFreeFor key i (remove j index)
  unfolding IsFreeFor
  remove-IsFreeFor key i j index h k found = ground (arith, get-remove j i index, h k)

module _ {K I V : Type 0} ⦃ek : PartialEq K⦄ ⦃ei : PartialEq I⦄ (id : V → Option I) where
  pub remove-IsLinks :
      (items : HashMap K V) (index : HashMap I K) (key : K) (i : I)
      → IsLinks id items index
      → IsFreeFor key i index
      → IsLinks id (remove key items) (remove i index)
  unfolding IsLinks IsFreeFor
  remove-IsLinks items index key i h free k v j found at = ground (
    arith,
    get-remove key k items,
    get-remove i j index,
    h k v j,
    free k,
    ek.eq_iff key k,
    ei.eq_iff i j,
  )

  -- An item without an id takes the place of another.
  pub insert-IsLinks :
      (items : HashMap K V) (index : HashMap I K) (key : K) (v : V)
      → IsLinks id items index
      → id v ≡ none
      → IsLinks id (insert key v items) index
  unfolding IsLinks
  insert-IsLinks items index key v h new k w j found at =
      ground (arith, get-insert key k v items, h k w j, ek.eq_iff key k)

  pub replace-IsLinks :
      (items : HashMap K V) (index : HashMap I K) (key : K) (i : I) (v : V)
      → IsLinks id items index
      → IsFreeFor key i index
      → id v ≡ none
      → IsLinks id (insert key v items) (remove i index)
  unfolding IsLinks IsFreeFor
  replace-IsLinks items index key i v h free new k w j found at = ground (
    arith,
    get-insert key k v items,
    get-remove i j index,
    h k w j,
    free k,
    ek.eq_iff key k,
    ei.eq_iff i j,
  )

  -- An item gets its id.
  pub link-IsLinks :
      (items : HashMap K V) (index : HashMap I K) (key : K) (i : I) (v : V)
      → IsLinks id items index
      → IsFreeFor key i index
      → id v ≡ some i
      → IsLinks id (insert key v items) (insert i key index)
  unfolding IsLinks IsFreeFor
  link-IsLinks items index key i v h free here k w j found at = ground (
    arith,
    get-insert key k v items,
    get-insert i j key index,
    h k w j,
    free k,
    ek.eq_iff key k,
    ei.eq_iff i j,
  )
