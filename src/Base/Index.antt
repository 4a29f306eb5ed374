-- ===== src/Base/Index.antt =====
-- A map of records with a reverse index from the ids that the records carry to their keys.
use mathlib.Core.Path.{◌≡◌}
use mathlib.Core.Logic.{◌↔◌}
use mathlib.Core.Option.{Option, none, some}
use native.Mathlib.Omega.{arith}
use corsair.Base.Equality.{PartialEq}
use corsair.Base.Maps.{HashMap, get, insert, remove, get-insert, get-remove}

-- The id of the record at a key.
abbrev pub id_at : {K O R : Type 0} ⦃ek : PartialEq K⦄ → (R → Option O) → HashMap K R → K → Option O
id_at id_of m k = elim (get k m) [ none ↦ none | some r ↦ id_of r ]

abbrev pub unlink : {K O : Type 0} ⦃eo : PartialEq O⦄ → Option O → HashMap O K → HashMap O K
unlink none ix = ix
unlink (some o) ix = remove o ix

pub id_at_found :
    {K O R : Type 0} ⦃ek : PartialEq K⦄ (id_of : R → Option O) (m : HashMap K R) (k : K) (r : R)
    → get k m ≡ some r
    → id_at id_of m k ≡ id_of r
id_at_found id_of m k r e = ground (arith, e)

module _ {K O R : Type 0} ⦃ek : PartialEq K⦄ ⦃eo : PartialEq O⦄ (id_of : R → Option O) where
  -- The index leads from an id to a key exactly when the record at the key carries the id.
  abbrev pub IsLinked : HashMap K R → HashMap O K → Type 0
  IsLinked m ix = (k : K) (o : O) → (id_at id_of m k ≡ some o) ↔ (get o ix ≡ some k)

  module _ (m : HashMap K R) (ix : HashMap O K) (h : IsLinked m ix) (key : K) (r : R) where
    -- A record with no id replaces the one at the key, whose id leaves the index.
    pub insert-unlink-IsLinked :
        (old : Option O)
        → id_at id_of m key ≡ old
        → id_of r ≡ none
        → IsLinked (insert key r m) (unlink old ix)
    insert-unlink-IsLinked none e n k o =
        ground (arith, get-insert key k r m, h k o, h key o, ek.eq_iff key k)
    insert-unlink-IsLinked (some p) e n k o = ground (
      arith,
      get-insert key k r m,
      get-remove p o ix,
      h k o,
      h key o,
      h key p,
      h k p,
      ek.eq_iff key k,
      eo.eq_iff p o,
    )

    -- A record without an id takes one that no record carries.
    pub insert-insert-IsLinked :
        (p : O)
        → id_at id_of m key ≡ none
        → get p ix ≡ none
        → id_of r ≡ some p
        → IsLinked (insert key r m) (insert p key ix)
    insert-insert-IsLinked p e fresh n k o = ground (
      arith,
      get-insert key k r m,
      get-insert p o key ix,
      h k o,
      h key o,
      h k p,
      ek.eq_iff key k,
      eo.eq_iff p o,
    )

    -- A record keeps its id.
    pub insert-IsLinked : id_at id_of m key ≡ id_of r → IsLinked (insert key r m) ix
    insert-IsLinked e k o = ground (arith, get-insert key k r m, h k o, ek.eq_iff key k)

    -- A record leaves together with its id.
    pub remove-IsLinked :
        (p : O) → get p ix ≡ some key → IsLinked (remove key (insert key r m)) (remove p ix)
    remove-IsLinked p e k o = ground (
      arith,
      get-insert key k r m,
      get-remove key k (insert key r m),
      get-remove p o ix,
      h k o,
      h key o,
      h k p,
      h key p,
      ek.eq_iff key k,
      eo.eq_iff p o,
    )
