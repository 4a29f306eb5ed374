-- ===== src/Hedge/ExecIds.antt =====
-- The execution ids of rust/corsair_hedge/src/manager.rs: a set of the ids that were processed and,
-- for the eviction of the oldest, a queue of them.
use corsair.Base.{
  ℕ, ◌+◌, ◌≤◌, ◌≡◌, Bool, true, false, not, ◌||◌, ◌&&◌, ◌<◌, refl, List, [], ◌∷◌, ◌++◌, length,
  PartialEq, ◌==◌, leb, if◌then◌else◌, arith, Bool-cases, inl, inr, subst, sym, ◌∙◌,
}

pub record ExecIds (K : Type 0) : Type 0 where
  pub processed : List K
  pub order : List K

module _ {K : Type 0} ⦃e : PartialEq K⦄ where
  unfoldable pub contains : K → List K → Bool
  contains x [] = false
  contains x (y ∷ ys) = y == x || contains x ys

  -- `HashSet::remove`
  unfoldable pub remove_id : K → List K → List K
  remove_id x [] = []
  remove_id x (y ∷ ys) = if y == x then remove_id x ys else y ∷ remove_id x ys

  -- The eviction of `apply_broker_fill`, with its limit.
  unfoldable pub evict : ℕ → ExecIds K → ExecIds K
  evict limit ids =
      if leb limit (length ids.order)
      then elim ids.order [
        | [] ↦ ids
        | old ∷ order ↦ record { processed = remove_id old ids.processed; order = order }
      ]
      else ids

  unfoldable pub record_id : ℕ → K → ExecIds K → ExecIds K
  unfolding evict
  record_id limit x ids =
      let left = evict limit ids in
      record { processed = x ∷ left.processed; order = left.order ++ (x ∷ []) }

  unfoldable pub unique : List K → Bool
  unfolding contains
  unique [] = true
  unique (x ∷ xs) = not (contains x xs) && unique xs

  -- The queue holds each id of the set once, and no other, and no more ids than the limit.
  pub record IsQueued (limit : ℕ) (ids : ExecIds K) : Type 0 where
    pub same : (x : K) → contains x ids.processed ≡ contains x ids.order
    pub once : unique ids.order ≡ true
    pub bounded : length ids.order ≤ limit

  contains-remove_id :
      (x y : K) (ys : List K)
      → contains x (remove_id y ys) ≡ (if y == x then false else contains x ys)
  unfolding contains remove_id
  contains-remove_id x y [] = ground arith
  contains-remove_id x y (z ∷ ys) =
      ground (arith, contains-remove_id x y ys, e.eq_iff z y, e.eq_iff z x, e.eq_iff y x)

  contains-snoc : (x y : K) (ys : List K) → contains x (ys ++ (y ∷ [])) ≡ (contains x ys || y == x)
  unfolding contains
  contains-snoc x y [] = ground arith
  contains-snoc x y (z ∷ ys) = ground (arith, contains-snoc x y ys)

  unique-snoc :
      (y : K) (ys : List K)
      → unique ys ≡ true
      → contains y ys ≡ false
      → unique (ys ++ (y ∷ [])) ≡ true
  unfolding contains unique
  unique-snoc y [] u fresh = refl
  unique-snoc y (z ∷ ys) u fresh =
      ground (arith, unique-snoc y ys, contains-snoc z y ys, e.eq_iff z y, e.eq_iff y z)

  length-snoc : (y : K) (ys : List K) → length (ys ++ (y ∷ [])) ≡ length ys + 1
  length-snoc y [] = refl
  length-snoc y (z ∷ ys) = ground (arith, length-snoc y ys)

  -- After an eviction there is room for one more id.
  record HasRoom (limit : ℕ) (ids : ExecIds K) : Type 0 where
    same : (x : K) → contains x ids.processed ≡ contains x ids.order
    once : unique ids.order ≡ true
    room : length ids.order < limit

  contains-evicted :
      (x old : K) (processed order : List K)
      → ((y : K) → contains y processed ≡ contains y (old ∷ order))
      → contains old order ≡ false
      → contains x (remove_id old processed) ≡ contains x order
  unfolding contains
  contains-evicted x old processed order same gone =
      ground (arith, contains-remove_id x old processed, same x, e.eq_iff old x)

  evict-HasRoom :
      (limit : ℕ) (processed order : List K)
      → 0 < limit
      → IsQueued limit (record { processed = processed; order = order })
      → HasRoom limit (evict limit (record { processed = processed; order = order }))
  unfolding evict unique
  evict-HasRoom limit processed [] p q =
      let room : leb limit 0 ≡ false = ground arith in
      rw room (record { same = q.same; once = q.once; room = p })
  evict-HasRoom limit processed (old ∷ order) p q =
      let ids : ExecIds K = record { processed = processed; order = old ∷ order } in
      let evicted : ExecIds K = record { processed = remove_id old processed; order = order } in
      elim (Bool-cases (leb limit (length (old ∷ order)))) [
        | inl full ↦
            subst (λ b. HasRoom limit (if b then evicted else ids)) (sym full)
              (record {
                same = λ x. contains-evicted x old processed order q.same (ground (arith, q.once));
                once = ground (arith, q.once);
                room = ground (arith, q.bounded);
              })
        | inr room ↦
            subst (λ b. HasRoom limit (if b then evicted else ids)) (sym room)
              (record { same = q.same; once = q.once; room = ground arith })
      ]

  fresh-evict :
      (limit : ℕ) (x : K) (processed order : List K)
      → contains x order ≡ false
      → contains x (evict limit (record { processed = processed; order = order })).order ≡ false
  unfolding evict contains
  fresh-evict limit x processed [] h = ground arith
  fresh-evict limit x processed (old ∷ order) h = ground arith

  contains-recorded :
      (x y : K) (ids : ExecIds K)
      → contains y ids.processed ≡ contains y ids.order
      → contains y (x ∷ ids.processed) ≡ contains y (ids.order ++ (x ∷ []))
  unfolding contains
  contains-recorded x y ids h = ground (arith, contains-snoc y x ids.order)

  pub record_id-IsQueued :
      (limit : ℕ) (x : K) (ids : ExecIds K)
      → 0 < limit
      → contains x ids.processed ≡ false
      → IsQueued limit ids
      → IsQueued limit (record_id limit x ids)
  unfolding record_id
  record_id-IsQueued limit x ids p fresh q =
      let h = evict-HasRoom limit ids.processed ids.order p q in
      let new = fresh-evict limit x ids.processed ids.order (sym (q.same x) ∙ fresh) in
      record {
        same = λ y. contains-recorded x y (evict limit ids) (h.same y);
        once = unique-snoc x (evict limit ids).order h.once new;
        bounded = ground (arith, length-snoc x (evict limit ids).order, h.room);
      }

  pub contains-record_id :
      (limit : ℕ) (x : K) (ids : ExecIds K) → contains x (record_id limit x ids).processed ≡ true
  unfolding record_id contains
  contains-record_id limit x ids = ground (arith, e.eq_iff x x)
