-- ===== src/Oms/Counts.antt =====
-- corsair_oms/src/book.rs: `snapshot_state_counts` counts each record of the book once.
use corsair.Base.{
  ℕ, ◌+◌, ◌^◌, ◌<◌, ◌≡◌, refl, ◌∙◌, List, [], ◌∷◌, arith, length, map, if◌then◌else◌,
}
use mathlib.Core.List.{foldl}
use corsair.Oms.{
  OurKey, OrderState, OrderRecord, OrderBook, len, values, state_beq, count_record,
  snapshot_state_counts,
}

-- The four slots of the array, in the order of the source.
abbrev slots : (p l c t : ℕ) → List (OrderState × ℕ)
slots p l c t =
    (OrderState.pending, p)
    ∷ (OrderState.live, l)
    ∷ (OrderState.pending_cancel, c)
    ∷ (OrderState.terminal, t)
    ∷ []

module _ {F : Type 0} where
  -- The number of records in a state.
  abbrev pub count : OrderState → List (OrderRecord F) → ℕ
  count s [] = 0
  count s (r ∷ rs) = (if state_beq s r.state then 1 else 0) + count s rs

  foldl-count_record :
      (rs : List (OrderRecord F)) (p l c t : ℕ)
      → p + length rs < 2 ^ 32
      → l + length rs < 2 ^ 32
      → c + length rs < 2 ^ 32
      → t + length rs < 2 ^ 32
      → foldl count_record (slots p l c t) rs
        ≡ slots
            (p + count OrderState.pending rs)
            (l + count OrderState.live rs)
            (c + count OrderState.pending_cancel rs)
            (t + count OrderState.terminal rs)
  foldl-count_record [] p l c t hp hl hc ht = ground arith
  foldl-count_record (r ∷ rs) p l c t hp hl hc ht = ground (
    arith,
    foldl-count_record rs (p + 1) l c t,
    foldl-count_record rs p (l + 1) c t,
    foldl-count_record rs p l (c + 1) t,
    foldl-count_record rs p l c (t + 1),
  )

  -- The counts add up to the number of records.
  pub count_total :
      (rs : List (OrderRecord F))
      → count OrderState.pending rs
          + count OrderState.live rs
          + count OrderState.pending_cancel rs
          + count OrderState.terminal rs
        ≡ length rs
  count_total [] = refl
  count_total (r ∷ rs) = ground (arith, count_total rs)

  -- For a book of fewer than 2^32 records the snapshot gives for each state the number of records in
  -- it, and the four numbers add up to the length of the book.
  pub snapshot_state_counts_lem :
      (b : OrderBook F)
      → len b < 2 ^ 32
      → let n = λ (s : OrderState). count s (values b) in
        (snapshot_state_counts b
          ≡ (OrderState.pending, n OrderState.pending)
            ∷ (OrderState.live, n OrderState.live)
            ∷ (OrderState.pending_cancel, n OrderState.pending_cancel)
            ∷ (OrderState.terminal, n OrderState.terminal)
            ∷ [])
        × (n OrderState.pending
              + n OrderState.live
              + n OrderState.pending_cancel
              + n OrderState.terminal
            ≡ len b)
  unfolding snapshot_state_counts len
  snapshot_state_counts_lem b h =
      let small : length (values b) < 2 ^ 32 = omega (arith, length-values b.by_key) in
      (
        foldl-count_record (values b) 0 0 0 0 (omega arith) (omega arith) (omega arith)
              (omega arith)
            ∙ ground arith,
        count_total (values b) ∙ length-values b.by_key,
      )
    where
      length-values :
          (m : List (OurKey × OrderRecord F))
          → length (map (λ (e : OurKey × OrderRecord F). e.1) m) ≡ length m
      length-values [] = refl
      length-values (e ∷ m) = omega (arith, length-values m)
