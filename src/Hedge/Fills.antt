-- ===== src/Hedge/Fills.antt =====
-- Fills of the hedge: rust/corsair_hedge/src/state.rs and the confirmations of manager.rs.
use corsair.Base.{
  ◌<◌, ◌≡◌, ◌≢◌, refl, sym, subst, Bool, not, ◌&&◌, ◌||◌, true, false, arith, Bool-cases, inl, inr,
  ◌==◌, min, string_eq,
}
use corsair.Base.Integers.{ℤ, pos, unsigned_abs, ◌+ℤ◌, ℤ_eq}
use corsair.Float.{Float}
use corsair.Hedge.{HedgeState, apply_fill, realize, same_direction}
use corsair.Hedge.ExecIds.{IsQueued, record_id, contains, record_id-IsQueued, contains-record_id}
use corsair.Hedge.Manager.{
  HedgeManager, Fill, apply_broker_fill, processed_exec_ids_max, is_execute, is_ours, is_buy_side,
}

module _ {F : Type 0} ⦃f : Float F⦄ where
  -- What a fill does to the hedge position: the new quantity, what it realizes, and the entry price.
  pub record IsFilled (effect : ℤ) (price multiplier : F) (s s' : HedgeState F) : Type 0 where
    pub quantity : s'.hedge_qty ≡ s.hedge_qty +ℤ effect
    pub flat : s'.hedge_qty ≡ pos 0 → s'.avg_entry_f ≡ f.decimal 0 1
    pub added :
        same_direction s.hedge_qty effect ≡ true
        → s'.hedge_qty ≢ pos 0
        → s'.realized_pnl_usd ≡ s.realized_pnl_usd
    pub closed :
        same_direction s.hedge_qty effect ≡ false
        → s'.realized_pnl_usd
          ≡ realize (min (unsigned_abs effect) (unsigned_abs s.hedge_qty)) price multiplier s
    pub reduced :
        same_direction s.hedge_qty effect ≡ false
        → unsigned_abs effect < unsigned_abs s.hedge_qty
        → s'.avg_entry_f ≡ s.avg_entry_f
    pub flipped :
        same_direction s.hedge_qty effect ≡ false
        → unsigned_abs s.hedge_qty < unsigned_abs effect
        → s'.avg_entry_f ≡ price

  accepts : Fill F → HedgeManager F → Bool
  accepts fill m =
      is_execute m.cfg.mode
      && is_ours fill m.hedge_contract
      && not (fill.exec_id == "" || contains fill.exec_id m.exec_ids.processed)

  applied : Fill F → HedgeManager F → HedgeManager F
  applied fill m = record m {
    exec_ids = record_id processed_exec_ids_max fill.exec_id m.exec_ids;
    state = apply_fill (is_buy_side fill.side) fill.qty fill.price m.cfg.multiplier m.state;
  }

  apply_broker_fill-accepted :
      (fill : Fill F) (m : HedgeManager F)
      → accepts fill m ≡ true
      → apply_broker_fill fill m ≡ (applied fill m, true)
  unfolding apply_broker_fill accepts applied
  apply_broker_fill-accepted fill m h = ground arith

  apply_broker_fill-refused :
      (fill : Fill F) (m : HedgeManager F)
      → accepts fill m ≡ false
      → apply_broker_fill fill m ≡ (m, false)
  unfolding apply_broker_fill accepts
  apply_broker_fill-refused fill m h = ground arith

  fresh_id :
      (fill : Fill F) (m : HedgeManager F)
      → accepts fill m ≡ true
      → contains fill.exec_id m.exec_ids.processed ≡ false
  unfolding accepts
  fresh_id fill m h = ground arith

  refused_again : (fill : Fill F) (m : HedgeManager F) → accepts fill (applied fill m) ≡ false
  unfolding accepts applied
  refused_again fill m =
      ground (arith, contains-record_id processed_exec_ids_max fill.exec_id m.exec_ids)

  -- The outcome of a confirmation: nothing changed and it was refused, or the fill was applied and
  -- its id recorded, and a second confirmation of it would change nothing.
  pub record IsOnce (fill : Fill F) (m : HedgeManager F) (r : HedgeManager F × Bool) : Type 0 where
    pub queued : IsQueued processed_exec_ids_max r.0.exec_ids
    pub refused : r.1 ≡ false → r.0 ≡ m
    pub filled :
        r.1 ≡ true
        → r.0.state
          ≡ apply_fill (is_buy_side fill.side) fill.qty fill.price m.cfg.multiplier m.state
    pub again : apply_broker_fill fill r.0 ≡ (r.0, false)

  -- The same execution is never counted twice in a row. Where the set and the queue of ids were in
  -- step: a second confirmation of a fill changes nothing, whatever the outcome of the first; the
  -- outcome is true only where the hedge took the fill, and false only where nothing changed; and
  -- the set and the queue stay in step, the queue with each id once and at most 10,000 of them.
  pub apply_broker_fill-IsOnce :
      (fill : Fill F) (m : HedgeManager F)
      → IsQueued processed_exec_ids_max m.exec_ids
      → IsOnce fill m (apply_broker_fill fill m)
  unfolding applied
  apply_broker_fill-IsOnce fill m q = elim (Bool-cases (accepts fill m)) [
    | inl took ↦ subst (IsOnce fill m) (sym (apply_broker_fill-accepted fill m took)) (record {
      queued =
          record_id-IsQueued processed_exec_ids_max fill.exec_id m.exec_ids (ground arith)
            (fresh_id fill m took) q;
      refused = λ h. absurd (cc h);
      filled = λ h. refl;
      again = apply_broker_fill-refused fill (applied fill m) (refused_again fill m);
    })
    | inr refusal ↦
        let same = apply_broker_fill-refused fill m refusal in
        subst (IsOnce fill m) (sym same)
          (record { queued = q; refused = λ h. refl; filled = λ h. absurd (cc h); again = same })
  ]
