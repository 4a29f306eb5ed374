-- ===== src/Hedge.antt =====
-- rust/corsair_hedge/src/state.rs: the hedge position of one product. Manager and Fanout model the
-- files of these names, ExecIds the set of execution ids that the manager keeps.
pub mod ExecIds
pub mod Manager
pub mod Fanout
pub mod Fills
pub mod Orders
pub mod Calls
pub mod Queued
mod Tests
use corsair.Base.{ℕ, Bool, true, false, ◌&&◌, ◌||◌, ◌==◌, if◌then◌else◌, ltb}
use corsair.Base.Integers.{ℤ, pos, ltb_ℤ, leb_ℤ, ℤ_eq, wrap_i32, neg_i32, add_i32, unsigned_abs}
use corsair.Float.{Float}

pub record HedgeState (F : Type 0) : Type 0 where
  pub hedge_qty : ℤ
  pub avg_entry_f : F
  pub realized_pnl_usd : F

-- The signed effect of a fill: `qty as i32`, negated for a sale.
unfoldable pub fill_effect : Bool → ℕ → ℤ
fill_effect is_buy qty = if is_buy then wrap_i32 (pos qty) else neg_i32 (wrap_i32 (pos qty))

-- `self.hedge_qty` and `effect` have no opposite signs.
abbrev pub same_direction : ℤ → ℤ → Bool
same_direction held effect =
    (leb_ℤ (pos 0) held && leb_ℤ (pos 0) effect) || (leb_ℤ held (pos 0) && leb_ℤ effect (pos 0))

module _ {F : Type 0} ⦃f : Float F⦄ where
  open f use {le, add, sub, mul, div, neg, decimal, of_int}

  unfoldable pub new : HedgeState F
  new = record { hedge_qty = pos 0; avg_entry_f = decimal 0 1; realized_pnl_usd = decimal 0 1 }

  -- The realized P&L after `contracts` of the position are closed at `price`.
  unfoldable pub realize : ℕ → F → F → HedgeState F → F
  realize contracts price multiplier s =
      let sign = if ltb_ℤ (pos 0) s.hedge_qty then decimal 1 0 else neg (decimal 1 0) in
      add s.realized_pnl_usd
        (mul (mul (mul sign (sub price s.avg_entry_f)) (of_int (pos contracts))) multiplier)

  unfoldable pub apply_fill : Bool → ℕ → F → F → HedgeState F → HedgeState F
  apply_fill is_buy qty price multiplier s =
      let effect = fill_effect is_buy qty in
      let new_qty = add_i32 s.hedge_qty effect in
      if new_qty == pos 0
      then (record {
        hedge_qty = pos 0;
        avg_entry_f = decimal 0 1;
        realized_pnl_usd = realize (unsigned_abs s.hedge_qty) price multiplier s;
      })
      else if same_direction s.hedge_qty effect
      then (record {
        hedge_qty = new_qty;
        avg_entry_f =
            div (add (mul s.avg_entry_f (of_int s.hedge_qty)) (mul price (of_int effect)))
              (of_int new_qty);
        realized_pnl_usd = s.realized_pnl_usd;
      })
      else if ltb (unsigned_abs effect) (unsigned_abs s.hedge_qty)
      then (record {
        hedge_qty = new_qty;
        avg_entry_f = s.avg_entry_f;
        realized_pnl_usd = realize (unsigned_abs effect) price multiplier s;
      })
      else (record {
        hedge_qty = new_qty;
        avg_entry_f = price;
        realized_pnl_usd = realize (unsigned_abs s.hedge_qty) price multiplier s;
      })

  unfoldable pub mtm_usd : F → F → HedgeState F → F
  mtm_usd current_f multiplier s =
      if s.hedge_qty == pos 0 || le current_f (decimal 0 1)
      then decimal 0 1
      else mul (mul (sub current_f s.avg_entry_f) (of_int s.hedge_qty)) multiplier

  unfoldable pub replace : ℤ → F → HedgeState F → HedgeState F
  replace qty avg_f s = record s { hedge_qty = qty; avg_entry_f = avg_f }
