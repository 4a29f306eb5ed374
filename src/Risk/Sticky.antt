-- ===== src/Risk/Sticky.antt =====
-- corsair_risk/src/monitor.rs: which kills stay, over any sequence of calls.
use corsair.Base.{ℕ, ◌≡◌, true, false, some, List, [], ◌∷◌, arith, refl, ap, ◌∙◌}
use corsair.Float.{Float}
use corsair.Position.{MarketView}
use corsair.Position.Portfolio.{PortfolioState}
use corsair.Risk.{
  KillSource, KillEvent, is_daily_clearable, is_disconnect, Directory, RiskMonitor, check,
  check_daily_pnl_only, clear_disconnect_kill, clear_daily_halt,
}

-- A call on the monitor, with what it is given.
pub data Call (F : Type 0) : Type 0 where
  checked : PortfolioState F → F → F → F → F → MarketView F → ℕ → Directory → Call F
  filled : PortfolioState F → MarketView F → ℕ → Call F
  reconnected : Call F
  rolled_over : Call F

module _ {F : Type 0} ⦃f : Float F⦄ where
  unfoldable pub run : List (Call F) → RiskMonitor F → RiskMonitor F
  unfolding check check_daily_pnl_only clear_disconnect_kill clear_daily_halt
  run [] m = m
  run (checked p margin delta theta vega market now d ∷ cs) m =
      run cs (check p margin delta theta vega market now d m).1
  run (filled p market now ∷ cs) m = run cs (check_daily_pnl_only p market now m).0
  run (reconnected ∷ cs) m = run cs (clear_disconnect_kill m).0
  run (rolled_over ∷ cs) m = run cs (clear_daily_halt m).0

  -- A call that clears a source.
  abbrev pub Clears : Call F → KillSource → Type 0
  Clears reconnected s = is_disconnect s ≡ true
  Clears rolled_over s = is_daily_clearable s ≡ true
  Clears _ s = ⊥

  abbrev pub NoneClears : List (Call F) → KillSource → Type 0
  NoneClears [] s = Unit
  NoneClears (c ∷ cs) s = ¬ (Clears c s) × NoneClears cs s

  -- Over any sequence of calls of which none clears the source of the active kill, the monitor does
  -- not change: a reconnect clears a disconnect kill alone, a session rollover a daily halt or an
  -- induced one, and the checks clear nothing and replace nothing.
  pub run-sticky :
      (cs : List (Call F)) (m : RiskMonitor F) (e : KillEvent)
      → m.kill ≡ some e
      → NoneClears cs e.source
      → run cs m ≡ m
  unfolding run
  run-sticky [] m e h n = refl
  run-sticky (checked p margin delta theta vega market now d ∷ cs) m e h n =
      ground (arith, run-sticky cs m e h n.1)
  run-sticky (filled p market now ∷ cs) m e h n = ground (arith, run-sticky cs m e h n.1)
  run-sticky (reconnected ∷ cs) m e h n = ground (arith, run-sticky cs m e)
  run-sticky (rolled_over ∷ cs) m e h n = ground (arith, run-sticky cs m e)

  -- A kill from a risk limit, a reconciliation, an exception storm, an operational fault or an induced
  -- risk test is cleared by no sequence of calls.
  pub risk_stays :
      (cs : List (Call F)) (m : RiskMonitor F) (e : KillEvent)
      → m.kill ≡ some e
      → is_disconnect e.source ≡ false
      → is_daily_clearable e.source ≡ false
      → (run cs m).kill ≡ some e
  risk_stays cs m e h nd nc =
      ap (λ (m' : RiskMonitor F). m'.kill) (run-sticky cs m e h (none_clears cs)) ∙ h
    where
      none_clears : (cs : List (Call F)) → NoneClears cs e.source
      none_clears [] = tt
      none_clears (checked p margin delta theta vega market now d ∷ cs) = (λ z. z, none_clears cs)
      none_clears (filled p market now ∷ cs) = (λ z. z, none_clears cs)
      none_clears (reconnected ∷ cs) = (λ z. cc (z, nd), none_clears cs)
      none_clears (rolled_over ∷ cs) = (λ z. cc (z, nc), none_clears cs)
