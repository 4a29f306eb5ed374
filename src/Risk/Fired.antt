-- ===== src/Risk/Fired.antt =====
-- corsair_risk/src/monitor.rs: when the kill switch fires, and what a check leaves behind.
use corsair.Base.{
  ℕ, ◌≡◌, ◌≢◌, ◌↔◌, ◌⊎◌, true, false, Option, none, some, List, [], ◌∷◌, arith, refl, String,
  string_eq, inl, inr, sym, Option-cases, Bool-cases, subst, if◌then◌else◌,
}
use corsair.Float.{Float, IsOrdered, ◌≼◌, IsNumber}
use corsair.Position.{MarketView}
use corsair.Position.Portfolio.{PortfolioState}
use text.Mathlib.Text.{◌==◌ as text_beq}
use text.Mathlib.TextEquality.{eq_iff}
use corsair.Risk.{
  induced, induced_test, KillEvent, InducedSentinel, induced_sentinels, Directory, file_exists,
  remove_file, check_sentinels, check_induced_sentinels, RiskConfig, RiskCheckOutcome, healthy,
  killed, already_killed, RiskMonitor, is_killed, daily_breach, daily_pnl, first_breach, check,
  check_daily_pnl_only,
}

module _ {F : Type 0} ⦃f : Float F⦄ where
  open f use {lt, le, add, mul, abs, decimal}

  -- What an outcome says of the monitor before and after a call.
  abbrev pub Agrees : RiskCheckOutcome → RiskMonitor F → RiskMonitor F → Type 0
  Agrees healthy m m' = (m.kill ≡ none) × (m' ≡ m)
  Agrees (killed e) m m' = (m.kill ≡ none) × (m'.kill ≡ some e) × (m'.cfg ≡ m.cfg)
  Agrees (already_killed e) m m' = (m.kill ≡ some e) × (m' ≡ m)

  module _ (p : PortfolioState F) (margin delta theta vega : F) (market : MarketView F) (now : ℕ)
      (d : Directory) (m : RiskMonitor F) where
    -- The outcome of `check` is what happened to the monitor: it is healthy only where no kill was and
    -- none is active; it reports a new kill only where none was, and that kill is then active; and a
    -- kill that was active is reported, with the monitor and the sentinel files left as they were.
    pub check-Agrees :
        let (d', m', out) = check p margin delta theta vega market now d m in
        Agrees out m m' × (m.kill ≢ none → d' ≡ d)
    unfolding check
    check-Agrees = ground arith

  -- What every number must satisfy for no kill to fire.
  pub record IsWithin (cfg : RiskConfig F) (p : PortfolioState F) (margin delta theta vega : F)
      (market : MarketView F) : Type 0 where
    pub margin_ok : margin ≼ mul cfg.capital cfg.margin_kill_pct
    pub delta_ok : abs delta ≼ cfg.delta_kill
    pub vega_ok : (cfg.vega_kill ≼ decimal 0 1) ⊎ (abs vega ≼ cfg.vega_kill)
    pub theta_ok : (decimal 0 1 ≼ cfg.theta_kill) ⊎ (cfg.theta_kill ≼ theta)
    pub pnl_ok : (t : F) → cfg.daily_halt_threshold ≡ some t → t ≼ daily_pnl p market

  -- No number that the checks compare is NaN.
  pub record IsFinite (cfg : RiskConfig F) (p : PortfolioState F) (margin delta theta vega : F)
      (market : MarketView F) : Type 0 where
    pub margin_kill_number : IsNumber (mul cfg.capital cfg.margin_kill_pct)
    pub margin_number : IsNumber margin
    pub delta_number : IsNumber (abs delta)
    pub delta_kill_number : IsNumber cfg.delta_kill
    pub vega_number : IsNumber (abs vega)
    pub vega_kill_number : IsNumber cfg.vega_kill
    pub theta_number : IsNumber theta
    pub theta_kill_number : IsNumber cfg.theta_kill
    pub zero_number : IsNumber (decimal 0 1)
    pub pnl_number : IsNumber (daily_pnl p market)
    pub threshold_number : (t : F) → cfg.daily_halt_threshold ≡ some t → IsNumber t

  module _ (laws : IsOrdered F) (p : PortfolioState F) (margin delta theta vega : F)
      (market : MarketView F) (now : ℕ) where
    open laws use {lt-eq-not-le}

    pnl_iff :
        (cfg : RiskConfig F)
        → IsFinite cfg p margin delta theta vega market
        → (daily_breach cfg p market ≡ false)
          ↔ ((t : F) → cfg.daily_halt_threshold ≡ some t → t ≼ daily_pnl p market)
    pnl_iff cfg n = elim (Option-cases cfg.daily_halt_threshold) [
      | inl off ↦ (λ h t e. cc (off, e), λ h. rw off refl)
      | inr (t, on) ↦
          let flip = lt-eq-not-le (daily_pnl p market) t n.pnl_number (n.threshold_number t on) in
          (
            λ h t' e.
                let same : t' ≡ t = cc (e, on) in
                let low : lt (daily_pnl p market) t ≡ false = rw on at h in
                subst (λ z. z ≼ daily_pnl p market) (sym same) (ground (arith, flip, low)),
            λ h. rw on (ground (arith, flip, h t on)),
          )
    ]

    -- The limits other than the daily one, with its test.
    abbrev IsWithinLimits : RiskConfig F → Type 0
    IsWithinLimits cfg =
        (margin ≼ mul cfg.capital cfg.margin_kill_pct)
        × (abs delta ≼ cfg.delta_kill)
        × ((cfg.vega_kill ≼ decimal 0 1) ⊎ (abs vega ≼ cfg.vega_kill))
        × ((decimal 0 1 ≼ cfg.theta_kill) ⊎ (cfg.theta_kill ≼ theta))
        × (daily_breach cfg p market ≡ false)

    limits_iff :
        (cfg : RiskConfig F)
        → IsFinite cfg p margin delta theta vega market
        → (first_breach cfg p margin delta theta vega market now ≡ none) ↔ IsWithinLimits cfg
    unfolding first_breach
    limits_iff cfg n = ground (
      arith,
      lt-eq-not-le (mul cfg.capital cfg.margin_kill_pct) margin n.margin_kill_number
          n.margin_number,
      lt-eq-not-le cfg.delta_kill (abs delta) n.delta_kill_number n.delta_number,
      lt-eq-not-le (decimal 0 1) cfg.vega_kill n.zero_number n.vega_kill_number,
      lt-eq-not-le cfg.vega_kill (abs vega) n.vega_kill_number n.vega_number,
      lt-eq-not-le cfg.theta_kill (decimal 0 1) n.theta_kill_number n.zero_number,
      lt-eq-not-le theta cfg.theta_kill n.theta_number n.theta_kill_number,
    )

    -- With no kill active and no sentinel fired, and with no NaN among the numbers compared, `check`
    -- finds the monitor healthy exactly when the margin, the absolute delta, the absolute vega and the
    -- theta are within their kill limits, those of vega and theta where they are switched on, and the
    -- daily P&L is not below the threshold, where there is one.
    pub check-healthy_iff :
        (d : Directory) (m : RiskMonitor F)
        → m.kill ≡ none
        → (check_induced_sentinels now d).1 ≡ none
        → IsFinite m.cfg p margin delta theta vega market
        → ((check p margin delta theta vega market now d m).2 ≡ healthy)
          ↔ IsWithin m.cfg p margin delta theta vega market
    unfolding check
    check-healthy_iff d m idle quiet n =
        let limits = limits_iff m.cfg n in
        let pnl = pnl_iff m.cfg n in
        let none_iff : ((check p margin delta theta vega market now d m).2 ≡ healthy)
            ↔ (first_breach m.cfg p margin delta theta vega market now ≡ none) =
          ground (arith, idle, quiet) in
        (
          λ h.
              let w = limits.0 (none_iff.0 h) in
              record {
                margin_ok = w.0;
                delta_ok = w.1;
                vega_ok = w.2;
                theta_ok = w.3;
                pnl_ok = pnl.0 w.4;
              },
          λ w.
              none_iff.1
                (limits.1 (w.margin_ok, w.delta_ok, w.vega_ok, w.theta_ok, pnl.1 w.pnl_ok)),
        )

  -- The fill path fires only where a full check with the same book would: if `check_daily_pnl_only`
  -- kills a monitor, then that had no active kill, and `check` is not healthy and leaves it killed,
  -- whatever the other numbers and the sentinel files.
  pub check_daily_pnl_only-check :
      (p : PortfolioState F) (margin delta theta vega : F) (market : MarketView F) (now : ℕ)
      (d : Directory) (m : RiskMonitor F) (e : KillEvent)
      → (check_daily_pnl_only p market now m).1 ≡ killed e
      → let r = check p margin delta theta vega market now d m in
        (m.kill ≡ none) × (r.2 ≢ healthy) × (is_killed r.1 ≡ true)
  unfolding check_daily_pnl_only check first_breach is_killed
  check_daily_pnl_only-check p margin delta theta vega market now d m e h = ground arith

-- The sentinel files are removed before they fire.
file_exists-remove_file :
    (name other : String) (files : List String)
    → file_exists other (remove_file name files)
      ≡ (if text_beq name other then false else file_exists other files)
unfolding file_exists remove_file
file_exists-remove_file name other [] = ground arith
file_exists-remove_file name other (n ∷ ns) =
    ground (
      arith,
      eq_iff n name,
      eq_iff n other,
      eq_iff name other,
      file_exists-remove_file name other ns,
    )

-- A sentinel that fires was in the directory and is one of the table; its file could be removed and
-- is gone afterwards, every other file is where it was, and the kill carries its type and, marked as
-- induced, its source. Where none fires the directory is as it was.
pub data FiredBy (now : ℕ) (d d' : Directory)
    : List InducedSentinel → Option KillEvent → Type 0 where
  quiet : {ss : List InducedSentinel} → d' ≡ d → FiredBy now d d' ss none
  first :
      {ss : List InducedSentinel} (s : InducedSentinel)
      → file_exists s.filename d.files ≡ true
      → d.removable s.filename ≡ true
      → file_exists s.filename d'.files ≡ false
      → ((other : String)
          → s.filename ≢ other
          → file_exists other d'.files ≡ file_exists other d.files)
      → FiredBy now d d' (s ∷ ss) (
          some (record {
            reason = induced_test s.key;
            source = induced s.inner_source;
            kill_type = s.kill_type;
            timestamp_ns = now;
          }))
  later :
      {ss : List InducedSentinel} {o : Option KillEvent} (s : InducedSentinel)
      → FiredBy now d d' ss o
      → FiredBy now d d' (s ∷ ss) o

check_sentinels-FiredBy :
    (ss : List InducedSentinel) (now : ℕ) (d : Directory)
    → let r = check_sentinels ss now d in FiredBy now d r.0 ss r.1
unfolding check_sentinels
check_sentinels-FiredBy [] now d = FiredBy.quiet refl
check_sentinels-FiredBy (s ∷ ss) now d = elim (Bool-cases (file_exists s.filename d.files)) [
  | inr absent ↦ rw absent (FiredBy.later s (check_sentinels-FiredBy ss now d))
  | inl present ↦ elim (Bool-cases (d.removable s.filename)) [
    | inr stuck ↦ rw (present, stuck) (FiredBy.quiet refl)
    | inl free ↦
        rw (present, free)
          (FiredBy.first s present free
            (ground (
              arith,
              file_exists-remove_file s.filename s.filename d.files,
              eq_iff s.filename s.filename,
            ))
            (λ other ne.
              ground
                (arith, file_exists-remove_file s.filename other d.files, eq_iff s.filename other)))
  ]
]

-- What `check_induced_sentinels` reports is a sentinel of the table that was in the directory, whose
-- file could be removed and is gone afterwards with every other file left, or nothing, with the
-- directory as it was.
pub check_induced_sentinels-FiredBy :
    (now : ℕ) (d : Directory)
    → let r = check_induced_sentinels now d in FiredBy now d r.0 induced_sentinels r.1
unfolding check_induced_sentinels
check_induced_sentinels-FiredBy now d = check_sentinels-FiredBy induced_sentinels now d
