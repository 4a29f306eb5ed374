-- ===== src/Risk.antt =====
-- rust/corsair_risk/src/monitor.rs, kill.rs and sentinel.rs: the kill switch. The texts of kill
-- reasons are only logged; here a reason is the switch that fired. The clock is an argument, and so is
-- the directory of sentinel files: which files are there, and which of them can be removed.
pub mod Fired
pub mod Sticky
mod Tests
use corsair.Base.{
  ℕ, Bool, true, false, ◌&&◌, Option, none, some, List, [], ◌∷◌, ◌==◌, PartialEq, string_eq, String,
  if◌then◌else◌,
}
use corsair.Float.{Float}
use corsair.Position.{MarketView}
use corsair.Position.Portfolio.{PortfolioState}
use corsair.Position.Totals.{compute_mtm_pnl}

pub data KillType : Type 0 where
  halt flatten hedge_flat : KillType

pub data KillSource : Type 0 where
  risk disconnect daily_halt reconciliation exception_storm operational : KillSource
  induced : KillSource → KillSource

unfoldable pub is_daily_clearable : KillSource → Bool
is_daily_clearable daily_halt = true
is_daily_clearable (induced daily_halt) = true
is_daily_clearable _ = false

unfoldable pub is_disconnect : KillSource → Bool
is_disconnect disconnect = true
is_disconnect _ = false

-- What the texts of the kill reasons begin with.
pub data Reason : Type 0 where
  margin_kill delta_kill vega_halt theta_halt daily_pnl_halt daily_pnl_halt_fill : Reason
  induced_test : String → Reason

pub record KillEvent : Type 0 where
  pub reason : Reason
  pub source : KillSource
  pub kill_type : KillType
  pub timestamp_ns : ℕ

pub record InducedSentinel : Type 0 where
  pub key : String
  pub filename : String
  pub kill_type : KillType
  pub inner_source : KillSource

abbrev pub induced_sentinels : List InducedSentinel
induced_sentinels =
    record {
      key = "daily_pnl";
      filename = "corsair_induce_daily_pnl";
      kill_type = halt;
      inner_source = daily_halt;
    }
    ∷ record {
      key = "margin";
      filename = "corsair_induce_margin";
      kill_type = halt;
      inner_source = risk;
    }
    ∷ record {
      key = "delta";
      filename = "corsair_induce_delta";
      kill_type = hedge_flat;
      inner_source = risk;
    }
    ∷ record {
      key = "theta";
      filename = "corsair_induce_theta";
      kill_type = halt;
      inner_source = risk;
    }
    ∷ record {
      key = "vega";
      filename = "corsair_induce_vega";
      kill_type = halt;
      inner_source = risk;
    }
    ∷ []

-- The sentinel directory: the names of its files, and whether a name can be removed.
pub record Directory : Type 0 where
  pub files : List String
  pub removable : String → Bool

unfoldable pub file_exists : String → List String → Bool
file_exists name [] = false
file_exists name (n ∷ ns) = if n == name then true else file_exists name ns

unfoldable pub remove_file : String → List String → List String
remove_file name [] = []
remove_file name (n ∷ ns) = if n == name then remove_file name ns else n ∷ remove_file name ns

-- The loop of `check_induced_sentinels`: the first file that is there is removed and fires; one that
-- cannot be removed ends the loop with nothing fired.
unfoldable pub check_sentinels : List InducedSentinel → ℕ → Directory → Directory × Option KillEvent
check_sentinels [] now d = (d, none)
check_sentinels (s ∷ ss) now d =
    let rest = check_sentinels ss now d in
    if file_exists s.filename d.files
    then (if d.removable s.filename
        then (
          record d { files = remove_file s.filename d.files },
          some (record {
            reason = induced_test s.key;
            source = induced s.inner_source;
            kill_type = s.kill_type;
            timestamp_ns = now;
          }),
        )
        else (d, none))
    else rest

unfoldable pub check_induced_sentinels : ℕ → Directory → Directory × Option KillEvent
check_induced_sentinels = check_sentinels induced_sentinels

pub record RiskConfig (F : Type 0) : Type 0 where
  pub capital : F
  pub margin_kill_pct : F
  pub daily_halt_threshold : Option F
  pub delta_kill : F
  pub vega_kill : F
  pub theta_kill : F
  pub margin_ceiling_pct : F
  pub effective_delta_gating : Bool

pub data RiskCheckOutcome : Type 0 where
  healthy : RiskCheckOutcome
  killed already_killed : KillEvent → RiskCheckOutcome

pub record RiskMonitor (F : Type 0) : Type 0 where
  pub cfg : RiskConfig F
  pub kill : Option KillEvent

abbrev event : Reason → KillSource → KillType → ℕ → KillEvent
event r s t now = record { reason = r; source = s; kill_type = t; timestamp_ns = now }

module _ {F : Type 0} ⦃f : Float F⦄ where
  open f use {lt, add, mul, neg, abs, decimal}

  -- `RiskConfig::resolve_daily_halt_threshold`
  unfoldable pub resolve_daily_halt_threshold : Option F → Option F → F → Option F
  resolve_daily_halt_threshold daily_pnl_halt_pct max_daily_loss capital =
      let from_loss : Option F = elim max_daily_loss [
        | none ↦ none
        | some loss ↦ if lt loss (decimal 0 1) then some loss else none
      ] in
      elim daily_pnl_halt_pct [
        | none ↦ from_loss
        | some pct ↦
            if lt (decimal 0 1) pct && lt (decimal 0 1) capital
            then some (neg (mul pct capital))
            else from_loss
      ]

  unfoldable pub new : RiskConfig F → RiskMonitor F
  new cfg = record { cfg = cfg; kill = none }

  unfoldable pub is_killed : RiskMonitor F → Bool
  is_killed m = elim m.kill [ none ↦ false | some e ↦ true ]

  -- `fire`
  abbrev fire : KillEvent → RiskMonitor F → RiskMonitor F × RiskCheckOutcome
  fire e m = (record m { kill = some e }, killed e)

  -- The daily P&L that the halt compares with its threshold.
  unfoldable pub daily_pnl : PortfolioState F → MarketView F → F
  daily_pnl portfolio market =
      add portfolio.realized_pnl_persisted (compute_mtm_pnl market portfolio)

  abbrev pub daily_breach : RiskConfig F → PortfolioState F → MarketView F → Bool
  daily_breach cfg portfolio market = elim cfg.daily_halt_threshold [
    | none ↦ false
    | some threshold ↦ lt (daily_pnl portfolio market) threshold
  ]

  -- The checks of `check` behind the sentinels: the kill of the first one that fails.
  unfoldable pub first_breach :
      RiskConfig F → PortfolioState F → F → F → F → F → MarketView F → ℕ → Option KillEvent
  first_breach cfg portfolio margin_used worst_delta worst_theta worst_vega market now =
      if lt (mul cfg.capital cfg.margin_kill_pct) margin_used
      then some (event margin_kill risk halt now)
      else if lt cfg.delta_kill (abs worst_delta)
      then some (event delta_kill risk hedge_flat now)
      else if lt (decimal 0 1) cfg.vega_kill && lt cfg.vega_kill (abs worst_vega)
      then some (event vega_halt risk halt now)
      else if lt cfg.theta_kill (decimal 0 1) && lt worst_theta cfg.theta_kill
      then some (event theta_halt risk halt now)
      else if daily_breach cfg portfolio market
      then some (event daily_pnl_halt daily_halt halt now)
      else none

  -- `none` for no kill: the monitor is as before, and healthy.
  abbrev fire_if : Option KillEvent → RiskMonitor F → RiskMonitor F × RiskCheckOutcome
  fire_if none m = (m, healthy)
  fire_if (some e) m = fire e m

  unfoldable pub check :
      PortfolioState F
      → F
      → F
      → F
      → F
      → MarketView F
      → ℕ
      → Directory
      → RiskMonitor F
      → Directory × RiskMonitor F × RiskCheckOutcome
  unfolding first_breach
  check portfolio margin_used worst_delta worst_theta worst_vega market now d m =
      let (d', induced_kill) = check_induced_sentinels now d in
      elim m.kill [
        | some e ↦ (d, m, already_killed e)
        | none ↦ elim induced_kill [
          | some e ↦ (d', (fire e m).0, (fire e m).1)
          | none ↦
              let r =
                fire_if
                  (first_breach m.cfg portfolio margin_used worst_delta worst_theta worst_vega
                    market now)
                  m in
              (d', r.0, r.1)
        ]
      ]

  unfoldable pub check_daily_pnl_only :
      PortfolioState F → MarketView F → ℕ → RiskMonitor F → RiskMonitor F × RiskCheckOutcome
  check_daily_pnl_only portfolio market now m = elim m.kill [
    | some e ↦ (m, already_killed e)
    | none ↦
        if daily_breach m.cfg portfolio market
        then fire (event daily_pnl_halt_fill daily_halt halt now) m
        else (m, healthy)
  ]

  unfoldable pub clear_disconnect_kill : RiskMonitor F → RiskMonitor F × Bool
  clear_disconnect_kill m = elim m.kill [
    | none ↦ (m, false)
    | some e ↦ if is_disconnect e.source then (record m { kill = none }, true) else (m, false)
  ]

  unfoldable pub clear_daily_halt : RiskMonitor F → RiskMonitor F × Bool
  clear_daily_halt m = elim m.kill [
    | none ↦ (m, false)
    | some e ↦ if is_daily_clearable e.source then (record m { kill = none }, true) else (m, false)
  ]
