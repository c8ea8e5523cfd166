-- ===== src/Position/Exit.antt =====
-- The exit rules of src/position.rs against a description of when each of them fires.
mod Trail
pub use Trail.{IsHighest, NoneReached, TrailDecision}
use Trail.{trail_exit-TrailDecision}
use hades_ps_trader.Base.{
  ℕ, ◌≡◌, ◌≤◌, ◌<◌, ◌⊎◌, inl, inr, true, false, Option, none, some, List, arith,
}
use hades_ps_trader.Float.{Float, IsOrdered}
use hades_ps_trader.Config.{Trading, DipBuyExitConfig}
use hades_ps_trader.Position.{
  Position, TrailTier, EntryTrigger, macd, capitulation, dip_buy, ExitReason, stop_loss,
  take_profit, dynamic_trail, max_hold_time, trail_exit, decide_exit_dip_buy, decide_exit_universal,
  decide_exit,
}
use hades_ps_trader.Position.Tiers.{IsAscending}

abbrev pub IsTimeUp : ℕ → ℕ → Type 0
IsTimeUp limit elapsed = (0 < limit) × (limit ≤ elapsed)

module _ {F : Type 0} ⦃fl : Float F⦄ where
  open fl use {of_ℕ, neg, lt, le}

  -- A limit of 0 or less, or NaN, switches a rule off.
  abbrev pub IsStopped : F → F → Type 0
  IsStopped limit pct = (lt (of_ℕ 0) limit ≡ true) × (le pct (neg limit) ≡ true)

  abbrev pub IsTarget : F → F → Type 0
  IsTarget limit pct = (lt (of_ℕ 0) limit ≡ true) × (le limit pct ≡ true)

  -- What each decision of the universal rule says, for the rule's limits, the peak and the tiers.
  abbrev pub UniversalDecision :
      (hold : ℕ) (stop target : F) (peak : F) (tiers : List (TrailTier F)) (elapsed : ℕ) (pct : F)
      → Option (ExitReason F)
      → Type 0
  UniversalDecision hold stop target peak tiers elapsed pct (some (max_hold_time e p)) =
      IsTimeUp hold elapsed × (e ≡ elapsed) × (p ≡ pct)
  UniversalDecision hold stop target peak tiers elapsed pct (some (stop_loss p)) =
      ¬ (IsTimeUp hold elapsed) × IsStopped stop pct × (p ≡ pct)
  UniversalDecision hold stop target peak tiers elapsed pct (some (take_profit p)) =
      ¬ (IsTimeUp hold elapsed) × ¬ (IsStopped stop pct) × IsTarget target pct × (p ≡ pct)
  UniversalDecision hold stop target peak tiers elapsed pct r =
      ¬ (IsTimeUp hold elapsed)
      × ¬ (IsStopped stop pct)
      × ¬ (IsTarget target pct)
      × TrailDecision peak pct tiers r

  -- The same for positions of the dip-buy trigger, whose trailing stop precedes the take-profit.
  abbrev pub DipBuyDecision :
      (hold : ℕ) (stop target : F) (peak : F) (tiers : List (TrailTier F)) (elapsed : ℕ) (pct : F)
      → Option (ExitReason F)
      → Type 0
  DipBuyDecision hold stop target peak tiers elapsed pct (some (max_hold_time e p)) =
      IsTimeUp hold elapsed × (e ≡ elapsed) × (p ≡ pct)
  DipBuyDecision hold stop target peak tiers elapsed pct (some (stop_loss p)) =
      ¬ (IsTimeUp hold elapsed) × IsStopped stop pct × (p ≡ pct)
  DipBuyDecision hold stop target peak tiers elapsed pct (some (take_profit p)) =
      ¬ (IsTimeUp hold elapsed)
      × ¬ (IsStopped stop pct)
      × TrailDecision peak pct tiers none
      × IsTarget target pct
      × (p ≡ pct)
  DipBuyDecision hold stop target peak tiers elapsed pct (some (dynamic_trail g t r p)) =
      ¬ (IsTimeUp hold elapsed)
      × ¬ (IsStopped stop pct)
      × TrailDecision peak pct tiers (some (dynamic_trail g t r p))
  DipBuyDecision hold stop target peak tiers elapsed pct none =
      ¬ (IsTimeUp hold elapsed)
      × ¬ (IsStopped stop pct)
      × TrailDecision peak pct tiers none
      × ¬ (IsTarget target pct)

  abbrev pub Decision :
      Position F
      → F
      → ℕ
      → Trading F
      → DipBuyExitConfig F
      → List (TrailTier F)
      → List (TrailTier F)
      → EntryTrigger
      → Option (ExitReason F)
      → Type 0
  Decision pos pct elapsed cfg exit tiers dip_buy_tiers dip_buy r =
      DipBuyDecision exit.max_hold_secs exit.stop_loss_pct exit.take_profit_pct pos.peak_pct
        dip_buy_tiers elapsed pct r
  Decision pos pct elapsed cfg exit tiers dip_buy_tiers _ r =
      UniversalDecision cfg.max_hold_time cfg.stop_loss_percent cfg.profit_target_percent
        pos.peak_pct tiers elapsed pct r

  module _ (laws : IsOrdered F) where
    universal_lem :
        (pos : Position F) (pct : F) (elapsed : ℕ) (cfg : Trading F) (tiers : List (TrailTier F))
        → IsAscending tiers
        → UniversalDecision cfg.max_hold_time cfg.stop_loss_percent cfg.profit_target_percent
            pos.peak_pct tiers elapsed pct
            (decide_exit_universal pos pct elapsed cfg tiers)
    unfolding decide_exit_universal
    universal_lem pos pct elapsed cfg tiers a =
        ground (arith, trail_exit-TrailDecision laws pos.peak_pct pct tiers a)

    dip_buy_lem :
        (pos : Position F) (pct : F) (elapsed : ℕ) (cfg : DipBuyExitConfig F)
        (tiers : List (TrailTier F))
        → IsAscending tiers
        → DipBuyDecision cfg.max_hold_secs cfg.stop_loss_pct cfg.take_profit_pct pos.peak_pct tiers
            elapsed pct
            (decide_exit_dip_buy pos pct elapsed cfg tiers)
    unfolding decide_exit_dip_buy
    dip_buy_lem pos pct elapsed cfg tiers a =
        ground (arith, trail_exit-TrailDecision laws pos.peak_pct pct tiers a)

    -- For numbers in their order and tiers in ascending order, the exit that `decide_exit` takes
    -- is that of the rules of the position's trigger in their order. For dip_buy: the hold time,
    -- the stop loss, the trailing stop and the target; for the others: the hold time, the stop
    -- loss, the target and the trailing stop. A rule with a limit of 0 is off, the trailing stop
    -- is that of the highest tier that the peak has reached, a reason reports the numbers that it
    -- was decided on, and no exit is taken only where no rule applies.
    pub decide_exit-Decision :
        (pos : Position F) (pct : F) (elapsed : ℕ) (cfg : Trading F) (exit : DipBuyExitConfig F)
        (tiers dip_buy_tiers : List (TrailTier F))
        → IsAscending tiers
        → IsAscending dip_buy_tiers
        → Decision pos pct elapsed cfg exit tiers dip_buy_tiers pos.entry_trigger
            (decide_exit pos pct elapsed cfg exit tiers dip_buy_tiers)
    unfolding decide_exit
    decide_exit-Decision pos pct elapsed cfg exit tiers dip_buy_tiers a b = ground (
      arith,
      universal_lem pos pct elapsed cfg tiers a,
      dip_buy_lem pos pct elapsed exit dip_buy_tiers b,
    )
