-- ===== src/Position.antt =====
-- src/position.rs: an open position, the tiers of the trailing stop, and the exit rules.
pub mod Tiers
pub mod Exit
pub mod Peak
use Prim.Native.String.{String}
use hades_ps_trader.Base.{
  ℕ, ◌≡◌, Bool, true, false, ◌&&◌, Option, none, some, List, [], ◌∷◌, ltb, leb, reverse,
  if◌then◌else◌,
}
use hades_ps_trader.Float.{Float}
use hades_ps_trader.Config.{Trading, DipBuyExitConfig}

pub data EntryTrigger : Type 0 where
  macd capitulation dip_buy : EntryTrigger

pub record Position (F : Type 0) : Type 0 where
  pub mint : String
  pub name : Option String
  pub symbol : Option String
  pub entry_price_sol : F
  pub cost_sol : F
  pub peak_pct : F
  -- nanoseconds on the monotonic clock
  pub bought_at : ℕ
  pub entry_trigger : EntryTrigger

pub record TrailTier (F : Type 0) : Type 0 where
  pub gain_pct : F
  pub trail_pct : F

pub data ExitReason (F : Type 0) : Type 0 where
  stop_loss : (pct : F) → ExitReason F
  take_profit : (pct : F) → ExitReason F
  dynamic_trail : (tier_gain trail trigger_at_pct current_pct : F) → ExitReason F
  max_hold_time : (elapsed_secs : ℕ) (current_pct : F) → ExitReason F

module _ {F : Type 0} ⦃fl : Float F⦄ where
  open fl use {of_ℕ, sub, mul, div, neg, lt, le}

  unfoldable pub pnl_pct : Position F → F → F
  pnl_pct pos current_price_sol =
      if le pos.entry_price_sol (of_ℕ 0)
      then of_ℕ 0
      else mul (div (sub current_price_sol pos.entry_price_sol) pos.entry_price_sol) (of_ℕ 100)

  unfoldable pub update_peak : Position F → F → Position F
  update_peak pos current_pct =
      if lt pos.peak_pct current_pct then record pos { peak_pct = current_pct } else pos

  -- `iter().find(|t| peak_pct >= t.gain_pct)`
  unfoldable pub find_tier : F → List (TrailTier F) → Option (TrailTier F)
  find_tier peak [] = none
  find_tier peak (t ∷ ts) = if le t.gain_pct peak then some t else find_tier peak ts

  -- The trailing stop of both exit rules: the highest tier that the peak has reached.
  unfoldable pub trail_exit : F → F → List (TrailTier F) → Option (ExitReason F)
  trail_exit peak current_pct tiers = elim (find_tier peak (reverse tiers)) [
    | none ↦ none
    | some tier ↦
        let trigger = sub peak tier.trail_pct in
        if le current_pct trigger
        then some (dynamic_trail tier.gain_pct tier.trail_pct trigger current_pct)
        else none
  ]

  unfoldable pub decide_exit_dip_buy :
      Position F → F → ℕ → DipBuyExitConfig F → List (TrailTier F) → Option (ExitReason F)
  decide_exit_dip_buy pos current_pct elapsed_secs cfg tiers =
      if ltb 0 cfg.max_hold_secs && leb cfg.max_hold_secs elapsed_secs
      then some (max_hold_time elapsed_secs current_pct)
      else if lt (of_ℕ 0) cfg.stop_loss_pct && le current_pct (neg cfg.stop_loss_pct)
      then some (stop_loss current_pct)
      else elim (trail_exit pos.peak_pct current_pct tiers) [
        | some reason ↦ some reason
        | none ↦
            if lt (of_ℕ 0) cfg.take_profit_pct && le cfg.take_profit_pct current_pct
            then some (take_profit current_pct)
            else none
      ]

  unfoldable pub decide_exit_universal :
      Position F → F → ℕ → Trading F → List (TrailTier F) → Option (ExitReason F)
  decide_exit_universal pos current_pct elapsed_secs cfg tiers =
      if ltb 0 cfg.max_hold_time && leb cfg.max_hold_time elapsed_secs
      then some (max_hold_time elapsed_secs current_pct)
      else if lt (of_ℕ 0) cfg.stop_loss_percent && le current_pct (neg cfg.stop_loss_percent)
      then some (stop_loss current_pct)
      else if lt (of_ℕ 0) cfg.profit_target_percent && le cfg.profit_target_percent current_pct
      then some (take_profit current_pct)
      else trail_exit pos.peak_pct current_pct tiers

  unfoldable pub decide_exit :
      Position F
      → F
      → ℕ
      → Trading F
      → DipBuyExitConfig F
      → List (TrailTier F)
      → List (TrailTier F)
      → Option (ExitReason F)
  decide_exit pos current_pct elapsed_secs cfg dip_buy_exit universal_tiers dip_buy_tiers =
      elim pos.entry_trigger [
        | dip_buy ↦ decide_exit_dip_buy pos current_pct elapsed_secs dip_buy_exit dip_buy_tiers
        | macd ↦ decide_exit_universal pos current_pct elapsed_secs cfg universal_tiers
        | capitulation ↦ decide_exit_universal pos current_pct elapsed_secs cfg universal_tiers
      ]
