-- ===== src/Labels.antt =====
-- The texts of labels: of a token, in src/session.rs, src/trader.rs and src/copy_session.rs, of a
-- reason of an exit, in src/position.rs, and of a count, in src/onchain.rs. `format!` of numbers is
-- the interface `Format`.
use Prim.Native.String.{String, ◌++◌}
use hades_ps_trader.Base.{ℕ, Option, none, some, if◌then◌else◌}
use hades_ps_trader.Position.{ExitReason, stop_loss, take_profit, dynamic_trail, max_hold_time}
use hades_ps_trader.Onchain.Counts.{BondingCurveActivity}

-- `{:.n}` and `{:+.n}` of f64, and `{}` of an integer.
pub record Format (F : Type 0) : Type 0 where
  pub fixed : (places : ℕ) → F → String
  pub signed : (places : ℕ) → F → String
  pub decimal : ℕ → String

unfoldable pub display_label : (mint : String) → Option String → String
display_label mint (some s) = mint ++ " (" ++ s ++ ")"
display_label mint none = mint

module _ {F : Type 0} (fmt : Format F) where
  open fmt use {fixed, signed, decimal}

  unfoldable pub exit_reason_text : ExitReason F → String
  exit_reason_text (stop_loss pct) = "Stop loss (" ++ signed 2 pct ++ "%)"
  exit_reason_text (take_profit pct) = "Take profit (" ++ signed 2 pct ++ "%)"
  exit_reason_text (dynamic_trail tier_gain trail trigger_at_pct current_pct) =
      "Trailing stop (tier "
      ++ fixed 0 tier_gain
      ++ "% / trail "
      ++ fixed 0 trail
      ++ "%, trigger "
      ++ signed 2 trigger_at_pct
      ++ "%, exit "
      ++ signed 2 current_pct
      ++ "%)"
  exit_reason_text (max_hold_time elapsed_secs current_pct) =
      "Max hold time ("
      ++ decimal elapsed_secs
      ++ "s elapsed, exit "
      ++ signed 2 current_pct
      ++ "%)"

  unfoldable pub activity_text : BondingCurveActivity → String
  activity_text a = if a.capped then decimal a.count ++ "+" else decimal a.count
