-- ===== src/Copy.antt =====
-- src/copy_session.rs: a session that copies a buy of a followed wallet. Here stand the rules of its
-- exit and its sell; the loop that watches the position is Copy/Watch, what follows the answer
-- to a buy is Copy/Entry, and the session from its first line on is Copy/Handle. The text of a
-- reason is the data that it prints.
pub mod Watch
pub mod Entry
pub mod Handle
pub mod Exit
pub mod Mirror
pub mod Closing
pub mod Slot
pub mod Spends
pub mod Deadline
pub mod Panic
pub mod Paper
use Prim.Native.String.{String}
use hades_ps_trader.Base.{
  ℕ, Bool, true, false, ◌&&◌, Option, none, some, List, [], ◌∷◌, ltb, leb, if◌then◌else◌,
}
use hades_ps_trader.Base.Result.{ok, err}
use hades_ps_trader.Float.{Float}
use hades_ps_trader.Config.{Config, CopyTradeConfig}
use hades_ps_trader.Position.{
  TrailTier, ExitReason, stop_loss, take_profit, max_hold_time, trail_exit,
}
use hades_ps_trader.Rug.{RugReason}
use hades_ps_trader.Trader.{Attempt, Sent, sell_all}

pub data CopyReason (F : Type 0) : Type 0 where
  rug_detected : RugReason F → CopyReason F
  exit_rule : ExitReason F → CopyReason F
  max_hold shutdown mirror_exit forced_exit : CopyReason F

pub data CopyNotice (F : Type 0) : Type 0 where
  notify_buy :
      (mint : String) (symbol : Option String)
      → (amount_sol token_ui entry_price_sol : F) → CopyNotice F
  notify_orphan_buy :
      (mint : String) (symbol : Option String) (sig : ℕ) (amount_sol : F) → CopyNotice F
  notify_sell :
      (mint : String) (symbol : Option String)
      → CopyReason F
      → (pct net_return_sol : F) → CopyNotice F

-- What the session holds: fixed once it has entered.
pub record Holding (F : Type 0) : Type 0 where
  pub mint : String
  pub symbol : Option String
  pub amount_sol : F
  pub entry_price_sol : F
  -- nanoseconds on the monotonic clock
  pub bought_at : ℕ
  pub alpha_wallet : String
  pub alpha_entry_balance : Option F

module _ {F : Type 0} ⦃fl : Float F⦄ where
  open fl use {of_ℕ, sub, mul, div, neg, lt, le}

  unfoldable pub pnl_of : F → F → F
  pnl_of entry current =
      if le entry (of_ℕ 0) then of_ℕ 0 else mul (div (sub current entry) entry) (of_ℕ 100)

  -- The balances of the followed wallet after its entry and after its sell.
  unfoldable pub closed_by : Option F → Option F → F → Bool
  closed_by entry none close_fraction = true
  closed_by none (some post) close_fraction = true
  closed_by (some entry) (some post) close_fraction =
      if le entry (of_ℕ 0) then true else le post (mul entry close_fraction)

  unfoldable pub alpha_closed : Option F → Option F → F → Bool → Bool
  unfolding closed_by
  alpha_closed entry post close_fraction first_sell =
      if first_sell then true else closed_by entry post close_fraction

  unfoldable pub copy_exit :
      (peak_pct current_pct : F)
      → (elapsed_secs : ℕ) → CopyTradeConfig F
      → List (TrailTier F)
      → (mirror : Bool) (max_hold_secs : ℕ) → Option (ExitReason F)
  copy_exit peak_pct current_pct elapsed_secs cc tiers mirror max_hold_secs =
      if ltb 0 max_hold_secs && leb max_hold_secs elapsed_secs
      then some (max_hold_time elapsed_secs current_pct)
      else if lt (of_ℕ 0) cc.stop_loss_pct && le current_pct (neg cc.stop_loss_pct)
      then some (stop_loss current_pct)
      else if mirror
      then none
      else elim (trail_exit peak_pct current_pct tiers) [
        | some reason ↦ some reason
        | none ↦
            if lt (of_ℕ 0) cc.take_profit_pct && le cc.take_profit_pct current_pct
            then some (take_profit current_pct)
            else none
      ]

  -- `do_sell`: what it sends and reports, and whether it succeeded.
  unfoldable pub do_sell :
      Config F
      → Bool
      → (ℕ → F → Attempt)
      → Holding F
      → F
      → CopyReason F
      → List Sent × (List (CopyNotice F) × Bool)
  do_sell cfg dry_run attempts h pct reason =
      let (sent, result) = sell_all dry_run attempts cfg.trading.slippage in
      elim result [
        | ok (some sig) ↦
            let net_return_sol = div (mul h.amount_sol pct) (of_ℕ 100) in
            (sent, (notify_sell h.mint h.symbol reason pct net_return_sol ∷ [], true))
        | ok none ↦ (sent, ([], true))
        | err e ↦ (sent, ([], false))
      ]
