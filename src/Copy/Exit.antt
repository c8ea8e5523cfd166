-- ===== src/Copy/Exit.antt =====
-- The exit rules of src/copy_session.rs: those of a dip_buy position (src/position.rs) without a
-- mirror, and the backstops alone with one.
use hades_ps_trader.Base.{ℕ, ◌≡◌, ◌↔◌, ◌⊎◌, true, false, some, List, arith}
use hades_ps_trader.Float.{Float}
use hades_ps_trader.Config.{CopyTradeConfig, DipBuyExitConfig}
use hades_ps_trader.Position.{
  Position, TrailTier, ExitReason, stop_loss, max_hold_time, decide_exit_dip_buy,
}
use hades_ps_trader.Position.Exit.{IsTimeUp, IsStopped}
use hades_ps_trader.Copy.{copy_exit}

module _ {F : Type 0} ⦃fl : Float F⦄ where
  -- The limits of a copied position, as those of a dip_buy exit.
  abbrev pub as_dip_buy_exit : CopyTradeConfig F → ℕ → DipBuyExitConfig F
  as_dip_buy_exit cc max_hold_secs = record {
    take_profit_pct = cc.take_profit_pct;
    stop_loss_pct = cc.stop_loss_pct;
    max_hold_secs = max_hold_secs;
    trail_tiers = cc.trail_tiers;
  }

  -- Without a mirror, the exit of a copied position is that of a dip_buy position with the same
  -- peak and limits. With one, it is the time stop if that is up, else the stop loss if that is
  -- reached, and nothing else: neither a trailing stop nor a target.
  pub copy_exit_lem :
      (pos : Position F) (pct : F) (elapsed : ℕ) (cc : CopyTradeConfig F)
      (tiers : List (TrailTier F)) (max_hold : ℕ)
      → (copy_exit pos.peak_pct pct elapsed cc tiers false max_hold
          ≡ decide_exit_dip_buy pos pct elapsed (as_dip_buy_exit cc max_hold) tiers)
        × ((r : ExitReason F)
            → (copy_exit pos.peak_pct pct elapsed cc tiers true max_hold ≡ some r) ↔ (
                (IsTimeUp max_hold elapsed × (r ≡ max_hold_time elapsed pct))
                ⊎ (¬ (IsTimeUp max_hold elapsed)
                    × IsStopped cc.stop_loss_pct pct
                    × (r ≡ stop_loss pct))))
  unfolding copy_exit decide_exit_dip_buy
  copy_exit_lem pos pct elapsed cc tiers max_hold = (ground arith, λ r. ground arith)
