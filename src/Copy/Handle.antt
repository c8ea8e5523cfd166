-- ===== src/Copy/Handle.antt =====
-- `copy_handle` of src/copy_session.rs from its first line to the answer to its buy; what follows is
-- Copy/Entry. The shared state is that of `Session.Shared`: here `open_positions` is the counter
-- `copy_positions` of the copy sessions. A panic ends the task where it stands, and nothing gives
-- its slot back.
use hades_ps_trader.Base.{
  ℕ, ◌≡◌, ◌⊎◌, inl, inr, Option-cases, Bool, Option, none, some, List, [], leb, if◌then◌else◌,
}
use hades_ps_trader.Base.Result.{Result, ok, err}
use hades_ps_trader.Base.Short.{short}
use hades_ps_trader.Float.{Float}
use hades_ps_trader.Config.{Config}
use hades_ps_trader.Spend.{within_cap, breach, record_spend, total_24h}
use hades_ps_trader.Spend
use hades_ps_trader.PumpPortal.{AlphaTrade}
use hades_ps_trader.Trader.{Attempt, Sent, TradeError}
use hades_ps_trader.Trader
use hades_ps_trader.Session.{Shared, reserve, release}
use hades_ps_trader.Copy.Entry.{
  CopyEnv, Copied, gave_up, lost, first_positive, enter_live, enter_paper,
}

module _ {F : Type 0} ⦃fl : Float F⦄ where
  -- An argument of `info!` is evaluated only where that level is on. The later lines that cut the
  -- followed wallet have that level too, and so cut it only where this one has.
  unfoldable pub entry_line : (info_on : Bool) → AlphaTrade F → Option (Unit {0})
  entry_line info_on alpha =
      if info_on then elim (short alpha.trader) [ none ↦ none | some s ↦ some tt ] else some tt

  pub entry_line-cases :
      (info_on : Bool) (alpha : AlphaTrade F)
      → (entry_line info_on alpha ≡ none) ⊎ (entry_line info_on alpha ≡ some tt)
  entry_line-cases info_on alpha = elim (Option-cases (entry_line info_on alpha)) [
    | inl e ↦ inl e
    | inr (u, e) ↦ inr e
  ]

  -- By the result of the trade; its spend has been recorded.
  unfoldable pub after_buy :
      (List ℕ → Option F)
      → Config F
      → Bool
      → AlphaTrade F
      → CopyEnv F
      → List Sent
      → Result TradeError (Option ℕ)
      → Shared F
      → Copied F
  after_buy parse cfg dry_run alpha env sent (ok (some sig)) s =
      enter_live parse cfg dry_run alpha env sig env.balance sent s
  after_buy parse cfg dry_run alpha env sent (ok none) s =
      enter_paper parse cfg dry_run alpha env (first_positive env.first_prices) sent s
  after_buy parse cfg dry_run alpha env sent (err e) s = gave_up (release s) sent []

  -- `record` and `total_24h`, whatever the buy has brought.
  unfoldable pub record_copy : CopyEnv F → F → Shared F → Shared F
  record_copy env amount_sol s = record s {
    spend_tracker =
        (total_24h (record_spend s.spend_tracker env.record_at amount_sol) env.total_at).0;
  }

  -- The buy, and what follows it.
  unfoldable pub buy_copy :
      (List ℕ → Option F) → Config F → Bool → AlphaTrade F → CopyEnv F → Shared F → Copied F
  buy_copy parse cfg dry_run alpha env s =
      let (sent, result) = Trader.buy dry_run env.attempts cfg.trading.slippage in
      after_buy parse cfg dry_run alpha env sent result
        (record_copy env cfg.copy_trade.trade_amount_sol (env.during_buy s))

  -- With a slot reserved.
  unfoldable pub copy_with_slot :
      (List ℕ → Option F)
      → Config F
      → (dry_run info_on : Bool) → AlphaTrade F
      → CopyEnv F
      → Shared F
      → Copied F
  copy_with_slot parse cfg dry_run info_on alpha env s = elim (entry_line info_on alpha) [
    | none ↦ lost none s [] []
    | some u ↦ buy_copy parse cfg dry_run alpha env s
  ]

  -- The check of the cap and the slot.
  unfoldable pub copy_gates :
      (List ℕ → Option F)
      → Config F
      → (dry_run info_on : Bool) → AlphaTrade F
      → CopyEnv F
      → Shared F
      → Copied F
  copy_gates parse cfg dry_run info_on alpha env s =
      let (tracker, verdict) =
        Spend.check s.spend_tracker env.check_at cfg.copy_trade.trade_amount_sol in
      let checked = record s { spend_tracker = tracker } in
      let before = env.after_check checked in
      elim verdict [
        | breach spent ↦ gave_up checked [] []
        | within_cap ↦
            if leb cfg.copy_trade.max_positions before.open_positions
            then gave_up (release (reserve before)) [] []
            else copy_with_slot parse cfg dry_run info_on alpha env (reserve before)
      ]

  unfoldable pub copy_handle :
      (List ℕ → Option F)
      → Config F
      → (dry_run info_on : Bool) → AlphaTrade F
      → CopyEnv F
      → Shared F
      → Copied F
  copy_handle parse cfg dry_run info_on alpha env s = elim (short alpha.mint) [
    | none ↦ lost none s [] []
    | some tag ↦
        if env.valid_mint then copy_gates parse cfg dry_run info_on alpha env s else gave_up s [] []
  ]
