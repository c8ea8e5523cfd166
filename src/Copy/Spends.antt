-- ===== src/Copy/Spends.antt =====
-- What a session of src/copy_session.rs leaves in the tracker of the daily cap.
use hades_ps_trader.Base.{ℕ, ◌≡◌, refl, inl, inr, Bool, true, Option, List, arith}
use hades_ps_trader.Base.Short.{short-cases, IsCut}
use hades_ps_trader.Float.{Float}
use hades_ps_trader.Config.{Config}
use hades_ps_trader.Spend.{DailySpendTracker, record_spend, total_24h}
use hades_ps_trader.PumpPortal.{AlphaTrade}
use hades_ps_trader.Session.{Shared, reserve, release}
use hades_ps_trader.Session.Slot.{IsQuiet}
use hades_ps_trader.Copy.Entry.{CopyEnv}
use hades_ps_trader.Copy.Handle.{
  entry_line-cases, record_copy, buy_copy, copy_with_slot, copy_gates, copy_handle,
}
use hades_ps_trader.Copy.Slot.{IsIdleCopy, IsAdmitted, first_check, buy_copy-GivesBack}
use hades_ps_trader.Copy.Panic.{IsEntryCut, entry_line-none}

module _ {F : Type 0} ⦃fl : Float F⦄ (parse : List ℕ → Option F) (cfg : Config F)
    (dry_run info_on : Bool) (alpha : AlphaTrade F) (env : CopyEnv F) where
  -- The tracker after the spend of a buy.
  abbrev pub spent_from : DailySpendTracker F → DailySpendTracker F
  spent_from tracker =
      (total_24h (record_spend tracker env.record_at cfg.copy_trade.trade_amount_sol)
        env.total_at).0

  buy_copy-spends :
      (s : Shared F)
      → IsIdleCopy env
      → (buy_copy parse cfg dry_run alpha env s).shared.spend_tracker ≡ spent_from s.spend_tracker
  unfolding record_copy release
  buy_copy-spends s idle =
      let bought = record_copy env cfg.copy_trade.trade_amount_sol (env.during_buy s) in
      elim (buy_copy-GivesBack parse cfg dry_run info_on alpha env s) [
        | inl (ended, inl back) ↦ rw (back, idle.1 s) refl
        | inl (ended, inr back) ↦ rw (back, idle.2 bought, idle.1 s) refl
        | inr (panicked, left) ↦ rw (left, idle.1 s) refl
      ]

  -- The session gets to its buy.
  abbrev pub IsBuying : Shared F → Type 0
  IsBuying s =
      (¬ (IsCut alpha.mint))
      × IsAdmitted parse cfg dry_run info_on alpha env s
      × (¬ (IsEntryCut info_on alpha))

  -- The session gets to the check of the cap.
  abbrev pub IsChecked : Type 0
  IsChecked = (¬ (IsCut alpha.mint)) × (env.valid_mint ≡ true)

  abbrev checked : Shared F → DailySpendTracker F
  checked s = (first_check parse cfg dry_run info_on alpha env s).0

  abbrev tracked : Shared F → DailySpendTracker F
  tracked s = (copy_handle parse cfg dry_run info_on alpha env s).shared.spend_tracker

  -- If other sessions leave the counter and the tracker as they are: a copy session that gets to
  -- its buy (its mint is not cut, it is admitted, and its line on the entry does not cut the
  -- followed wallet) records its trade amount once, after the buy and whatever the buy has
  -- brought, a failure and a later panic included; and any other one records nothing: the check of
  -- the cap has evicted old spends where the session came to it, and else the tracker is as it
  -- was.
  pub copy_handle-spends :
      (s : Shared F)
      → IsQuiet env.after_check
      → IsIdleCopy env
      → (IsBuying s → tracked s ≡ spent_from (checked s))
        × (¬ (IsBuying s)
            → (IsChecked → tracked s ≡ checked s) × (¬ IsChecked → tracked s ≡ s.spend_tracker))
  unfolding copy_handle copy_gates copy_with_slot reserve release
  copy_handle-spends s quiet idle =
      let seen = record s { spend_tracker = checked s } in
      let kept = quiet seen in
      let alone = idle.0 seen in
      let spent = buy_copy-spends (reserve (env.after_check seen)) idle in
      let line = entry_line-none info_on alpha in
      elim (short-cases alpha.mint) [
        | inl (cut, e) ↦
            (λ b. absurd (b.0 cut), λ n. (λ c. absurd (c.0 cut), λ c. ground (arith, e)))
        | inr (whole, tag, e) ↦ elim (entry_line-cases info_on alpha) [
          | inl stop ↦ (
            λ b. absurd (b.2 (line.0 stop)),
            λ n. (λ c. ground (arith, e, stop, kept, alone, c.1), λ c. ground (arith, e, c, whole)),
          )
          | inr go ↦ (
            λ b. ground (arith, e, go, kept, alone, spent, b.1),
            λ n.
                let out : ¬ (IsAdmitted parse cfg dry_run info_on alpha env s) =
                  λ a. n (whole, a, λ x. cc (go, line.1 x)) in
                (λ c. ground (arith, e, go, kept, out, c.1), λ c. ground (arith, e, c, whole)),
          )
        ]
      ]
