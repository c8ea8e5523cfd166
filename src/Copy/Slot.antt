-- ===== src/Copy/Slot.antt =====
-- What a session of src/copy_session.rs leaves in the counter of slots that the sessions share.
use Prim.Native.String.{String}
use hades_ps_trader.Base.{
  ℕ, ◌+◌, ◌^◌, ◌<◌, leb, ◌≡◌, refl, ◌⊎◌, inl, inr, Bool, true, false, Bool-cases, Option,
  Option-cases, none, some, List, [], arith, if◌then◌else◌,
}
use hades_ps_trader.Base.Result.{Result, ok, err}
use hades_ps_trader.Float.{Float}
use hades_ps_trader.Config.{Config}
use hades_ps_trader.Spend.{DailySpendTracker, Verdict, within_cap, breach, record_spend, total_24h}
use hades_ps_trader.Spend
use hades_ps_trader.PumpPortal.{AlphaTrade}
use hades_ps_trader.Trader.{Sent, TradeError}
use hades_ps_trader.Session.{Shared, TokenBalance, reserve, release, ui_amount}
use hades_ps_trader.Session.Slot.{IsQuiet}
use hades_ps_trader.Base.Short.{short}
use hades_ps_trader.Copy.{Holding, CopyNotice}
use hades_ps_trader.Copy.Entry.{CopyEnv, Copied, hold_until, hold, enter_live, enter_paper}
use hades_ps_trader.Copy.Handle.{
  entry_line-cases, buy_copy, after_buy, record_copy, copy_with_slot, copy_gates, copy_handle,
}

-- Other sessions record no spend.
abbrev pub IsIdle : {F : Type 0} → (Shared F → Shared F) → Type 0
IsIdle {F} f = (s : Shared F) → (f s).spend_tracker ≡ s.spend_tracker

abbrev pub IsQuietCopy : {F : Type 0} → CopyEnv F → Type 0
IsQuietCopy env = IsQuiet env.after_check × IsQuiet env.during_buy × IsQuiet env.during_hold

abbrev pub IsIdleCopy : {F : Type 0} → CopyEnv F → Type 0
IsIdleCopy env = IsIdle env.after_check × IsIdle env.during_buy × IsIdle env.during_hold

-- What a session without a slot does.
abbrev pub IsRefused : {F : Type 0} → Copied F → Type 0
IsRefused c = (c.sent ≡ []) × (c.notices ≡ []) × (c.held ≡ none) × (c.sells ≡ [])

Verdict-cases : {F : Type 0} (v : Verdict F) → (v ≡ within_cap) ⊎ ((spent : F) × (v ≡ breach spent))
Verdict-cases within_cap = inl refl
Verdict-cases (breach spent) = inr (spent, refl)

module _ {F : Type 0} ⦃fl : Float F⦄ (parse : List ℕ → Option F) (cfg : Config F)
    (dry_run info_on : Bool) (alpha : AlphaTrade F) (env : CopyEnv F) where
  open fl use {of_ℕ, le}

  -- The slot is given back at once, or after the position is sold, or never.
  abbrev GivesBack : Shared F → Copied F → Type 0
  GivesBack s c =
      ((c.panicked ≡ false) × ((c.shared ≡ release s) ⊎ (c.shared ≡ release (env.during_hold s))))
      ⊎ ((c.panicked ≡ true) × (c.shared ≡ s))

  hold_until-GivesBack :
      (h : Holding F) (sent : List Sent) (notices : List (CopyNotice F)) (ends : Option (Option ℕ))
      (s : Shared F)
      → GivesBack s (hold_until parse cfg dry_run h env sent notices ends s)
  unfolding hold_until
  hold_until-GivesBack h sent notices none s = inr (refl, refl)
  hold_until-GivesBack h sent notices (some ends) s = inl (refl, inr refl)

  enter_live-GivesBack :
      (sig : ℕ) (balance : Result TradeError TokenBalance) (sent : List Sent) (s : Shared F)
      → GivesBack s (enter_live parse cfg dry_run alpha env sig balance sent s)
  unfolding enter_live hold
  enter_live-GivesBack sig (err e) sent s = inl (refl, inl refl)
  enter_live-GivesBack sig (ok balance) sent s =
      elim (Bool-cases (le (ui_amount balance) (of_ℕ 0))) [
        | inl empty ↦ rw empty (inl (refl, inl refl))
        | inr bought ↦ rw bought (hold_until-GivesBack _ _ _ _ s)
      ]

  enter_paper-GivesBack :
      (first : Option F) (sent : List Sent) (s : Shared F)
      → GivesBack s (enter_paper parse cfg dry_run alpha env first sent s)
  unfolding enter_paper hold
  enter_paper-GivesBack none sent s = inl (refl, inl refl)
  enter_paper-GivesBack (some entry) sent s = hold_until-GivesBack _ _ _ _ s

  after_buy-GivesBack :
      (sent : List Sent) (result : Result TradeError (Option ℕ)) (s : Shared F)
      → GivesBack s (after_buy parse cfg dry_run alpha env sent result s)
  unfolding after_buy
  after_buy-GivesBack sent (ok (some sig)) s = enter_live-GivesBack sig env.balance sent s
  after_buy-GivesBack sent (ok none) s = enter_paper-GivesBack _ sent s
  after_buy-GivesBack sent (err e) s = inl (refl, inl refl)

  pub buy_copy-GivesBack :
      (s : Shared F)
      → GivesBack
          (record_copy env cfg.copy_trade.trade_amount_sol (env.during_buy s))
          (buy_copy parse cfg dry_run alpha env s)
  unfolding buy_copy
  buy_copy-GivesBack s = after_buy-GivesBack _ _ _

  -- The check of the cap at the start.
  abbrev pub first_check : Shared F → DailySpendTracker F × Verdict F
  first_check s = Spend.check s.spend_tracker env.check_at cfg.copy_trade.trade_amount_sol

  abbrev pub IsAdmitted : Shared F → Type 0
  IsAdmitted s =
      (env.valid_mint ≡ true)
      × ((first_check s).1 ≡ within_cap)
      × s.open_positions < cfg.copy_trade.max_positions

  pub IsAdmitted-cases : (s : Shared F) → IsAdmitted s ⊎ (¬ (IsAdmitted s))
  IsAdmitted-cases s =
      let room = leb cfg.copy_trade.max_positions s.open_positions in
      elim (Bool-cases env.valid_mint) [
        | inr off ↦ inr (λ a. cc (off, a.0))
        | inl on ↦ elim (Verdict-cases (first_check s).1) [
          | inr (spent, e) ↦ inr (λ a. cc (e, a.1))
          | inl e ↦ elim (Bool-cases room) [
            | inl full ↦ inr (λ a. ground (arith, full, a))
            | inr free ↦ inl (on, e, ground (arith, free))
          ]
        ]
      ]

  -- The counter after the buy.
  buy_copy-slot :
      (s : Shared F) (n : ℕ)
      → IsQuietCopy env
      → n + 1 < 2 ^ 64
      → s.open_positions ≡ n + 1
      → let c = buy_copy parse cfg dry_run alpha env s in
        c.shared.open_positions ≡ (if c.panicked then n + 1 else n)
  unfolding record_copy release
  buy_copy-slot s n quiet small e =
      let bought = record_copy env cfg.copy_trade.trade_amount_sol (env.during_buy s) in
      elim (buy_copy-GivesBack s) [
        | inl (ended, inl back) ↦ rw (ended, back) (ground (arith, quiet.1 s, e))
        | inl (ended, inr back) ↦ rw (ended, back) (ground (arith, quiet.1 s, quiet.2 bought, e))
        | inr (panicked, left) ↦ rw (panicked, left) (ground (arith, quiet.1 s, e))
      ]

  pub copy_with_slot-slot :
      (s : Shared F) (n : ℕ)
      → IsQuietCopy env
      → n + 1 < 2 ^ 64
      → s.open_positions ≡ n + 1
      → let c = copy_with_slot parse cfg dry_run info_on alpha env s in
        c.shared.open_positions ≡ (if c.panicked then n + 1 else n)
  unfolding copy_with_slot
  copy_with_slot-slot s n quiet small e = elim (entry_line-cases info_on alpha) [
    | inl cut ↦ rw (copy_with_slot, cut) e
    | inr whole ↦ rw (copy_with_slot, whole) (buy_copy-slot s n quiet small e)
  ]

  abbrev copied : Shared F → Copied F
  copied s = copy_handle parse cfg dry_run info_on alpha env s

  -- With its mint cut nowhere, a session that is admitted goes on with a slot.
  pub copy_handle-IsAdmitted :
      (s : Shared F) (tag : String)
      → IsQuiet env.after_check
      → short alpha.mint ≡ some tag
      → IsAdmitted s
      → copied s
        ≡ copy_with_slot parse cfg dry_run info_on alpha env
            (reserve (env.after_check (record s { spend_tracker = (first_check s).0 })))
  unfolding copy_handle copy_gates reserve
  copy_handle-IsAdmitted s tag quiet whole a =
      ground (arith, whole, a, quiet (record s { spend_tracker = (first_check s).0 }))

  pub copy_handle-refused :
      (s : Shared F) (tag : String)
      → IsQuietCopy env
      → s.open_positions + 1 < 2 ^ 64
      → short alpha.mint ≡ some tag
      → ¬ (IsAdmitted s)
      → ((copied s).panicked ≡ false) × ((copied s).shared.open_positions ≡ s.open_positions)
  unfolding copy_handle copy_gates reserve release
  copy_handle-refused s tag quiet small whole n =
      ground (arith, whole, n, quiet.0 (record s { spend_tracker = (first_check s).0 }))

  -- If other sessions leave the counter of copy positions as it is and it does not overflow, a
  -- copy session that does not panic leaves the counter as it found it, whatever its buy, its
  -- balance query and its prices bring; and one whose mint is no key, or that finds no room under
  -- the cap or the counter at `max_positions`, leaves the counter so even where it panics, and
  -- sends nothing, reports nothing, and holds no position.
  pub copy_handle-slot :
      (s : Shared F)
      → IsQuietCopy env
      → s.open_positions + 1 < 2 ^ 64
      → (let c = copied s in
          (c.panicked ≡ false → c.shared.open_positions ≡ s.open_positions)
          × (¬ (IsAdmitted s) → IsRefused c × (c.shared.open_positions ≡ s.open_positions)))
  unfolding copy_handle copy_gates reserve release
  copy_handle-slot s quiet small =
      let checked = record s { spend_tracker = (first_check s).0 } in
      let kept = quiet.0 checked in
      let back =
        copy_with_slot-slot (reserve (env.after_check checked)) s.open_positions quiet small in
      elim (Option-cases (short alpha.mint)) [
        | inl cut ↦ ground (arith, cut)
        | inr (tag, whole) ↦
            (ground (arith, whole, kept, back), λ n. ground (arith, whole, kept, n))
      ]
