-- ===== src/Copy/Deadline.antt =====
-- When the deadline of a position of src/copy_session.rs makes its session panic.
use hades_ps_trader.Base.{
  ℕ, ◌≡◌, refl, ◌↔◌, inl, inr, Bool, true, false, Bool-cases, Option, none, some, List, arith,
}
use hades_ps_trader.Base.Result.{Result, ok, err}
use hades_ps_trader.Clock.{IsLate, deadline_of, deadline_of-none}
use hades_ps_trader.Float.{Float}
use hades_ps_trader.Config.{Config}
use hades_ps_trader.PumpPortal.{AlphaTrade}
use hades_ps_trader.Trader.{Sent, TradeError}
use hades_ps_trader.Session.{Shared, TokenBalance, ui_amount}
use hades_ps_trader.Copy.{Holding, CopyNotice}
use hades_ps_trader.Copy.Watch.{max_hold_of}
use hades_ps_trader.Copy.Entry.{CopyEnv, hold_until, hold, first_positive, enter_live, enter_paper}
use hades_ps_trader.Copy.Handle.{after_buy}

module _ {F : Type 0} ⦃fl : Float F⦄ (parse : List ℕ → Option F) (cfg : Config F)
    (dry_run info_on : Bool) (alpha : AlphaTrade F) (env : CopyEnv F) where
  open fl use {of_ℕ, le}

  -- The balance after a buy brings a position.
  abbrev pub HasTokens : Result TradeError TokenBalance → Type 0
  HasTokens answer =
      (balance : TokenBalance) × (answer ≡ ok balance) × (le (ui_amount balance) (of_ℕ 0) ≡ false)

  -- The result of a buy brings a position: tokens in the wallet, or a first price.
  abbrev pub Enters : Result TradeError (Option ℕ) → Type 0
  Enters (ok (some sig)) = HasTokens env.balance
  Enters (ok none) = (entry : F) × (first_positive env.first_prices ≡ some entry)
  Enters (err e) = ⊥

  -- The deadline of a position is no instant.
  abbrev pub IsEndless : Type 0
  IsEndless = IsLate env.bought_at (max_hold_of cfg.copy_trade)

  hold_until-panics :
      (h : Holding F) (sent : List Sent) (notices : List (CopyNotice F)) (ends : Option (Option ℕ))
      (s : Shared F)
      → ((hold_until parse cfg dry_run h env sent notices ends s).panicked ≡ true) ↔ (ends ≡ none)
  unfolding hold_until
  hold_until-panics h sent notices none s = (λ e. refl, λ e. refl)
  hold_until-panics h sent notices (some ends) s = (λ e. cc e, λ e. cc e)

  hold-panics :
      (h : Holding F) (sent : List Sent) (notices : List (CopyNotice F)) (s : Shared F)
      → ((hold parse cfg dry_run h env sent notices s).panicked ≡ true)
        ↔ IsLate h.bought_at (max_hold_of cfg.copy_trade)
  unfolding hold
  hold-panics h sent notices s =
      let late = deadline_of-none h.bought_at (max_hold_of cfg.copy_trade) in
      let held =
        hold_until-panics h sent notices (deadline_of h.bought_at (max_hold_of cfg.copy_trade)) s in
      (λ e. late.0 (held.0 e), λ l. held.1 (late.1 l))

  enter_live-panics :
      (sig : ℕ) (answer : Result TradeError TokenBalance) (sent : List Sent) (s : Shared F)
      → ((enter_live parse cfg dry_run alpha env sig answer sent s).panicked ≡ true)
        ↔ (HasTokens answer × IsEndless)
  unfolding enter_live
  enter_live-panics sig (err e) sent s = (λ h. cc h, λ h. cc h.0.1)
  enter_live-panics sig (ok balance) sent s = elim (Bool-cases (le (ui_amount balance) (of_ℕ 0))) [
    | inl empty ↦ rw empty (λ h. cc h, λ h. ground (arith, empty, h.0))
    | inr bought ↦
        let held = hold-panics _ _ _ s in
        rw bought (λ h. ((balance, refl, bought), held.0 h), λ h. held.1 h.1)
  ]

  enter_paper-panics :
      (first : Option F) (sent : List Sent) (s : Shared F)
      → ((enter_paper parse cfg dry_run alpha env first sent s).panicked ≡ true)
        ↔ (((entry : F) × (first ≡ some entry)) × IsEndless)
  unfolding enter_paper
  enter_paper-panics none sent s = (λ h. cc h, λ h. cc h.0.1)
  enter_paper-panics (some entry) sent s =
      let held = hold-panics _ _ _ s in (λ h. ((entry, refl), held.0 h), λ h. held.1 h.1)

  pub after_buy-panics :
      (sent : List Sent) (result : Result TradeError (Option ℕ)) (s : Shared F)
      → ((after_buy parse cfg dry_run alpha env sent result s).panicked ≡ true)
        ↔ (Enters result × IsEndless)
  unfolding after_buy
  after_buy-panics sent (ok (some sig)) s = enter_live-panics sig env.balance sent s
  after_buy-panics sent (ok none) s = enter_paper-panics (first_positive env.first_prices) sent s
  after_buy-panics sent (err e) s = (λ h. cc h, λ h. absurd h.0)
