-- ===== src/Copy/Entry.antt =====
-- `copy_handle` of src/copy_session.rs from the answer to its buy on: the balance or the first price,
-- and the position until its end.
use hades_ps_trader.Base.{
  ℕ, Bool, true, false, not, ◌&&◌, is_some, Option, none, some, List, [], ◌∷◌, ◌++◌, if◌then◌else◌,
}
use hades_ps_trader.Base.Result.{Result, ok, err}
use hades_ps_trader.Clock.{deadline_of}
use hades_ps_trader.Base.Text.{codes}
use hades_ps_trader.Float.{Float}
use hades_ps_trader.Config.{Config}
use hades_ps_trader.Position.Tiers.{parse_tiers}
use hades_ps_trader.PumpPortal.{AlphaTrade}
use hades_ps_trader.Trader.{Attempt, Sent, TradeError}
use hades_ps_trader.Session.{Shared, TokenBalance, release, ui_amount}
use hades_ps_trader.Copy.{CopyReason, CopyNotice, notify_buy, notify_orphan_buy, Holding}
use hades_ps_trader.Copy.Watch.{
  CopyEvent, on_deadline, on_shutdown, shutdown_lagged, on_sell, mirror_lagged, mirror_closed,
  on_price, start, watch, max_hold_of,
}

-- What one session meets: whether the mint is a public key, the instants that it reads, what other
-- sessions do to the shared state between its steps, the answers of the node, the first prices of
-- the feed, for a paper position, and the events after the entry.
pub record CopyEnv (F : Type 0) : Type 0 where
  pub valid_mint : Bool
  pub check_at : ℕ
  pub after_check : Shared F → Shared F
  pub attempts : ℕ → F → Attempt
  pub during_buy : Shared F → Shared F
  pub record_at : ℕ
  pub total_at : ℕ
  pub bought_at : ℕ
  pub balance : Result TradeError TokenBalance
  pub first_prices : List F
  pub events : List (CopyEvent F)
  pub last : ℕ → F → Attempt
  pub during_hold : Shared F → Shared F

-- What a session leaves, by its end or by a panic.
pub record Copied (F : Type 0) : Type 0 where
  pub shared : Shared F
  pub sent : List Sent
  pub notices : List (CopyNotice F)
  -- the position it held, and the sells it logged
  pub held : Option (Holding F)
  pub sells : List (CopyReason F × Bool)
  pub panicked : Bool

module _ {F : Type 0} ⦃fl : Float F⦄ where
  open fl use {of_ℕ, div, lt, le}

  abbrev pub gave_up : Shared F → List Sent → List (CopyNotice F) → Copied F
  gave_up s sent notices = record {
    shared = s;
    sent = sent;
    notices = notices;
    held = none;
    sells = [];
    panicked = false;
  }

  abbrev pub lost : Option (Holding F) → Shared F → List Sent → List (CopyNotice F) → Copied F
  lost held s sent notices = record {
    shared = s;
    sent = sent;
    notices = notices;
    held = held;
    sells = [];
    panicked = true;
  }

  -- The first price above 0; `none` where the feed ends before one.
  unfoldable pub first_positive : List F → Option F
  first_positive [] = none
  first_positive (p ∷ ps) = if lt (of_ℕ 0) p then some p else first_positive ps

  abbrev pub holding : AlphaTrade F → CopyEnv F → (amount entry : F) → Holding F
  holding alpha env amount entry = record {
    mint = alpha.mint;
    symbol = alpha.symbol;
    amount_sol = amount;
    entry_price_sol = entry;
    bought_at = env.bought_at;
    alpha_wallet = alpha.trader;
    alpha_entry_balance = alpha.token_balance;
  }

  abbrev pub is_deadline : CopyEvent F → Bool
  is_deadline (on_deadline attempts) = true
  is_deadline (on_shutdown attempts) = false
  is_deadline shutdown_lagged = false
  is_deadline (on_sell t attempts) = false
  is_deadline mirror_lagged = false
  is_deadline mirror_closed = false
  is_deadline (on_price price pool_sol exit_at attempts) = false

  -- The timer of a deadline never wakes where there is none.
  unfoldable pub woken : Option ℕ → List (CopyEvent F) → List (CopyEvent F)
  woken ends [] = []
  woken ends (e ∷ events) =
      if is_deadline e && not (is_some ends) then woken ends events else e ∷ woken ends events

  -- A position that is watched to its end, and the slot given back after it; or the panic of a
  -- deadline that is no instant.
  unfoldable pub hold_until :
      (List ℕ → Option F)
      → Config F
      → Bool
      → Holding F
      → CopyEnv F
      → List Sent
      → List (CopyNotice F)
      → Option (Option ℕ)
      → Shared F
      → Copied F
  hold_until parse cfg dry_run h env sent notices none s = lost (some h) s sent notices
  hold_until parse cfg dry_run h env sent notices (some ends) s =
      let tiers = parse_tiers parse (codes cfg.copy_trade.trail_tiers) in
      let events = woken ends env.events in
      let w = watch cfg dry_run tiers h env.last events (start cfg.copy_trade.mirror_exit) in
      record {
        shared = release (env.during_hold s);
        sent = sent ++ w.sent;
        notices = notices ++ w.notices;
        held = some h;
        sells = w.sells;
        panicked = false;
      }

  unfoldable pub hold :
      (List ℕ → Option F)
      → Config F
      → Bool
      → Holding F
      → CopyEnv F
      → List Sent
      → List (CopyNotice F)
      → Shared F
      → Copied F
  hold parse cfg dry_run h env sent notices s =
      hold_until parse cfg dry_run h env sent notices
        (deadline_of h.bought_at (max_hold_of cfg.copy_trade)) s

  -- After a buy with signature `sig`: the balance.
  unfoldable pub enter_live :
      (List ℕ → Option F)
      → Config F
      → Bool
      → AlphaTrade F
      → CopyEnv F
      → ℕ
      → Result TradeError TokenBalance
      → List Sent
      → Shared F
      → Copied F
  enter_live parse cfg dry_run alpha env sig (err e) sent s =
      gave_up (release s) sent
        (notify_orphan_buy alpha.mint alpha.symbol sig cfg.copy_trade.trade_amount_sol ∷ [])
  enter_live parse cfg dry_run alpha env sig (ok balance) sent s =
      let amount_sol = cfg.copy_trade.trade_amount_sol in
      let token_ui = ui_amount balance in
      if le token_ui (of_ℕ 0)
      then gave_up (release s) sent []
      else (let entry = div amount_sol token_ui in
          hold parse cfg dry_run (holding alpha env amount_sol entry) env sent
            (notify_buy alpha.mint alpha.symbol amount_sol token_ui entry ∷ []) s)

  -- A paper position of a dry run, at the first price above 0.
  unfoldable pub enter_paper :
      (List ℕ → Option F)
      → Config F
      → Bool
      → AlphaTrade F
      → CopyEnv F
      → Option F
      → List Sent
      → Shared F
      → Copied F
  enter_paper parse cfg dry_run alpha env none sent s = gave_up (release s) sent []
  enter_paper parse cfg dry_run alpha env (some entry) sent s =
      hold parse cfg dry_run (holding alpha env cfg.copy_trade.trade_amount_sol entry) env sent [] s
