-- ===== src/Copy/Watch.antt =====
-- The loop of `copy_handle` in src/copy_session.rs that watches the position until it is sold: the
-- deadline, a shutdown, a sell of the followed wallet, and the price ticks. Each event carries the
-- attempts that a sell in it meets.
use hades_ps_trader.Base.{
  ℕ, ◌+◌, ◌-◌, ◌/◌, ◌%◌, ◌^◌, Bool, true, false, ◌&&◌, Option, none, some, List, [], ◌∷◌, ◌++◌,
  if◌then◌else◌,
}
use hades_ps_trader.Base.Text.{str_eq}
use hades_ps_trader.Float.{Float}
use hades_ps_trader.Config.{Config, CopyTradeConfig}
use hades_ps_trader.Position.{TrailTier, ExitReason}
use hades_ps_trader.Rug.{RugGuard, RugReason, new_guard, is_rugged}
use hades_ps_trader.Rug
use hades_ps_trader.PumpPortal.{AlphaTrade}
use hades_ps_trader.Trader.{Attempt, Sent}
use hades_ps_trader.Copy.{
  CopyReason, rug_detected, exit_rule, max_hold, shutdown, mirror_exit, forced_exit, CopyNotice,
  Holding, pnl_of, alpha_closed, copy_exit, do_sell,
}

-- The variables of the loop, what it has sent and reported, and the sells that it has logged, with
-- whether each succeeded.
pub record Watching (F : Type 0) : Type 0 where
  pub rug_guard : RugGuard F
  pub peak_pct : F
  pub last_price : Option F
  pub tick : ℕ
  pub mirror_open : Bool
  pub sent : List Sent
  pub notices : List (CopyNotice F)
  pub sells : List (CopyReason F × Bool)

-- A branch of the `select!` that is ready. A shutdown is a message or a closed channel; a receiver
-- that has lagged behind goes on with the next message.
pub data CopyEvent (F : Type 0) : Type 0 where
  on_deadline on_shutdown : (ℕ → F → Attempt) → CopyEvent F
  shutdown_lagged mirror_lagged mirror_closed : CopyEvent F
  on_sell : AlphaTrade F → (ℕ → F → Attempt) → CopyEvent F
  on_price : (price pool_sol : F) (exit_at : ℕ) → (ℕ → F → Attempt) → CopyEvent F

-- `break` with the position sold, or the next round.
pub data CopyFlow (F : Type 0) : Type 0 where
  sold : Watching F → CopyFlow F
  next : Watching F → CopyFlow F

abbrev pub state_of : {F : Type 0} → CopyFlow F → Watching F
state_of (sold w) = w
state_of (next w) = w

module _ {F : Type 0} ⦃fl : Float F⦄ where
  open fl use {of_ℕ, lt}

  unfoldable pub start : Bool → Watching F
  start mirror = record {
    rug_guard = new_guard;
    peak_pct = of_ℕ 0;
    last_price = none;
    tick = 0;
    mirror_open = mirror;
    sent = [];
    notices = [];
    sells = [];
  }

  -- `last_price.map(|p| pnl_pct(entry_price_sol, p)).unwrap_or(0.0)`
  unfoldable pub last_pct : F → Option F → F
  last_pct entry none = of_ℕ 0
  last_pct entry (some price) = pnl_of entry price

  -- A sell, and whether it succeeded.
  unfoldable pub sell :
      Config F
      → Bool
      → (ℕ → F → Attempt)
      → Holding F
      → F
      → CopyReason F
      → Watching F
      → Watching F × Bool
  sell cfg dry_run attempts h pct reason w =
      let (sent, (notices, success)) = do_sell cfg dry_run attempts h pct reason in
      (
        record w {
          sent = w.sent ++ sent;
          notices = w.notices ++ notices;
          sells = w.sells ++ (reason, success) ∷ [];
        },
        success,
      )

  -- `let _ = do_sell(...)` at the PnL of the last price.
  unfoldable pub force_sell :
      Config F → Bool → (ℕ → F → Attempt) → Holding F → CopyReason F → Watching F → Watching F
  force_sell cfg dry_run attempts h reason w =
      (sell cfg dry_run attempts h (last_pct h.entry_price_sol w.last_price) reason w).0

  -- A sell by the followed wallet, of the token of this session.
  unfoldable pub is_theirs : Holding F → AlphaTrade F → Bool
  is_theirs h t = str_eq t.tx_type "sell" && str_eq t.mint h.mint && str_eq t.trader h.alpha_wallet

  unfoldable pub is_exit : CopyTradeConfig F → Holding F → AlphaTrade F → Bool
  unfolding is_theirs
  is_exit cc h t =
      is_theirs h t
      && alpha_closed h.alpha_entry_balance t.token_balance cc.mirror_close_fraction
          cc.mirror_exit_on_first_sell

  unfoldable pub see : F → F → Watching F → Watching F
  see price pool_sol w = record w {
    last_price = some price;
    tick = (w.tick + 1) % 2 ^ 64;
    rug_guard = Rug.observe w.rug_guard price pool_sol;
  }

  unfoldable pub raise_peak : F → Watching F → Watching F
  raise_peak pct w = if lt w.peak_pct pct then record w { peak_pct = pct } else w

  abbrev pub after_sell : Watching F × Bool → CopyFlow F
  after_sell (w, true) = sold w
  after_sell (w, false) = next w

  -- By the exit rule that has fired: a failed sell is tried again at the next tick.
  unfoldable pub follow :
      Config F
      → Bool
      → (ℕ → F → Attempt)
      → Holding F
      → F
      → Option (ExitReason F)
      → Watching F
      → CopyFlow F
  follow cfg dry_run attempts h pct none w = next w
  follow cfg dry_run attempts h pct (some reason) w =
      after_sell (sell cfg dry_run attempts h pct (exit_rule reason) w)

  abbrev pub max_hold_of : CopyTradeConfig F → ℕ
  max_hold_of cc = if cc.mirror_exit then cc.mirror_max_hold_secs else cc.max_hold_secs

  -- By the verdict of the rug guard.
  unfoldable pub judge :
      Config F
      → Bool
      → List (TrailTier F)
      → (ℕ → F → Attempt)
      → Holding F
      → F
      → ℕ
      → Option (RugReason F)
      → Watching F
      → CopyFlow F
  judge cfg dry_run tiers attempts h price exit_at (some reason) w =
      sold (sell cfg dry_run attempts h (pnl_of h.entry_price_sol price) (rug_detected reason) w).0
  judge cfg dry_run tiers attempts h price exit_at none w =
      let pct = pnl_of h.entry_price_sol price in
      let raised = raise_peak pct w in
      let elapsed = (exit_at - h.bought_at) / 10 ^ 9 in
      follow cfg dry_run attempts h pct
        (copy_exit raised.peak_pct pct elapsed cfg.copy_trade tiers cfg.copy_trade.mirror_exit
          (max_hold_of cfg.copy_trade))
        raised

  unfoldable pub on_event :
      Config F → Bool → List (TrailTier F) → Holding F → CopyEvent F → Watching F → CopyFlow F
  on_event cfg dry_run tiers h (on_deadline attempts) w =
      sold (force_sell cfg dry_run attempts h max_hold w)
  on_event cfg dry_run tiers h (on_shutdown attempts) w =
      sold (force_sell cfg dry_run attempts h shutdown w)
  on_event cfg dry_run tiers h shutdown_lagged w = next w
  on_event cfg dry_run tiers h mirror_lagged w = next w
  on_event cfg dry_run tiers h mirror_closed w =
      next (if w.mirror_open then record w { mirror_open = false } else w)
  on_event cfg dry_run tiers h (on_sell t attempts) w =
      if w.mirror_open && is_exit cfg.copy_trade h t
      then sold (force_sell cfg dry_run attempts h mirror_exit w)
      else next w
  on_event cfg dry_run tiers h (on_price price pool_sol exit_at attempts) w =
      let seen = see price pool_sol w in
      judge cfg dry_run tiers attempts h price exit_at
        (is_rugged seen.rug_guard cfg.rug price pool_sol) seen

  -- The rounds until a `break`. Where the events end, the price feed has, and what is still held is
  -- sold with the attempts `last`.
  unfoldable pub watch :
      Config F
      → Bool
      → List (TrailTier F)
      → Holding F
      → (last : ℕ → F → Attempt) → List (CopyEvent F)
      → Watching F
      → Watching F
  watch cfg dry_run tiers h last [] w = force_sell cfg dry_run last h forced_exit w
  watch cfg dry_run tiers h last (e ∷ es) w = elim (on_event cfg dry_run tiers h e w) [
    | sold ended ↦ ended
    | next w' ↦ watch cfg dry_run tiers h last es w'
  ]
