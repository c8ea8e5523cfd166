-- ===== src/Session/Loop.antt =====
-- The loop of `run_session` in src/session.rs: one round per price tick, in the stages of the
-- source, and the forced sell after it. The instants that a round reads, the answers that its
-- trades meet and what other sessions do meanwhile are data. A panic is `none`.
mod Data
pub use Data.*
use hades_ps_trader.Base.{
  ℕ, ◌+◌, ◌-◌, ◌/◌, ◌%◌, ◌^◌, Bool, true, false, ◌&&◌, not, Option, none, some, List, ◌++◌, is_some,
  if◌then◌else◌,
}
use hades_ps_trader.Clock.{from_secs, since_lt}
use hades_ps_trader.Float.{Float}
use hades_ps_trader.Config.{Config}
use hades_ps_trader.Position.{
  EntryTrigger, macd, capitulation, dip_buy, Position, TrailTier, ExitReason, pnl_pct, update_peak,
  decide_exit,
}
use hades_ps_trader.Macd.{CandleAggregator, Macd, MacdEvent, crossover, bullish, on_tick, on_close}
use hades_ps_trader.Rug.{RugGuard, RugReason, new_guard, is_rugged}
use hades_ps_trader.Rug
use hades_ps_trader.Capitulation.{CapitulationDetector, new_capitulation}
use hades_ps_trader.Capitulation
use hades_ps_trader.DipBuy.{DipBuyDetector, new_dip_buy}
use hades_ps_trader.DipBuy
use hades_ps_trader.Trader.{Attempt, Sent}
use hades_ps_trader.Session.{
  Shared, Token, SellReason, rug_detected, exit_rule, Notice, BuyEnv, release, try_buy, try_sell,
}

module _ {F : Type 0} ⦃fl : Float F⦄ where
  open fl use {of_ℕ}

  -- A sell that the session makes: the session after it, and whether it succeeded.
  unfoldable pub sell :
      Config F
      → Bool
      → (ℕ → F → Attempt)
      → (Shared F → Shared F)
      → Position F
      → F
      → SellReason F
      → Session F
      → Session F × Bool
  sell cfg dry_run attempts during pos pct reason s =
      let (sent, (notices, success)) = try_sell cfg dry_run attempts pos pct reason in
      (
        record s {
          shared = during s.shared;
          sent = s.sent ++ sent;
          notices = s.notices ++ notices;
        },
        success,
      )

  -- A forced sell gives the slot back whether it succeeds or not.
  unfoldable pub force_sell :
      Config F
      → Bool
      → (ℕ → F → Attempt)
      → (Shared F → Shared F)
      → Position F
      → F
      → SellReason F
      → Session F
      → Session F
  force_sell cfg dry_run attempts during pos pct reason s =
      let after = (sell cfg dry_run attempts during pos pct reason s).0 in
      record after { position = none; shared = release after.shared }

  -- The start of a round: the price is noted and the rug guard sees it.
  unfoldable pub see : F → F → TickEnv F → Session F → Session F
  see price pool_sol env s = record s {
    last_price = some price;
    tick = (s.tick + 1) % 2 ^ 64;
    rug_guard = Rug.observe s.rug_guard price pool_sol;
    shared = env.before s.shared;
  }

  -- By the verdict of the rug guard and the open position.
  unfoldable pub abandon :
      Config F
      → Bool
      → F
      → TickEnv F
      → Option (RugReason F)
      → Option (Position F)
      → Session F
      → Flow F
  abandon cfg dry_run price env none position s = go s
  abandon cfg dry_run price env (some reason) none s = stop s
  abandon cfg dry_run price env (some reason) (some pos) s = stop (
      force_sell cfg dry_run env.sell_attempts env.during_sell pos (pnl_pct pos price)
        (rug_detected reason) s)

  unfoldable pub rug_stage : Config F → Bool → F → F → TickEnv F → Session F → Flow F
  rug_stage cfg dry_run price pool_sol env s =
      abandon cfg dry_run price env (is_rugged s.rug_guard cfg.rug price pool_sol) s.position s

  -- After the sell of an exit: a failed one keeps the position.
  unfoldable pub close_or_keep : ℕ → Position F → Session F × Bool → Session F
  close_or_keep sold_at pos (s, true) = record s {
    position = none;
    shared = release s.shared;
    last_sell_at = some sold_at;
  }
  close_or_keep sold_at pos (s, false) = record s { position = some pos }

  -- By the exit rule that has fired, with the position at its new peak.
  unfoldable pub follow :
      Config F → Bool → TickEnv F → Position F → F → Option (ExitReason F) → Session F → Session F
  follow cfg dry_run env pos pct none s = record s { position = some pos }
  follow cfg dry_run env pos pct (some reason) s =
      close_or_keep env.sold_at pos
        (sell cfg dry_run env.sell_attempts env.during_sell pos pct (exit_rule reason) s)

  unfoldable pub watch :
      Config F
      → Bool
      → (tiers dip_buy_tiers : List (TrailTier F)) → F
      → TickEnv F
      → Option (Position F)
      → Session F
      → Session F
  watch cfg dry_run tiers dip_buy_tiers price env none s = s
  watch cfg dry_run tiers dip_buy_tiers price env (some held) s =
      let pct = pnl_pct held price in
      let pos = update_peak held pct in
      let elapsed_secs = (env.exit_at - pos.bought_at) / 10 ^ 9 in
      follow cfg dry_run env pos pct
        (decide_exit pos pct elapsed_secs cfg.trading cfg.dip_buy_exit tiers dip_buy_tiers) s

  unfoldable pub exit_stage :
      Config F
      → Bool
      → (tiers dip_buy_tiers : List (TrailTier F)) → F
      → TickEnv F
      → Session F
      → Session F
  exit_stage cfg dry_run tiers dip_buy_tiers price env s =
      watch cfg dry_run tiers dip_buy_tiers price env s.position s

  -- The gates that the three entry triggers share: no pyramiding, and the cooldown after a sell.
  unfoldable pub enter : Config F → Bool → Token → EntryTrigger → TickEnv F → Session F → Session F
  enter cfg dry_run token trigger env s =
      if is_some s.position
      then s
      else if since_lt env.now s.last_sell_at (from_secs cfg.macd.cooldown_secs)
      then s
      else (let bought = try_buy cfg dry_run token trigger (env.buy trigger) s.shared in
          record s {
            position = bought.position;
            shared = bought.shared;
            sent = s.sent ++ bought.sent;
            notices = s.notices ++ bought.notices;
          })

  unfoldable pub dip_buy_stage : Config F → Bool → Token → F → F → TickEnv F → Session F → Session F
  dip_buy_stage cfg dry_run token price pool_sol env s =
      if s.dip_buy_detector.enabled
      then (let seen = DipBuy.observe s.dip_buy_detector env.now price pool_sol in
          let (detector, signal) = DipBuy.check seen env.now in
          let checked = record s { dip_buy_detector = detector } in
          if is_some signal then enter cfg dry_run token dip_buy env checked else checked)
      else s

  unfoldable pub capitulation_stage :
      Config F → Bool → Token → F → TickEnv F → Session F → Session F
  capitulation_stage cfg dry_run token price env s =
      if not s.dip_buy_detector.enabled && s.cap_detector.enabled
      then (let seen = Capitulation.observe s.cap_detector env.now price in
          let (detector, signal) = Capitulation.check seen env.now price in
          let checked = record s { cap_detector = detector } in
          if is_some signal then enter cfg dry_run token capitulation env checked else checked)
      else s

  unfoldable pub is_bullish : MacdEvent F → Bool
  is_bullish (crossover snapshot bullish) = true
  is_bullish _ = false

  unfoldable pub close_stage : Config F → Bool → Token → F → TickEnv F → Session F → Session F
  close_stage cfg dry_run token close env s =
      let (indicator, event) = on_close s.macd close in
      let closed = record s { macd = indicator } in
      if is_bullish event && not s.dip_buy_detector.enabled && not s.cap_detector.enabled
      then enter cfg dry_run token macd env closed
      else closed

  -- By the result of `on_tick`.
  unfoldable pub on_candle :
      Config F
      → Bool
      → Token
      → TickEnv F
      → Option (CandleAggregator F × Option F)
      → Session F
      → Option (Session F)
  on_candle cfg dry_run token env none s = none
  on_candle cfg dry_run token env (some (aggregator, none)) s =
      some record s { aggregator = aggregator }
  on_candle cfg dry_run token env (some (aggregator, some close)) s =
      some (close_stage cfg dry_run token close env record s { aggregator = aggregator })

  unfoldable pub candle_stage :
      Config F → Bool → Token → F → TickEnv F → Session F → Option (Session F)
  candle_stage cfg dry_run token price env s =
      on_candle cfg dry_run token env (on_tick s.aggregator price env.now) s

  -- The stages after the rug guard.
  unfoldable pub trade_stages :
      Config F
      → Bool
      → Token
      → (tiers dip_buy_tiers : List (TrailTier F)) → F
      → F
      → TickEnv F
      → Session F
      → Option (Session F)
  trade_stages cfg dry_run token tiers dip_buy_tiers price pool_sol env s =
      candle_stage cfg dry_run token price env (
        capitulation_stage cfg dry_run token price env (
          dip_buy_stage cfg dry_run token price pool_sol env
            (exit_stage cfg dry_run tiers dip_buy_tiers price env s)))
