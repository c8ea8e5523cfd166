-- ===== src/Session/Run.antt =====
-- `run_session` of src/session.rs from its first line to its last: the set-up, the rounds, and the
-- forced sell of a position that is still open.
use hades_ps_trader.Base.{ℕ, Bool, Option, none, some, List, [], ◌∷◌, ◌>>=◌, if◌then◌else◌}
use hades_ps_trader.Base.Text.{codes}
use hades_ps_trader.Clock.{from_secs, deadline_of, has_passed}
use hades_ps_trader.Float.{Float}
use hades_ps_trader.Config.{Config}
use hades_ps_trader.Position.{Position, TrailTier, pnl_pct}
use hades_ps_trader.Position.Tiers.{parse_tiers}
use hades_ps_trader.Macd.{new_aggregator, new_macd}
use hades_ps_trader.Rug.{new_guard}
use hades_ps_trader.Capitulation.{new_capitulation}
use hades_ps_trader.DipBuy.{new_dip_buy}
use hades_ps_trader.Trader.{Attempt}
use hades_ps_trader.Session.{Shared, Token, forced_exit}
use hades_ps_trader.Session.Loop.{
  Session, TickEnv, Event, deadline, update, Flow, stop, go, force_sell, see, rug_stage,
  trade_stages,
}

-- What the forced sell at the end meets.
pub record EndEnv (F : Type 0) : Type 0 where
  pub attempts : ℕ → F → Attempt
  pub during_sell : Shared F → Shared F

module _ {F : Type 0} ⦃fl : Float F⦄ where
  open fl use {of_ℕ}

  -- What the rug guard leaves goes through the other stages.
  unfoldable pub trade :
      Config F
      → Bool
      → Token
      → (tiers dip_buy_tiers : List (TrailTier F)) → F
      → F
      → TickEnv F
      → Flow F
      → Option (Flow F)
  trade cfg dry_run token tiers dip_buy_tiers price pool_sol env (stop ended) = some (stop ended)
  trade cfg dry_run token tiers dip_buy_tiers price pool_sol env (go watched) = do
    traded ← trade_stages cfg dry_run token tiers dip_buy_tiers price pool_sol env watched
    some (go traded)

  -- One round for a price.
  unfoldable pub on_update :
      Config F
      → Bool
      → Token
      → (tiers dip_buy_tiers : List (TrailTier F)) → F
      → F
      → TickEnv F
      → Session F
      → Option (Flow F)
  on_update cfg dry_run token tiers dip_buy_tiers price pool_sol env s =
      trade cfg dry_run token tiers dip_buy_tiers price pool_sol env
        (rug_stage cfg dry_run price pool_sol env (see price pool_sol env s))

  -- One `select!` that has an update.
  unfoldable pub one_round :
      Config F
      → Bool
      → Token
      → (tiers dip_buy_tiers : List (TrailTier F)) → Option ℕ
      → F
      → F
      → TickEnv F
      → Session F
      → Option (Flow F)
  one_round cfg dry_run token tiers dip_buy_tiers ends price pool_sol env s =
      if has_passed ends env.polled_at
      then some (stop s)
      else on_update cfg dry_run token tiers dip_buy_tiers price pool_sol env s

  -- The rounds until a `break`, at the deadline `ends` if there is one: `deadline` is its timer,
  -- which never wakes without it, and the `select!` that has an update looks at the timer first.
  -- Where the events end, the feed has ended.
  unfoldable pub rounds :
      Config F
      → Bool
      → Token
      → (tiers dip_buy_tiers : List (TrailTier F)) → Option ℕ
      → List (Event F)
      → Session F
      → Option (Session F)
  rounds cfg dry_run token tiers dip_buy_tiers ends [] s = some s
  rounds cfg dry_run token tiers dip_buy_tiers ends (deadline ∷ events) s = elim ends [
    | some d ↦ some s
    | none ↦ rounds cfg dry_run token tiers dip_buy_tiers none events s
  ]
  rounds cfg dry_run token tiers dip_buy_tiers ends (update price pool_sol env ∷ events) s =
      elim (one_round cfg dry_run token tiers dip_buy_tiers ends price pool_sol env s) [
        | none ↦ none
        | some (stop ended) ↦ some ended
        | some (go next) ↦ rounds cfg dry_run token tiers dip_buy_tiers ends events next
      ]

  -- `last_price.map(|p| pos.pnl_pct(p)).unwrap_or(0.0)`
  unfoldable pub last_pct : Position F → Option F → F
  last_pct pos none = of_ℕ 0
  last_pct pos (some price) = pnl_pct pos price

  unfoldable pub close_out :
      Config F → Bool → EndEnv F → Option (Position F) → Session F → Session F
  close_out cfg dry_run env none s = s
  close_out cfg dry_run env (some pos) s =
      force_sell cfg dry_run env.attempts env.during_sell pos (last_pct pos s.last_price)
        forced_exit s

  unfoldable pub finish : Config F → Bool → EndEnv F → Session F → Session F
  finish cfg dry_run env s = close_out cfg dry_run env s.position s

  -- The deadline and the variables before the first round; `none` is the panic of a deadline that
  -- is no instant, or of a failed assertion of the indicators.
  unfoldable pub new_session : Config F → ℕ → Shared F → Option (Option ℕ × Session F)
  new_session cfg session_start shared = do
    ends ← deadline_of session_start cfg.trading.max_monitor_time
    indicator ← new_macd cfg.macd.fast cfg.macd.slow cfg.macd.signal
    some (
      ends,
      record {
        position = none;
        last_sell_at = none;
        last_price = none;
        tick = 0;
        rug_guard = new_guard;
        cap_detector = new_capitulation cfg.capitulation;
        dip_buy_detector = new_dip_buy cfg.dip_buy session_start;
        aggregator = new_aggregator (from_secs cfg.macd.candle_interval_secs);
        macd = indicator;
        shared = shared;
        sent = [];
        notices = [];
      },
    )

  -- `parse` is the parser of `f64`.
  unfoldable pub run_session :
      (List ℕ → Option F)
      → Config F
      → Bool
      → Token
      → ℕ
      → List (Event F)
      → EndEnv F
      → Shared F
      → Option (Session F)
  run_session parse cfg dry_run token session_start events env shared =
      let tiers = parse_tiers parse (codes cfg.trading.dynamic_trailing_stop_thresholds) in
      let dip_buy_tiers = parse_tiers parse (codes cfg.dip_buy_exit.trail_tiers) in
      do
        started ← new_session cfg session_start shared
        ended ← rounds cfg dry_run token tiers dip_buy_tiers started.0 events started.1
        some (finish cfg dry_run env ended)
