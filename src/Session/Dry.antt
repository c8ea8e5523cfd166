-- ===== src/Session/Dry.antt =====
-- `--dry-run` in src/session.rs and src/trader.rs: nothing is sent, and no position is opened.
use mathlib.Core.Path.{subst}
use hades_ps_trader.Base.{
  ℕ, ◌≡◌, refl, Bool, true, false, Option, none, some, List, [], ◌∷◌, arith, if◌then◌else◌, not,
  ◌&&◌, Bool-cases, inl, inr,
}
use hades_ps_trader.Base.Result.{ok}
use hades_ps_trader.Clock.{IsLate, deadline_of, has_passed}
use hades_ps_trader.Float.{Float}
use hades_ps_trader.Config.{Config}
use hades_ps_trader.Position.{EntryTrigger, macd, capitulation, dip_buy, Position, TrailTier}
use hades_ps_trader.Rug.{RugReason}
use hades_ps_trader.Macd.{CandleAggregator, new_macd}
use hades_ps_trader.Trader.{Attempt, Sent}
use hades_ps_trader.Trader
use hades_ps_trader.Session.{Shared, Token, BuyEnv, try_buy, buy_with_slot, after_trade}
use hades_ps_trader.Session.Loop.{
  Session, TickEnv, Event, deadline, update, Flow, stop, go, see, abandon, rug_stage, watch,
  exit_stage, enter, dip_buy_stage, capitulation_stage, close_stage, on_candle, candle_stage,
  trade_stages,
}
use hades_ps_trader.Session.Run.{
  EndEnv, trade, on_update, one_round, rounds, close_out, finish, new_session, run_session,
}
use hades_ps_trader.Session.Interval.{Surely, IsRunnable}
use hades_ps_trader.Session.Returns.{run_session-some}
use hades_ps_trader.Session.Stages.{Maybe, Maybe-bind, Maybe-all}

-- No transaction has left, nothing was reported, and there is no position.
abbrev pub IsDry : {F : Type 0} → Session F → Type 0
IsDry s = (s.position ≡ none) × (s.sent ≡ []) × (s.notices ≡ [])

abbrev pub FlowDry : {F : Type 0} → Flow F → Type 0
FlowDry (stop s) = IsDry s
FlowDry (go s) = IsDry s

module _ {F : Type 0} ⦃fl : Float F⦄ where
  dry_buy :
      (attempts : ℕ → F → Attempt) (slippage : F)
      → Trader.buy true attempts slippage ≡ ([], ok none)
  unfolding Trader.buy Trader.escalate Trader.submit
  dry_buy attempts slippage = refl

module _ {F : Type 0} ⦃fl : Float F⦄ (cfg : Config F) (token : Token) where
  try_buy-dry :
      (trigger : EntryTrigger) (env : BuyEnv F) (s : Shared F)
      → (let b = try_buy cfg true token trigger env s in
          (b.position ≡ none) × (b.sent ≡ []) × (b.notices ≡ []))
  unfolding try_buy buy_with_slot after_trade
  try_buy-dry trigger env s = simp (dry_buy env.attempts cfg.trading.slippage) (ground arith)

  module _ (env : TickEnv F) where
    enter-IsDry :
        (trigger : EntryTrigger) (s : Session F)
        → IsDry s
        → IsDry (enter cfg true token trigger env s)
    unfolding enter
    enter-IsDry trigger s h =
        let b = try_buy-dry trigger (env.buy trigger) s.shared in ground (arith, h, b)

    gate-IsDry :
        (b : Bool) (trigger : EntryTrigger) (s : Session F)
        → IsDry s
        → IsDry (if b then enter cfg true token trigger env s else s)
    gate-IsDry true trigger s h = enter-IsDry trigger s h
    gate-IsDry false trigger s h = h

    dip_buy_stage-IsDry :
        (price pool_sol : F) (s : Session F)
        → IsDry s
        → IsDry (dip_buy_stage cfg true token price pool_sol env s)
    unfolding dip_buy_stage
    dip_buy_stage-IsDry price pool_sol s h = elim (Bool-cases s.dip_buy_detector.enabled) [
      | inl e ↦ rw e (gate-IsDry _ dip_buy _ h)
      | inr e ↦ rw e h
    ]

    capitulation_stage-IsDry :
        (price : F) (s : Session F)
        → IsDry s
        → IsDry (capitulation_stage cfg true token price env s)
    unfolding capitulation_stage
    capitulation_stage-IsDry price s h =
        elim (Bool-cases (not s.dip_buy_detector.enabled && s.cap_detector.enabled)) [
          | inl e ↦ rw e (gate-IsDry _ capitulation _ h)
          | inr e ↦ rw e h
        ]

    on_candle-IsDry :
        (result : Option (CandleAggregator F × Option F)) (s : Session F)
        → IsDry s
        → Maybe IsDry (on_candle cfg true token env result s)
    unfolding on_candle close_stage
    on_candle-IsDry none s h = tt
    on_candle-IsDry (some (aggregator, none)) s h = h
    on_candle-IsDry (some (aggregator, some close)) s h = gate-IsDry _ macd _ h

    watch-IsDry :
        (tiers dip_buy_tiers : List (TrailTier F)) (price : F) (p : Option (Position F))
        (s : Session F)
        → p ≡ none
        → IsDry s
        → IsDry (watch cfg true tiers dip_buy_tiers price env p s)
    unfolding watch
    watch-IsDry tiers dip_buy_tiers price none s e h = h
    watch-IsDry tiers dip_buy_tiers price (some pos) s e h = absurd (ground (arith, e))

    abandon-FlowDry :
        (price : F) (verdict : Option (RugReason F)) (p : Option (Position F)) (s : Session F)
        → p ≡ none
        → IsDry s
        → FlowDry (abandon cfg true price env verdict p s)
    unfolding abandon
    abandon-FlowDry price none p s e h = h
    abandon-FlowDry price (some reason) none s e h = h
    abandon-FlowDry price (some reason) (some pos) s e h = absurd (ground (arith, e))

    trade-FlowDry :
        (tiers dip_buy_tiers : List (TrailTier F)) (price pool_sol : F) (f : Flow F)
        → FlowDry f
        → Maybe FlowDry (trade cfg true token tiers dip_buy_tiers price pool_sol env f)
    unfolding trade
    trade-FlowDry tiers dip_buy_tiers price pool_sol (stop s) h = h
    trade-FlowDry tiers dip_buy_tiers price pool_sol (go s) h =
        Maybe-bind IsDry FlowDry
          (trade_stages cfg true token tiers dip_buy_tiers price pool_sol env s) _
          (unfold trade_stages candle_stage exit_stage in
            on_candle-IsDry _ _ (
              capitulation_stage-IsDry price _ (
                dip_buy_stage-IsDry price pool_sol _
                  (watch-IsDry tiers dip_buy_tiers price _ s h.0 h))))
          (λ t k. k)

    on_update-FlowDry :
        (tiers dip_buy_tiers : List (TrailTier F)) (price pool_sol : F) (s : Session F)
        → IsDry s
        → Maybe FlowDry (on_update cfg true token tiers dip_buy_tiers price pool_sol env s)
    unfolding on_update rug_stage see
    on_update-FlowDry tiers dip_buy_tiers price pool_sol s h =
        trade-FlowDry tiers dip_buy_tiers price pool_sol _ (abandon-FlowDry price _ _ _ h.0 h)

    one_round-FlowDry :
        (tiers dip_buy_tiers : List (TrailTier F)) (ends : Option ℕ) (price pool_sol : F)
        (s : Session F)
        → IsDry s
        → Maybe FlowDry (one_round cfg true token tiers dip_buy_tiers ends price pool_sol env s)
    unfolding one_round
    one_round-FlowDry tiers dip_buy_tiers ends price pool_sol s h =
        elim (Bool-cases (has_passed ends env.polled_at)) [
          | inl e ↦ rw e h
          | inr e ↦ rw e (on_update-FlowDry tiers dip_buy_tiers price pool_sol s h)
        ]

  rounds-IsDry :
      (tiers dip_buy_tiers : List (TrailTier F)) (ends : Option ℕ) (events : List (Event F))
      (s : Session F)
      → IsDry s
      → Maybe IsDry (rounds cfg true token tiers dip_buy_tiers ends events s)
  unfolding rounds
  rounds-IsDry tiers dip_buy_tiers ends [] s h = h
  rounds-IsDry tiers dip_buy_tiers (some d) (deadline ∷ events) s h = h
  rounds-IsDry tiers dip_buy_tiers none (deadline ∷ events) s h =
      rounds-IsDry tiers dip_buy_tiers none events s h
  rounds-IsDry tiers dip_buy_tiers ends (update price pool_sol env ∷ events) s h =
      elim (one_round cfg true token tiers dip_buy_tiers ends price pool_sol env s)
          as (λ o.
            Maybe FlowDry o
            → Maybe IsDry (elim o as (λ x. Option (Session F)) [
              | none ↦ none
              | some (stop ended) ↦ some ended
              | some (go next) ↦ rounds cfg true token tiers dip_buy_tiers ends events next
            ])) [
              | none ↦ λ f. tt
              | some (stop ended) ↦ λ f. f
              | some (go next) ↦ λ f. rounds-IsDry tiers dip_buy_tiers ends events next f
            ]
        (one_round-FlowDry env tiers dip_buy_tiers ends price pool_sol s h)

  finish-IsDry :
      (env : EndEnv F) (p : Option (Position F)) (s : Session F)
      → p ≡ none
      → IsDry s
      → IsDry (close_out cfg true env p s)
  unfolding close_out
  finish-IsDry env none s e h = h
  finish-IsDry env (some pos) s e h = absurd (ground (arith, e))

  dry_lem :
      (parse : List ℕ → Option F) (session_start : ℕ) (events : List (Event F)) (env : EndEnv F)
      (shared : Shared F)
      → Maybe IsDry (run_session parse cfg true token session_start events env shared)
  unfolding run_session new_session finish
  dry_lem parse session_start events env shared =
      let started : Option ℕ × Session F → Type 0 = λ p. IsDry p.1 in
      Maybe-bind started IsDry _ _
        (Maybe-bind (λ d. Unit {0}) started (deadline_of session_start cfg.trading.max_monitor_time)
          _ (Maybe-all _)
          (λ d v.
            Maybe-bind (λ m. Unit {0}) started
              (new_macd cfg.macd.fast cfg.macd.slow cfg.macd.signal) _ (Maybe-all _)
              (λ m u. (refl, refl, refl))))
        (λ p h.
          Maybe-bind IsDry IsDry _ _ (rounds-IsDry _ _ p.0 events p.1 h)
            (λ e k. finish-IsDry env e.position e k.0 k))

-- For a configuration whose periods are in their order and positive, whose candles have some
-- length, and whose `max_monitor_time`, where it is not 0, ends less than 2^63 seconds from the
-- origin of the clock: over every finite run of prices a session in dry run does not panic, and
-- where the end of the feed, the deadline or the rug guard has ended it, no transaction has been
-- sent, no trade was reported, and no position is open, whatever the prices were and the network
-- would have answered.
pub run_session-IsDry :
    {F : Type 0} ⦃fl : Float F⦄ (parse : List ℕ → Option F) (cfg : Config F) (token : Token)
    (session_start : ℕ) (events : List (Event F)) (env : EndEnv F) (shared : Shared F)
    → IsRunnable cfg.macd
    → ¬ (IsLate session_start cfg.trading.max_monitor_time)
    → Surely IsDry (run_session parse cfg true token session_start events env shared)
run_session-IsDry parse cfg token session_start events env shared r timely =
    let (s, e, u) =
      run_session-some parse cfg true token session_start events env shared r timely in
    (s, e, subst (Maybe IsDry) e (dry_lem cfg token parse session_start events env shared))
