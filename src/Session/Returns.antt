-- ===== src/Session/Returns.antt =====
-- Where a session of src/session.rs panics and where it does not: the addition of its deadline, the
-- assertions of the indicator and the division by the length of a candle.
use hades_ps_trader.Base.{
  ℕ, ◌+◌, ◌^◌, ◌<◌, refl, ◌≡◌, Bool, Bool-cases, inl, inr, Option, none, Option-cases, some, List,
  [], ◌∷◌, All, arith,
}
use mathlib.Core.Path.{subst}
use hades_ps_trader.Clock.{from_secs, deadline_of, deadline_of-none, IsLate, has_passed}
use hades_ps_trader.Float.{Float}
use hades_ps_trader.Config.{Config}
use hades_ps_trader.Position.{TrailTier}
use hades_ps_trader.Macd.{new_aggregator}
use hades_ps_trader.Session.{Shared, Token}
use hades_ps_trader.Session.Loop.{Session, TickEnv, Event, deadline, update, Flow, stop, go}
use hades_ps_trader.Session.Run.{EndEnv, one_round, rounds, new_session, run_session}
use hades_ps_trader.Session.Slot.{IsQuiet}
use hades_ps_trader.Session.Stages.{IsQuietEvent, Settled, Maybe}
use hades_ps_trader.Session.Accounting.{run_session-Settled}
use hades_ps_trader.Session.Interval.{
  Surely, Surely-bind, IsRunnable, new_macd-some, HasInterval, FlowInterval, on_update-FlowInterval,
}

module _ {F : Type 0} ⦃fl : Float F⦄ (cfg : Config F) (dry_run : Bool) (token : Token) where
  one_round-FlowInterval :
      (tiers dip_buy_tiers : List (TrailTier F)) (ends : Option ℕ) (price pool_sol : F)
      (env : TickEnv F) (s : Session F)
      → HasInterval s
      → Surely FlowInterval
          (one_round cfg dry_run token tiers dip_buy_tiers ends price pool_sol env s)
  unfolding one_round
  one_round-FlowInterval tiers dip_buy_tiers ends price pool_sol env s h =
      elim (Bool-cases (has_passed ends env.polled_at)) [
        | inl e ↦ rw e (stop s, refl, tt)
        | inr e ↦
            rw e
              (on_update-FlowInterval cfg dry_run token env tiers dip_buy_tiers price pool_sol s h)
      ]

  rounds-some :
      (tiers dip_buy_tiers : List (TrailTier F)) (ends : Option ℕ) (events : List (Event F))
      (s : Session F)
      → HasInterval s
      → Surely (λ t. Unit {0}) (rounds cfg dry_run token tiers dip_buy_tiers ends events s)
  unfolding rounds
  rounds-some tiers dip_buy_tiers ends [] s h = (s, refl, tt)
  rounds-some tiers dip_buy_tiers (some d) (deadline ∷ events) s h = (s, refl, tt)
  rounds-some tiers dip_buy_tiers none (deadline ∷ events) s h =
      rounds-some tiers dip_buy_tiers none events s h
  rounds-some tiers dip_buy_tiers ends (update price pool_sol env ∷ events) s h =
      let (f, e, k) = one_round-FlowInterval tiers dip_buy_tiers ends price pool_sol env s h in
      rw (rounds, e) (resume f k (λ s h. rounds-some tiers dip_buy_tiers ends events s h))
    where
      resume :
          (f : Flow F)
          → FlowInterval f
          → ((s : Session F)
              → HasInterval s
              → Surely (λ t. Unit {0}) (rounds cfg dry_run token tiers dip_buy_tiers ends events s))
          → Surely
              (λ t. Unit {0})
              (elim f as (λ x. Option (Session F)) [
                | stop ended ↦ some ended
                | go next ↦ rounds cfg dry_run token tiers dip_buy_tiers ends events next
              ])
      resume (stop ended) k others = (ended, refl, tt)
      resume (go next) k others = others next k

deadline_of-some :
    (start secs : ℕ) → ¬ (IsLate start secs) → Surely (λ d. Unit {0}) (deadline_of start secs)
deadline_of-some start secs timely = elim (Option-cases (deadline_of start secs)) [
  | inl e ↦ absurd (timely ((deadline_of-none start secs).0 e))
  | inr (d, e) ↦ (d, e, tt)
]

-- A deadline that is no instant makes the session panic before its first round.
pub run_session-IsLate :
    {F : Type 0} ⦃fl : Float F⦄ (parse : List ℕ → Option F) (cfg : Config F) (dry_run : Bool)
    (token : Token) (session_start : ℕ) (events : List (Event F)) (env : EndEnv F)
    (shared : Shared F)
    → IsLate session_start cfg.trading.max_monitor_time
    → run_session parse cfg dry_run token session_start events env shared ≡ none
unfolding run_session new_session
run_session-IsLate parse cfg dry_run token session_start events env shared late =
    rw ((deadline_of-none session_start cfg.trading.max_monitor_time).1 late) refl

pub run_session-some :
    {F : Type 0} ⦃fl : Float F⦄ (parse : List ℕ → Option F) (cfg : Config F) (dry_run : Bool)
    (token : Token) (session_start : ℕ) (events : List (Event F)) (env : EndEnv F)
    (shared : Shared F)
    → IsRunnable cfg.macd
    → ¬ (IsLate session_start cfg.trading.max_monitor_time)
    → Surely (λ s. Unit {0}) (run_session parse cfg dry_run token session_start events env shared)
unfolding run_session new_session
run_session-some {F = F} parse cfg dry_run token session_start events env shared r timely =
    Surely-bind (λ (p : Option ℕ × Session F). HasInterval p.1) (λ s. Unit {0}) _ _
      (Surely-bind (λ d. Unit {0}) (λ (p : Option ℕ × Session F). HasInterval p.1) _ _
        (deadline_of-some session_start cfg.trading.max_monitor_time timely)
        (λ d v.
          Surely-bind (λ m. Unit {0}) (λ (p : Option ℕ × Session F). HasInterval p.1) _ _
            (new_macd-some {F = F} cfg.macd r) (λ m u. (_, refl, interval_pos))))
      (λ p h.
        Surely-bind (λ s. Unit {0}) (λ s. Unit {0}) _ _
          (rounds-some cfg dry_run token _ _ p.0 events p.1 h) (λ t k. (_, refl, tt)))
  where
    interval_pos : 0 < (new_aggregator {F = F} (from_secs cfg.macd.candle_interval_secs)).interval
    interval_pos = unfold new_aggregator in omega (arith, r.candle_pos)

-- For a configuration whose periods are in their order and positive, whose candles have some
-- length, and whose `max_monitor_time`, where it is not 0, ends less than 2^63 seconds from the
-- origin of the clock, while other sessions leave the counter of open positions as it is and it
-- does not overflow: over every finite run of prices until the feed ends, or the deadline or the
-- rug guard stops it earlier, a session does not panic (the addition of its deadline, the
-- assertions of the indicator and the division by the candle length are safe), and then it holds
-- no position and has put the counter back to where it found it, whatever its trades met.
pub run_session-returns :
    {F : Type 0} ⦃fl : Float F⦄ (parse : List ℕ → Option F) (cfg : Config F) (dry_run : Bool)
    (token : Token) (session_start : ℕ) (events : List (Event F)) (env : EndEnv F)
    (shared : Shared F)
    → IsRunnable cfg.macd
    → ¬ (IsLate session_start cfg.trading.max_monitor_time)
    → All IsQuietEvent events
    → IsQuiet env.during_sell
    → shared.open_positions + 1 < 2 ^ 64
    → Surely
        (Settled shared.open_positions)
        (run_session parse cfg dry_run token session_start events env shared)
run_session-returns parse cfg dry_run token session_start events env shared r timely quiet calm
      small =
    let (s, e, u) =
      run_session-some parse cfg dry_run token session_start events env shared r timely in
    (
      s,
      e,
      subst (Maybe (Settled shared.open_positions)) e (
          run_session-Settled parse cfg dry_run token session_start events env shared quiet calm
            small),
    )
