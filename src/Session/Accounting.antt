-- ===== src/Session/Accounting.antt =====
-- The counter of open positions over a whole session (src/session.rs): every path that closes or
-- loses a position gives its slot back, and no path gives it back twice.
use hades_ps_trader.Base.{
  ℕ, ◌+◌, ◌^◌, ◌<◌, ◌≡◌, refl, ◌∙◌, ap, Bool, Bool-cases, inl, inr, Option, none, some, List, [],
  ◌∷◌, All, is_some,
}
use hades_ps_trader.Clock.{deadline_of, has_passed}
use hades_ps_trader.Float.{Float}
use hades_ps_trader.Config.{Config}
use hades_ps_trader.Position.{Position, TrailTier}
use hades_ps_trader.Macd.{new_macd}
use hades_ps_trader.Session.{Shared, Token, forced_exit}
use hades_ps_trader.Session.Loop.{Session, TickEnv, Event, deadline, update, stop, go}
use hades_ps_trader.Session.Run.{
  EndEnv, close_out, one_round, rounds, finish, new_session, run_session,
}
use hades_ps_trader.Session.Slot.{with_slot, IsQuiet}
use hades_ps_trader.Session.Stages.{
  IsQuietTick, IsQuietEvent, Accounts, Settled, FlowAccounts, Maybe, Maybe-bind, Maybe-all,
  force_sell-Settled, held, on_update-Accounts,
}

module _ {F : Type 0} ⦃fl : Float F⦄ (cfg : Config F) (dry_run : Bool) (n : ℕ)
    (small : n + 1 < 2 ^ 64) where
  close_out-Settled :
      (env : EndEnv F) (p : Option (Position F)) (s : Session F)
      → IsQuiet env.during_sell
      → s.position ≡ p
      → Accounts n s
      → Settled n (close_out cfg dry_run env p s)
  unfolding close_out
  close_out-Settled env none s quiet e h = (e, h ∙ ap (λ q. with_slot n (is_some q)) e)
  close_out-Settled env (some pos) s quiet e h =
      force_sell-Settled cfg dry_run n small env.attempts env.during_sell pos _ forced_exit s quiet
        (held cfg dry_run n small pos s h e)

  one_round-Accounts :
      (token : Token) (tiers dip_buy_tiers : List (TrailTier F)) (ends : Option ℕ)
      (price pool_sol : F) (env : TickEnv F) (s : Session F)
      → IsQuietTick env
      → Accounts n s
      → Maybe
          (FlowAccounts n)
          (one_round cfg dry_run token tiers dip_buy_tiers ends price pool_sol env s)
  unfolding one_round
  one_round-Accounts token tiers dip_buy_tiers ends price pool_sol env s q h =
      elim (Bool-cases (has_passed ends env.polled_at)) [
        | inl e ↦ rw e h
        | inr e ↦ rw e (
            on_update-Accounts cfg dry_run n small env q token tiers dip_buy_tiers price pool_sol s
              h)
      ]

  rounds-Accounts :
      (token : Token) (tiers dip_buy_tiers : List (TrailTier F)) (ends : Option ℕ)
      (events : List (Event F)) (s : Session F)
      → All IsQuietEvent events
      → Accounts n s
      → Maybe (Accounts n) (rounds cfg dry_run token tiers dip_buy_tiers ends events s)
  unfolding rounds
  rounds-Accounts token tiers dip_buy_tiers ends [] s quiet h = h
  rounds-Accounts token tiers dip_buy_tiers (some d) (deadline ∷ events) s quiet h = h
  rounds-Accounts token tiers dip_buy_tiers none (deadline ∷ events) s (q, qs) h =
      rounds-Accounts token tiers dip_buy_tiers none events s qs h
  rounds-Accounts token tiers dip_buy_tiers ends (update price pool_sol env ∷ events) s (q, qs) h =
      elim (one_round cfg dry_run token tiers dip_buy_tiers ends price pool_sol env s)
          as (λ o.
            Maybe (FlowAccounts n) o
            → Maybe (Accounts n) (elim o as (λ x. Option (Session F)) [
              | none ↦ none
              | some (stop ended) ↦ some ended
              | some (go next) ↦ rounds cfg dry_run token tiers dip_buy_tiers ends events next
            ])) [
              | none ↦ λ f. tt
              | some (stop ended) ↦ λ f. f
              | some (go next) ↦
                  λ f. rounds-Accounts token tiers dip_buy_tiers ends events next qs f
            ]
        (one_round-Accounts token tiers dip_buy_tiers ends price pool_sol env s q h)

  finish-Settled :
      (env : EndEnv F) (s : Session F)
      → IsQuiet env.during_sell
      → Accounts n s
      → Settled n (finish cfg dry_run env s)
  unfolding finish
  finish-Settled env s quiet h = close_out-Settled env s.position s quiet refl h

-- While other sessions leave the counter as it is, a session that comes to its end, by the
-- deadline, by the end of its feed or by the rug guard, holds no position then and has put the
-- counter back to where it found it, whatever its trades met.
pub run_session-Settled :
    {F : Type 0} ⦃fl : Float F⦄ (parse : List ℕ → Option F) (cfg : Config F) (dry_run : Bool)
    (token : Token) (session_start : ℕ) (events : List (Event F)) (env : EndEnv F)
    (shared : Shared F)
    → All IsQuietEvent events
    → IsQuiet env.during_sell
    → shared.open_positions + 1 < 2 ^ 64
    → Maybe
        (Settled shared.open_positions)
        (run_session parse cfg dry_run token session_start events env shared)
unfolding run_session new_session
run_session-Settled {F = F} parse cfg dry_run token session_start events env shared quiet calm
      small =
    let n = shared.open_positions in
    let started : Option ℕ × Session F → Type 0 = λ p. Accounts n p.1 in
    Maybe-bind started (Settled n) _ _
      (Maybe-bind (λ d. Unit {0}) started (deadline_of session_start cfg.trading.max_monitor_time) _
        (Maybe-all _)
        (λ d v.
          Maybe-bind (λ m. Unit {0}) started (new_macd cfg.macd.fast cfg.macd.slow cfg.macd.signal)
            _ (Maybe-all _) (λ m u. refl)))
      (λ p h.
        Maybe-bind (Accounts n) (Settled n) _ _
          (rounds-Accounts cfg dry_run n small token _ _ p.0 events p.1 quiet h)
          (λ e k. finish-Settled cfg dry_run n small env e calm k))
