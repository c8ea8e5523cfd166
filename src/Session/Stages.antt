-- ===== src/Session/Stages.antt =====
-- The counter of open positions over the stages of one round of a session (src/session.rs).
use hades_ps_trader.Base.{
  ℕ, ◌+◌, not, ◌&&◌, ◌^◌, ◌<◌, ◌≡◌, refl, sym, ◌∙◌, ap, Bool, true, false, Option, none, some, List,
  is_some, arith, if◌then◌else◌, ◌>>=◌, Bool-cases, inl, inr,
}
use hades_ps_trader.Float.{Float}
use hades_ps_trader.Config.{Config}
use hades_ps_trader.Position.{
  EntryTrigger, macd, capitulation, dip_buy, Position, TrailTier, ExitReason, pnl_pct,
}
use hades_ps_trader.Rug.{RugReason}
use hades_ps_trader.Macd.{CandleAggregator}
use hades_ps_trader.Trader.{Attempt}
use hades_ps_trader.Session.{Shared, Token, SellReason, rug_detected, exit_rule, release}
use hades_ps_trader.Session.Loop.{
  Session, TickEnv, Event, deadline, update, Flow, stop, go, sell, force_sell, see, abandon,
  rug_stage, follow, watch, on_candle, close_or_keep, exit_stage, enter, dip_buy_stage,
  capitulation_stage, close_stage, candle_stage, trade_stages,
}
use hades_ps_trader.Session.Run.{trade, on_update}
use hades_ps_trader.Session.Slot.{with_slot, IsQuiet, IsQuietBuy, try_buy-with_slot}

abbrev pub IsQuietTick : {F : Type 0} → TickEnv F → Type 0
IsQuietTick env =
    IsQuiet env.before × IsQuiet env.during_sell × ((t : EntryTrigger) → IsQuietBuy (env.buy t))

abbrev pub IsQuietEvent : {F : Type 0} → Event F → Type 0
IsQuietEvent deadline = Unit
IsQuietEvent (update price pool_sol env) = IsQuietTick env

-- The counter stands at `n`, plus one while the session holds a position.
abbrev pub Accounts : {F : Type 0} → ℕ → Session F → Type 0
Accounts n s = s.shared.open_positions ≡ with_slot n (is_some s.position)

-- A session that has ended holds nothing.
abbrev pub Settled : {F : Type 0} → ℕ → Session F → Type 0
Settled n s = (s.position ≡ none) × (s.shared.open_positions ≡ n)

-- After a round: a session that goes on keeps its account, and so does one that stops.
abbrev pub FlowAccounts : {F : Type 0} → ℕ → Flow F → Type 0
FlowAccounts n (stop s) = Accounts n s
FlowAccounts n (go s) = Accounts n s

abbrev pub Maybe : {A : Type 0} → (A → Type 0) → Option A → Type 0
Maybe P none = Unit
Maybe P (some a) = P a

pub Maybe-bind :
    {A B : Type 0} (P : A → Type 0) (Q : B → Type 0) (o : Option A) (k : A → Option B)
    → Maybe P o
    → ((a : A) → P a → Maybe Q (k a))
    → Maybe Q (o >>= k)
Maybe-bind P Q none k h next = tt
Maybe-bind P Q (some a) k h next = next a h

pub Maybe-all : {A : Type 0} (o : Option A) → Maybe (λ a. Unit {0}) o
Maybe-all none = tt
Maybe-all (some a) = tt

module _ {F : Type 0} ⦃fl : Float F⦄ (cfg : Config F) (dry_run : Bool) (n : ℕ)
    (small : n + 1 < 2 ^ 64) where
  pub force_sell-Settled :
      (attempts : ℕ → F → Attempt) (during : Shared F → Shared F) (pos : Position F) (pct : F)
      (reason : SellReason F) (s : Session F)
      → IsQuiet during
      → s.shared.open_positions ≡ n + 1
      → Settled n (force_sell cfg dry_run attempts during pos pct reason s)
  unfolding force_sell sell release
  force_sell-Settled attempts during pos pct reason s quiet e =
      (refl, omega (arith, quiet s.shared, e))

  sell-open :
      (attempts : ℕ → F → Attempt) (during : Shared F → Shared F) (pos : Position F) (pct : F)
      (reason : SellReason F) (s : Session F)
      → IsQuiet during
      → (sell cfg dry_run attempts during pos pct reason s).0.shared.open_positions
        ≡ s.shared.open_positions
  unfolding sell
  sell-open attempts during pos pct reason s quiet = quiet s.shared

  pub held :
      (pos : Position F) (s : Session F)
      → Accounts n s
      → s.position ≡ some pos
      → s.shared.open_positions ≡ n + 1
  held pos s h e = ground (arith, h, e)

  close_or_keep-Accounts :
      (sold_at : ℕ) (pos : Position F) (r : Session F × Bool)
      → r.0.shared.open_positions ≡ n + 1
      → Accounts n (close_or_keep sold_at pos r)
  unfolding close_or_keep release
  close_or_keep-Accounts sold_at pos (s, true) e = omega (arith, e)
  close_or_keep-Accounts sold_at pos (s, false) e = e

  module _ (env : TickEnv F) (quiet : IsQuietTick env) where
    see-Accounts :
        (price pool_sol : F) (s : Session F) → Accounts n s → Accounts n (see price pool_sol env s)
    unfolding see
    see-Accounts price pool_sol s h = quiet.0 s.shared ∙ h

    abandon-Accounts :
        (price : F) (verdict : Option (RugReason F)) (p : Option (Position F)) (s : Session F)
        → s.position ≡ p
        → Accounts n s
        → FlowAccounts n (abandon cfg dry_run price env verdict p s)
    unfolding abandon
    abandon-Accounts price none p s e h = h
    abandon-Accounts price (some reason) none s e h = h
    abandon-Accounts price (some reason) (some pos) s e h =
        let settled =
          force_sell-Settled env.sell_attempts env.during_sell pos (pnl_pct pos price)
            (rug_detected reason) s quiet.1 (held pos s h e) in
        settled.1 ∙ ap (λ q. with_slot n (is_some q)) (sym settled.0)

    follow-Accounts :
        (pos : Position F) (pct : F) (decided : Option (ExitReason F)) (s : Session F)
        → s.shared.open_positions ≡ n + 1
        → Accounts n (follow cfg dry_run env pos pct decided s)
    unfolding follow
    follow-Accounts pos pct none s e = e
    follow-Accounts pos pct (some reason) s e =
        close_or_keep-Accounts env.sold_at pos _
          (sell-open env.sell_attempts env.during_sell pos pct (exit_rule reason) s quiet.1 ∙ e)

    watch-Accounts :
        (tiers dip_buy_tiers : List (TrailTier F)) (price : F) (p : Option (Position F))
        (s : Session F)
        → s.position ≡ p
        → Accounts n s
        → Accounts n (watch cfg dry_run tiers dip_buy_tiers price env p s)
    unfolding watch
    watch-Accounts tiers dip_buy_tiers price none s e h = h
    watch-Accounts tiers dip_buy_tiers price (some pos) s e h =
        follow-Accounts _ _ _ s (held pos s h e)

    enter-Accounts :
        (token : Token) (trigger : EntryTrigger) (s : Session F)
        → Accounts n s
        → Accounts n (enter cfg dry_run token trigger env s)
    unfolding enter
    enter-Accounts token trigger s h =
        let b =
          try_buy-with_slot cfg token trigger dry_run (env.buy trigger) s.shared
            (quiet.2 trigger) in
        ground (arith, h, small, b)

    gate :
        (b : Bool) (token : Token) (trigger : EntryTrigger) (s : Session F)
        → Accounts n s
        → Accounts n (if b then enter cfg dry_run token trigger env s else s)
    gate true token trigger s h = enter-Accounts token trigger s h
    gate false token trigger s h = h

    dip_buy_stage-Accounts :
        (token : Token) (price pool_sol : F) (s : Session F)
        → Accounts n s
        → Accounts n (dip_buy_stage cfg dry_run token price pool_sol env s)
    unfolding dip_buy_stage
    dip_buy_stage-Accounts token price pool_sol s h = elim (Bool-cases s.dip_buy_detector.enabled) [
      | inl e ↦ rw e (gate _ token dip_buy _ h)
      | inr e ↦ rw e h
    ]

    capitulation_stage-Accounts :
        (token : Token) (price : F) (s : Session F)
        → Accounts n s
        → Accounts n (capitulation_stage cfg dry_run token price env s)
    unfolding capitulation_stage
    capitulation_stage-Accounts token price s h =
        elim (Bool-cases (not s.dip_buy_detector.enabled && s.cap_detector.enabled)) [
          | inl e ↦ rw e (gate _ token capitulation _ h)
          | inr e ↦ rw e h
        ]

    on_candle-Accounts :
        (token : Token) (result : Option (CandleAggregator F × Option F)) (s : Session F)
        → Accounts n s
        → Maybe (Accounts n) (on_candle cfg dry_run token env result s)
    unfolding on_candle close_stage
    on_candle-Accounts token none s h = tt
    on_candle-Accounts token (some (aggregator, none)) s h = h
    on_candle-Accounts token (some (aggregator, some close)) s h = gate _ token macd _ h

    trade-Accounts :
        (token : Token) (tiers dip_buy_tiers : List (TrailTier F)) (price pool_sol : F) (f : Flow F)
        → FlowAccounts n f
        → Maybe (FlowAccounts n) (trade cfg dry_run token tiers dip_buy_tiers price pool_sol env f)
    unfolding trade
    trade-Accounts token tiers dip_buy_tiers price pool_sol (stop s) h = h
    trade-Accounts token tiers dip_buy_tiers price pool_sol (go s) h =
        Maybe-bind (Accounts n) (FlowAccounts n)
          (trade_stages cfg dry_run token tiers dip_buy_tiers price pool_sol env s) _
          (unfold trade_stages candle_stage exit_stage in
            on_candle-Accounts token _ _ (
              capitulation_stage-Accounts token price _ (
                dip_buy_stage-Accounts token price pool_sol _
                  (watch-Accounts tiers dip_buy_tiers price _ s refl h))))
          (λ t k. k)

    pub on_update-Accounts :
        (token : Token) (tiers dip_buy_tiers : List (TrailTier F)) (price pool_sol : F)
        (s : Session F)
        → Accounts n s
        → Maybe
            (FlowAccounts n)
            (on_update cfg dry_run token tiers dip_buy_tiers price pool_sol env s)
    unfolding on_update rug_stage
    on_update-Accounts token tiers dip_buy_tiers price pool_sol s h =
        trade-Accounts token tiers dip_buy_tiers price pool_sol _ (
          abandon-Accounts price _ _ (see price pool_sol env s) refl
            (see-Accounts price pool_sol s h))
