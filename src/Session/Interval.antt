-- ===== src/Session/Interval.antt =====
-- The rounds of a session of src/session.rs have a result: with periods that the indicator accepts
-- and candles of some length, no assertion fails and no division panics.
use hades_ps_trader.Base.{
  ℕ, ◌<◌, ◌≡◌, refl, sym, ◌∙◌, ltb, Option-cases, Bool, true, false, Option, none, some, List,
  arith, if◌then◌else◌, ◌>>=◌, not, ◌&&◌, Bool-cases, inl, inr,
}
use mathlib.Core.Path.{subst}
use hades_ps_trader.Float.{Float}
use hades_ps_trader.Config.{Config, MacdConfig}
use hades_ps_trader.Position.{
  EntryTrigger, macd, capitulation, dip_buy, Position, TrailTier, ExitReason,
}
use hades_ps_trader.Rug.{RugReason}
use hades_ps_trader.Macd.{CandleAggregator, new_ema, new_macd, on_tick}
use hades_ps_trader.Session.{Token}
use hades_ps_trader.Session.Loop.{
  Session, TickEnv, Flow, stop, go, sell, see, abandon, rug_stage, close_or_keep, follow, watch,
  exit_stage, enter, dip_buy_stage, capitulation_stage, close_stage, on_candle, candle_stage,
  trade_stages,
}
use hades_ps_trader.Session.Run.{trade, on_update}

-- There is a result, and it satisfies `P`.
abbrev pub Surely : {A : Type 0} → (A → Type 0) → Option A → Type 0
Surely {A} P o = (a : A) × (o ≡ some a) × P a

pub Surely-bind :
    {A B : Type 0} (P : A → Type 0) (Q : B → Type 0) (o : Option A) (k : A → Option B)
    → Surely P o
    → ((a : A) → P a → Surely Q (k a))
    → Surely Q (o >>= k)
Surely-bind P Q o k (a, e, h) next = let (b, f, q) = next a h in (b, rw e f, q)

-- The periods and the candle length that the constructors and the division accept.
pub record IsRunnable (cfg : MacdConfig) : Type 0 where
  pub fast_pos : 0 < cfg.fast
  pub fast_slow : cfg.fast < cfg.slow
  pub signal_pos : 0 < cfg.signal
  pub candle_pos : 0 < cfg.candle_interval_secs

module _ {F : Type 0} ⦃fl : Float F⦄ where
  new_ema-some : (n : ℕ) → 0 < n → Surely (λ e. Unit {0}) (new_ema {F = F} n)
  unfolding new_ema
  new_ema-some n h = elim (Option-cases (new_ema {F = F} n)) [
    | inl e ↦ absurd (ground (arith, e, h))
    | inr (ema, e) ↦ (ema, e, tt)
  ]

  pub new_macd-some :
      (cfg : MacdConfig)
      → IsRunnable cfg
      → Surely (λ m. Unit {0}) (new_macd {F = F} cfg.fast cfg.slow cfg.signal)
  unfolding new_macd
  new_macd-some cfg r =
      let (f, ef, uf) = new_ema-some cfg.fast r.fast_pos in
      let (s, es, us) = new_ema-some cfg.slow (omega (arith, r.fast_slow)) in
      let (g, eg, ug) = new_ema-some cfg.signal r.signal_pos in
      elim (Bool-cases (ltb cfg.fast cfg.slow)) [
        | inl e ↦ rw (e, ef, es, eg) (_, refl, tt)
        | inr e ↦ absurd (ground (arith, e, r.fast_slow))
      ]

  abbrev pub HasInterval : Session F → Type 0
  HasInterval s = 0 < s.aggregator.interval

  on_tick-some :
      (agg : CandleAggregator F) (price : F) (now : ℕ)
      → 0 < agg.interval
      → Surely (λ r. 0 < r.0.interval) (on_tick agg price now)
  unfolding on_tick
  on_tick-some agg price now h = elim (Option-cases (on_tick agg price now)) [
    | inl e ↦ absurd (ground (arith, e, h))
    | inr (r, e) ↦ (r, e, ground (arith, e, h))
  ]

  -- A round that goes on has a candle length.
  abbrev pub FlowInterval : Flow F → Type 0
  FlowInterval (stop s) = Unit
  FlowInterval (go s) = HasInterval s

module _ {F : Type 0} ⦃fl : Float F⦄ (cfg : Config F) (dry_run : Bool) (token : Token)
    (env : TickEnv F) where
  close_or_keep-aggregator :
      (sold_at : ℕ) (pos : Position F) (r : Session F × Bool)
      → (close_or_keep sold_at pos r).aggregator ≡ r.0.aggregator
  unfolding close_or_keep
  close_or_keep-aggregator sold_at pos (s, true) = refl
  close_or_keep-aggregator sold_at pos (s, false) = refl

  follow-aggregator :
      (pos : Position F) (pct : F) (decided : Option (ExitReason F)) (s : Session F)
      → (follow cfg dry_run env pos pct decided s).aggregator ≡ s.aggregator
  unfolding follow sell
  follow-aggregator pos pct none s = refl
  follow-aggregator pos pct (some reason) s = close_or_keep-aggregator env.sold_at pos _

  watch-aggregator :
      (tiers dip_buy_tiers : List (TrailTier F)) (price : F) (p : Option (Position F))
      (s : Session F)
      → (watch cfg dry_run tiers dip_buy_tiers price env p s).aggregator ≡ s.aggregator
  unfolding watch
  watch-aggregator tiers dip_buy_tiers price none s = refl
  watch-aggregator tiers dip_buy_tiers price (some pos) s = follow-aggregator _ _ _ s

  enter-aggregator :
      (trigger : EntryTrigger) (s : Session F)
      → (enter cfg dry_run token trigger env s).aggregator ≡ s.aggregator
  unfolding enter
  enter-aggregator trigger s = ground arith

  gate-aggregator :
      (b : Bool) (trigger : EntryTrigger) (s : Session F)
      → (if b then enter cfg dry_run token trigger env s else s).aggregator ≡ s.aggregator
  gate-aggregator true trigger s = enter-aggregator trigger s
  gate-aggregator false trigger s = refl

  dip_buy_stage-aggregator :
      (price pool_sol : F) (s : Session F)
      → (dip_buy_stage cfg dry_run token price pool_sol env s).aggregator ≡ s.aggregator
  unfolding dip_buy_stage
  dip_buy_stage-aggregator price pool_sol s = elim (Bool-cases s.dip_buy_detector.enabled) [
    | inl e ↦ rw e (gate-aggregator _ dip_buy _)
    | inr e ↦ rw e refl
  ]

  capitulation_stage-aggregator :
      (price : F) (s : Session F)
      → (capitulation_stage cfg dry_run token price env s).aggregator ≡ s.aggregator
  unfolding capitulation_stage
  capitulation_stage-aggregator price s =
      elim (Bool-cases (not s.dip_buy_detector.enabled && s.cap_detector.enabled)) [
        | inl e ↦ rw e (gate-aggregator _ capitulation _)
        | inr e ↦ rw e refl
      ]

  on_candle-HasInterval :
      (result : Option (CandleAggregator F × Option F)) (s : Session F)
      → Surely (λ r. 0 < r.0.interval) result
      → Surely HasInterval (on_candle cfg dry_run token env result s)
  unfolding on_candle close_stage
  on_candle-HasInterval result s ((agg, none), e, h) = rw e (_, refl, h)
  on_candle-HasInterval result s ((agg, some close), e, h) =
      rw e (_, refl, subst (λ a. 0 < a.interval) (sym (gate-aggregator _ macd _)) h)

  abandon-FlowInterval :
      (price : F) (verdict : Option (RugReason F)) (p : Option (Position F)) (s : Session F)
      → HasInterval s
      → FlowInterval (abandon cfg dry_run price env verdict p s)
  unfolding abandon
  abandon-FlowInterval price none p s h = h
  abandon-FlowInterval price (some reason) none s h = tt
  abandon-FlowInterval price (some reason) (some pos) s h = tt

  before_candle :
      (tiers dip_buy_tiers : List (TrailTier F)) (price pool_sol : F) (s : Session F)
      → (capitulation_stage cfg dry_run token price env (
          dip_buy_stage cfg dry_run token price pool_sol env
            (exit_stage cfg dry_run tiers dip_buy_tiers price env s))).aggregator
        ≡ s.aggregator
  unfolding exit_stage
  before_candle tiers dip_buy_tiers price pool_sol s =
      capitulation_stage-aggregator price _
      ∙ dip_buy_stage-aggregator price pool_sol _
      ∙ watch-aggregator tiers dip_buy_tiers price s.position s

  pub trade_stages-HasInterval :
      (tiers dip_buy_tiers : List (TrailTier F)) (price pool_sol : F) (s : Session F)
      → HasInterval s
      → Surely HasInterval (trade_stages cfg dry_run token tiers dip_buy_tiers price pool_sol env s)
  unfolding trade_stages candle_stage
  trade_stages-HasInterval tiers dip_buy_tiers price pool_sol s h = on_candle-HasInterval _ _ (
      on_tick-some _ price env.now
        (subst (λ a. 0 < a.interval) (sym (before_candle tiers dip_buy_tiers price pool_sol s)) h))

  trade-FlowInterval :
      (tiers dip_buy_tiers : List (TrailTier F)) (price pool_sol : F) (f : Flow F)
      → FlowInterval f
      → Surely FlowInterval (trade cfg dry_run token tiers dip_buy_tiers price pool_sol env f)
  unfolding trade
  trade-FlowInterval tiers dip_buy_tiers price pool_sol (stop s) h = (_, refl, tt)
  trade-FlowInterval tiers dip_buy_tiers price pool_sol (go s) h =
      Surely-bind HasInterval FlowInterval _ _
        (trade_stages-HasInterval tiers dip_buy_tiers price pool_sol s h) (λ t k. (_, refl, k))

  pub on_update-FlowInterval :
      (tiers dip_buy_tiers : List (TrailTier F)) (price pool_sol : F) (s : Session F)
      → HasInterval s
      → Surely FlowInterval (on_update cfg dry_run token tiers dip_buy_tiers price pool_sol env s)
  unfolding on_update rug_stage see
  on_update-FlowInterval tiers dip_buy_tiers price pool_sol s h =
      trade-FlowInterval tiers dip_buy_tiers price pool_sol _ (abandon-FlowInterval price _ _ _ h)
