-- ===== src/Session/Entry.antt =====
-- The entry stages of a round of src/session.rs while a position is open.
use hades_ps_trader.Base.{
  ◌≡◌, ◌<◌, refl, Bool, true, false, Option, none, some, List, is_some, if◌then◌else◌, ◌∙◌, sym, ap,
  arith,
}
use mathlib.Core.Path.{subst}
use hades_ps_trader.Float.{Float}
use hades_ps_trader.Config.{Config}
use hades_ps_trader.Position.{EntryTrigger, macd, capitulation, dip_buy, TrailTier}
use hades_ps_trader.Macd.{CandleAggregator}
use hades_ps_trader.Session.{Token}
use hades_ps_trader.Session.Loop.{
  Session, TickEnv, enter, dip_buy_stage, capitulation_stage, close_stage, on_candle, candle_stage,
  exit_stage, trade_stages,
}
use hades_ps_trader.Session.Interval.{Surely, trade_stages-HasInterval}
use hades_ps_trader.Session.Stages.{Maybe}

-- Nothing was traded between two states: the position, what was sent and reported, the shared
-- state and the time of the last sell are the same.
pub record IsUntraded {F : Type 0} (s t : Session F) : Type 0 where
  pub same_position : t.position ≡ s.position
  pub same_sent : t.sent ≡ s.sent
  pub same_notices : t.notices ≡ s.notices
  pub same_shared : t.shared ≡ s.shared
  pub same_last_sell_at : t.last_sell_at ≡ s.last_sell_at

module _ {F : Type 0} ⦃fl : Float F⦄ (cfg : Config F) (dry_run : Bool) (token : Token)
    (env : TickEnv F) where
  enter_held :
      (trigger : EntryTrigger) (s : Session F)
      → is_some s.position ≡ true
      → enter cfg dry_run token trigger env s ≡ s
  unfolding enter
  enter_held trigger s h = ground (arith, h)

  gate_held :
      (b : Bool) (trigger : EntryTrigger) (s : Session F)
      → is_some s.position ≡ true
      → (if b then enter cfg dry_run token trigger env s else s) ≡ s
  gate_held true trigger s h = enter_held trigger s h
  gate_held false trigger s h = refl

  untraded : (s : Session F) → IsUntraded s s
  untraded s = record {
    same_position = refl;
    same_sent = refl;
    same_notices = refl;
    same_shared = refl;
    same_last_sell_at = refl;
  }

  if-IsUntraded :
      (b : Bool) (s t u : Session F)
      → IsUntraded s t
      → IsUntraded s u
      → IsUntraded s (if b then t else u)
  if-IsUntraded true s t u p q = p
  if-IsUntraded false s t u p q = q

  -- The fields that matter are the same.
  retell :
      (s t u : Session F)
      → u.position ≡ t.position
      → u.sent ≡ t.sent
      → u.notices ≡ t.notices
      → u.shared ≡ t.shared
      → u.last_sell_at ≡ t.last_sell_at
      → IsUntraded s t
      → IsUntraded s u
  retell s t u a b c d e same = record {
    same_position = a ∙ same.same_position;
    same_sent = b ∙ same.same_sent;
    same_notices = c ∙ same.same_notices;
    same_shared = d ∙ same.same_shared;
    same_last_sell_at = e ∙ same.same_last_sell_at;
  }

  gate-IsUntraded :
      (b : Bool) (trigger : EntryTrigger) (s t : Session F)
      → is_some s.position ≡ true
      → IsUntraded s t
      → IsUntraded s (if b then enter cfg dry_run token trigger env t else t)
  gate-IsUntraded b trigger s t h same =
      subst (IsUntraded s) (sym (gate_held b trigger t (ap is_some same.same_position ∙ h))) same

  dip_buy_stage-IsUntraded :
      (price pool_sol : F) (s t : Session F)
      → is_some s.position ≡ true
      → IsUntraded s t
      → IsUntraded s (dip_buy_stage cfg dry_run token price pool_sol env t)
  unfolding dip_buy_stage
  dip_buy_stage-IsUntraded price pool_sol s t h same =
      if-IsUntraded _ s _ t
        (gate-IsUntraded _ dip_buy s _ h (retell s t _ refl refl refl refl refl same)) same

  capitulation_stage-IsUntraded :
      (price : F) (s t : Session F)
      → is_some s.position ≡ true
      → IsUntraded s t
      → IsUntraded s (capitulation_stage cfg dry_run token price env t)
  unfolding capitulation_stage
  capitulation_stage-IsUntraded price s t h same =
      if-IsUntraded _ s _ t
        (gate-IsUntraded _ capitulation s _ h (retell s t _ refl refl refl refl refl same)) same

  on_candle-IsUntraded :
      (result : Option (CandleAggregator F × Option F)) (s t : Session F)
      → is_some s.position ≡ true
      → IsUntraded s t
      → Maybe (IsUntraded s) (on_candle cfg dry_run token env result t)
  unfolding on_candle close_stage
  on_candle-IsUntraded none s t h same = tt
  on_candle-IsUntraded (some (aggregator, none)) s t h same =
      retell s t _ refl refl refl refl refl same
  on_candle-IsUntraded (some (aggregator, some close)) s t h same =
      gate-IsUntraded _ macd s _ h (retell s t _ refl refl refl refl refl same)

  -- No pyramiding: where the candles have some length and the exit rules of a round leave a
  -- position open, the rest of the round comes to its end and trades nothing, whatever the
  -- detectors signal: the position, the shared counter and tracker, the transactions, the reports
  -- and the time of the last sell stay as the exit rules left them.
  pub trade_stages-IsUntraded :
      (tiers dip_buy_tiers : List (TrailTier F)) (price pool_sol : F) (s : Session F)
      → 0 < s.aggregator.interval
      → is_some (exit_stage cfg dry_run tiers dip_buy_tiers price env s).position ≡ true
      → Surely
          (IsUntraded (exit_stage cfg dry_run tiers dip_buy_tiers price env s))
          (trade_stages cfg dry_run token tiers dip_buy_tiers price pool_sol env s)
  unfolding trade_stages candle_stage
  trade_stages-IsUntraded tiers dip_buy_tiers price pool_sol s pos h =
      let start = exit_stage cfg dry_run tiers dip_buy_tiers price env s in
      let (t, e, u) =
        trade_stages-HasInterval cfg dry_run token env tiers dip_buy_tiers price pool_sol s pos in
      (
        t,
        e,
        subst (Maybe (IsUntraded start)) e (
            on_candle-IsUntraded _ start _ h (
              capitulation_stage-IsUntraded price start _ h
                (dip_buy_stage-IsUntraded price pool_sol start start h (untraded start)))),
      )
