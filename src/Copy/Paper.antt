-- ===== src/Copy/Paper.antt =====
-- A dry run of src/copy_session.rs: the paper position.
use hades_ps_trader.Base.{
  ℕ, ◌≡◌, refl, inl, inr, Bool, true, false, Option, none, some, List, [], ◌∷◌, arith, ◌&&◌,
  Bool-cases,
}
use mathlib.Core.Path.{subst}
use hades_ps_trader.Float.{Float}
use hades_ps_trader.Config.{Config}
use hades_ps_trader.Position.{TrailTier, ExitReason}
use hades_ps_trader.PumpPortal.{AlphaTrade}
use hades_ps_trader.Rug.{RugReason}
use hades_ps_trader.Trader.{Attempt, submit, escalate, sell_all, TradeError}
use hades_ps_trader.Trader
use hades_ps_trader.Spend
use hades_ps_trader.Session.{Shared, reserve}
use hades_ps_trader.Copy.{CopyReason, Holding, do_sell, exit_rule}
use hades_ps_trader.Copy.Watch.{
  Watching, CopyEvent, on_deadline, on_shutdown, shutdown_lagged, mirror_lagged, mirror_closed,
  on_sell, on_price, sell, force_sell, is_exit, see, raise_peak, after_sell, follow, judge,
  on_event, watch, start, state_of,
}
use hades_ps_trader.Copy.Closing.{CopyFlow-cases}
use hades_ps_trader.Copy.Entry.{CopyEnv, Copied, hold_until, hold, enter_paper}
use hades_ps_trader.Copy.Handle.{after_buy, buy_copy, copy_with_slot, copy_gates, copy_handle}

abbrev pub IsSilent : {F : Type 0} → Watching F → Type 0
IsSilent w = (w.sent ≡ []) × (w.notices ≡ [])

module _ {F : Type 0} ⦃fl : Float F⦄ (cfg : Config F) (h : Holding F) where
  do_sell-dry :
      (attempts : ℕ → F → Attempt) (pct : F) (reason : CopyReason F)
      → do_sell cfg true attempts h pct reason ≡ ([], ([], true))
  unfolding do_sell sell_all escalate submit
  do_sell-dry attempts pct reason = refl

  -- A dry sell succeeds, and leaves nothing.
  sell-IsSilent :
      (attempts : ℕ → F → Attempt) (pct : F) (reason : CopyReason F) (w : Watching F)
      → IsSilent w
      → IsSilent (sell cfg true attempts h pct reason w).0
  unfolding sell
  sell-IsSilent attempts pct reason w silent =
      rw (do_sell-dry attempts pct reason, silent.0, silent.1) (refl, refl)

  force_sell-IsSilent :
      (attempts : ℕ → F → Attempt) (reason : CopyReason F) (w : Watching F)
      → IsSilent w
      → IsSilent (force_sell cfg true attempts h reason w)
  unfolding force_sell
  force_sell-IsSilent attempts reason w silent = sell-IsSilent attempts _ reason w silent

  after_sell-IsSilent : (r : Watching F × Bool) → IsSilent r.0 → IsSilent (state_of (after_sell r))
  after_sell-IsSilent (w, true) silent = silent
  after_sell-IsSilent (w, false) silent = silent

  follow-IsSilent :
      (attempts : ℕ → F → Attempt) (pct : F) (decided : Option (ExitReason F)) (w : Watching F)
      → IsSilent w
      → IsSilent (state_of (follow cfg true attempts h pct decided w))
  unfolding follow
  follow-IsSilent attempts pct none w silent = silent
  follow-IsSilent attempts pct (some reason) w silent =
      after_sell-IsSilent _ (sell-IsSilent attempts pct (exit_rule reason) w silent)

  raise_peak-IsSilent : (pct : F) (w : Watching F) → IsSilent w → IsSilent (raise_peak pct w)
  unfolding raise_peak
  raise_peak-IsSilent pct w silent = ground arith

  judge-IsSilent :
      (tiers : List (TrailTier F)) (attempts : ℕ → F → Attempt) (price : F) (exit_at : ℕ)
      (verdict : Option (RugReason F)) (w : Watching F)
      → IsSilent w
      → IsSilent (state_of (judge cfg true tiers attempts h price exit_at verdict w))
  unfolding judge
  judge-IsSilent tiers attempts price exit_at (some reason) w silent =
      sell-IsSilent attempts _ _ w silent
  judge-IsSilent tiers attempts price exit_at none w silent =
      follow-IsSilent attempts _ _ _ (raise_peak-IsSilent _ w silent)

  on_event-IsSilent :
      (tiers : List (TrailTier F)) (e : CopyEvent F) (w : Watching F)
      → IsSilent w
      → IsSilent (state_of (on_event cfg true tiers h e w))
  unfolding on_event see
  on_event-IsSilent tiers (on_deadline attempts) w silent = force_sell-IsSilent attempts _ w silent
  on_event-IsSilent tiers (on_shutdown attempts) w silent = force_sell-IsSilent attempts _ w silent
  on_event-IsSilent tiers shutdown_lagged w silent = silent
  on_event-IsSilent tiers mirror_lagged w silent = silent
  on_event-IsSilent tiers mirror_closed w silent = ground arith
  on_event-IsSilent tiers (on_sell t attempts) w silent =
      elim (Bool-cases (w.mirror_open && is_exit cfg.copy_trade h t)) [
        | inl e ↦ rw e (force_sell-IsSilent attempts _ w silent)
        | inr e ↦ rw e silent
      ]
  on_event-IsSilent tiers (on_price price pool_sol exit_at attempts) w silent =
      judge-IsSilent tiers attempts price exit_at _ _ silent

  pub watch-IsSilent :
      (tiers : List (TrailTier F)) (last : ℕ → F → Attempt) (es : List (CopyEvent F))
      (w : Watching F)
      → IsSilent w
      → IsSilent (watch cfg true tiers h last es w)
  unfolding watch
  watch-IsSilent tiers last [] w silent = force_sell-IsSilent last _ w silent
  watch-IsSilent tiers last (e ∷ es) w silent =
      let kept = on_event-IsSilent tiers e w silent in
      elim (CopyFlow-cases (on_event cfg true tiers h e w)) [
        | inl (w', f) ↦ rw (f, watch) (subst (λ g. IsSilent (state_of g)) f kept)
        | inr (w', f) ↦
            rw (f, watch)
              (watch-IsSilent tiers last es w' (subst (λ g. IsSilent (state_of g)) f kept))
      ]

abbrev pub IsPaper : {F : Type 0} → Copied F → Type 0
IsPaper c = (c.sent ≡ []) × (c.notices ≡ [])

module _ {F : Type 0} ⦃fl : Float F⦄ (parse : List ℕ → Option F) (cfg : Config F)
    (alpha : AlphaTrade F) (env : CopyEnv F) where
  hold_until-IsPaper :
      (h : Holding F) (ends : Option (Option ℕ)) (s : Shared F)
      → IsPaper (hold_until parse cfg true h env [] [] ends s)
  unfolding hold_until start
  hold_until-IsPaper h none s = (refl, refl)
  hold_until-IsPaper h (some ends) s = watch-IsSilent cfg _ _ _ _ _ (refl, refl)

  enter_paper-IsPaper :
      (first : Option F) (s : Shared F) → IsPaper (enter_paper parse cfg true alpha env first [] s)
  unfolding enter_paper hold
  enter_paper-IsPaper none s = (refl, refl)
  enter_paper-IsPaper (some entry) s = hold_until-IsPaper _ _ s

  buy_copy-IsPaper : (s : Shared F) → IsPaper (buy_copy parse cfg true alpha env s)
  unfolding buy_copy after_buy Trader.buy escalate submit
  buy_copy-IsPaper s = enter_paper-IsPaper _ _

  copy_with_slot-IsPaper :
      (info_on : Bool) (s : Shared F) → IsPaper (copy_with_slot parse cfg true info_on alpha env s)
  unfolding copy_with_slot
  copy_with_slot-IsPaper info_on s = ground (arith, buy_copy-IsPaper s)

  -- A copy session in dry run sends no transaction and reports no trade, whatever its prices are
  -- and the network would have answered, and also where it panics.
  pub copy_handle-IsPaper :
      (info_on : Bool) (s : Shared F) → IsPaper (copy_handle parse cfg true info_on alpha env s)
  unfolding copy_handle copy_gates
  copy_handle-IsPaper info_on s =
      let checked = record s {
        spend_tracker =
            (Spend.check s.spend_tracker env.check_at cfg.copy_trade.trade_amount_sol).0;
      } in
      ground (arith, copy_with_slot-IsPaper info_on (reserve (env.after_check checked)))
