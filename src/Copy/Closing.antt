-- ===== src/Copy/Closing.antt =====
-- How the loop of src/copy_session.rs ends: in a sell, and in one alone that succeeds or is not
-- repeated.
use hades_ps_trader.Base.{
  ℕ, ◌≡◌, refl, ◌⊎◌, Bool, true, false, Option, none, some, List, [], ◌∷◌, ◌++◌, All, All-append,
  arith, ◌&&◌, Bool-cases, inl, inr,
}
use mathlib.Core.Path.{subst}
use hades_ps_trader.Float.{Float}
use hades_ps_trader.Config.{Config}
use hades_ps_trader.Position.{TrailTier, ExitReason}
use hades_ps_trader.Rug.{RugReason}
use hades_ps_trader.Trader.{Attempt}
use hades_ps_trader.Copy.{
  CopyReason, rug_detected, exit_rule, max_hold, shutdown, mirror_exit, forced_exit, Holding,
  pnl_of,
}
use hades_ps_trader.Copy.Watch.{
  Watching, CopyEvent, on_deadline, on_shutdown, shutdown_lagged, mirror_lagged, mirror_closed,
  on_sell, on_price, CopyFlow, sold, next, sell, force_sell, is_exit, see, raise_peak, after_sell,
  follow, judge, on_event, watch, start, last_pct,
}

-- A sell by an exit rule that has failed.
abbrev pub IsRetry : {F : Type 0} → CopyReason F × Bool → Type 0
IsRetry (exit_rule r, false) = Unit
IsRetry (exit_rule r, true) = ⊥
IsRetry (rug_detected r, b) = ⊥
IsRetry (max_hold, b) = ⊥
IsRetry (shutdown, b) = ⊥
IsRetry (mirror_exit, b) = ⊥
IsRetry (forced_exit, b) = ⊥

-- A sell that ends the session: it has succeeded, or no exit rule asked for it.
abbrev pub IsLast : {F : Type 0} → CopyReason F × Bool → Type 0
IsLast (exit_rule r, b) = b ≡ true
IsLast (rug_detected r, b) = Unit
IsLast (max_hold, b) = Unit
IsLast (shutdown, b) = Unit
IsLast (mirror_exit, b) = Unit
IsLast (forced_exit, b) = Unit

-- Retries, then one last sell.
abbrev pub IsClosed : {F : Type 0} → List (CopyReason F × Bool) → Type 0
IsClosed {F} sells =
    (retries : List (CopyReason F × Bool)) × (last : CopyReason F × Bool) × (sells
      ≡ retries ++ last ∷ [])
    × All IsRetry retries
    × IsLast last

abbrev pub Keeps : {F : Type 0} → CopyFlow F → Type 0
Keeps (sold w) = IsClosed w.sells
Keeps (next w) = All IsRetry w.sells

pub CopyFlow-cases :
    {F : Type 0} (f : CopyFlow F)
    → ((w : Watching F) × (f ≡ sold w)) ⊎ ((w : Watching F) × (f ≡ next w))
CopyFlow-cases (sold w) = inl (w, refl)
CopyFlow-cases (next w) = inr (w, refl)

module _ {F : Type 0} ⦃fl : Float F⦄ (cfg : Config F) (dry_run : Bool) (h : Holding F) where
  sell-IsClosed :
      (attempts : ℕ → F → Attempt) (pct : F) (reason : CopyReason F) (w : Watching F)
      → ((b : Bool) → IsLast (reason, b))
      → All IsRetry w.sells
      → IsClosed (sell cfg dry_run attempts h pct reason w).0.sells
  unfolding sell
  sell-IsClosed attempts pct reason w last retries = (w.sells, _, refl, retries, last _)

  force_sell-IsClosed :
      (attempts : ℕ → F → Attempt) (reason : CopyReason F) (w : Watching F)
      → ((b : Bool) → IsLast (reason, b))
      → All IsRetry w.sells
      → IsClosed (force_sell cfg dry_run attempts h reason w).sells
  unfolding force_sell
  force_sell-IsClosed attempts reason w last retries =
      sell-IsClosed attempts (last_pct h.entry_price_sol w.last_price) reason w last retries

  -- What `sell` logs.
  abbrev Logs : CopyReason F → Watching F → Watching F × Bool → Type 0
  Logs reason w (w', b) = w'.sells ≡ w.sells ++ (reason, b) ∷ []

  sell-Logs :
      (attempts : ℕ → F → Attempt) (pct : F) (reason : CopyReason F) (w : Watching F)
      → Logs reason w (sell cfg dry_run attempts h pct reason w)
  unfolding sell
  sell-Logs attempts pct reason w = refl

  after_sell-Keeps :
      (reason : ExitReason F) (w : Watching F) (r : Watching F × Bool)
      → Logs (exit_rule reason) w r
      → All IsRetry w.sells
      → Keeps (after_sell r)
  after_sell-Keeps reason w (w', true) e retries = (w.sells, _, e, retries, refl)
  after_sell-Keeps reason w (w', false) e retries =
      rw e (All-append IsRetry w.sells _ retries (tt, tt))

  follow-Keeps :
      (attempts : ℕ → F → Attempt) (pct : F) (decided : Option (ExitReason F)) (w : Watching F)
      → All IsRetry w.sells
      → Keeps (follow cfg dry_run attempts h pct decided w)
  unfolding follow
  follow-Keeps attempts pct none w retries = retries
  follow-Keeps attempts pct (some reason) w retries =
      after_sell-Keeps reason w _ (sell-Logs attempts pct (exit_rule reason) w) retries

  raise_peak-sells : (pct : F) (w : Watching F) → (raise_peak pct w).sells ≡ w.sells
  unfolding raise_peak
  raise_peak-sells pct w = ground arith

  judge-Keeps :
      (tiers : List (TrailTier F)) (attempts : ℕ → F → Attempt) (price : F) (exit_at : ℕ)
      (verdict : Option (RugReason F)) (w : Watching F)
      → All IsRetry w.sells
      → Keeps (judge cfg dry_run tiers attempts h price exit_at verdict w)
  unfolding judge
  judge-Keeps tiers attempts price exit_at (some reason) w retries =
      sell-IsClosed attempts (pnl_of h.entry_price_sol price) (rug_detected reason) w (λ b. tt)
        retries
  judge-Keeps tiers attempts price exit_at none w retries =
      follow-Keeps attempts _ _ _ (rw (raise_peak-sells (pnl_of h.entry_price_sol price) w) retries)

  on_event-Keeps :
      (tiers : List (TrailTier F)) (e : CopyEvent F) (w : Watching F)
      → All IsRetry w.sells
      → Keeps (on_event cfg dry_run tiers h e w)
  unfolding on_event see
  on_event-Keeps tiers (on_deadline attempts) w retries =
      force_sell-IsClosed attempts max_hold w (λ b. tt) retries
  on_event-Keeps tiers (on_shutdown attempts) w retries =
      force_sell-IsClosed attempts shutdown w (λ b. tt) retries
  on_event-Keeps tiers shutdown_lagged w retries = retries
  on_event-Keeps tiers mirror_lagged w retries = retries
  on_event-Keeps tiers mirror_closed w retries = elim (Bool-cases w.mirror_open) [
    | inl e ↦ rw e retries
    | inr e ↦ rw e retries
  ]
  on_event-Keeps tiers (on_sell t attempts) w retries =
      elim (Bool-cases (w.mirror_open && is_exit cfg.copy_trade h t)) [
        | inl e ↦ rw e (force_sell-IsClosed attempts mirror_exit w (λ b. tt) retries)
        | inr e ↦ rw e retries
      ]
  on_event-Keeps tiers (on_price price pool_sol exit_at attempts) w retries =
      judge-Keeps tiers attempts price exit_at _ _ retries

  watch-Keeps :
      (tiers : List (TrailTier F)) (last : ℕ → F → Attempt) (es : List (CopyEvent F))
      (w : Watching F)
      → All IsRetry w.sells
      → IsClosed (watch cfg dry_run tiers h last es w).sells
  unfolding watch
  watch-Keeps tiers last [] w retries = force_sell-IsClosed last forced_exit w (λ b. tt) retries
  watch-Keeps tiers last (e ∷ es) w retries =
      let kept = on_event-Keeps tiers e w retries in
      elim (CopyFlow-cases (on_event cfg dry_run tiers h e w)) [
        | inl (w', f) ↦ rw (f, watch) (subst Keeps f kept)
        | inr (w', f) ↦ rw (f, watch) (watch-Keeps tiers last es w' (subst Keeps f kept))
      ]

  -- Whatever comes to a copy session with a position, its loop ends in a sell: the sells that it
  -- attempts are some by an exit rule, each of which fails, and then one last sell, which either
  -- succeeds or is one that is not tried again: of a rug, of the deadline, of a shutdown, of the
  -- close by the followed wallet, or of the end of the price feed. So at most one sell of a
  -- position succeeds.
  pub watch-IsClosed :
      (tiers : List (TrailTier F)) (last : ℕ → F → Attempt) (es : List (CopyEvent F))
      → IsClosed (watch cfg dry_run tiers h last es (start cfg.copy_trade.mirror_exit)).sells
  unfolding start
  watch-IsClosed tiers last es = watch-Keeps tiers last es _ tt
