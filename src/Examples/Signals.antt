-- ===== src/Examples/Signals.antt =====
-- Witnesses of the theorems on the rug guard and on the two detectors.
use hades_ps_trader.Base.{
  ℕ, ◌≡◌, refl, true, none, some, List, [], ◌∷◌, arith, map, length, take, ◌++◌, ◌≤◌,
}
use hades_ps_trader.Float.Fixed.{Fixed, fixed_float, Fixed-IsOrdered, whole}
use hades_ps_trader.Float.Max.{IsMax}
use hades_ps_trader.Clock.{from_secs, evict}
use hades_ps_trader.Rug.{new_guard, is_rugged, saturating_add}
use hades_ps_trader.Rug.History.{observe_all}
use hades_ps_trader.Rug.Verdict.{RugDecision, session-RugDecision}
use hades_ps_trader.Capitulation.{
  CapitulationDetector, Signal, change_pct, check, check_window, evict_old, expire, judge, reclaim,
  confirm, observe, record_low, min_ticks_for_fire,
}
use hades_ps_trader.Capitulation.Firing.{Fires, IsRearmed, check-IsRearmed}
use hades_ps_trader.Capitulation.Debounce.{on_price, IsQuiet, debounce-IsQuiet}
use hades_ps_trader.Capitulation.Sustain.{IsReady, at_second, dump_keeps_confirmation}
use hades_ps_trader.DipBuy.{DipBuyDetector, DipSignal, Reading}
use hades_ps_trader.DipBuy
use hades_ps_trader.DipBuy.Firing.{check-Fires}
use hades_ps_trader.DipBuy.Firing
use hades_ps_trader.Examples.{rug, dip_mode}

abbrev rug_ticks : List (Fixed × Fixed)
rug_ticks = (whole 5, whole 100) ∷ (whole 6, whole 120) ∷ (whole 4, whole 30) ∷ []

session-RugDecision_example :
    (let g = observe_all new_guard rug_ticks in
      RugDecision g rug (whole 4) (whole 30) (is_rugged g rug (whole 4) (whole 30))
      × IsMax (whole 0) (map (λ t. t.0) rug_ticks) g.peak_price
      × IsMax (whole 0) (map (λ t. t.1) rug_ticks) g.peak_pool_sol
      × (g.samples ≡ saturating_add 0 (length rug_ticks)))
session-RugDecision_example =
    session-RugDecision Fixed-IsOrdered rug_ticks rug (whole 4) (whole 30) refl
      (refl, (refl, (refl, tt))) (refl, (refl, (refl, tt)))

-- Ten ticks at 100, then a dump to 75 that is pending.
abbrev steady_ticks : List (ℕ × Fixed)
steady_ticks =
    (from_secs 0, whole 100)
    ∷ (from_secs 1, whole 100)
    ∷ (from_secs 2, whole 100)
    ∷ (from_secs 3, whole 100)
    ∷ (from_secs 4, whole 100)
    ∷ (from_secs 5, whole 100)
    ∷ (from_secs 6, whole 100)
    ∷ (from_secs 7, whole 100)
    ∷ (from_secs 8, whole 75)
    ∷ (from_secs 9, whole 75)
    ∷ []

abbrev dumped : CapitulationDetector Fixed
dumped = record {
  enabled = true;
  dip_pct = whole 20;
  reclaim_pct = whole 5;
  window = from_secs 10;
  pending_expire = from_secs 120;
  reclaim_confirm = 0;
  debounce = from_secs 30;
  ticks = steady_ticks;
  pending_low = some (whole 75);
  pending_started = some (from_secs 8);
  reclaim_confirm_started = none;
  last_fire = none;
}

abbrev reclaimed : Signal Fixed
reclaimed = record {
  low = whole 75;
  price = whole 95;
  reclaim_pct_now = change_pct (whole 95) (whole 75);
  dump_pct = change_pct (whole 95) (whole 100);
}

reclaims : (check dumped (from_secs 10) (whole 95)).1 ≡ some reclaimed
unfolding check check_window evict_old evict expire judge reclaim confirm
reclaims = refl

check-IsRearmed_example :
    Fires dumped (from_secs 10) (whole 95) reclaimed
    × IsRearmed (from_secs 10) (check dumped (from_secs 10) (whole 95)).0
check-IsRearmed_example = check-IsRearmed dumped (from_secs 10) (whole 95) reclaimed reclaims

reclaims_on_price : (on_price dumped (from_secs 10) (whole 95)).1 ≡ some reclaimed
unfolding on_price observe check check_window evict_old evict expire judge reclaim confirm
reclaims_on_price = refl

debounce-IsQuiet_example :
    IsQuiet
      (on_price dumped (from_secs 10) (whole 95)).0
      (from_secs 30)
      (from_secs 10)
      ((from_secs 11, whole 70) ∷ (from_secs 12, whole 95) ∷ [])
debounce-IsQuiet_example =
    debounce-IsQuiet dumped (from_secs 10) (whole 95) reclaimed
      ((from_secs 11, whole 70) ∷ (from_secs 12, whole 95) ∷ []) reclaims_on_price
      (omega arith, (omega arith, tt))

-- A confirmation of three seconds that began at the tenth tick, after the same dump.
abbrev confirming : CapitulationDetector Fixed
confirming = record dumped {
  reclaim_confirm = from_secs 3;
  ticks = take 9 steady_ticks ++ (from_secs 9, whole 82) ∷ [];
  reclaim_confirm_started = some (from_secs 9);
}

first-IsReady : IsReady (observe confirming (from_secs 10) (whole 78)) (from_secs 10) (whole 100)
unfolding observe evict
first-IsReady = record {
  enabled = refl;
  ready = refl;
  unexpired = refl;
  oldest_ts = from_secs 0;
  rest = _;
  window_eq = refl;
  full = omega arith;
  positive = refl;
}

abbrev second : CapitulationDetector Fixed
second = at_second confirming (from_secs 10) (from_secs 12) (whole 78) (whole 82)

second-IsReady : IsReady second (from_secs 12) (whole 100)
unfolding on_price observe check check_window evict_old evict expire judge record_low
second-IsReady = record {
  enabled = refl;
  ready = refl;
  unexpired = refl;
  oldest_ts = from_secs 2;
  rest = _;
  window_eq = refl;
  full = omega arith;
  positive = refl;
}

second_long : min_ticks_for_fire ≤ length (evict confirming.window (from_secs 12) second.ticks)
unfolding on_price observe check check_window evict_old evict expire judge record_low
second_long = omega arith

dump_keeps_confirmation_example :
    (let first = on_price confirming (from_secs 10) (whole 78) in
      (first.1 ≡ none)
      × ((on_price first.0 (from_secs 12) (whole 82)).1
          ≡ some (record {
            low = whole 75;
            price = whole 82;
            reclaim_pct_now = change_pct (whole 82) (whole 75);
            dump_pct = change_pct (whole 82) (whole 100);
          })))
dump_keeps_confirmation_example =
    dump_keeps_confirmation confirming (from_secs 9) (from_secs 10) (from_secs 12) (whole 78)
      (whole 82) (whole 75) (whole 100) (whole 100) refl refl first-IsReady refl refl second-IsReady
      refl refl second_long

abbrev reading : ℕ → ℕ → ℕ × Reading Fixed
reading secs price = (from_secs secs, record { price = whole price; pool_sol = whole 100 })

abbrev dipping : DipBuyDetector Fixed
dipping = record {
  enabled = true;
  window = from_secs 4;
  min_drawdown_pct = dip_mode.min_drawdown_pct;
  max_entry_quantile = dip_mode.max_entry_quantile;
  min_pool_sol_drawdown_pct = whole 0;
  max_pool_sol_drawdown_pct = whole 0;
  min_pool_sol = whole 1;
  cooldown = from_secs 60;
  pool_recovery_secs = 0;
  pool_recovery_pct = whole 0;
  price_recovery_secs = 0;
  price_recovery_pct = whole 0;
  max_session_age_secs = 0;
  session_start = 0;
  ticks = reading 0 10 ∷ reading 1 9 ∷ reading 2 8 ∷ reading 3 7 ∷ reading 4 8 ∷ [];
  last_fire = none;
}

open fixed_float use {div}

abbrev dip : DipSignal Fixed
dip = record {
  drawdown_pct = div (whole 2) (whole 10);
  quantile = div (whole 1) (whole 3);
  pool_drawdown_pct = whole 0;
  pool_sol = whole 100;
}

dips : (DipBuy.check dipping (from_secs 4)).1 ≡ some dip
unfolding DipBuy.check DipBuy.signal_of DipBuy.judge DipBuy.max_price DipBuy.min_price
    DipBuy.max_pool_sol DipBuy.is_sinking DipBuy.min_recent
dips = refl

check-Fires_example :
    DipBuy.Firing.Fires dipping (from_secs 4) dip
    × ((DipBuy.check dipping (from_secs 4)).0 ≡ record dipping { last_fire = some (from_secs 4) })
check-Fires_example =
    check-Fires Fixed-IsOrdered refl dipping (from_secs 4) dip
      ((refl, (refl, (refl, (refl, (refl, tt))))), (refl, (refl, (refl, (refl, (refl, tt)))))) dips
