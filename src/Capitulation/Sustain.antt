-- ===== src/Capitulation/Sustain.antt =====
-- The confirmation timer of src/capitulation.rs while the price is back in the dump.
use hades_ps_trader.Base.{
  ℕ, ◌-◌, ◌≤◌, ◌≡◌, true, false, none, some, List, ◌∷◌, arith, ltb, if◌then◌else◌, length,
}
use hades_ps_trader.Clock.{from_secs, evict, since_lt, since_gt}
use hades_ps_trader.Float.{Float}
use hades_ps_trader.Capitulation.Debounce.{on_price}
use hades_ps_trader.Capitulation.{
  CapitulationDetector, min_ticks_for_fire, change_pct, check, check_window, judge, record_low,
  reclaim, confirm, expire, observe, evict_old,
}

module _ {F : Type 0} ⦃fl : Float F⦄ where
  open fl use {of_ℕ, neg, lt, le}

  -- A check that gets to the two stages, with a window that starts at `oldest`.
  pub record IsReady (d : CapitulationDetector F) (now : ℕ) (oldest : F) : Type 0 where
    pub enabled : d.enabled ≡ true
    pub ready : since_lt now d.last_fire d.debounce ≡ false
    pub unexpired : since_gt now d.pending_started d.pending_expire ≡ false
    pub oldest_ts : ℕ
    pub rest : List (ℕ × F)
    pub window_eq : evict d.window now d.ticks ≡ (oldest_ts, oldest) ∷ rest
    pub full : d.window - from_secs 1 ≤ now - oldest_ts
    pub positive : le oldest (of_ℕ 0) ≡ false

  abbrev pub InDump : CapitulationDetector F → (price oldest : F) → Type 0
  InDump d price oldest = le (change_pct price oldest) (neg d.dip_pct) ≡ true

  -- In the dump a check changes nothing but the ticks, unless there is a new low.
  check_dumped :
      (d : CapitulationDetector F) (now : ℕ) (price low oldest : F)
      → IsReady d now oldest
      → d.pending_low ≡ some low
      → InDump d price oldest
      → lt price low ≡ false
      → check d now price ≡ (evict_old d now, none)
  unfolding check check_window expire judge record_low evict_old
  check_dumped d now price low oldest i pending dump above =
      rw (i.enabled, i.ready, i.window_eq)
        (ground (arith, i.unexpired, i.full, i.positive, pending, dump, above))

  -- Out of the dump, above the threshold and with ten ticks, a check confirms.
  check_confirms :
      (d : CapitulationDetector F) (now t : ℕ) (price low oldest : F)
      → IsReady d now oldest
      → d.pending_low ≡ some low
      → le (change_pct price oldest) (neg d.dip_pct) ≡ false
      → lt (change_pct price low) d.reclaim_pct ≡ false
      → min_ticks_for_fire ≤ length (evict d.window now d.ticks)
      → d.reclaim_confirm_started ≡ some t
      → (check d now price).1 ≡ (
          if ltb (now - t) d.reclaim_confirm
          then none
          else some (record {
            low = low;
            price = price;
            reclaim_pct_now = change_pct price low;
            dump_pct = change_pct price oldest;
          }))
  unfolding check check_window expire judge reclaim confirm evict_old
  check_confirms d now t price low oldest i pending out above many started =
      ground (arith, i.enabled, i.ready, i.unexpired, i.full, i.positive, pending, i.window_eq)

  -- The detector at the check of a second tick.
  abbrev pub at_second :
      CapitulationDetector F → (now later : ℕ) (price back : F) → CapitulationDetector F
  at_second d now later price back = observe (on_price d now price).0 later back

  -- A confirmation that began at t is running on a pending low. Of two ticks that both get to the
  -- two stages, the first is back in the dump, though not below the pending low; the second is out
  -- of the dump and above the reclaim threshold, with ten ticks in the window. Then the first
  -- brings no signal, and the second brings one exactly if the confirmation time has gone by since
  -- t: a price in the dump does not start the confirmation anew, also where it is under the
  -- threshold.
  pub dump_keeps_confirmation :
      (d : CapitulationDetector F) (t now later : ℕ) (price back low oldest later_oldest : F)
      → d.pending_low ≡ some low
      → d.reclaim_confirm_started ≡ some t
      → IsReady (observe d now price) now oldest
      → InDump d price oldest
      → lt price low ≡ false
      → IsReady (at_second d now later price back) later later_oldest
      → le (change_pct back later_oldest) (neg d.dip_pct) ≡ false
      → lt (change_pct back low) d.reclaim_pct ≡ false
      → min_ticks_for_fire ≤ length (evict d.window later (at_second d now later price back).ticks)
      → (let first = on_price d now price in
          (first.1 ≡ none)
          × ((on_price first.0 later back).1 ≡ (
              if ltb (later - t) d.reclaim_confirm
              then none
              else some (record {
                low = low;
                price = back;
                reclaim_pct_now = change_pct back low;
                dump_pct = change_pct back later_oldest;
              }))))
  unfolding on_price
  dump_keeps_confirmation d t now later price back low oldest later_oldest pending started i dump
        above j out reclaimed many =
      let first = check_dumped (observe d now price) now price low oldest i in
      let second =
        check_confirms (at_second d now later price back) later t back low later_oldest j in
      unfold observe evict_old in ground (arith, first, second)
