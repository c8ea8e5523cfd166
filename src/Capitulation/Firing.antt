-- ===== src/Capitulation/Firing.antt =====
-- When `check` of src/capitulation.rs fires, and the invariant of the detector's state.
use hades_ps_trader.Base.{
  ℕ, ◌-◌, ◌≤◌, ◌≡◌, true, false, Option, none, some, List, [], ◌∷◌, arith, is_some, length,
}
use hades_ps_trader.Clock.{from_secs, evict, since_lt, since_gt}
use hades_ps_trader.Float.{Float}
use hades_ps_trader.Config.{CapitulationConfig}
use hades_ps_trader.Capitulation.{
  CapitulationDetector, Signal, min_ticks_for_fire, change_pct, check, check_window, judge, confirm,
  expire, observe, evict_old, reset_pending, new_capitulation,
}

-- A confirmation that began at the instant given, or begins now, has lasted long enough.
abbrev pub HasLasted : ℕ → ℕ → Option ℕ → Type 0
HasLasted limit now none = limit ≡ 0
HasLasted limit now (some t) = limit ≤ now - t

module _ {F : Type 0} ⦃fl : Float F⦄ where
  open fl use {of_ℕ, neg, lt, le}

  -- The state between ticks: the pending low and its start come and go together, and a
  -- confirmation runs only while a dump is pending.
  pub record IsSound (d : CapitulationDetector F) : Type 0 where
    pub together : is_some d.pending_low ≡ is_some d.pending_started
    pub confirming : is_some d.reclaim_confirm_started ≡ true → is_some d.pending_low ≡ true

  pub new-IsSound : (cfg : CapitulationConfig F) → IsSound (new_capitulation cfg)
  unfolding new_capitulation
  new-IsSound cfg = ground arith

  pub observe-IsSound :
      (d : CapitulationDetector F) (now : ℕ) (price : F) → IsSound d → IsSound (observe d now price)
  unfolding observe
  observe-IsSound d now price s = ground arith

  judge-IsSound :
      (d : CapitulationDetector F) (now : ℕ) (price oldest : F)
      → IsSound d
      → IsSound (judge d now price oldest).0
  unfolding judge
  judge-IsSound d now price oldest s = ground arith

  check_window-IsSound :
      (d : CapitulationDetector F) (now : ℕ) (price : F) (ticks : List (ℕ × F))
      → IsSound d
      → IsSound (check_window d now price ticks).0
  unfolding expire reset_pending
  check_window-IsSound d now price [] s = unfold check_window in s
  check_window-IsSound d now price ((ts, oldest) ∷ rest) s =
      unfold check_window in ground (arith, judge-IsSound (expire d now) now price oldest)

  evict_old-IsSound : (d : CapitulationDetector F) (now : ℕ) → IsSound d → IsSound (evict_old d now)
  unfolding evict_old
  evict_old-IsSound d now s = ground arith

  -- Each check keeps the state sound.
  pub check-IsSound :
      (d : CapitulationDetector F) (now : ℕ) (price : F) → IsSound d → IsSound (check d now price).0
  check-IsSound d now price s =
      unfold check evict_old in
      ground (
        arith,
        check_window-IsSound (evict_old d now) now price (evict d.window now d.ticks)
            (evict_old-IsSound d now s),
        evict_old-IsSound d now s,
      )

  -- The ticks reach back over the window but for a second, the oldest of them is at a price above
  -- 0, and the signal's numbers are the changes from that price and from the pending low.
  abbrev pub IsMeasured : CapitulationDetector F → ℕ → F → List (ℕ × F) → Signal F → Type 0
  IsMeasured d now price ticks s =
      (oldest_ts : ℕ) × (oldest : F) × (rest : List (ℕ × F)) × (ticks ≡ (oldest_ts, oldest) ∷ rest)
      × (d.window - from_secs 1 ≤ now - oldest_ts)
      × (le oldest (of_ℕ 0) ≡ false)
      × (s.dump_pct ≡ change_pct price oldest)
      × (s.reclaim_pct_now ≡ change_pct price s.low)

  -- What a signal says of the state and the tick that it fires at.
  abbrev pub Fires : CapitulationDetector F → ℕ → F → Signal F → Type 0
  Fires d now price s =
      (d.enabled ≡ true)
      × (since_lt now d.last_fire d.debounce ≡ false)
      × (since_gt now d.pending_started d.pending_expire ≡ false)
      × (d.pending_low ≡ some s.low)
      × (s.price ≡ price)
      × (lt (change_pct price s.low) d.reclaim_pct ≡ false)
      × (le s.dump_pct (neg d.dip_pct) ≡ false)
      × IsMeasured d now price (evict d.window now d.ticks) s
      × (min_ticks_for_fire ≤ length (evict d.window now d.ticks))
      × HasLasted d.reclaim_confirm now d.reclaim_confirm_started

  -- After it the detector is as new, but for its ticks and the instant of the signal.
  abbrev pub IsRearmed : ℕ → CapitulationDetector F → Type 0
  IsRearmed now d =
      (d.last_fire ≡ some now)
      × (d.pending_low ≡ none)
      × (d.pending_started ≡ none)
      × (d.reclaim_confirm_started ≡ none)

  confirm_fires :
      (d : CapitulationDetector F) (now : ℕ) (signal s : Signal F)
      → (confirm d now signal).1 ≡ some s
      → (signal ≡ s)
        × IsRearmed now (confirm d now signal).0
        × HasLasted d.reclaim_confirm now d.reclaim_confirm_started
  unfolding confirm
  confirm_fires d now signal s e = ground arith

  judge_fires :
      (d : CapitulationDetector F) (now : ℕ) (price oldest : F) (s : Signal F)
      → (judge d now price oldest).1 ≡ some s
      → (d.pending_low ≡ some s.low)
        × (s.price ≡ price)
        × (lt (change_pct price s.low) d.reclaim_pct ≡ false)
        × (le s.dump_pct (neg d.dip_pct) ≡ false)
        × (s.dump_pct ≡ change_pct price oldest)
        × (s.reclaim_pct_now ≡ change_pct price s.low)
        × (min_ticks_for_fire ≤ length d.ticks)
        × HasLasted d.reclaim_confirm now d.reclaim_confirm_started
        × IsRearmed now (judge d now price oldest).0
  unfolding judge
  judge_fires d now price oldest s e = ground arith

  check_window_fires :
      (d : CapitulationDetector F) (now : ℕ) (price : F) (ticks : List (ℕ × F)) (s : Signal F)
      → (check_window d now price ticks).1 ≡ some s
      → (since_gt now d.pending_started d.pending_expire ≡ false)
        × (d.pending_low ≡ some s.low)
        × (s.price ≡ price)
        × (lt (change_pct price s.low) d.reclaim_pct ≡ false)
        × (le s.dump_pct (neg d.dip_pct) ≡ false)
        × IsMeasured d now price ticks s
        × (min_ticks_for_fire ≤ length d.ticks)
        × HasLasted d.reclaim_confirm now d.reclaim_confirm_started
        × IsRearmed now (check_window d now price ticks).0
  check_window_fires d now price [] s e = unfold check_window in cc e
  check_window_fires d now price ((ts, oldest) ∷ rest) s e =
      unfold check_window expire in ground (arith, e, judge_fires (expire d now) now price oldest s)

  -- A check that fires does so after the debounce of the last signal, on a pending dump that has
  -- not expired, at a price that is out of the dump, measured against the oldest tick in the
  -- window, and far enough above the pending low, with ten ticks in the window, which they fill
  -- but for a second, and with a confirmation that has run for long enough; and it leaves the
  -- detector re-armed.
  pub check-IsRearmed :
      (d : CapitulationDetector F) (now : ℕ) (price : F) (s : Signal F)
      → (check d now price).1 ≡ some s
      → Fires d now price s × IsRearmed now (check d now price).0
  check-IsRearmed d now price s e =
      unfold check in
      ground
        (arith, e, check_window_fires (evict_old d now) now price (evict d.window now d.ticks) s)
