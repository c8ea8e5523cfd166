-- ===== src/Capitulation.antt =====
-- src/capitulation.rs: the two-stage dip-and-reclaim detector. Times are nanoseconds on the
-- monotonic clock, and `duration_since` stops at 0. The text of a signal is the data printed.
pub mod Firing
pub mod Debounce
pub mod Sustain
use hades_ps_trader.Base.{
  ℕ, ◌+◌, ◌-◌, ◌*◌, ◌^◌, Bool, true, false, Option, none, some, List, [], ◌∷◌, ◌++◌, ltb, length,
  if◌then◌else◌,
}
use hades_ps_trader.Clock.{from_secs, evict, since_lt, since_gt}
use hades_ps_trader.Float.{Float}
use hades_ps_trader.Config.{CapitulationConfig}

abbrev pub min_ticks_for_fire : ℕ
min_ticks_for_fire = 10

pub record CapitulationDetector (F : Type 0) : Type 0 where
  pub enabled : Bool
  pub dip_pct : F
  pub reclaim_pct : F
  pub window : ℕ
  pub pending_expire : ℕ
  pub reclaim_confirm : ℕ
  pub debounce : ℕ
  pub ticks : List (ℕ × F)
  pub pending_low : Option F
  pub pending_started : Option ℕ
  pub reclaim_confirm_started : Option ℕ
  pub last_fire : Option ℕ

pub record Signal (F : Type 0) : Type 0 where
  pub low : F
  pub price : F
  pub reclaim_pct_now : F
  pub dump_pct : F

module _ {F : Type 0} ⦃fl : Float F⦄ where
  open fl use {of_ℕ, sub, mul, div, neg, lt, le}

  unfoldable pub new_capitulation : CapitulationConfig F → CapitulationDetector F
  new_capitulation cfg = record {
    enabled = cfg.enabled;
    dip_pct = cfg.dip_pct;
    reclaim_pct = cfg.reclaim_pct;
    window = from_secs cfg.window_secs;
    pending_expire = from_secs cfg.pending_expire_secs;
    reclaim_confirm = from_secs cfg.reclaim_confirm_secs;
    debounce = from_secs cfg.debounce_secs;
    ticks = [];
    pending_low = none;
    pending_started = none;
    reclaim_confirm_started = none;
    last_fire = none;
  }

  unfoldable pub evict_old : CapitulationDetector F → ℕ → CapitulationDetector F
  unfolding evict
  evict_old d now = record d { ticks = evict d.window now d.ticks }

  unfoldable pub reset_pending : CapitulationDetector F → CapitulationDetector F
  reset_pending d = record d {
    pending_low = none;
    pending_started = none;
    reclaim_confirm_started = none;
  }

  unfoldable pub observe : CapitulationDetector F → ℕ → F → CapitulationDetector F
  unfolding evict
  observe d now price =
      if d.enabled then record d { ticks = evict d.window now d.ticks ++ (now, price) ∷ [] } else d

  -- (a / b - 1) * 100
  abbrev pub change_pct : F → F → F
  change_pct a b = mul (sub (div a b) (of_ℕ 1)) (of_ℕ 100)

  -- Stage 1, in a dump: a new low, or the first one, restarts what follows.
  unfoldable pub record_low : CapitulationDetector F → ℕ → F → CapitulationDetector F
  record_low d now price = elim d.pending_low [
    | none ↦ record d {
      pending_low = some price;
      pending_started = some now;
      reclaim_confirm_started = none;
    }
    | some low ↦
        if lt price low
        then record d { pending_low = some price; reclaim_confirm_started = none }
        else d
  ]

  -- The end of stage 2: begin or go on with the confirmation, and fire once it has lasted.
  unfoldable pub confirm :
      CapitulationDetector F → ℕ → Signal F → CapitulationDetector F × Option (Signal F)
  unfolding reset_pending
  confirm d now signal =
      let started : ℕ = elim d.reclaim_confirm_started [ none ↦ now | some t ↦ t ] in
      if ltb (now - started) d.reclaim_confirm
      then (record d { reclaim_confirm_started = some started }, none)
      else (reset_pending (record d { last_fire = some now }), some signal)

  -- Stage 2, outside the dump.
  unfoldable pub reclaim :
      CapitulationDetector F → ℕ → F → F → CapitulationDetector F × Option (Signal F)
  unfolding confirm
  reclaim d now price dump_pct = elim d.pending_low [
    | none ↦ (d, none)
    | some low ↦
        if lt (change_pct price low) d.reclaim_pct
        then (record d { reclaim_confirm_started = none }, none)
        else if ltb (length d.ticks) min_ticks_for_fire
        then (d, none)
        else confirm d now (record {
          low = low;
          price = price;
          reclaim_pct_now = change_pct price low;
          dump_pct = dump_pct;
        })
  ]

  unfoldable pub expire : CapitulationDetector F → ℕ → CapitulationDetector F
  unfolding reset_pending
  expire d now = if since_gt now d.pending_started d.pending_expire then reset_pending d else d

  -- The two stages, for the price of the oldest tick in the window.
  unfoldable pub judge :
      CapitulationDetector F → ℕ → F → F → CapitulationDetector F × Option (Signal F)
  unfolding record_low reclaim
  judge d now price oldest_price =
      if le (change_pct price oldest_price) (neg d.dip_pct)
      then (record_low d now price, none)
      else reclaim d now price (change_pct price oldest_price)

  -- From the look at the front of the window on.
  unfoldable pub check_window :
      CapitulationDetector F → ℕ → F → List (ℕ × F) → CapitulationDetector F × Option (Signal F)
  unfolding expire judge
  check_window d now price [] = (d, none)
  check_window d now price ((oldest_ts, oldest_price) ∷ rest) =
      if ltb (now - oldest_ts) (d.window - from_secs 1)
      then (d, none)
      else if le oldest_price (of_ℕ 0)
      then (d, none)
      else judge (expire d now) now price oldest_price

  unfoldable pub check : CapitulationDetector F → ℕ → F → CapitulationDetector F × Option (Signal F)
  unfolding evict_old check_window
  check d now price =
      if d.enabled
      then (if since_lt now d.last_fire d.debounce
          then (evict_old d now, none)
          else check_window (evict_old d now) now price (evict d.window now d.ticks))
      else (d, none)
