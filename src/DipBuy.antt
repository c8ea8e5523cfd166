-- ===== src/DipBuy.antt =====
-- `DipBuyDetector` of src/dip_buy.rs. Times are nanoseconds on the monotonic clock. The text of a
-- signal is the data printed.
pub mod Recovery
pub mod Firing
use mathlib.Core.List.{foldl}
use hades_ps_trader.Base.{
  ℕ, ◌-◌, ◌/◌, ◌^◌, Bool, true, false, not, ◌&&◌, ◌||◌, Option, none, some, List, [], ◌∷◌, ◌++◌,
  ltb, leb, length, if◌then◌else◌,
}
use hades_ps_trader.Clock.{from_secs, evict, since_lt}
use hades_ps_trader.Float.{Float}
use hades_ps_trader.Config.{DipBuyConfig}

abbrev pub min_ticks_for_fire : ℕ
min_ticks_for_fire = 5

-- A price and the pool's SOL at one tick.
pub record Reading (F : Type 0) : Type 0 where
  pub price : F
  pub pool_sol : F

pub record DipBuyDetector (F : Type 0) : Type 0 where
  pub enabled : Bool
  pub window : ℕ
  pub min_drawdown_pct : F
  pub max_entry_quantile : F
  pub min_pool_sol_drawdown_pct : F
  pub max_pool_sol_drawdown_pct : F
  pub min_pool_sol : F
  pub cooldown : ℕ
  pub pool_recovery_secs : ℕ
  pub pool_recovery_pct : F
  pub price_recovery_secs : ℕ
  pub price_recovery_pct : F
  pub max_session_age_secs : ℕ
  pub session_start : ℕ
  pub ticks : List (ℕ × Reading F)
  pub last_fire : Option ℕ

pub record DipSignal (F : Type 0) : Type 0 where
  pub drawdown_pct : F
  pub quantile : F
  pub pool_drawdown_pct : F
  pub pool_sol : F

-- `now.checked_sub(recovery_window)` as a test of an instant; an instant before the clock's
-- origin cuts nothing off.
abbrev pub since_cutoff : ℕ → ℕ → ℕ → Bool
since_cutoff now secs ts = if leb (from_secs secs) now then leb (now - from_secs secs) ts else true

module _ {F : Type 0} ⦃fl : Float F⦄ where
  open fl use {
    of_ℕ, add, sub, mul, div, lt, le, max_of, min_of, lowest, highest, infinity, epsilon, is_finite,
    abs,
  }

  unfoldable pub new_dip_buy : DipBuyConfig F → ℕ → DipBuyDetector F
  new_dip_buy cfg session_start = record {
    enabled = cfg.enabled;
    window = from_secs cfg.window_secs;
    min_drawdown_pct = cfg.min_drawdown_pct;
    max_entry_quantile = cfg.max_entry_quantile;
    min_pool_sol_drawdown_pct = cfg.min_pool_sol_drawdown_pct;
    max_pool_sol_drawdown_pct = cfg.max_pool_sol_drawdown_pct;
    min_pool_sol = cfg.min_pool_sol;
    cooldown = from_secs cfg.cooldown_secs;
    pool_recovery_secs = cfg.pool_recovery_secs;
    pool_recovery_pct = cfg.pool_recovery_pct;
    price_recovery_secs = cfg.price_recovery_secs;
    price_recovery_pct = cfg.price_recovery_pct;
    max_session_age_secs = cfg.max_session_age_secs;
    session_start = session_start;
    ticks = [];
    last_fire = none;
  }

  unfoldable pub observe : DipBuyDetector F → ℕ → F → F → DipBuyDetector F
  observe d now price pool_sol =
      if d.enabled
      then record d {
        ticks =
            evict d.window now d.ticks ++ (now, record { price = price; pool_sol = pool_sol }) ∷ [];
      }
      else d

  -- The front of the deque, and its back.
  abbrev pub front : List (ℕ × Reading F) → Option (ℕ × Reading F)
  front [] = none
  front (t ∷ ts) = some t

  abbrev pub back : List (ℕ × Reading F) → Option (ℕ × Reading F)
  back [] = none
  back (t ∷ ts) = elim (back ts) [ none ↦ some t | some u ↦ some u ]

  unfoldable pub max_price : List (ℕ × Reading F) → F
  max_price = foldl (λ acc t. max_of acc t.1.price) lowest

  unfoldable pub min_price : List (ℕ × Reading F) → F
  min_price = foldl (λ acc t. min_of acc t.1.price) highest

  unfoldable pub max_pool_sol : List (ℕ × Reading F) → F
  max_pool_sol = foldl (λ acc t. max_of acc t.1.pool_sol) lowest

  -- The least value since the cutoff; `infinity` if there is none.
  unfoldable pub min_recent : ℕ → ℕ → (Reading F → F) → F → List (ℕ × Reading F) → F
  min_recent now secs value least [] = least
  min_recent now secs value least ((ts, r) ∷ ticks) =
      min_recent now secs value
        (if since_cutoff now secs ts && lt (value r) least then value r else least) ticks

  -- One of the two recovery filters: does it block the signal?
  unfoldable pub is_sinking : ℕ → ℕ → F → (Reading F → F) → F → List (ℕ × Reading F) → Bool
  unfolding min_recent
  is_sinking now secs pct value entry ticks =
      let least = min_recent now secs value infinity ticks in
      ltb 0 secs && is_finite least && lt entry (mul least (add (of_ℕ 1) pct))

  -- The tests on the ticks of the window, given the newest reading.
  unfoldable pub judge : DipBuyDetector F → ℕ → Reading F → Option (DipSignal F)
  judge d now entry =
      if lt entry.pool_sol d.min_pool_sol
      then none
      else (let top = max_price d.ticks in
          let low = min_price d.ticks in
          let top_pool = max_pool_sol d.ticks in
          if le top (of_ℕ 0) || le top_pool (of_ℕ 0) || lt (abs (sub top low)) epsilon
          then none
          else (let drawdown_pct = div (sub top entry.price) top in
              let quantile = div (sub entry.price low) (sub top low) in
              let pool_drawdown_pct = div (sub top_pool entry.pool_sol) top_pool in
              if not (
                le d.min_drawdown_pct drawdown_pct
                && le quantile d.max_entry_quantile
                && le d.min_pool_sol_drawdown_pct pool_drawdown_pct)
              then none
              else if lt (of_ℕ 0) d.max_pool_sol_drawdown_pct
                  && lt d.max_pool_sol_drawdown_pct pool_drawdown_pct
              then none
              else if is_sinking now d.pool_recovery_secs d.pool_recovery_pct (λ r. r.pool_sol)
                  entry.pool_sol d.ticks
              then none
              else if is_sinking now d.price_recovery_secs d.price_recovery_pct (λ r. r.price)
                  entry.price d.ticks
              then none
              else some (record {
                drawdown_pct = drawdown_pct;
                quantile = quantile;
                pool_drawdown_pct = pool_drawdown_pct;
                pool_sol = entry.pool_sol;
              })))

  -- `Duration::as_secs` of the session's age.
  abbrev pub is_late : DipBuyDetector F → ℕ → Bool
  is_late d now =
      ltb 0 d.max_session_age_secs && ltb d.max_session_age_secs ((now - d.session_start) / 10 ^ 9)

  -- The tests before the readings are looked at, and the window's oldest and newest tick.
  unfoldable pub signal_of : DipBuyDetector F → ℕ → Option (DipSignal F)
  signal_of d now =
      if not d.enabled
      then none
      else if since_lt now d.last_fire d.cooldown
      then none
      else if is_late d now
      then none
      else if ltb (length d.ticks) min_ticks_for_fire
      then none
      else elim (front d.ticks) [
        | none ↦ none
        | some (oldest_ts, oldest) ↦
            if ltb (now - oldest_ts) (d.window - from_secs 1)
            then none
            else elim (back d.ticks) [ none ↦ none | some (ts, entry) ↦ judge d now entry ]
      ]

  abbrev pub stamp :
      DipBuyDetector F → ℕ → Option (DipSignal F) → DipBuyDetector F × Option (DipSignal F)
  stamp d now none = (d, none)
  stamp d now (some s) = (record d { last_fire = some now }, some s)

  unfoldable pub check : DipBuyDetector F → ℕ → DipBuyDetector F × Option (DipSignal F)
  check d now = stamp d now (signal_of d now)
