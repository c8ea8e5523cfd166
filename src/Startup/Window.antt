-- ===== src/Startup/Window.antt =====
-- The warning of src/main.rs that the indicator cannot signal within a session, against the
-- aggregator and the indicator of src/macd.rs.
use native.Mathlib.Nat.{
  div-lt_iff_lt-mul, le-div_iff_mul-le, mul-div-le, mul-le-mul_right, mod-le, mul_comm,
}
use hades_ps_trader.Base.{
  ℕ, zero, suc, ◌+◌, ◌-◌, ◌*◌, ◌/◌, ◌^◌, ◌≤◌, ◌<◌, ◌≡◌, refl, Bool, false, ◌||◌, Option, none, some,
  List, [], ◌∷◌, arith, Bool-cases, inl, inr,
}
use hades_ps_trader.Clock.{from_secs}
use hades_ps_trader.Float.{Float}
use hades_ps_trader.Config.{MacdConfig}
use hades_ps_trader.Macd.{Macd, new_macd, new_aggregator, on_close}
use hades_ps_trader.Macd.Candles.{run_ticks, grid_closes, interval_of, IsSteady, run_ticks_lem}
use hades_ps_trader.Macd.Warmup.{
  HasClosed, is_crossover, on_close-HasClosed, on_close_periods, new_macd-HasClosed,
}
use hades_ps_trader.Startup.{warn_warmup, warmup_secs, no_signals}

div-le_div : {k : ℕ} → 0 < k → (x y : ℕ) → x ≤ y → x / k ≤ y / k
div-le_div {k} pos x y h =
    (le-div_iff_mul-le {k = k} {x = x / k} {y = y} pos).1 (omega (arith, mul-div-le x k, h))

-- The seconds of the warning are at most those of the closes that a crossover needs.
no_signals_lem :
    (c : MacdConfig) (max : ℕ)
    → warn_warmup c max ≡ no_signals
    → (0 < max) × (max ≤ (c.slow + c.signal) * c.candle_interval_secs)
unfolding warn_warmup warmup_secs
no_signals_lem c max w =
    let bars = c.slow + c.signal in
    let fewer = mul-le-mul_right c.candle_interval_secs (mod-le bars (2 ^ 32)) in
    ground (arith, fewer)

pos_of_mul : (a b : ℕ) → 0 < a * b → 0 < b
pos_of_mul a zero h = omega (arith, h)
pos_of_mul a (suc b) h = omega arith

module _ {F : Type 0} where
  -- How many candles have closed.
  abbrev pub count : List (Option F) → ℕ
  count [] = 0
  count (none ∷ closes) = count closes
  count (some close ∷ closes) = suc (count closes)

  -- The ticks come before `limit`.
  abbrev pub AreBefore : ℕ → List (F × ℕ) → Type 0
  AreBefore limit [] = Unit
  AreBefore limit ((price, now) ∷ ticks) = (now < limit) × AreBefore limit ticks

module _ {F : Type 0} ⦃fl : Float F⦄ where
  -- Whether the indicator, given the closes of the ticks, reports a crossover at any of them.
  unfoldable pub crosses : Macd F → List (Option F) → Bool
  crosses m [] = false
  crosses m (none ∷ closes) = crosses m closes
  crosses m (some close ∷ closes) =
      is_crossover (on_close m close).1 || crosses (on_close m close).0 closes

  crosses_early :
      (closes : List (Option F)) (n : ℕ) (m : Macd F)
      → HasClosed n m
      → n + count closes < m.slow.period + m.signal.period
      → crosses m closes ≡ false
  unfolding crosses
  crosses_early [] n m h lt = refl
  crosses_early (none ∷ closes) n m h lt = crosses_early closes n m h lt
  crosses_early (some close ∷ closes) n m h lt =
      let step = on_close-HasClosed n m close h in
      let (same_slow, same_signal) = on_close_periods m close in
      let rest =
        crosses_early closes (n + 1) (on_close m close).0 step.0
          (omega (arith, lt, same_slow, same_signal)) in
      elim (Bool-cases (is_crossover (on_close m close).1)) [
        | inl crossed ↦ absurd (omega (arith, step.2 crossed, lt))
        | inr quiet ↦ rw (quiet, rest) refl
      ]

  count-grid_closes :
      (origin interval bars : ℕ)
      → 0 < interval
      → (ticks : List (F × ℕ)) (price : F) (before : ℕ) → origin ≤ before
      → before < origin + interval * bars
      → IsSteady interval before ticks
      → AreBefore (origin + interval * bars) ticks
      → count (grid_closes origin interval (price, before) ticks)
          + interval_of origin interval before
        < bars
  count-grid_closes origin interval bars pos [] price before le lt s b =
      let few =
        (div-lt_iff_lt-mul {k = interval} {x = before - origin} {y = bars} pos).1
          (omega (arith, le, lt)) in
      omega (arith, few)
  count-grid_closes origin interval bars pos ((p, now) ∷ ticks) price before le lt (k, few, s)
        (c, b) =
      let rest = count-grid_closes origin interval bars pos ticks p now (omega arith) c s b in
      let later = div-le_div pos (before - origin) (now - origin) (omega arith) in
      ground (arith, rest, later)

  AreBefore-le :
      {low high : ℕ}
      → low ≤ high
      → (ticks : List (F × ℕ)) → AreBefore low ticks
      → AreBefore high ticks
  AreBefore-le le [] b = tt
  AreBefore-le le ((price, now) ∷ ticks) b = (omega (arith, le, b.0), AreBefore-le le ticks b.1)

  -- Where the start-up warns that the indicator will never signal, a new indicator with periods
  -- below 2^32 and a new aggregator, fed ticks in the order of their times, each less than 2^32 -
  -- 1 intervals after the one before, and all less than `max_monitor_time` after the first: no
  -- candle length of 0 makes it panic, and none of the closes brings a crossover.
  pub warn_warmup-crosses :
      (c : MacdConfig) (max : ℕ) {m : Macd F} (price : F) (origin : ℕ) (ticks : List (F × ℕ))
      → c.slow < 2 ^ 32
      → c.signal < 2 ^ 32
      → new_macd c.fast c.slow c.signal ≡ some m
      → warn_warmup c max ≡ no_signals
      → IsSteady (from_secs c.candle_interval_secs) origin ticks
      → AreBefore (origin + from_secs max) ticks
      → (closes : List (Option F)) × (run_ticks
            (new_aggregator (from_secs c.candle_interval_secs))
            ((price, origin) ∷ ticks)
          ≡ some closes)
        × (crosses m closes ≡ false)
  warn_warmup-crosses c max {m} price origin ticks ls lg e w s b =
      let (some_time, secs) = no_signals_lem c max w in
      let interval = from_secs c.candle_interval_secs in
      let bars = c.slow + c.signal in
      let interval_pos : 0 < interval =
        omega (arith, pos_of_mul bars c.candle_interval_secs (omega (arith, some_time, secs))) in
      let fits : from_secs max ≤ interval * bars =
        omega (arith, secs, mul_comm bars c.candle_interval_secs) in
      let few =
        count-grid_closes origin interval bars interval_pos ticks price origin (omega arith)
          (omega (arith, some_time, fits)) s (AreBefore-le (omega (arith, fits)) ticks b) in
      let (closed, slow, signal) = new_macd-HasClosed c.fast c.slow c.signal ls lg e in
      (
        none ∷ grid_closes origin interval (price, origin) ticks,
        run_ticks_lem origin interval interval_pos price ticks s,
        crosses_early (none ∷ grid_closes origin interval (price, origin) ticks) 0 m closed
            (omega (arith, few, slow, signal)),
      )
