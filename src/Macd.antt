-- ===== src/Macd.antt =====
-- src/macd.rs: the candle aggregator, the exponential moving average and the MACD indicator.
-- Instants and durations are nanoseconds; u32 counters wrap. A panic is `none`.
pub mod Candles
pub mod Warmup
pub mod Crossing
use hades_ps_trader.Base.{
  ℕ, ◌+◌, ◌-◌, ◌*◌, ◌/◌, ◌%◌, ◌^◌, Bool, true, false, ◌&&◌, Option, none, some, ltb, leb, ◌==◌,
  if◌then◌else◌, ◌>>=◌,
}
use hades_ps_trader.Float.{Float}

pub record CandleAggregator (F : Type 0) : Type 0 where
  pub interval : ℕ
  pub bar_start : Option ℕ
  pub last : F

pub record Ema (F : Type 0) : Type 0 where
  pub period : ℕ
  pub k : F
  pub value : Option F
  pub warmup_sum : F
  pub warmup_count : ℕ

pub record MacdSnapshot (F : Type 0) : Type 0 where
  pub macd : F
  pub signal : F
  pub histogram : F

pub data Crossover : Type 0 where
  bullish bearish : Crossover

pub data MacdEvent (F : Type 0) : Type 0 where
  warmup : MacdEvent F
  no_cross : MacdSnapshot F → MacdEvent F
  crossover : (snapshot : MacdSnapshot F) (direction : Crossover) → MacdEvent F

pub record Macd (F : Type 0) : Type 0 where
  pub fast : Ema F
  pub slow : Ema F
  pub signal : Ema F
  pub prev_macd : Option F
  pub prev_signal : Option F

module _ {F : Type 0} ⦃fl : Float F⦄ where
  open fl use {of_ℕ, add, sub, mul, div, lt, le}

  unfoldable pub new_aggregator : ℕ → CandleAggregator F
  new_aggregator interval = record { interval = interval; bar_start = none; last = of_ℕ 0 }

  -- The result of `on_tick`: the aggregator after it, and the close if a candle has closed. An
  -- interval of 0 makes the division panic.
  unfoldable pub on_tick : CandleAggregator F → F → ℕ → Option (CandleAggregator F × Option F)
  on_tick agg price now = elim agg.bar_start [
    | none ↦ some (record agg { bar_start = some now; last = price }, none)
    | some start ↦
        let elapsed = now - start in
        if ltb elapsed agg.interval
        then some (record agg { last = price }, none)
        else if agg.interval == 0
        then none
        else let intervals_passed = (elapsed / agg.interval) % 2 ^ 32 in
          let advance = agg.interval * intervals_passed in
          some (record agg { bar_start = some (start + advance); last = price }, some agg.last)
  ]

  unfoldable pub new_ema : ℕ → Option (Ema F)
  new_ema period =
      if leb 1 period
      then some (record {
        period = period;
        k = div (of_ℕ 2) (add (of_ℕ period) (of_ℕ 1));
        value = none;
        warmup_sum = of_ℕ 0;
        warmup_count = 0;
      })
      else none

  unfoldable pub update : Ema F → F → Ema F × Option F
  update e x = elim e.value [
    | some prev ↦
        let next = add (mul x e.k) (mul prev (sub (of_ℕ 1) e.k)) in
        (record e { value = some next }, some next)
    | none ↦
        let sum = add e.warmup_sum x in
        let count = (e.warmup_count + 1) % 2 ^ 32 in
        if leb e.period count
        then (let sma = div sum (of_ℕ count) in
            (record e { value = some sma; warmup_sum = sum; warmup_count = count }, some sma))
        else (record e { warmup_sum = sum; warmup_count = count }, none)
  ]

  -- `none` is a failed assertion.
  unfoldable pub new_macd : ℕ → ℕ → ℕ → Option (Macd F)
  unfolding new_ema
  new_macd fast slow signal = if ltb fast slow then periods else none
    where
      periods : Option (Macd F)
      periods = do
        f ← new_ema fast
        s ← new_ema slow
        g ← new_ema signal
        some (record { fast = f; slow = s; signal = g; prev_macd = none; prev_signal = none })

  unfoldable pub direction_of : Option F → Option F → F → F → Option Crossover
  direction_of (some pm) (some ps) macd signal =
      if le pm ps && lt signal macd
      then some bullish
      else if le ps pm && lt macd signal
      then some bearish
      else none
  direction_of _ _ macd signal = none

  abbrev pub event_of : MacdSnapshot F → Option Crossover → MacdEvent F
  event_of snapshot (some direction) = crossover snapshot direction
  event_of snapshot none = no_cross snapshot

  -- The part of `on_close` from the MACD line on, when both averages are there.
  unfoldable pub on_line : Macd F → F → F → Macd F × MacdEvent F
  on_line m fast slow =
      let macd = sub fast slow in
      let (signal_ema, result) = update m.signal macd in
      elim result [
        | none ↦ (record m { signal = signal_ema }, warmup)
        | some signal ↦
            let snapshot : MacdSnapshot F = record {
              macd = macd;
              signal = signal;
              histogram = sub macd signal;
            } in
            (
              record m { signal = signal_ema; prev_macd = some macd; prev_signal = some signal },
              event_of snapshot (direction_of m.prev_macd m.prev_signal macd signal),
            )
      ]

  abbrev pub both : Macd F → Option F → Option F → Macd F × MacdEvent F
  both m (some fast) (some slow) = on_line m fast slow
  both m _ _ = (m, warmup)

  unfoldable pub on_close : Macd F → F → Macd F × MacdEvent F
  on_close m close =
      let (fast, f) = update m.fast close in
      let (slow, s) = update m.slow close in both (record m { fast = fast; slow = slow }) f s
