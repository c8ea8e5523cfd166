-- ===== src/Examples/Indicators.antt =====
-- Witnesses of the theorems on the candles, the indicator and its warm-up.
use hades_ps_trader.Base.{
  ℕ, ◌*◌, ◌^◌, ◌≡◌, ◌↔◌, refl, true, false, Option, none, some, List, [], ◌∷◌, arith, leb, ◌≤◌,
}
use hades_ps_trader.Float.Fixed.{Fixed, fin, fixed_float, Fixed-IsOrdered, whole, minus}
use hades_ps_trader.Macd.{
  Macd, Ema, MacdSnapshot, bullish, bearish, new_aggregator, new_ema, new_macd, update, on_line,
  on_close, direction_of,
}
use hades_ps_trader.Macd.Candles.{run_ticks, grid_closes, run_ticks_lem}
use hades_ps_trader.Macd.Warmup.{is_warm, is_crossover, run_closes, warmup_length}
use hades_ps_trader.Config.{MacdConfig}
use hades_ps_trader.Startup.{warn_warmup, warmup_secs, no_signals}
use hades_ps_trader.Startup.Window.{crosses, warn_warmup-crosses}
use hades_ps_trader.Macd.Crossing.{snapshot_of, crossing_of, on_close_crossing}
open fixed_float use {lt, le, div}

abbrev later_ticks : List (Fixed × ℕ)
later_ticks = (whole 5, 13) ∷ (whole 6, 22) ∷ (whole 7, 45) ∷ []

run_ticks_lem_example :
    run_ticks (new_aggregator 10) ((whole 4, 10) ∷ later_ticks)
    ≡ some (none ∷ grid_closes 10 10 (whole 4, 10) later_ticks)
run_ticks_lem_example =
    run_ticks_lem 10 10 (omega arith) (whole 4) later_ticks
      ((omega arith, omega arith, (omega arith, omega arith, (omega arith, omega arith, tt))))

abbrev ema : ℕ → Fixed → Ema Fixed
ema period k = record {
  period = period;
  k = k;
  value = none;
  warmup_sum = whole 0;
  warmup_count = 0;
}

abbrev fresh : Macd Fixed
fresh = record {
  fast = ema 1 (div (whole 2) (whole 2));
  slow = ema 2 (div (whole 2) (whole 3));
  signal = ema 1 (div (whole 2) (whole 2));
  prev_macd = none;
  prev_signal = none;
}

fresh_eq : new_macd 1 2 1 ≡ some fresh
unfolding new_macd new_ema
fresh_eq = refl

warmup_length_example :
    (let event = (on_close (run_closes fresh (whole 5 ∷ [])) (whole 6)).1 in
      (is_warm event ≡ leb 3 3) × (is_crossover event ≡ true → 3 ≤ 2))
warmup_length_example =
    warmup_length 1 2 1 (whole 5 ∷ []) (whole 6) (omega arith) (omega arith) fresh_eq

-- An indicator past its warm-up.
abbrev warm : Ema Fixed → Fixed → Ema Fixed
warm e v = record e { value = some v }

abbrev half : Fixed
half = fin (5 * 10 ^ 8) 0

abbrev running : Macd Fixed
running = record {
  fast = warm (ema 1 (whole 1)) (whole 10);
  slow = warm (ema 2 half) (whole 10);
  signal = warm (ema 1 half) (whole 0);
  prev_macd = none;
  prev_signal = none;
}

abbrev up : MacdSnapshot Fixed
up = record { macd = whole 1; signal = half; histogram = half }

abbrev down : MacdSnapshot Fixed
down = record { macd = fin 0 (25 * 10 ^ 8); signal = minus 1; histogram = fin 0 (15 * 10 ^ 8) }

first_up : snapshot_of (on_close running (whole 12)).1 ≡ some up
unfolding on_close on_line update direction_of
first_up = refl

second_down : snapshot_of (on_close (on_close running (whole 12)).0 (whole 6)).1 ≡ some down
unfolding on_close on_line update direction_of
second_down = refl

on_close_crossing_example :
    (let reported = crossing_of (on_close (on_close running (whole 12)).0 (whole 6)).1 in
      ((reported ≡ some bullish)
        ↔ ((le up.macd up.signal ≡ true) × (lt down.signal down.macd ≡ true)))
      × ((reported ≡ some bearish)
          ↔ ((le up.signal up.macd ≡ true) × (lt down.macd down.signal ≡ true))))
on_close_crossing_example =
    on_close_crossing Fixed-IsOrdered running (whole 12) (whole 6) up down first_up second_down

abbrev slow_config : MacdConfig
slow_config = record {
  candle_interval_secs = 10;
  fast = 1;
  slow = 2;
  signal = 1;
  cooldown_secs = 0;
}

warns : warn_warmup slow_config 30 ≡ no_signals
unfolding warn_warmup warmup_secs
warns = refl

abbrev session_ticks : List (Fixed × ℕ)
session_ticks = (whole 5, 5 * 10 ^ 9) ∷ (whole 6, 14 * 10 ^ 9) ∷ (whole 7, 29 * 10 ^ 9) ∷ []

warn_warmup-crosses_example :
    (closes : List (Option Fixed)) × (run_ticks
        (new_aggregator (10 * 10 ^ 9))
        ((whole 4, 10) ∷ session_ticks)
      ≡ some closes)
    × (crosses fresh closes ≡ false)
warn_warmup-crosses_example =
    warn_warmup-crosses slow_config 30 (whole 4) 10 session_ticks (omega arith) (omega arith)
      fresh_eq warns
      (omega arith, omega arith, (omega arith, omega arith, (omega arith, omega arith, tt)))
      (omega arith, (omega arith, (omega arith, tt)))
