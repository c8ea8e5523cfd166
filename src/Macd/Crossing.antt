-- ===== src/Macd/Crossing.antt =====
-- When src/macd.rs reports a crossover: two answers in a row, on different sides.
use hades_ps_trader.Base.{◌≡◌, ◌↔◌, true, Option, none, some, arith}
use hades_ps_trader.Float.{Float, IsOrdered}
use hades_ps_trader.Macd.{
  Macd, MacdSnapshot, MacdEvent, warmup, no_cross, crossover, Crossover, bullish, bearish, on_line,
  on_close, direction_of,
}

module _ {F : Type 0} where
  abbrev pub snapshot_of : MacdEvent F → Option (MacdSnapshot F)
  snapshot_of warmup = none
  snapshot_of (no_cross s) = some s
  snapshot_of (crossover s d) = some s

  abbrev pub crossing_of : MacdEvent F → Option Crossover
  crossing_of (crossover s d) = some d
  crossing_of _ = none

module _ {F : Type 0} ⦃fl : Float F⦄ where
  open fl use {sub, lt, le}

  -- An answer is kept for the next close.
  on_close_keeps :
      (m : Macd F) (close : F) (s : MacdSnapshot F)
      → snapshot_of (on_close m close).1 ≡ some s
      → ((on_close m close).0.prev_macd ≡ some s.macd)
        × ((on_close m close).0.prev_signal ≡ some s.signal)
        × (s.histogram ≡ sub s.macd s.signal)
  unfolding on_close on_line
  on_close_keeps m close s e = ground arith

  on_close_direction :
      (m : Macd F) (close : F) (s : MacdSnapshot F)
      → snapshot_of (on_close m close).1 ≡ some s
      → crossing_of (on_close m close).1 ≡ direction_of m.prev_macd m.prev_signal s.macd s.signal
  unfolding on_close on_line
  on_close_direction m close s e = ground arith

  direction_lem :
      IsOrdered F
      → (a b c d : F)
      → ((direction_of (some a) (some b) c d ≡ some bullish) ↔ ((le a b ≡ true) × (lt d c ≡ true)))
        × ((direction_of (some a) (some b) c d ≡ some bearish)
            ↔ ((le b a ≡ true) × (lt c d ≡ true)))
  unfolding direction_of
  direction_lem laws a b c d = ground (arith, laws.not-le_of_lt d c, laws.le_of_lt c d)

  -- For numbers in their order: of two closes in a row that both bring an answer, the second
  -- reports a bullish crossover exactly if the line was at or below the signal and is now above
  -- it, and a bearish one exactly if it was at or above the signal and is now below it.
  pub on_close_crossing :
      IsOrdered F
      → (m : Macd F) (first second : F) (s t : MacdSnapshot F)
      → snapshot_of (on_close m first).1 ≡ some s
      → snapshot_of (on_close (on_close m first).0 second).1 ≡ some t
      → let reported = crossing_of (on_close (on_close m first).0 second).1 in
        ((reported ≡ some bullish) ↔ ((le s.macd s.signal ≡ true) × (lt t.signal t.macd ≡ true)))
        × ((reported ≡ some bearish) ↔ ((le s.signal s.macd ≡ true) × (lt t.macd t.signal ≡ true)))
  on_close_crossing laws m first second s t e f =
      let (p, q, _) = on_close_keeps m first s e in
      rw (on_close_direction (on_close m first).0 second t f, p, q)
        (direction_lem laws s.macd s.signal t.macd t.signal)
