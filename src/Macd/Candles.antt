-- ===== src/Macd/Candles.antt =====
-- The candle aggregator of src/macd.rs against the grid of intervals that starts at the first tick.
use native.Mathlib.Nat.{
  add-mul-div_left, mod-eq_of_lt, div-eq_of_lt, mul-div-le, le-div_iff_mul-le, div-lt_iff_lt-mul,
  lt-mul-div-succ,
}
use hades_ps_trader.Base.{
  ap, ◌∙◌, ℕ, ◌+◌, ◌-◌, ◌*◌, ◌/◌, ◌%◌, ◌^◌, ◌≤◌, ◌<◌, ◌≡◌, refl, Option, none, some, List, [], ◌∷◌,
  arith, ◌==◌, if◌then◌else◌, ◌>>=◌,
}
use native.Mathlib.Decide.{dec_lt}
use hades_ps_trader.Float.{Float}
use hades_ps_trader.Macd.{CandleAggregator, new_aggregator, on_tick}

-- Where a tick at `now` stands on the grid, from the start of the interval of an earlier tick.
module _ (origin interval before now : ℕ) (pos : 0 < interval) (h : origin ≤ before)
    (k : before ≤ now) where
  abbrev index : ℕ
  index = (before - origin) / interval

  abbrev start : ℕ
  start = origin + interval * index

  start-le : start ≤ before
  start-le = omega (arith, mul-div-le (before - origin) interval)

  lt-next : before < start + interval
  lt-next = omega (arith, lt-mul-div-succ (before - origin) pos)

  index_shift : (now - origin) / interval ≡ (now - start) / interval + index
  index_shift =
      let split : now - origin ≡ (now - start) + interval * index = omega (arith, start-le) in
      ap (λ (t : ℕ). t / interval) split ∙ add-mul-div_left (now - start) index pos

  same_index : now - start < interval → (now - origin) / interval ≡ index
  same_index lt = omega (arith, index_shift, div-eq_of_lt lt)

  later_index : interval ≤ now - start → index < (now - origin) / interval
  later_index le = omega (
    arith,
    index_shift,
    (le-div_iff_mul-le {k = interval} {x = 1} {y = now - start} pos).1 (omega arith),
  )

  few_intervals :
      now < before + interval * (2 ^ 32 - 1)
      → ((now - start) / interval) % 2 ^ 32 ≡ (now - start) / interval
  few_intervals lt =
      mod-eq_of_lt (
        (div-lt_iff_lt-mul {k = interval} {x = now - start} {y = 2 ^ 32} pos).1
          (omega (arith, gap)))
    where
      gap : now - start < 2 ^ 32 * interval
      gap = omega (arith, start-le, lt-next)

  next_start :
      now < before + interval * (2 ^ 32 - 1)
      → start + interval * (((now - start) / interval) % 2 ^ 32)
        ≡ origin + interval * ((now - origin) / interval)
  next_start lt = rw (few_intervals lt) (omega (arith, ap (λ (t : ℕ). interval * t) index_shift))

-- The grid: a tick at `now` lies in interval number (now - origin) / interval.
abbrev pub interval_of : ℕ → ℕ → ℕ → ℕ
interval_of origin interval now = (now - origin) / interval

module _ {F : Type 0} ⦃fl : Float F⦄ where
  -- The results of feeding ticks, a price and a time each.
  unfoldable pub run_ticks : CandleAggregator F → List (F × ℕ) → Option (List (Option F))
  run_ticks agg [] = some []
  run_ticks agg ((price, now) ∷ ticks) = do
    (next, close) ← on_tick agg price now
    closes ← run_ticks next ticks
    some (close ∷ closes)

  -- A candle closes at a tick exactly if the tick before it lies in another interval, at that
  -- tick's price.
  abbrev pub grid_closes : (origin interval : ℕ) → F × ℕ → List (F × ℕ) → List (Option F)
  grid_closes origin interval previous [] = []
  grid_closes origin interval (price, before) ((p, now) ∷ ticks) =
      (if interval_of origin interval now == interval_of origin interval before
        then none
        else some price)
      ∷ grid_closes origin interval (p, now) ticks

  -- Times do not run backwards, and no gap spans 2 ^ 32 intervals.
  abbrev pub IsSteady : ℕ → ℕ → List (F × ℕ) → Type 0
  IsSteady interval before [] = Unit
  IsSteady interval before ((p, now) ∷ ticks) =
      (before ≤ now) × (now < before + interval * (2 ^ 32 - 1)) × IsSteady interval now ticks

  pub record IsOnGrid (origin interval : ℕ) (price : F) (before : ℕ) (agg : CandleAggregator F)
      : Type 0 where
    pub interval_eq : agg.interval ≡ interval
    pub start_eq : agg.bar_start ≡ some (origin + interval * interval_of origin interval before)
    pub last_eq : agg.last ≡ price
    pub started : origin ≤ before

  abbrev pub close_of : ℕ → ℕ → F × ℕ → ℕ → Option F
  close_of origin interval (price, before) now =
      if interval_of origin interval now == interval_of origin interval before
      then none
      else some price

  module _ (origin interval : ℕ) (pos : 0 < interval) where
    -- One tick moves the aggregator along the grid and gives the close that the grid says.
    pub on_tick-IsOnGrid :
        (agg : CandleAggregator F) (price p : F) (before now : ℕ)
        → IsOnGrid origin interval price before agg
        → before ≤ now
        → now < before + interval * (2 ^ 32 - 1)
        → (next : CandleAggregator F) × (on_tick agg p now
            ≡ some (next, close_of origin interval (price, before) now))
          × IsOnGrid origin interval p now next
    unfolding on_tick
    on_tick-IsOnGrid agg price p before now g le few =
        elim (dec_lt (now - start origin interval before now pos g.started le) interval) [
          | yes same ↦
              let e = same_index origin interval before now pos g.started le same in
              (record agg { last = p }, ground arith, ground arith)
          | no other ↦
              let e = later_index origin interval before now pos g.started le (omega arith) in
              let f = next_start origin interval before now pos g.started le few in
              (
                record agg {
                  bar_start = some (origin + interval * interval_of origin interval now);
                  last = p;
                },
                ground arith,
                ground arith,
              )
        ]

    run_ticks-grid_closes :
        (ticks : List (F × ℕ)) (agg : CandleAggregator F) (price : F) (before : ℕ)
        → IsOnGrid origin interval price before agg
        → IsSteady interval before ticks
        → run_ticks agg ticks ≡ some (grid_closes origin interval (price, before) ticks)
    unfolding run_ticks
    run_ticks-grid_closes [] agg price before g s = refl
    run_ticks-grid_closes ((p, now) ∷ ticks) agg price before g (le, few, s) =
        let (next, e, on) = on_tick-IsOnGrid agg price p before now g le few in
        rw (e, run_ticks-grid_closes ticks next p now on s)

    -- For an interval that is not 0 and ticks in the order of their times, each less than 2^32 - 1
    -- intervals after the one before: the aggregator run from its first tick, at `origin`, opens a
    -- candle, and from then on its closes are those of the grid of intervals that starts there.
    pub run_ticks_lem :
        (price : F) (ticks : List (F × ℕ))
        → IsSteady interval origin ticks
        → run_ticks (new_aggregator interval) ((price, origin) ∷ ticks)
          ≡ some (none ∷ grid_closes origin interval (price, origin) ticks)
    unfolding run_ticks new_aggregator on_tick
    run_ticks_lem price ticks s = rw (run_ticks-grid_closes ticks first price origin on s)
      where
        first : CandleAggregator F
        first = record { interval = interval; bar_start = some origin; last = price }

        at_origin : interval_of origin interval origin ≡ 0
        at_origin = div-eq_of_lt (omega arith)

        on : IsOnGrid origin interval price origin first
        on = record {
          interval_eq = refl;
          start_eq = ap some (rw at_origin (omega arith));
          last_eq = refl;
          started = omega arith;
        }
