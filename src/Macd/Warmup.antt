-- ===== src/Macd/Warmup.antt =====
-- How many closes the averages of src/macd.rs need before they answer.
use hades_ps_trader.Base.{
  ℕ, suc, ◌+◌, ◌-◌, ◌^◌, ◌≤◌, ◌<◌, ◌≡◌, ◌∙◌, refl, Bool, true, false, Option, none, some, List, [],
  ◌∷◌, arith, leb, is_some, length,
}
use hades_ps_trader.Float.{Float}
use hades_ps_trader.Macd.{
  Ema, Macd, MacdEvent, warmup, no_cross, crossover, update, on_line, on_close, new_macd,
  direction_of, both,
}

module _ {F : Type 0} where
  -- An average that has seen `n` inputs.
  abbrev pub HasSeen : ℕ → Ema F → Type 0
  HasSeen n e =
      (1 ≤ e.period)
      × (e.period < 2 ^ 32)
      × (is_some e.value ≡ leb e.period n)
      × (n < e.period → e.warmup_count ≡ n)

  -- An indicator that has seen `n` closes. The signal line counts from the first MACD line on.
  pub record HasClosed (n : ℕ) (m : Macd F) : Type 0 where
    pub fast_seen : HasSeen n m.fast
    pub slow_seen : HasSeen n m.slow
    pub signal_seen : HasSeen (n + 1 - m.slow.period) m.signal
    pub ordered : m.fast.period < m.slow.period
    pub previous : is_some m.prev_macd ≡ leb (m.slow.period + m.signal.period) (n + 1)
    pub paired : is_some m.prev_signal ≡ is_some m.prev_macd

  -- Closes until the first answer, and until the first possible crossover.
  abbrev pub is_warm : MacdEvent F → Bool
  is_warm warmup = false
  is_warm (no_cross s) = true
  is_warm (crossover s d) = true

  abbrev pub is_crossover : MacdEvent F → Bool
  is_crossover (crossover s d) = true
  is_crossover _ = false

module _ {F : Type 0} ⦃fl : Float F⦄ where
  open fl use {sub}

  update-HasSeen :
      (n : ℕ) (e : Ema F) (x : F)
      → HasSeen n e
      → HasSeen (n + 1) (update e x).0
        × ((update e x).0.period ≡ e.period)
        × (is_some (update e x).1 ≡ leb e.period (n + 1))
  unfolding update
  update-HasSeen n e x h = ground arith

  -- The signal line, once the two averages of close number `n + 1` are there.
  on_line-HasClosed :
      (n : ℕ) (m : Macd F) (fast slow : F)
      → HasSeen (n + 1) m.fast
      → HasSeen (n + 1) m.slow
      → HasSeen (n + 1 - m.slow.period) m.signal
      → m.fast.period < m.slow.period
      → m.slow.period ≤ n + 1
      → is_some m.prev_macd ≡ leb (m.slow.period + m.signal.period) (n + 1)
      → is_some m.prev_signal ≡ is_some m.prev_macd
      → HasClosed (n + 1) (on_line m fast slow).0
        × (is_warm (on_line m fast slow).1 ≡ leb (m.slow.period + m.signal.period) (n + 2))
        × (is_crossover (on_line m fast slow).1 ≡ true → m.slow.period + m.signal.period ≤ n + 1)
  unfolding on_line direction_of
  on_line-HasClosed n m fast slow f s g lt le p q =
      ground (arith, update-HasSeen (n + 1 - m.slow.period) m.signal (sub fast slow) g)

  both-HasClosed :
      (n : ℕ) (m : Macd F) (f s : Option F)
      → HasSeen (n + 1) m.fast
      → HasSeen (n + 1) m.slow
      → HasSeen (n + 1 - m.slow.period) m.signal
      → m.fast.period < m.slow.period
      → is_some m.prev_macd ≡ leb (m.slow.period + m.signal.period) (n + 1)
      → is_some m.prev_signal ≡ is_some m.prev_macd
      → is_some f ≡ leb m.fast.period (n + 1)
      → is_some s ≡ leb m.slow.period (n + 1)
      → HasClosed (n + 1) (both m f s).0
        × (is_warm (both m f s).1 ≡ leb (m.slow.period + m.signal.period) (n + 2))
        × (is_crossover (both m f s).1 ≡ true → m.slow.period + m.signal.period ≤ n + 1)
  both-HasClosed n m (some fast) (some slow) hf hs hg lt p q a b =
      on_line-HasClosed n m fast slow hf hs hg lt (ground arith) p q
  both-HasClosed n m (some fast) none hf hs hg lt p q a b =
      let early : n + 2 - m.slow.period ≡ n + 1 - m.slow.period = ground arith in ground arith
  both-HasClosed n m none s hf hs hg lt p q a b =
      let early : n + 2 - m.slow.period ≡ n + 1 - m.slow.period = ground arith in ground arith

  -- A close leaves the indicator with one close more. It answers from close number
  -- slow + signal - 1 on, and reports a crossover from close number slow + signal on.
  pub on_close-HasClosed :
      (n : ℕ) (m : Macd F) (close : F)
      → HasClosed n m
      → HasClosed (n + 1) (on_close m close).0
        × (is_warm (on_close m close).1 ≡ leb (m.slow.period + m.signal.period) (n + 2))
        × (is_crossover (on_close m close).1 ≡ true → m.slow.period + m.signal.period ≤ n + 1)
  unfolding on_close
  on_close-HasClosed n m close h =
      let f = update-HasSeen n m.fast close h.fast_seen in
      let s = update-HasSeen n m.slow close h.slow_seen in
      ground (
        arith,
        both-HasClosed n
            (record m { fast = (update m.fast close).0; slow = (update m.slow close).0 })
            (update m.fast close).1 (update m.slow close).1,
      )

  -- The indicator after a list of closes.
  unfoldable pub run_closes : Macd F → List F → Macd F
  run_closes m [] = m
  run_closes m (close ∷ closes) = run_closes (on_close m close).0 closes

  update-period : (e : Ema F) (x : F) → (update e x).0.period ≡ e.period
  unfolding update
  update-period e x = ground arith

  pub on_close_periods :
      (m : Macd F) (close : F)
      → ((on_close m close).0.slow.period ≡ m.slow.period)
        × ((on_close m close).0.signal.period ≡ m.signal.period)
  unfolding on_close on_line
  on_close_periods m close = grind (arith, update-period)

  run_closes-HasClosed :
      (closes : List F) (n : ℕ) (m : Macd F)
      → HasClosed n m
      → HasClosed (n + length closes) (run_closes m closes)
        × ((run_closes m closes).slow.period ≡ m.slow.period)
        × ((run_closes m closes).signal.period ≡ m.signal.period)
  unfolding run_closes
  run_closes-HasClosed [] n m h = let e : n + 0 ≡ n = omega arith in rw e (h, refl, refl)
  run_closes-HasClosed (close ∷ closes) n m h =
      let (same_slow, same_signal) = on_close_periods m close in
      let e : n + suc (length closes) ≡ n + 1 + length closes = omega arith in
      let rest =
        run_closes-HasClosed closes (n + 1) (on_close m close).0
          (on_close-HasClosed n m close h).0 in
      rw e (rest.0, rest.1 ∙ same_slow, rest.2 ∙ same_signal)

  pub new_macd-HasClosed :
      (fast slow signal : ℕ) {m : Macd F}
      → slow < 2 ^ 32
      → signal < 2 ^ 32
      → new_macd fast slow signal ≡ some m
      → HasClosed 0 m × (m.slow.period ≡ slow) × (m.signal.period ≡ signal)
  unfolding new_macd
  new_macd-HasClosed fast slow signal ls lg e = ground arith

  -- From a new indicator with periods below 2^32, close number n (counted from 1) brings an answer
  -- exactly if slow + signal - 1 is at most n, and a crossover only if slow + signal is.
  pub warmup_length :
      (fast slow signal : ℕ) (closes : List F) (close : F) {m : Macd F}
      → slow < 2 ^ 32
      → signal < 2 ^ 32
      → new_macd fast slow signal ≡ some m
      → let event = (on_close (run_closes m closes) close).1 in
        let n = length closes + 1 in
        (is_warm event ≡ leb (slow + signal) (n + 1))
        × (is_crossover event ≡ true → slow + signal ≤ n)
  warmup_length fast slow signal closes close {m} ls lg e =
      let start = new_macd-HasClosed fast slow signal ls lg e in
      let run = run_closes-HasClosed closes 0 m start.0 in
      let last = on_close-HasClosed (0 + length closes) (run_closes m closes) close run.0 in
      ground arith
