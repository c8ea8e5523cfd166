-- ===== src/DipBuy/Firing.antt =====
-- When `check` of src/dip_buy.rs fires.
use hades_ps_trader.Base.{
  ℕ, ◌-◌, ◌≤◌, ◌≡◌, ◌≢◌, ◌⊎◌, true, false, none, some, List, All, arith, length, Option-cases, inl,
  inr,
}
use hades_ps_trader.Clock.{from_secs, since_lt}
use hades_ps_trader.Float.{Float, IsOrdered}
use hades_ps_trader.DipBuy.{
  DipBuyDetector, DipSignal, Reading, min_ticks_for_fire, max_price, min_price, max_pool_sol,
  is_sinking, judge, front, back, is_late, signal_of, check,
}
use hades_ps_trader.DipBuy.Recovery.{HasRecovered, is_sinking-HasRecovered}

module _ {F : Type 0} ⦃fl : Float F⦄ where
  open fl use {of_ℕ, sub, div, lt, le, infinity}

  -- The signal's numbers, for the newest reading, and the limits that they meet.
  pub record IsDip (d : DipBuyDetector F) (entry : Reading F) (s : DipSignal F) : Type 0 where
    pub drawdown_eq : s.drawdown_pct ≡ div (sub (max_price d.ticks) entry.price) (max_price d.ticks)
    pub quantile_eq :
        s.quantile
        ≡ div (sub entry.price (min_price d.ticks)) (sub (max_price d.ticks) (min_price d.ticks))
    pub pool_eq :
        s.pool_drawdown_pct ≡ div (sub (max_pool_sol d.ticks) entry.pool_sol) (max_pool_sol d.ticks)
    pub deep : le d.min_drawdown_pct s.drawdown_pct ≡ true
    pub low : le s.quantile d.max_entry_quantile ≡ true
    pub drained : le d.min_pool_sol_drawdown_pct s.pool_drawdown_pct ≡ true
    pub alive :
        (lt (of_ℕ 0) d.max_pool_sol_drawdown_pct ≡ false)
        ⊎ (lt d.max_pool_sol_drawdown_pct s.pool_drawdown_pct ≡ false)
    pub mature : lt entry.pool_sol d.min_pool_sol ≡ false

  judge-IsDip :
      (d : DipBuyDetector F) (now : ℕ) (entry : Reading F) (s : DipSignal F)
      → judge d now entry ≡ some s
      → IsDip d entry s
        × (is_sinking now d.pool_recovery_secs d.pool_recovery_pct
              (λ r. r.pool_sol)
              entry.pool_sol
              d.ticks
            ≡ false)
        × (is_sinking now d.price_recovery_secs d.price_recovery_pct
              (λ r. r.price)
              entry.price
              d.ticks
            ≡ false)
  unfolding judge
  judge-IsDip d now entry s e = ground arith

  abbrev pub IsReady : DipBuyDetector F → ℕ → Type 0
  IsReady d now =
      (d.enabled ≡ true)
      × (since_lt now d.last_fire d.cooldown ≡ false)
      × (is_late d now ≡ false)
      × (min_ticks_for_fire ≤ length d.ticks)

  signal_of_lem :
      (d : DipBuyDetector F) (now : ℕ) (s : DipSignal F)
      → signal_of d now ≡ some s
      → IsReady d now
        × ((first last : ℕ × Reading F) × (front d.ticks ≡ some first)
            × (d.window - from_secs 1 ≤ now - first.0)
            × (back d.ticks ≡ some last)
            × (judge d now last.1 ≡ some s))
  unfolding signal_of
  signal_of_lem d now s e = elim (Option-cases (front d.ticks)) [
    | inl empty ↦ ground arith
    | inr (first, f) ↦ elim (Option-cases (back d.ticks)) [
      | inl empty ↦ ground arith
      | inr (last, l) ↦ (ground arith, (first, last, f, ground arith, l, ground arith))
    ]
  ]

  check_quiet :
      (d : DipBuyDetector F) (now : ℕ) (s : DipSignal F)
      → signal_of d now ≡ none
      → (check d now).1 ≢ some s
  unfolding check
  check_quiet d now s f e = ground arith

  check_same :
      (d : DipBuyDetector F) (now : ℕ) (s signal : DipSignal F)
      → signal_of d now ≡ some signal
      → (check d now).1 ≡ some s
      → signal_of d now ≡ some s
  unfolding check
  check_same d now s signal f e = ground arith

  check_stamped :
      (d : DipBuyDetector F) (now : ℕ) (signal : DipSignal F)
      → signal_of d now ≡ some signal
      → (check d now).0 ≡ record d { last_fire = some now }
  unfolding check
  check_stamped d now signal f = ground arith

  -- The readings of the window are no NaN.
  abbrev pub HasNumbers : List (ℕ × Reading F) → Type 0
  HasNumbers ticks =
      All (λ t. le t.1.price t.1.price ≡ true) ticks
      × All (λ t. le t.1.pool_sol t.1.pool_sol ≡ true) ticks

  -- What a signal says of the detector and its newest reading.
  abbrev pub Fires : DipBuyDetector F → ℕ → DipSignal F → Type 0
  Fires d now s =
      IsReady d now
      × ((first last : ℕ × Reading F) × (front d.ticks ≡ some first)
          × (d.window - from_secs 1 ≤ now - first.0)
          × (back d.ticks ≡ some last)
          × IsDip d last.1 s
          × HasRecovered now d.pool_recovery_secs (λ r. r.pool_sol) d.pool_recovery_pct
              last.1.pool_sol d.ticks
          × HasRecovered now d.price_recovery_secs (λ r. r.price) d.price_recovery_pct last.1.price
              d.ticks)

  module _ (laws : IsOrdered F) (number : le infinity infinity ≡ true) where
    -- For numbers in their order and readings that are no NaN, a check that fires has an enabled
    -- detector past its cooldown, a session that is not too old, five ticks and a full window, a
    -- newest reading that meets all limits of the dip, and a pool and a price that have both
    -- recovered from the least reading since their cutoffs; and it changes nothing but the instant
    -- of the last signal.
    pub check-Fires :
        (d : DipBuyDetector F) (now : ℕ) (s : DipSignal F)
        → HasNumbers d.ticks
        → (check d now).1 ≡ some s
        → Fires d now s × ((check d now).0 ≡ record d { last_fire = some now })
    check-Fires d now s numbers e = elim (Option-cases (signal_of d now)) [
      | inl silent ↦ absurd (quiet silent)
      | inr (signal, f) ↦
          let (ready, (first, last, a, full, b, judged)) = signal_of_lem d now s (same signal f) in
          let (dip, pool, price) = judge-IsDip d now last.1 s judged in
          (
            (
              ready,
              (
                first,
                last,
                a,
                full,
                b,
                dip,
                is_sinking-HasRecovered laws now d.pool_recovery_secs (λ r. r.pool_sol)
                    d.pool_recovery_pct last.1.pool_sol d.ticks number numbers.1 pool,
                is_sinking-HasRecovered laws now d.price_recovery_secs (λ r. r.price)
                    d.price_recovery_pct last.1.price d.ticks number numbers.0 price,
              ),
            ),
            stamped signal f,
          )
    ]
      where
        quiet : signal_of d now ≡ none → ⊥
        quiet f = check_quiet d now s f e

        same : (signal : DipSignal F) → signal_of d now ≡ some signal → signal_of d now ≡ some s
        same signal f = check_same d now s signal f e

        stamped :
            (signal : DipSignal F)
            → signal_of d now ≡ some signal
            → (check d now).0 ≡ record d { last_fire = some now }
        stamped signal f = check_stamped d now signal f
