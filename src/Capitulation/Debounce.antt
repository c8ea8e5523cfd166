-- ===== src/Capitulation/Debounce.antt =====
-- Signals of one detector of src/capitulation.rs over a sequence of ticks.
use hades_ps_trader.Base.{
  ℕ, ◌-◌, ◌≤◌, ◌≡◌, ◌≢◌, ◌∙◌, false, Option, none, some, List, [], ◌∷◌, arith, Option-cases, inl,
  inr,
}
use hades_ps_trader.Clock.{evict, since_lt}
use hades_ps_trader.Float.{Float}
use hades_ps_trader.Capitulation.{
  CapitulationDetector, Signal, check, check_window, observe, evict_old,
}
use hades_ps_trader.Capitulation.Firing.{check-IsRearmed}

module _ {F : Type 0} ⦃fl : Float F⦄ where
  -- What the session does with the detector at every tick.
  unfoldable pub on_price :
      CapitulationDetector F → ℕ → F → CapitulationDetector F × Option (Signal F)
  on_price d now price = check (observe d now price) now price

  -- Every signal among the ticks comes at least the debounce after `t`.
  abbrev pub IsQuiet : CapitulationDetector F → ℕ → ℕ → List (ℕ × F) → Type 0
  IsQuiet d debounce t [] = Unit
  IsQuiet d debounce t ((now, price) ∷ ticks) =
      ((on_price d now price).1 ≢ none → debounce ≤ now - t)
      × IsQuiet (on_price d now price).0 debounce t ticks

  abbrev pub IsForward : ℕ → List (ℕ × F) → Type 0
  IsForward before [] = Unit
  IsForward before ((now, price) ∷ ticks) = (before ≤ now) × IsForward now ticks

  check_window_keeps :
      (d : CapitulationDetector F) (now : ℕ) (price : F) (ticks : List (ℕ × F))
      → ((check_window d now price ticks).0.debounce ≡ d.debounce)
        × ((check_window d now price ticks).1 ≡ none
            → (check_window d now price ticks).0.last_fire ≡ d.last_fire)
  unfolding check_window
  check_window_keeps d now price [] = ground arith
  check_window_keeps d now price ((ts, oldest) ∷ rest) = ground arith

  on_price_keeps :
      (d : CapitulationDetector F) (now : ℕ) (price : F)
      → ((on_price d now price).0.debounce ≡ d.debounce)
        × ((on_price d now price).1 ≡ none → (on_price d now price).0.last_fire ≡ d.last_fire)
  on_price_keeps d now price =
      unfold on_price check observe evict_old in
      ground (
        arith,
        check_window_keeps (evict_old (observe d now price) now) now price
            (evict d.window now (observe d now price).ticks),
      )

  on_price_fires :
      (d : CapitulationDetector F) (now : ℕ) (price : F) (s : Signal F)
      → (on_price d now price).1 ≡ some s
      → (since_lt now d.last_fire d.debounce ≡ false)
        × ((on_price d now price).0.last_fire ≡ some now)
  on_price_fires d now price s e =
      let (fires, rearmed) =
        check-IsRearmed (observe d now price) now price s (unfold on_price in e) in
      unfold on_price observe in ground (arith, fires.1, rearmed.0)

  IsQuiet-from :
      (ticks : List (ℕ × F)) (d : CapitulationDetector F) (debounce last t before : ℕ)
      → d.debounce ≡ debounce
      → d.last_fire ≡ some last
      → t ≤ last
      → last ≤ before
      → IsForward before ticks
      → IsQuiet d debounce t ticks
  IsQuiet-from [] d debounce last t before b f le le' o = tt
  IsQuiet-from ((now, price) ∷ ticks) d debounce last t before b f le le' o =
      elim (Option-cases (on_price d now price).1) [
        | inl silent ↦ (
          λ h. absurd (h silent),
          IsQuiet-from ticks (on_price d now price).0 debounce last t now (keeps.0 ∙ b)
              (keeps.1 silent ∙ f) le (omega arith) o.1,
        )
        | inr (s, fired) ↦
            let (late, stamped) = on_price_fires d now price s fired in
            (
              λ h. ground arith,
              IsQuiet-from ticks (on_price d now price).0 debounce now t now (keeps.0 ∙ b) stamped
                  (omega arith) (omega arith) o.1,
            )
      ]
    where
      keeps :
          ((on_price d now price).0.debounce ≡ d.debounce)
          × ((on_price d now price).1 ≡ none → (on_price d now price).0.last_fire ≡ d.last_fire)
      keeps = on_price_keeps d now price

  -- After a signal at `now`, ticks that follow in the order of their times bring no other signal
  -- before the debounce is over, whatever their prices.
  pub debounce-IsQuiet :
      (d : CapitulationDetector F) (now : ℕ) (price : F) (s : Signal F) (ticks : List (ℕ × F))
      → (on_price d now price).1 ≡ some s
      → IsForward now ticks
      → IsQuiet (on_price d now price).0 d.debounce now ticks
  debounce-IsQuiet d now price s ticks e o =
      IsQuiet-from ticks (on_price d now price).0 d.debounce now now now
        (on_price_keeps d now price).0 (on_price_fires d now price s e).1 (omega arith)
        (omega arith) o
