-- ===== src/Position/Peak.antt =====
-- `update_peak` of src/position.rs over a sequence of ticks.
use hades_ps_trader.Base.{◌≡◌, refl, inl, true, List, [], ◌∷◌, IsIn, arith, if◌then◌else◌}
use hades_ps_trader.Float.{Float, IsOrdered}
use hades_ps_trader.Float.Max.{IsMax, AreNumbers, IsMax-cons, raise}
use hades_ps_trader.Position.{Position, update_peak}

module _ {F : Type 0} ⦃fl : Float F⦄ where
  open fl use {lt, le}

  -- The PnL percentages of successive ticks, fed to one position.
  unfoldable pub track_peak : Position F → List F → Position F
  track_peak pos [] = pos
  track_peak pos (p ∷ ps) = track_peak (update_peak pos p) ps

  module _ (laws : IsOrdered F) where
    -- For numbers in their order, of which none is NaN, the tracked peak is the largest of the
    -- starting peak and all percentages seen.
    pub track_peak-IsMax :
        (pos : Position F) (pcts : List F)
        → le pos.peak_pct pos.peak_pct ≡ true
        → AreNumbers pcts
        → IsMax pos.peak_pct pcts (track_peak pos pcts).peak_pct
    unfolding track_peak
    track_peak-IsMax pos [] n ns = (inl refl, n, tt)
    track_peak-IsMax pos (p ∷ ps) n (m, ms) =
        let next = update_peak pos p in
        let up = raise laws pos.peak_pct p n m in
        let (i, a, b) = raised pos p up in
        IsMax-cons laws pos.peak_pct p next.peak_pct _ ps i a b
          (track_peak-IsMax next ps (laws.refl_of_le _ _ a).1 ms)
      where
        raised :
            (pos : Position F) (p : F)
            → (let top = if lt pos.peak_pct p then p else pos.peak_pct in
                IsIn top (pos.peak_pct ∷ p ∷ []) × (le pos.peak_pct top ≡ true) × (le p top ≡ true))
            → IsIn (update_peak pos p).peak_pct (pos.peak_pct ∷ p ∷ [])
              × (le pos.peak_pct (update_peak pos p).peak_pct ≡ true)
              × (le p (update_peak pos p).peak_pct ≡ true)
        raised pos p up = unfold update_peak in ground arith
