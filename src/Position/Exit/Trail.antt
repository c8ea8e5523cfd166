-- ===== src/Position/Exit/Trail.antt =====
-- The trailing stop of src/position.rs: which tier counts, and when it fires.
use mathlib.Core.List.{reverse-cons}
use hades_ps_trader.Base.{
  ◌≡◌, refl, ◌∙◌, ap, ◌⊎◌, inl, inr, true, false, Option, none, some, List, [], ◌∷◌, ◌++◌, reverse,
  All, IsIn, All-IsIn, arith, if◌then◌else◌, Bool-cases,
}
use hades_ps_trader.Float.{Float, IsOrdered}
use hades_ps_trader.Position.{TrailTier, ExitReason, dynamic_trail, find_tier, trail_exit}
use hades_ps_trader.Position.Tiers.{IsAscending, GainLe}

module _ {F : Type 0} ⦃fl : Float F⦄ where
  open fl use {sub, le}

  abbrev pub NoneReached : F → List (TrailTier F) → Type 0
  NoneReached peak = All λ t. le t.gain_pct peak ≡ false

  -- `t` is a tier whose gain the peak has reached, and no such tier has a higher gain.
  abbrev pub IsHighest : F → List (TrailTier F) → TrailTier F → Type 0
  IsHighest peak ts t =
      IsIn t ts
      × (le t.gain_pct peak ≡ true)
      × All (λ u. (le u.gain_pct peak ≡ false) ⊎ GainLe u t) ts

  abbrev pub TrailDecision : F → F → List (TrailTier F) → Option (ExitReason F) → Type 0
  TrailDecision peak pct ts none =
      NoneReached peak ts
      ⊎ ((t : TrailTier F) × IsHighest peak ts t × (le pct (sub peak t.trail_pct) ≡ false))
  TrailDecision peak pct ts (some (dynamic_trail gain trail trigger p)) =
      IsHighest peak ts (record { gain_pct = gain; trail_pct = trail })
      × (trigger ≡ sub peak trail)
      × (le pct trigger ≡ true)
      × (p ≡ pct)
  TrailDecision peak pct ts _ = ⊥

  abbrev IsTop : F → List (TrailTier F) → Option (TrailTier F) → Type 0
  IsTop peak ts none = NoneReached peak ts
  IsTop peak ts (some t) = IsHighest peak ts t

  -- The search from the front of the list, with the last hit kept.
  abbrev last_hit : F → List (TrailTier F) → Option (TrailTier F) → Option (TrailTier F)
  last_hit peak (t ∷ []) none = if le t.gain_pct peak then some t else none
  last_hit peak ts r = r

  find_tier-append :
      (peak : F) (xs : List (TrailTier F)) (t : TrailTier F)
      → find_tier peak (xs ++ t ∷ []) ≡ last_hit peak (t ∷ []) (find_tier peak xs)
  unfolding find_tier
  find_tier-append peak [] t = ground arith
  find_tier-append peak (x ∷ xs) t = ground (arith, find_tier-append peak xs t)

  find_tier-reverse :
      (peak : F) (t : TrailTier F) (ts : List (TrailTier F))
      → find_tier peak (reverse (t ∷ ts)) ≡ last_hit peak (t ∷ []) (find_tier peak (reverse ts))
  find_tier-reverse peak t ts =
      ap (find_tier peak) (reverse-cons t ts) ∙ find_tier-append peak (reverse ts) t

  module _ (laws : IsOrdered F) where
    open laws use {refl_of_le}

    none_above :
        (peak : F) (t : TrailTier F) (ts : List (TrailTier F))
        → NoneReached peak ts
        → All (λ u. (le u.gain_pct peak ≡ false) ⊎ GainLe u t) ts
    none_above peak t [] h = tt
    none_above peak t (u ∷ us) h = (inl h.0, none_above peak t us h.1)

    IsTop-cons :
        (peak : F) (t : TrailTier F) (ts : List (TrailTier F)) (r : Option (TrailTier F))
        → All (GainLe t) ts
        → IsTop peak ts r
        → IsTop peak (t ∷ ts) (last_hit peak (t ∷ []) r)
    IsTop-cons peak t ts none a h = elim (Bool-cases (le t.gain_pct peak)) [
      | inl e ↦ rw e (inl refl, e, (inr (refl_of_le _ _ e).0, none_above peak t ts h))
      | inr e ↦ rw e (e, h)
    ]
    IsTop-cons peak t ts (some u) a h = (inr h.0, h.1, (inr (All-IsIn (GainLe t) ts u a h.0), h.2))

    find_tier-IsTop :
        (peak : F) (ts : List (TrailTier F))
        → IsAscending ts
        → IsTop peak ts (find_tier peak (reverse ts))
    unfolding find_tier
    find_tier-IsTop peak [] a = tt
    find_tier-IsTop peak (t ∷ ts) a =
        rw (find_tier-reverse peak t ts) (IsTop-cons peak t ts _ a.0 (find_tier-IsTop peak ts a.1))

    pub trail_exit-TrailDecision :
        (peak pct : F) (ts : List (TrailTier F))
        → IsAscending ts
        → TrailDecision peak pct ts (trail_exit peak pct ts)
    unfolding trail_exit
    trail_exit-TrailDecision peak pct ts a = decide (find_tier peak (reverse ts)) refl
      where
        decide :
            (r : Option (TrailTier F))
            → find_tier peak (reverse ts) ≡ r
            → TrailDecision peak pct ts (trail_exit peak pct ts)
        decide none e = rw (e, trail_exit) (inl (rw e at (find_tier-IsTop peak ts a)))
        decide (some t) e =
            let top : IsHighest peak ts t = rw e at (find_tier-IsTop peak ts a) in
            elim (Bool-cases (le pct (sub peak t.trail_pct))) [
              | inl hit ↦ rw (e, trail_exit, hit) (top, refl, hit, refl)
              | inr miss ↦ rw (e, trail_exit, miss) (inr (t, top, miss))
            ]
