-- ===== src/DipBuy/Recovery.antt =====
-- The recovery filters of src/dip_buy.rs: the least reading since the cutoff.
use native.Mathlib.Decide.{ℕ_discrete}
use hades_ps_trader.Base.{
  ℕ, ◌≡◌, refl, ◌∙◌, ◌⊎◌, inl, inr, true, false, ◌&&◌, List, [], ◌∷◌, All, arith, if◌then◌else◌,
}
use hades_ps_trader.Float.{Float, IsOrdered}
use hades_ps_trader.DipBuy.{Reading, since_cutoff, min_recent, is_sinking}

module _ {F : Type 0} ⦃fl : Float F⦄ where
  open fl use {of_ℕ, add, mul, lt, le, infinity, is_finite}

  -- `v` is the value of a tick since the cutoff.
  abbrev pub IsRecentValue : ℕ → ℕ → (Reading F → F) → List (ℕ × Reading F) → F → Type 0
  IsRecentValue now secs value [] v = ⊥
  IsRecentValue now secs value (t ∷ ticks) v =
      ((since_cutoff now secs t.0 ≡ true) × (v ≡ value t.1)) ⊎ IsRecentValue now secs value ticks v

  -- No tick since the cutoff has a value below `m`.
  abbrev pub IsBelowRecent : ℕ → ℕ → (Reading F → F) → List (ℕ × Reading F) → F → Type 0
  IsBelowRecent now secs value ticks m =
      All (λ t. since_cutoff now secs t.0 ≡ true → le m (value t.1) ≡ true) ticks

  -- The filter is off, or sees no finite reading, or the entry is not below the recovery above
  -- the least reading since the cutoff.
  abbrev pub HasRecovered : ℕ → ℕ → (Reading F → F) → F → F → List (ℕ × Reading F) → Type 0
  HasRecovered now secs value pct entry ticks =
      (secs ≡ 0)
      ⊎ ((least : F) × (is_finite least ≡ true → lt entry (mul least (add (of_ℕ 1) pct)) ≡ false)
          × IsBelowRecent now secs value ticks least
          × ((least ≡ infinity) ⊎ IsRecentValue now secs value ticks least))

  module _ (laws : IsOrdered F) (now secs : ℕ) (value : Reading F → F) where
    open laws use {le_trans, le_of_lt, le-or-lt, refl_of_le}

    -- The accumulator after one tick.
    abbrev next : F → ℕ × Reading F → F
    next least t = if since_cutoff now secs t.0 && lt (value t.1) least then value t.1 else least

    next-le :
        (least : F) (t : ℕ × Reading F)
        → le least least ≡ true
        → le (value t.1) (value t.1) ≡ true
        → (le (next least t) least ≡ true)
          × (since_cutoff now secs t.0 ≡ true → le (next least t) (value t.1) ≡ true)
          × ((next least t ≡ least)
              ⊎ ((since_cutoff now secs t.0 ≡ true) × (next least t ≡ value t.1)))
    next-le least t n m = ground (arith, le_of_lt (value t.1) least, le-or-lt least (value t.1))

    pub min_recent_least :
        (ticks : List (ℕ × Reading F)) (least : F)
        → le least least ≡ true
        → All (λ t. le (value t.1) (value t.1) ≡ true) ticks
        → let m = min_recent now secs value least ticks in
          (le m least ≡ true)
          × IsBelowRecent now secs value ticks m
          × ((m ≡ least) ⊎ IsRecentValue now secs value ticks m)
    unfolding min_recent
    min_recent_least [] least n ns = (n, tt, inl refl)
    min_recent_least ((ts, r) ∷ ticks) least n (v, vs) =
        let (down, under, from) = next-le least (ts, r) n v in
        let (below, all, member) =
          min_recent_least ticks (next least (ts, r)) (refl_of_le _ _ down).0 vs in
        (le_trans _ _ _ below down, (λ c. le_trans _ _ _ below (under c), all), trace from member)
      where
        m : F
        m = min_recent now secs value (next least (ts, r)) ticks

        trace :
            ((next least (ts, r) ≡ least)
              ⊎ ((since_cutoff now secs ts ≡ true) × (next least (ts, r) ≡ value r)))
            → ((m ≡ next least (ts, r)) ⊎ IsRecentValue now secs value ticks m)
            → (m ≡ least) ⊎ IsRecentValue now secs value ((ts, r) ∷ ticks) m
        trace (inl e) (inl f) = inl (f ∙ e)
        trace (inr (c, e)) (inl f) = inr (inl (c, f ∙ e))
        trace _ (inr g) = inr (inr g)

    pub is_sinking-HasRecovered :
        (pct entry : F) (ticks : List (ℕ × Reading F))
        → le infinity infinity ≡ true
        → All (λ t. le (value t.1) (value t.1) ≡ true) ticks
        → is_sinking now secs pct value entry ticks ≡ false
        → HasRecovered now secs value pct entry ticks
    unfolding is_sinking
    is_sinking-HasRecovered pct entry ticks n ns e =
        let (_, below, member) = min_recent_least ticks infinity n ns in
        elim (ℕ_discrete secs 0) [
          | yes off ↦ inl off
          | no on ↦ inr (min_recent now secs value infinity ticks, λ f. ground arith, below, member)
        ]
