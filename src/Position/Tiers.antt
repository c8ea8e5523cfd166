-- ===== src/Position/Tiers.antt =====
-- `parse_tiers` of src/position.rs: the text "gain:trail,gain:trail,..." as tiers in ascending
-- order of gain. `parse` stands for `str::parse::<f64>`. The sort is a stable insertion sort, which
-- agrees with `sort_by` on gains that are not NaN.
use mathlib.Core.List.{Perm}
use mathlib.Core.List.Perm
use hades_ps_trader.Base.{
  ℕ, ◌≡◌, ◌⊎◌, inl, inr, true, false, Option, none, some, List, [], ◌∷◌, All, ◌>>=◌, if◌then◌else◌,
  Bool-cases,
}
use hades_ps_trader.Base.Text.{trim, split}
use hades_ps_trader.Float.{Float, IsOrdered}
use hades_ps_trader.Position.{TrailTier}

module _ {F : Type 0} where
  tier_of : (List ℕ → Option F) → List (List ℕ) → Option (TrailTier F)
  tier_of parse (gain ∷ trail ∷ rest) = do
    g ← parse (trim gain)
    t ← parse (trim trail)
    some (record { gain_pct = g; trail_pct = t })
  tier_of parse _ = none

  unfoldable pub parse_tier : (List ℕ → Option F) → List ℕ → Option (TrailTier F)
  unfolding tier_of
  parse_tier parse p = tier_of parse (split b':' (trim p))

  -- `filter_map`
  unfoldable pub parse_all : (List ℕ → Option F) → List (List ℕ) → List (TrailTier F)
  unfolding parse_tier
  parse_all parse [] = []
  parse_all parse (p ∷ ps) = elim (parse_tier parse p) [
    | none ↦ parse_all parse ps
    | some t ↦ t ∷ parse_all parse ps
  ]

module _ {F : Type 0} ⦃fl : Float F⦄ where
  open fl use {lt, le}

  unfoldable pub insert_tier : TrailTier F → List (TrailTier F) → List (TrailTier F)
  insert_tier t [] = t ∷ []
  insert_tier t (u ∷ us) = if lt u.gain_pct t.gain_pct then u ∷ insert_tier t us else t ∷ u ∷ us

  unfoldable pub sort_tiers : List (TrailTier F) → List (TrailTier F)
  unfolding insert_tier
  sort_tiers [] = []
  sort_tiers (t ∷ ts) = insert_tier t (sort_tiers ts)

  unfoldable pub parse_tiers : (List ℕ → Option F) → List ℕ → List (TrailTier F)
  unfolding parse_all sort_tiers
  parse_tiers parse s = sort_tiers (parse_all parse (split b',' s))

  insert_tier-perm : (t : TrailTier F) (us : List (TrailTier F)) → Perm (insert_tier t us) (t ∷ us)
  unfolding insert_tier
  insert_tier-perm t [] = Perm.refl (t ∷ [])
  insert_tier-perm t (u ∷ us) = elim (Bool-cases (lt u.gain_pct t.gain_pct)) [
    | inl e ↦ rw e (Perm.trans (Perm.cons u (insert_tier-perm t us)) (Perm.swap t u us))
    | inr e ↦ rw e (Perm.refl (t ∷ u ∷ us))
  ]

  -- Sorting the tiers keeps each of them, as often as it was written.
  pub sort_tiers-perm : (ts : List (TrailTier F)) → Perm (sort_tiers ts) ts
  unfolding sort_tiers
  sort_tiers-perm [] = Perm.refl []
  sort_tiers-perm (t ∷ ts) =
      Perm.trans (insert_tier-perm t (sort_tiers ts)) (Perm.cons t (sort_tiers-perm ts))

  -- A gain that is not NaN.
  abbrev pub HasGain : TrailTier F → Type 0
  HasGain t = le t.gain_pct t.gain_pct ≡ true

  abbrev pub GainLe : TrailTier F → TrailTier F → Type 0
  GainLe t u = le t.gain_pct u.gain_pct ≡ true

  -- Ascending by gain.
  abbrev pub IsAscending : List (TrailTier F) → Type 0
  IsAscending [] = Unit
  IsAscending (t ∷ ts) = All (GainLe t) ts × IsAscending ts

  module _ (laws : IsOrdered F) where
    open laws use {le_trans, le_of_lt, le-or-lt}

    insert_tier-All :
        (P : TrailTier F → Type 0) (t : TrailTier F) (us : List (TrailTier F))
        → P t
        → All P us
        → All P (insert_tier t us)
    unfolding insert_tier
    insert_tier-All P t [] p ps = (p, tt)
    insert_tier-All P t (u ∷ us) p ps = elim (Bool-cases (lt u.gain_pct t.gain_pct)) [
      | inl e ↦ rw e (ps.0, insert_tier-All P t us p ps.1)
      | inr e ↦ rw e (p, ps)
    ]

    All-GainLe :
        (t u : TrailTier F) (us : List (TrailTier F))
        → GainLe t u
        → All (GainLe u) us
        → All (GainLe t) us
    All-GainLe t u [] h hs = tt
    All-GainLe t u (v ∷ vs) h hs = (le_trans _ _ _ h hs.0, All-GainLe t u vs h hs.1)

    insert_tier-IsAscending :
        (t : TrailTier F) (us : List (TrailTier F))
        → HasGain t
        → All HasGain us
        → IsAscending us
        → IsAscending (insert_tier t us)
    unfolding insert_tier
    insert_tier-IsAscending t [] g gs a = (tt, tt)
    insert_tier-IsAscending t (u ∷ us) g gs a = elim (Bool-cases (lt u.gain_pct t.gain_pct)) [
      | inl e ↦ rw e (
        insert_tier-All (GainLe u) t us (le_of_lt _ _ e) a.0,
        insert_tier-IsAscending t us g gs.1 a.1,
      )
      | inr e ↦
          let first : GainLe t u = below e (le-or-lt t.gain_pct u.gain_pct g gs.0) in
          rw e ((first, All-GainLe t u us first a.0), a)
    ]
      where
        below :
            lt u.gain_pct t.gain_pct ≡ false
            → (le t.gain_pct u.gain_pct ≡ true) ⊎ (lt u.gain_pct t.gain_pct ≡ true)
            → GainLe t u
        below e (inl h) = h
        below e (inr h) = cc

    sort_tiers-All :
        (P : TrailTier F → Type 0) (ts : List (TrailTier F)) → All P ts → All P (sort_tiers ts)
    unfolding sort_tiers
    sort_tiers-All P [] p = tt
    sort_tiers-All P (t ∷ ts) p = insert_tier-All P t (sort_tiers ts) p.0 (sort_tiers-All P ts p.1)

    -- For numbers in their order, sorting tiers whose gains are no NaN puts each tier before those
    -- of a gain at least as great.
    pub sort_tiers-IsAscending :
        (ts : List (TrailTier F)) → All HasGain ts → IsAscending (sort_tiers ts)
    unfolding sort_tiers
    sort_tiers-IsAscending [] g = tt
    sort_tiers-IsAscending (t ∷ ts) g =
        insert_tier-IsAscending t (sort_tiers ts) g.0 (sort_tiers-All HasGain ts g.1)
          (sort_tiers-IsAscending ts g.1)
