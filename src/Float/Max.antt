-- ===== src/Float/Max.antt =====
-- A running maximum by `if v > peak { peak = v }`, as the program keeps them.
use hades_ps_trader.Base.{◌≡◌, inl, inr, true, List, [], ◌∷◌, All, IsIn, arith, if◌then◌else◌}
use hades_ps_trader.Float.{Float, IsOrdered}

module _ {F : Type 0} ⦃fl : Float F⦄ where
  open fl use {le, lt}

  -- `peak` is the start or one of the values, and none of them is above it.
  abbrev pub IsMax : F → List F → F → Type 0
  IsMax start values peak =
      IsIn peak (start ∷ values) × (le start peak ≡ true) × All (λ v. le v peak ≡ true) values

  abbrev pub AreNumbers : List F → Type 0
  AreNumbers = All λ v. le v v ≡ true

  module _ (laws : IsOrdered F) where
    open laws use {le_trans, le_of_lt, le-or-lt}

    -- One comparison, and the rest of the values.
    pub IsMax-cons :
        (start v next peak : F) (vs : List F)
        → IsIn next (start ∷ v ∷ [])
        → le start next ≡ true
        → le v next ≡ true
        → IsMax next vs peak
        → IsMax start (v ∷ vs) peak
    IsMax-cons start v next peak vs i a b (j, c, d) =
        (member i j, le_trans _ _ _ a c, (le_trans _ _ _ b c, d))
      where
        member : IsIn next (start ∷ v ∷ []) → IsIn peak (next ∷ vs) → IsIn peak (start ∷ v ∷ vs)
        member i (inr j) = inr (inr j)
        member (inl e) (inl f) = inl (rw f e)
        member (inr (inl e)) (inl f) = inr (inl (rw f e))
        member (inr (inr e)) (inl f) = absurd e

    pub raise :
        (start v : F)
        → le start start ≡ true
        → le v v ≡ true
        → let next = if lt start v then v else start in
          IsIn next (start ∷ v ∷ []) × (le start next ≡ true) × (le v next ≡ true)
    raise start v n m = ground (arith, le_of_lt start v, le-or-lt v start)
