-- ===== src/Base/Taking.antt =====
-- The lengths of the parts of a list.
use hades_ps_trader.Base.{
  ℕ, zero, suc, ◌-◌, ◌≡◌, List, [], ◌∷◌, length, take, drop, ltb, arith, if◌then◌else◌,
}

abbrev pub at_most : ℕ → ℕ → ℕ
at_most cap n = if ltb n cap then n else cap

module _ {A : Type 0} where
  pub length-take : (n : ℕ) (xs : List A) → length (take n xs) ≡ at_most n (length xs)
  length-take zero xs = ground arith
  length-take (suc n) [] = ground arith
  length-take (suc n) (x ∷ xs) = ground (arith, length-take n xs)

  pub length-drop : (n : ℕ) (xs : List A) → length (drop n xs) ≡ length xs - n
  length-drop zero xs = omega arith
  length-drop (suc n) [] = omega arith
  length-drop (suc n) (x ∷ xs) = omega (arith, length-drop n xs)
