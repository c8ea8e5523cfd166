-- ===== src/Chain/Bytes.antt =====
-- Little-endian numbers, and parts of a sequence of bytes.
use hades_ps_trader.Base.{
  ℕ, zero, suc, ◌/◌, ◌%◌, ◌^◌, ◌<◌, ◌≡◌, refl, ◌↔◌, true, List, [], ◌∷◌, ◌++◌, length, some,
  get_elem?, take, drop, arith, ap,
}
use hades_ps_trader.Chain.{Pubkey, same_key, from_le}

module _ {A : Type 0} where
  pub drop-append : (n : ℕ) (xs ys : List A) → length xs ≡ n → drop n (xs ++ ys) ≡ ys
  drop-append zero [] ys e = refl
  drop-append zero (x ∷ xs) ys e = absurd (omega (arith, e))
  drop-append (suc n) [] ys e = absurd (omega (arith, e))
  drop-append (suc n) (x ∷ xs) ys e = drop-append n xs ys (omega (arith, e))

  pub take-append : (n : ℕ) (xs ys : List A) → length xs ≡ n → take n (xs ++ ys) ≡ xs
  take-append zero [] ys e = refl
  take-append zero (x ∷ xs) ys e = absurd (omega (arith, e))
  take-append (suc n) [] ys e = absurd (omega (arith, e))
  take-append (suc n) (x ∷ xs) ys e = ap (λ zs. x ∷ zs) (take-append n xs ys (omega (arith, e)))

  pub get_elem?-append :
      (n : ℕ) (xs : List A) (y : A) (ys : List A)
      → length xs ≡ n
      → get_elem? (xs ++ y ∷ ys) n ≡ some y
  get_elem?-append zero [] y ys e = refl
  get_elem?-append zero (x ∷ xs) y ys e = absurd (omega (arith, e))
  get_elem?-append (suc n) [] y ys e = absurd (omega (arith, e))
  get_elem?-append (suc n) (x ∷ xs) y ys e = get_elem?-append n xs y ys (omega (arith, e))

-- `to_le_bytes` of a number of `width` bytes.
unfoldable pub to_le : (width n : ℕ) → List ℕ
to_le zero n = []
to_le (suc width) n = n % 256 ∷ to_le width (n / 256)

pub length-to_le : (width n : ℕ) → length (to_le width n) ≡ width
unfolding to_le
length-to_le zero n = refl
length-to_le (suc width) n = ap suc (length-to_le width (n / 256))

pub from_le-to_le : (width n : ℕ) → n < 256 ^ width → from_le (to_le width n) ≡ n
unfolding from_le to_le
from_le-to_le zero n h = omega (arith, h)
from_le-to_le (suc width) n h = rw (from_le-to_le width (n / 256) (grind (arith, h))) (omega arith)

pub same_key_iff : (a b : Pubkey) → (same_key a b ≡ true) ↔ (a ≡ b)
unfolding same_key
same_key_iff [] [] = ground arith
same_key_iff [] (b ∷ bs) = ground arith
same_key_iff (a ∷ rest) [] = ground arith
same_key_iff (a ∷ rest) (b ∷ bs) = ground (arith, same_key_iff rest bs)
