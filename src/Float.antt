-- ===== src/Float.antt =====
-- Rust's `f64`, which every price, percentage and amount of SOL is. The program computes with it
-- through the operations below; they are a parameter of the development, so no rounding is
-- assumed. `Fixed` is a value of the interface in which tests and examples run.
pub mod Fixed
pub mod Max
use hades_ps_trader.Base.{ℕ, ◌≡◌, Bool, true, false, ◌⊎◌}

pub record Float (F : Type 0) : Type 0 where
  -- `n as f64`, and the literal `m / 10 ^ k`
  pub of_ℕ : ℕ → F
  pub decimal : ℕ → ℕ → F
  -- `10f64.powi(n)`
  pub ten_pow : ℕ → F
  pub add : F → F → F
  pub sub : F → F → F
  pub mul : F → F → F
  pub div : F → F → F
  pub neg : F → F
  -- `<` and `<=`: false when a side is NaN
  pub lt : F → F → Bool
  pub le : F → F → Bool
  -- `f64::max`, `f64::min`, and the constants of the code
  pub max_of : F → F → F
  pub min_of : F → F → F
  pub lowest : F
  pub highest : F
  pub infinity : F
  pub epsilon : F
  pub is_finite : F → Bool
  pub abs : F → F

-- Comparisons of IEEE 754, NaN included: NaN is the value that is not `<=` itself.
pub record IsOrdered (F : Type 0) ⦃fl : Float F⦄ : Type 0 where
  pub le_trans : (x y z : F) → fl.le x y ≡ true → fl.le y z ≡ true → fl.le x z ≡ true
  pub le_of_lt : (x y : F) → fl.lt x y ≡ true → fl.le x y ≡ true
  pub not-le_of_lt : (x y : F) → fl.lt x y ≡ true → fl.le y x ≡ false
  pub refl_of_le : (x y : F) → fl.le x y ≡ true → (fl.le x x ≡ true) × (fl.le y y ≡ true)
  pub le-or-lt :
      (x y : F) → fl.le x x ≡ true → fl.le y y ≡ true → (fl.le x y ≡ true) ⊎ (fl.lt y x ≡ true)
