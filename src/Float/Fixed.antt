-- ===== src/Float/Fixed.antt =====
-- Fixed-point numbers with nine decimals, NaN and infinity: a value of the interface `Float`.
use hades_ps_trader.Base.{
  ℕ, ◌+◌, ◌-◌, ◌*◌, ◌/◌, ◌^◌, Bool, true, false, ltb, leb, ◌==◌, if◌then◌else◌, ◌≡◌, arith,
}
use hades_ps_trader.Float.{Float, IsOrdered}

-- `fin p m` is the number (p - m) / 10 ^ 9.
pub data Fixed : Type 0 where
  nan inf : Fixed
  fin : ℕ → ℕ → Fixed

abbrev scale : ℕ
scale = 10 ^ 9

abbrev normal : ℕ → ℕ → Fixed
normal p m = fin (p - m) (m - p)

abbrev add : Fixed → Fixed → Fixed
add (fin p m) (fin q n) = normal (p + q) (m + n)
add _ _ = nan

abbrev neg : Fixed → Fixed
neg (fin p m) = fin m p
neg _ = nan

abbrev mul : Fixed → Fixed → Fixed
mul (fin p m) (fin q n) = normal ((p * q + m * n) / scale) ((p * n + m * q) / scale)
mul _ _ = nan

abbrev div : Fixed → Fixed → Fixed
div (fin p m) (fin q n) =
    if q == n
    then nan
    else if ltb n q
    then normal (p * scale / (q - n)) (m * scale / (q - n))
    else normal (m * scale / (n - q)) (p * scale / (n - q))
div _ _ = nan

abbrev lt : Fixed → Fixed → Bool
lt (fin p m) (fin q n) = ltb (p + n) (q + m)
lt (fin p m) inf = true
lt _ _ = false

abbrev le : Fixed → Fixed → Bool
le (fin p m) (fin q n) = leb (p + n) (q + m)
le (fin p m) inf = true
le inf inf = true
le _ _ = false

abbrev is_finite : Fixed → Bool
is_finite (fin p m) = true
is_finite _ = false

abbrev is_nan : Fixed → Bool
is_nan nan = true
is_nan _ = false

abbrev max_of : Fixed → Fixed → Fixed
max_of x y = if is_nan x then y else if lt x y then y else x

abbrev min_of : Fixed → Fixed → Fixed
min_of x y = if is_nan x then y else if lt y x then y else x

instance abbrev pub fixed_float : Float Fixed
fixed_float = record {
  of_ℕ = λ n. fin (n * scale) 0;
  decimal = λ m k. fin (m * scale / 10 ^ k) 0;
  ten_pow = λ n. fin (10 ^ n * scale) 0;
  add = add;
  sub = λ x y. add x (neg y);
  mul = mul;
  div = div;
  neg = neg;
  lt = lt;
  le = le;
  max_of = max_of;
  min_of = min_of;
  lowest = fin 0 (10 ^ 300);
  highest = fin (10 ^ 300) 0;
  infinity = inf;
  epsilon = fin 1 0;
  is_finite = is_finite;
  abs = λ x. if lt x (fin 0 0) then neg x else x;
}

le_trans_lem : (x y z : Fixed) → le x y ≡ true → le y z ≡ true → le x z ≡ true
le_trans_lem x y z = ground arith

pub Fixed-IsOrdered : IsOrdered Fixed
Fixed-IsOrdered = record {
  le_trans = le_trans_lem;
  le_of_lt = λ x y. ground arith;
  not-le_of_lt = λ x y. ground arith;
  refl_of_le = λ x y. ground arith;
  le-or-lt = λ x y. ground arith;
}

-- A whole number, and a fraction with `k` decimals.
abbrev pub whole : ℕ → Fixed
whole k = fin (k * scale) 0

abbrev pub minus : ℕ → Fixed
minus k = fin 0 (k * scale)
