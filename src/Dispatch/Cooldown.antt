-- ===== src/Dispatch/Cooldown.antt =====
-- The two maps of the last copied buys in src/main.rs, and what a cooldown makes of them.
use Prim.Native.String.{String}
use hades_ps_trader.Base.{ℕ, ◌≡◌, ◌≢◌, false, some, List, [], ◌∷◌, arith}
use hades_ps_trader.Base.Text.{eq_iff}
use hades_ps_trader.Clock.{since_lt}
use hades_ps_trader.Dispatch.{get, insert, stamp}

pub get-insert :
    (key : String) (at : ℕ) (m : List (String × ℕ)) → get key (insert key at m) ≡ some at
unfolding get insert
get-insert key at [] = ground (arith, eq_iff key key)
get-insert key at ((k, old) ∷ m) = ground (arith, get-insert key at m, eq_iff key key, eq_iff key k)

pub get-insert_other :
    (key other : String) (at : ℕ) (m : List (String × ℕ))
    → key ≢ other
    → get other (insert key at m) ≡ get other m
unfolding get insert
get-insert_other key other at [] n = ground (arith, eq_iff other key, n)
get-insert_other key other at ((k, old) ∷ m) n =
    ground
      (arith, get-insert_other key other at m n, eq_iff other key, eq_iff key k, eq_iff other k, n)

-- A stamp is made only where the last one is old enough, and it is the only change.
pub stamp_lem :
    (cooldown now : ℕ) (key : String) (m m' : List (String × ℕ))
    → stamp cooldown now key m ≡ some m'
    → (since_lt now (get key m) cooldown ≡ false)
      × (get key m' ≡ some now)
      × ((other : String) → key ≢ other → get other m' ≡ get other m)
unfolding stamp
stamp_lem cooldown now key m m' e = (
  ground arith,
  ground (arith, get-insert key now m),
  λ other n. ground (arith, get-insert_other key other now m n),
)
