-- ===== src/PumpPortal/Backoff.antt =====
-- The waits of the listeners in src/pumpportal.rs.
use hades_ps_trader.Base.{
  ℕ, zero, suc, ◌*◌, ◌^◌, ◌<◌, ◌≡◌, refl, some, ltb, arith, if◌then◌else◌, get_elem?,
}
use hades_ps_trader.PumpPortal.{next_backoff, waits}

abbrev capped : ℕ → ℕ
capped b = if ltb 30 b then 30 else b

next_backoff-capped : (b : ℕ) → next_backoff (capped b) ≡ capped (b * 2)
unfolding next_backoff
next_backoff-capped b = ground arith

get_elem?-waits : (n k b : ℕ) → k < n → get_elem? (waits n (capped b)) k ≡ some (capped (2 ^ k * b))
unfolding waits
get_elem?-waits zero k b h = absurd (omega arith)
get_elem?-waits (suc n) zero b h = let e : 2 ^ 0 * b ≡ b = omega arith in rw e refl
get_elem?-waits (suc n) (suc k) b h =
    let e : 2 ^ suc k * b ≡ 2 ^ k * (b * 2) = grind arith in
    rw (next_backoff-capped b, e) (get_elem?-waits n k (b * 2) (omega arith))

-- Whatever the connections bring, the wait after connection number k, counted from 0, is 2^k
-- seconds, and 30 once that is more.
pub waits_lem :
    (n k : ℕ) → k < n → get_elem? (waits n 1) k ≡ some (if ltb 30 (2 ^ k) then 30 else 2 ^ k)
waits_lem n k h = let e : 2 ^ k * 1 ≡ 2 ^ k = omega arith in rw e at (get_elem?-waits n k 1 h)
