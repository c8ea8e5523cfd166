-- ===== src/PriceFeed/Polling.antt =====
-- The attempts of src/price_feed.rs to discover the pool.
use hades_ps_trader.Base.{
  ℕ, zero, suc, ◌+◌, ◌≤◌, ◌<◌, ◌≡◌, false, none, some, inl, inr, Option, refl, sym, arith, ◌==◌,
  Bool-cases,
}
use hades_ps_trader.Base.Result.{Result, ok, err, is_ok, Result-cases}
use hades_ps_trader.PumpSwap.{PoolError, PoolInfo}
use hades_ps_trader.PriceFeed.{discover_from, discover_with_retries, discovery_attempts}

-- The result is that of the first attempt, among `left` from number `i` on, that finds a pool.
abbrev pub IsFirstFound : ℕ → ℕ → (ℕ → Result PoolError PoolInfo) → Option PoolInfo → Type 0
IsFirstFound left i find none = (j : ℕ) → i ≤ j → j < left + i → is_ok (find j) ≡ false
IsFirstFound left i find (some pool) =
    (k : ℕ) × (i ≤ k)
    × (k < left + i)
    × (find k ≡ ok pool)
    × ((j : ℕ) → i ≤ j → j < k → is_ok (find j) ≡ false)

not_before :
    (i j : ℕ) (find : ℕ → Result PoolError PoolInfo) (e : PoolError)
    → find i ≡ err e
    → i ≤ j
    → (i + 1 ≤ j → is_ok (find j) ≡ false)
    → is_ok (find j) ≡ false
not_before i j find e failed le later = elim (Bool-cases (i == j)) [
  | inl same ↦ let here : i ≡ j = ground (arith, same) in rw (sym here, failed) refl
  | inr differ ↦ later (ground (arith, differ, le))
]

failed_before :
    (i : ℕ) (find : ℕ → Result PoolError PoolInfo) (e : PoolError) (o : Option PoolInfo) (left : ℕ)
    → find i ≡ err e
    → IsFirstFound left (i + 1) find o
    → IsFirstFound (suc left) i find o
failed_before i find e none left failed later =
    λ j le less. not_before i j find e failed le (λ more. later j more (omega (arith, less)))
failed_before i find e (some pool) left failed (k, le, less, found, before) = (
  k,
  omega arith,
  omega arith,
  found,
  λ j le' less'. not_before i j find e failed le' (λ more. before j more less'),
)

discover_from-IsFirstFound :
    (left i : ℕ) (find : ℕ → Result PoolError PoolInfo)
    → IsFirstFound left i find (discover_from left i find)
unfolding discover_from
discover_from-IsFirstFound zero i find = λ j le less. absurd (omega (arith, le, less))
discover_from-IsFirstFound (suc left) i find = elim (Result-cases (find i)) [
  | inl (pool, e) ↦
      rw (e, discover_from)
        (i, omega arith, omega arith, e, λ j le less. absurd (omega (arith, le, less)))
  | inr (error, e) ↦
      rw (e, discover_from)
        (failed_before i find error _ left e (discover_from-IsFirstFound left (i + 1) find))
]

pub discover_with_retries-IsFirstFound :
    (find : ℕ → Result PoolError PoolInfo)
    → IsFirstFound discovery_attempts 0 find (discover_with_retries find)
unfolding discover_with_retries
discover_with_retries-IsFirstFound find = discover_from-IsFirstFound 10 0 find
