-- ===== src/Dispatch/Liquidate.antt =====
-- The liquidate mode of src/main.rs, and its wait at a shutdown.
use hades_ps_trader.Base.{
  ℕ, zero, suc, ◌+◌, ◌≤◌, ◌<◌, ◌≡◌, ◌≢◌, refl, Bool, inl, inr, Option, none, some, List, [], ◌∷◌,
  ◌==◌, map, length, arith, Bool-cases,
}
use hades_ps_trader.Base.Result.{Result, ok, err}
use hades_ps_trader.Float.{Float}
use hades_ps_trader.Config.{Config}
use hades_ps_trader.Trader.{Attempt, Sent, TradeError, sell_all}
use hades_ps_trader.Dispatch.{liquidate, count_ok, wait_closed}

count_ok-le : (r : Result TradeError (Option ℕ)) → count_ok r ≤ 1
count_ok-le (ok (some sig)) = omega arith
count_ok-le (ok none) = omega arith
count_ok-le (err e) = omega arith

module _ {F : Type 0} ⦃fl : Float F⦄ (cfg : Config F) where
  -- The sells of each mint by itself.
  abbrev pub sells_of : Bool → (List ℕ → ℕ → F → Attempt) → List ℕ → List ℕ × List Sent
  sells_of dry_run attempts mint = (mint, (sell_all dry_run (attempts mint) cfg.trading.slippage).0)

  abbrev pub total_ok : Bool → (List ℕ → ℕ → F → Attempt) → List (List ℕ) → ℕ
  total_ok dry_run attempts [] = 0
  total_ok dry_run attempts (mint ∷ mints) =
      count_ok (sell_all dry_run (attempts mint) cfg.trading.slippage).1
      + total_ok dry_run attempts mints

  pub liquidate-sells :
      (dry_run : Bool) (attempts : List ℕ → ℕ → F → Attempt) (mints : List (List ℕ))
      → (let (done, count) = liquidate cfg dry_run attempts mints in
          (done ≡ map (sells_of dry_run attempts) mints)
          × (count ≡ total_ok dry_run attempts mints)
          × (count ≤ length mints))
  unfolding liquidate
  liquidate-sells dry_run attempts [] = ground arith
  liquidate-sells dry_run attempts (mint ∷ mints) =
      let rest = liquidate-sells dry_run attempts mints in
      rw (rest.0, rest.1)
        (
          refl,
          refl,
          omega (
            arith,
            count_ok-le (sell_all dry_run (attempts mint) cfg.trading.slippage).1,
            rest.2,
            rest.1,
          ),
        )

-- The wait ends at the first round, from `k` on, at which no session is left, and after `left`
-- rounds at the latest.
pub wait_closed_lem :
    (left k : ℕ) (counter : ℕ → ℕ)
    → (let n = wait_closed left k counter in
        (n ≤ left + k) × ((i : ℕ) → k ≤ i → i < n → counter i ≢ 0) × (n < left + k → counter n ≡ 0))
unfolding wait_closed
wait_closed_lem zero k counter =
    (omega arith, λ i a b. absurd (omega (arith, a, b)), λ b. absurd (omega (arith, b)))
wait_closed_lem (suc left) k counter =
    let rest = wait_closed_lem left (k + 1) counter in
    elim (Bool-cases (counter k == 0)) [
      | inl e ↦ rw e (omega arith, λ i a b. absurd (omega (arith, a, b)), λ b. ground (arith, e))
      | inr e ↦ rw e (
        omega (arith, rest.0),
        λ i a b z. ground (arith, rest.1 i, a, b, z, e),
        λ b. ground (arith, rest.2, b),
      )
    ]
