-- ===== src/PriceFeed.antt =====
-- src/price_feed.rs: the background task that discovers the pool of a mint and then polls its price.
-- Each attempt and each round carries what it meets.
pub mod Polling
use hades_ps_trader.Base.{
  ℕ, zero, suc, ◌+◌, ◌%◌, ◌^◌, Bool, true, false, Option, none, some, List, [], ◌∷◌, if◌then◌else◌,
}
use hades_ps_trader.Base.Result.{Result, ok, err}
use hades_ps_trader.PumpSwap.{PoolError, PoolInfo, PoolState}

pub record PriceUpdate (F : Type 0) : Type 0 where
  pub price_sol : F
  pub pool_sol : F

abbrev pub discovery_attempts : ℕ
discovery_attempts = 10

-- `discover_with_retries` from attempt `i` on: `find i` is the result of `find_pool` in attempt `i`.
unfoldable pub discover_from : (left i : ℕ) → (ℕ → Result PoolError PoolInfo) → Option PoolInfo
discover_from zero i find = none
discover_from (suc left) i find =
    let rest = discover_from left (i + 1) find in
    elim (find i) [ ok pool ↦ some pool | err e ↦ rest ]

unfoldable pub discover_with_retries : (ℕ → Result PoolError PoolInfo) → Option PoolInfo
discover_with_retries find = discover_from discovery_attempts 0 find

-- A round of the poll: the read, whether the receiver is gone when the update is sent, and whether
-- it is gone after the sleep.
pub record PollRound (F : Type 0) : Type 0 where
  pub state : Result PoolError (PoolState F)
  pub dropped : Bool
  pub closed : Bool

module _ {F : Type 0} where
  abbrev pub update_of : PoolState F → PriceUpdate F
  update_of s = record { price_sol = s.price_sol; pool_sol = s.pool_sol }

  -- The updates that reach the receiver, and the failures since the last good read.
  unfoldable pub poll : ℕ → List (PollRound F) → List (PriceUpdate F) × ℕ
  poll consecutive_failures [] = ([], consecutive_failures)
  poll consecutive_failures (r ∷ rounds) = elim r.state [
    | ok state ↦
        if r.dropped
        then ([], 0)
        else if r.closed
        then (update_of state ∷ [], 0)
        else (let (more, failures) = poll 0 rounds in (update_of state ∷ more, failures))
    | err e ↦
        let failures = (consecutive_failures + 1) % 2 ^ 32 in
        if r.closed then ([], failures) else poll failures rounds
  ]

  -- The task: `valid_mint` tells whether the mint is a public key.
  unfoldable pub spawn_price_poll :
      (valid_mint : Bool)
      → (ℕ → Result PoolError PoolInfo)
      → (PoolInfo → List (PollRound F))
      → List (PriceUpdate F)
  spawn_price_poll false find rounds = []
  spawn_price_poll true find rounds = elim (discover_with_retries find) [
    | none ↦ []
    | some pool ↦ (poll 0 (rounds pool)).0
  ]
