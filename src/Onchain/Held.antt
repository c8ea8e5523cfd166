-- ===== src/Onchain/Held.antt =====
-- The balance that src/onchain.rs reports after a buy.
use Prim.Native.String.{String}
use hades_ps_trader.Base.{ℕ, ◌+◌, ◌≤◌, ◌<◌, ◌≡◌, Option}
use hades_ps_trader.Base.Result.{Result, ok}
use hades_ps_trader.Chain.{Pubkey}
use hades_ps_trader.Session.{TokenBalance}
use hades_ps_trader.Onchain.Balance.{BalanceTry, try_balance}

module _ (parse : String → Option ℕ) (key : String → Option Pubkey) where
  -- Attempt `k`, one of `left` from number `i` on, is the first that succeeds, and with `b`.
  abbrev pub IsFirstHeld : (left i : ℕ) → (ℕ → BalanceTry) → TokenBalance → Type 0
  IsFirstHeld left i tries b =
      (k : ℕ) × (i ≤ k) × (k < left + i) × (try_balance parse key (tries k) ≡ ok b)
