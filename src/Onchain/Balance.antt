-- ===== src/Onchain/Balance.antt =====
-- The balances of src/onchain.rs. `parse` stands for `str::parse::<u64>` and `key` for
-- `Pubkey::from_str`; what the node answers in an attempt is data.
use Prim.Native.String.{String}
use hades_ps_trader.Base.{ℕ, zero, suc, ◌+◌, Option, none, some, List, [], ◌∷◌, ltb, if◌then◌else◌}
use hades_ps_trader.Base.Result.{Result, ok, err}
use hades_ps_trader.Chain.{Pubkey, Account}
use hades_ps_trader.Float.{Float}
use hades_ps_trader.Session.{TokenBalance}
use hades_ps_trader.Onchain.{
  QueryError, rpc, zero_balance, no_attempt, parse_failed, resolve_token_program,
}

-- `UiTokenAmount`, as far as it is read.
pub record UiAmount : Type 0 where
  pub amount : String
  pub decimals : ℕ

-- What one attempt of `fetch_token_balance` meets: the balance of the derived account, the
-- addresses of the owner's accounts of the mint, and their balances.
pub record BalanceTry : Type 0 where
  pub ata : Result QueryError UiAmount
  pub addresses : Result QueryError (List String)
  pub balance_of : Pubkey → Result QueryError UiAmount

module _ {F : Type 0} ⦃fl : Float F⦄ where
  open fl use {of_ℕ, div}

  unfoldable pub fetch_sol_balance : Result QueryError ℕ → Result QueryError F
  fetch_sol_balance (err e) = err rpc
  fetch_sol_balance (ok lamports) = ok (div (of_ℕ lamports) (of_ℕ 1000000000))

module _ (parse : String → Option ℕ) (key : String → Option Pubkey) where
  -- A balance above 0, else the error that is kept for the report.
  unfoldable pub read_amount : Result QueryError UiAmount → Result QueryError TokenBalance
  read_amount (err e) = err rpc
  read_amount (ok amt) = elim (parse amt.amount) [
    | none ↦ err parse_failed
    | some raw ↦
        if ltb 0 raw
        then ok (record { raw_amount = raw; decimals = amt.decimals })
        else err zero_balance
  ]

  -- The first account of the owner with a balance above 0.
  unfoldable pub scan_accounts :
      (Pubkey → Result QueryError UiAmount) → List String → Option TokenBalance
  scan_accounts balance_of [] = none
  scan_accounts balance_of (address ∷ rest) = elim (key address) [
    | none ↦ scan_accounts balance_of rest
    | some k ↦ elim (read_amount (balance_of k)) [
      | ok balance ↦ some balance
      | err e ↦ scan_accounts balance_of rest
    ]
  ]

  unfoldable pub scan_owner_for_mint : BalanceTry → Result QueryError (Option TokenBalance)
  scan_owner_for_mint t = elim t.addresses [
    | err e ↦ err rpc
    | ok addresses ↦ ok (scan_accounts t.balance_of addresses)
  ]

  -- The two strategies of one attempt: the balance, or the last error.
  unfoldable pub try_balance : BalanceTry → Result QueryError TokenBalance
  try_balance t = elim (read_amount t.ata) [
    | ok balance ↦ ok balance
    | err e ↦ elim (scan_owner_for_mint t) [
      | ok (some balance) ↦ ok balance
      | ok none ↦ err e
      | err scan_err ↦ err scan_err
    ]
  ]

  -- The attempts from number `i` on. `last_err` is that of the attempt before.
  unfoldable pub balance_from :
      (left i : ℕ) → (ℕ → BalanceTry) → QueryError → Result QueryError TokenBalance
  balance_from zero i tries last_err = err last_err
  balance_from (suc left) i tries last_err = elim (try_balance (tries i)) [
    | ok balance ↦ ok balance
    | err e ↦ balance_from left (i + 1) tries e
  ]

  unfoldable pub fetch_token_balance :
      (classic token_2022 : Pubkey)
      → (ℕ → Result QueryError (Option Account))
      → (attempts : ℕ) → (ℕ → BalanceTry)
      → Result QueryError TokenBalance
  fetch_token_balance classic token_2022 lookup attempts tries =
      elim (resolve_token_program classic token_2022 lookup) [
        | err e ↦ err e
        | ok program ↦ balance_from attempts 0 tries no_attempt
      ]
