-- ===== src/Session/State.antt =====
-- The state that the sessions of src/session.rs share, and what a buy and a sell report.
use Prim.Native.String.{String}
use hades_ps_trader.Base.{ℕ, ◌+◌, ◌-◌, ◌%◌, ◌^◌, Bool, true, false, Option, List}
use hades_ps_trader.Base.Result.{Result}
use hades_ps_trader.Position.{EntryTrigger, macd, capitulation, dip_buy, Position, ExitReason}
use hades_ps_trader.Rug.{RugReason}
use hades_ps_trader.Spend.{DailySpendTracker}
use hades_ps_trader.Trader.{TradeError, Attempt, Sent}

-- The atomic counter of open positions, and the tracker behind the mutex.
pub record Shared (F : Type 0) : Type 0 where
  pub open_positions : ℕ
  pub spend_tracker : DailySpendTracker F

-- `fetch_add(1)` and `fetch_sub(1)` of an `AtomicUsize` wrap.
abbrev pub fetch_add : ℕ → ℕ
fetch_add n = (n + 1) % 2 ^ 64

abbrev pub fetch_sub : ℕ → ℕ
fetch_sub n = (n + (2 ^ 64 - 1)) % 2 ^ 64

pub record Token : Type 0 where
  pub mint : String
  pub name : Option String
  pub symbol : Option String

-- The text of a sell's reason is the data that it prints.
pub data SellReason (F : Type 0) : Type 0 where
  rug_detected : RugReason F → SellReason F
  exit_rule : ExitReason F → SellReason F
  forced_exit : SellReason F

pub data Notice (F : Type 0) : Type 0 where
  notify_buy : Token → (amount_sol token_ui entry_price_sol : F) → Notice F
  notify_orphan_buy : Token → (sig : ℕ) (amount_sol : F) → Notice F
  notify_sell :
      (mint : String) (name symbol : Option String)
      → SellReason F
      → (pct net_return_sol : F) → Notice F

-- `TokenBalance` of src/onchain.rs
pub record TokenBalance : Type 0 where
  pub raw_amount : ℕ
  pub decimals : ℕ

-- What one call of `try_buy` meets: its readings of the clock, what other sessions do to the shared
-- state between its own steps, the attempts of the trade, and the answer of the balance query.
pub record BuyEnv (F : Type 0) : Type 0 where
  pub check_at : ℕ
  pub after_check : Shared F → Shared F
  pub attempts : ℕ → F → Attempt
  pub during_buy : Shared F → Shared F
  pub record_at : ℕ
  pub total_at : ℕ
  pub bought_at : ℕ
  pub balance : Result TradeError TokenBalance
  pub during_balance : Shared F → Shared F

-- What a call of `try_buy` leaves.
pub record Bought (F : Type 0) : Type 0 where
  pub shared : Shared F
  pub sent : List Sent
  pub notices : List (Notice F)
  pub position : Option (Position F)

abbrev pub is_dip_buy : EntryTrigger → Bool
is_dip_buy dip_buy = true
is_dip_buy macd = false
is_dip_buy capitulation = false
