-- ===== src/Session.antt =====
-- src/session.rs: one trading session of a graduated token. Here stand the entry filters, a buy and
-- a sell; State has the data, which is passed on here; the loop over the price ticks is a child.
-- What the network answers and what other sessions do meanwhile is data of the model.
mod State
pub mod Loop
pub mod Run
pub mod Slot
pub mod Stages
pub mod Accounting
pub mod Interval
pub mod Returns
pub mod Entry
pub mod Dry
pub mod Opening
pub mod Filters
pub mod Handle
pub mod Graduation
pub use State.*
use Prim.Native.String.{String}
use hades_ps_trader.Base.{
  ℕ, ◌+◌, ◌-◌, ◌*◌, ◌%◌, ◌^◌, Bool, true, false, Option, none, some, List, [], ◌∷◌, ◌++◌, ltb, leb,
  if◌then◌else◌,
}
use hades_ps_trader.Base.Result.{Result, ok, err}
use hades_ps_trader.Float.{Float}
use hades_ps_trader.Config.{Config, TradingFilters}
use hades_ps_trader.Position.{EntryTrigger, macd, capitulation, dip_buy, Position, ExitReason}
use hades_ps_trader.Rug.{RugReason}
use hades_ps_trader.Spend.{DailySpendTracker, within_cap, breach, record_spend, total_24h}
use hades_ps_trader.Spend
use hades_ps_trader.Trader
use hades_ps_trader.Trader.{TradeError, Attempt, Sent, sell_all}

unfoldable pub reserve : {F : Type 0} → Shared F → Shared F
reserve s = record s { open_positions = fetch_add s.open_positions }

unfoldable pub release : {F : Type 0} → Shared F → Shared F
release s = record s { open_positions = fetch_sub s.open_positions }

module _ {F : Type 0} ⦃fl : Float F⦄ where
  open fl use {of_ℕ, mul, div, lt, le, ten_pow}

  unfoldable pub ui_amount : TokenBalance → F
  ui_amount b = div (of_ℕ b.raw_amount) (ten_pow b.decimals)

  -- `trade_amount as f64 / LAMPORTS_PER_SOL as f64`
  unfoldable pub amount_sol_of : Config F → F
  amount_sol_of cfg = div (of_ℕ cfg.trading.trade_amount) (of_ℕ (10 ^ 9))

  -- The check of the cap before a slot is reserved: the shared state after it, and whether the buy
  -- may go on. Only a buy of the dip_buy trigger is checked.
  unfoldable pub check_cap : EntryTrigger → ℕ → F → Shared F → Shared F × Bool
  check_cap trigger now amount_sol s =
      if is_dip_buy trigger
      then (let (tracker, verdict) = Spend.check s.spend_tracker now amount_sol in
          (
            record s { spend_tracker = tracker },
            elim verdict [ within_cap ↦ true | breach spent ↦ false ],
          ))
      else (s, true)

  -- `record` and then `total_24h`, both for the dip_buy trigger only.
  unfoldable pub record_cap : EntryTrigger → (record_at total_at : ℕ) → F → Shared F → Shared F
  record_cap trigger record_at total_at amount_sol s =
      if is_dip_buy trigger
      then record s {
        spend_tracker = (total_24h (record_spend s.spend_tracker record_at amount_sol) total_at).0;
      }
      else s

  -- After a buy with signature `sig`: the balance, and the position that is opened.
  unfoldable pub settle : Token → EntryTrigger → F → BuyEnv F → ℕ → List Sent → Shared F → Bought F
  settle token trigger amount_sol env sig sent s = elim env.balance [
    | err e ↦ record {
      shared = release s;
      sent = sent;
      notices = notify_orphan_buy token sig amount_sol ∷ [];
      position = none;
    }
    | ok balance ↦
        let token_ui = ui_amount balance in
        if le token_ui (of_ℕ 0)
        then record { shared = release s; sent = sent; notices = []; position = none }
        else (let entry_price_sol = div amount_sol token_ui in
            record {
              shared = s;
              sent = sent;
              notices = notify_buy token amount_sol token_ui entry_price_sol ∷ [];
              position = some record {
                mint = token.mint;
                name = token.name;
                symbol = token.symbol;
                entry_price_sol = entry_price_sol;
                cost_sol = amount_sol;
                peak_pct = of_ℕ 0;
                bought_at = env.bought_at;
                entry_trigger = trigger;
              };
            })
  ]

  -- What follows the trade: the record of the spend, and the balance.
  unfoldable pub after_trade :
      Config F
      → Token
      → EntryTrigger
      → BuyEnv F
      → List Sent
      → Result TradeError (Option ℕ)
      → Shared F
      → Bought F
  after_trade cfg token trigger env sent (ok (some sig)) s =
      let amount_sol = amount_sol_of cfg in
      settle token trigger amount_sol env sig sent
        (env.during_balance (record_cap trigger env.record_at env.total_at amount_sol s))
  after_trade cfg token trigger env sent (ok none) s = record {
    shared = release (record_cap trigger env.record_at env.total_at (amount_sol_of cfg) s);
    sent = sent;
    notices = [];
    position = none;
  }
  after_trade cfg token trigger env sent (err e) s = record {
    shared = release s;
    sent = sent;
    notices = [];
    position = none;
  }

  -- With a slot reserved.
  unfoldable pub buy_with_slot :
      Config F → Bool → Token → EntryTrigger → BuyEnv F → Shared F → Bought F
  buy_with_slot cfg dry_run token trigger env s =
      let (sent, result) = Trader.buy dry_run env.attempts cfg.trading.slippage in
      after_trade cfg token trigger env sent result (env.during_buy s)

  unfoldable pub try_buy : Config F → Bool → Token → EntryTrigger → BuyEnv F → Shared F → Bought F
  try_buy cfg dry_run token trigger env s =
      let (checked, may_buy) = check_cap trigger env.check_at (amount_sol_of cfg) s in
      if may_buy
      then (let before = env.after_check checked in
          if leb cfg.trading.max_positions before.open_positions
          then record {
            shared = release (reserve before);
            sent = [];
            notices = [];
            position = none;
          }
          else buy_with_slot cfg dry_run token trigger env (reserve before))
      else record { shared = checked; sent = []; notices = []; position = none }

  -- What a sell sends and reports, and whether it succeeded.
  unfoldable pub try_sell :
      Config F
      → Bool
      → (ℕ → F → Attempt)
      → Position F
      → F
      → SellReason F
      → List Sent × (List (Notice F) × Bool)
  try_sell cfg dry_run attempts pos pct reason =
      let (sent, result) = sell_all dry_run attempts cfg.trading.slippage in
      elim result [
        | ok (some sig) ↦
            let net_return_sol = div (mul pos.cost_sol pct) (of_ℕ 100) in
            (sent, (notify_sell pos.mint pos.name pos.symbol reason pct net_return_sol ∷ [], true))
        | ok none ↦ (sent, ([], true))
        | err e ↦ (sent, ([], false))
      ]

  -- The answers of the three chain queries of `run_filters`.
  unfoldable pub run_filters :
      TradingFilters F → (holders txs : Result TradeError ℕ) (top_ten : Result TradeError F) → Bool
  run_filters f holders txs top_ten =
      if (if ltb 0 f.min_holders
        then elim holders [ ok n ↦ ltb n f.min_holders | err e ↦ true ]
        else false)
      then false
      else if (if ltb 0 f.min_txs
          then elim txs [ ok n ↦ ltb n f.min_txs | err e ↦ true ]
          else false)
      then false
      else if (if lt (of_ℕ 0) f.top_ten_holder_percentage
          then elim top_ten [ ok frac ↦ lt f.top_ten_holder_percentage frac | err e ↦ true ]
          else false)
      then false
      else true

  -- The guards of `handle`: whether a session starts for a graduation. `valid_mint` says whether
  -- the mint parses as a public key.
  unfoldable pub starts :
      (valid_mint : Bool)
      → TradingFilters F
      → (holders txs : Result TradeError ℕ) → (top_ten : Result TradeError F) → Bool
  starts valid_mint f holders txs top_ten =
      if valid_mint then (if f.enabled then run_filters f holders txs top_ten else true) else false
