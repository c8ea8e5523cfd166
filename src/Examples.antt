-- ===== src/Examples.antt =====
-- Concrete inputs for the witnesses of the theorems, over fixed-point numbers.
mod Sessions
mod Trades
mod Signals
mod Indicators
mod Copies
mod Dispatches
mod Chains
use Prim.Native.String.{String}
use hades_ps_trader.Base.{ℕ, ◌+◌, ◌*◌, ◌^◌, Bool, true, false, Option, none, some, List, [], ◌∷◌}
use hades_ps_trader.Base.Result.{ok, err}
use hades_ps_trader.Clock.{from_secs}
use hades_ps_trader.Float.Fixed.{Fixed, fin, fixed_float, whole, minus}
use hades_ps_trader.Config.{
  Config, Trading, DipBuyExitConfig, RugFilter, CapitulationConfig, DipBuyConfig,
}
use hades_ps_trader.Position.{Position, TrailTier, EntryTrigger, macd, dip_buy}
use hades_ps_trader.Trader.{Attempt, Poll, Confirmation, confirmed, confirm_poll_interval}
use hades_ps_trader.Spend.{new_tracker}
use hades_ps_trader.Session.{Shared, Token, BuyEnv}
use hades_ps_trader.Session.Loop.{TickEnv, Event, deadline, update}
use hades_ps_trader.Session.Run.{EndEnv}

abbrev pub trading : Trading Fixed
trading = record {
  slippage = whole 10;
  trade_amount = 10 ^ 8;
  priority_fee_sol = whole 0;
  profit_target_percent = whole 50;
  stop_loss_percent = whole 20;
  max_positions = 2;
  buy_tx_retries = 3;
  sell_tx_retries = 3;
  price_poll_interval_ms = 500;
  pumpswap_read_timeout_ms = 500;
  pnl_log_every_n_ticks = 0;
  max_monitor_time = 600;
  max_hold_time = 300;
  dynamic_trailing_stop_thresholds = "";
}

abbrev pub dip_buy_exit : DipBuyExitConfig Fixed
dip_buy_exit = record {
  take_profit_pct = whole 30;
  stop_loss_pct = whole 15;
  max_hold_secs = 120;
  trail_tiers = "";
}

abbrev pub rug : RugFilter Fixed
rug = record {
  enabled = true;
  min_pool_sol = whole 20;
  max_liquidity_drop_pct = whole 60;
  max_drawdown_pct = whole 80;
  min_samples = 2;
}

abbrev pub reclaim_mode : CapitulationConfig Fixed
reclaim_mode = record {
  enabled = false;
  dip_pct = whole 20;
  window_secs = 60;
  reclaim_pct = whole 5;
  pending_expire_secs = 120;
  reclaim_confirm_secs = 0;
  debounce_secs = 30;
}

abbrev pub dip_mode : DipBuyConfig Fixed
dip_mode = record {
  enabled = false;
  window_secs = 4;
  min_drawdown_pct = fin (10 ^ 8) 0;
  max_entry_quantile = fin (5 * 10 ^ 8) 0;
  min_pool_sol_drawdown_pct = whole 0;
  max_pool_sol_drawdown_pct = whole 0;
  min_pool_sol = whole 1;
  cooldown_secs = 60;
  daily_spend_cap_sol = whole 1;
  pool_recovery_secs = 0;
  pool_recovery_pct = whole 0;
  price_recovery_secs = 0;
  price_recovery_pct = whole 0;
  max_session_age_secs = 0;
}

abbrev pub cfg : Config Fixed
cfg = record {
  wallet_path = "wallet.json";
  trading = trading;
  macd = record { candle_interval_secs = 1; fast = 1; slow = 2; signal = 1; cooldown_secs = 10 };
  tradingfilters = record {
    enabled = false;
    min_holders = 0;
    min_txs = 0;
    top_ten_holder_percentage = whole 0;
  };
  rug = rug;
  capitulation = reclaim_mode;
  dip_buy = dip_mode;
  dip_buy_exit = dip_buy_exit;
  copy_trade = record {
    enabled = false;
    trade_amount_sol = fin (10 ^ 8) 0;
    max_positions = 1;
    daily_spend_cap_sol = whole 1;
    reentry_cooldown_secs = 60;
    per_wallet_cooldown_secs = 60;
    min_pool_sol = whole 0;
    max_hold_secs = 60;
    stop_loss_pct = whole 20;
    trail_tiers = "";
    take_profit_pct = whole 50;
    mirror_exit = true;
    mirror_exit_on_first_sell = false;
    mirror_close_fraction = fin (9 * 10 ^ 8) 0;
    mirror_max_hold_secs = 60;
  };
  jito = record { enabled = false; tip_sol = whole 0; block_engine_url = "" };
}

-- An attempt that the node takes and confirms, one whose signature is never seen, and one that the
-- node refuses.
abbrev pub polls_of : Option Confirmation → ℕ → Poll
polls_of none k = record { answer = ok none; elapsed = k * confirm_poll_interval }
polls_of (some c) k = record {
  answer = ok (some (record { failed = false; confirmation = some c }));
  elapsed = k * confirm_poll_interval;
}

abbrev pub attempt : Option Confirmation → Attempt
attempt c = record {
  bundle = none;
  post = ok (record { success = true; decodes = true });
  latest_blockhash = ok tt;
  send = ok 7;
  polls = polls_of c;
}

abbrev pub token : Token
token = record { mint = "mint"; name = none; symbol = none }

abbrev pub position : Position Fixed
position = record {
  mint = "mint";
  name = none;
  symbol = none;
  entry_price_sol = whole 2;
  cost_sol = fin (10 ^ 8) 0;
  peak_pct = whole 40;
  bought_at = 0;
  entry_trigger = dip_buy;
}

abbrev pub tiers : List (TrailTier Fixed)
tiers =
    record { gain_pct = whole 10; trail_pct = whole 5 }
    ∷ record { gain_pct = whole 30; trail_pct = whole 15 }
    ∷ []

abbrev pub buy_env : BuyEnv Fixed
buy_env = record {
  check_at = from_secs 1;
  after_check = λ s. s;
  attempts = λ n s. attempt (some confirmed);
  during_buy = λ s. s;
  record_at = from_secs 2;
  total_at = from_secs 2;
  bought_at = from_secs 2;
  balance = ok (record { raw_amount = 50000; decimals = 6 });
  during_balance = λ s. s;
}

abbrev pub tick_at : ℕ → TickEnv Fixed
tick_at secs = record {
  before = λ s. s;
  sell_attempts = λ n s. attempt (some confirmed);
  during_sell = λ s. s;
  exit_at = from_secs secs;
  polled_at = from_secs secs;
  sold_at = from_secs secs;
  now = from_secs secs;
  buy = λ t. buy_env;
}

-- A price that falls and recovers, one tick a second, and then the deadline.
abbrev pub events : List (Event Fixed)
events =
    update (whole 5) (whole 100) (tick_at 0)
    ∷ update (whole 4) (whole 90) (tick_at 1)
    ∷ update (whole 3) (whole 80) (tick_at 2)
    ∷ update (whole 4) (whole 90) (tick_at 3)
    ∷ update (whole 5) (whole 90) (tick_at 4)
    ∷ update (whole 6) (whole 90) (tick_at 5)
    ∷ deadline
    ∷ []

abbrev pub end_env : EndEnv Fixed
end_env = record { attempts = λ n s. attempt (some confirmed); during_sell = λ s. s }

abbrev pub shared : Shared Fixed
shared = record {
  open_positions = 1;
  spend_tracker = record { cap_sol = whole 1; window = from_secs 86400; spends = [] };
}
