-- ===== src/Config.antt =====
-- src/config.rs: the typed configuration, field by field. Times in seconds and counts are u64 or
-- u32, percentages and amounts of SOL are f64. Loading from TOML is not modelled.
pub mod Defaults
use Prim.Native.String.{String}
use hades_ps_trader.Base.{ℕ, Bool}

pub record JitoConfig (F : Type 0) : Type 0 where
  pub enabled : Bool
  pub tip_sol : F
  pub block_engine_url : String

pub record CopyTradeConfig (F : Type 0) : Type 0 where
  pub enabled : Bool
  pub trade_amount_sol : F
  pub max_positions : ℕ
  pub daily_spend_cap_sol : F
  pub reentry_cooldown_secs : ℕ
  pub per_wallet_cooldown_secs : ℕ
  pub min_pool_sol : F
  pub max_hold_secs : ℕ
  pub stop_loss_pct : F
  pub trail_tiers : String
  pub take_profit_pct : F
  pub mirror_exit : Bool
  pub mirror_exit_on_first_sell : Bool
  pub mirror_close_fraction : F
  pub mirror_max_hold_secs : ℕ

pub record Trading (F : Type 0) : Type 0 where
  pub slippage : F
  pub trade_amount : ℕ
  pub priority_fee_sol : F
  pub profit_target_percent : F
  pub stop_loss_percent : F
  pub max_positions : ℕ
  pub buy_tx_retries : ℕ
  pub sell_tx_retries : ℕ
  pub price_poll_interval_ms : ℕ
  pub pumpswap_read_timeout_ms : ℕ
  pub pnl_log_every_n_ticks : ℕ
  pub max_monitor_time : ℕ
  pub max_hold_time : ℕ
  pub dynamic_trailing_stop_thresholds : String

pub record MacdConfig : Type 0 where
  pub candle_interval_secs : ℕ
  pub fast : ℕ
  pub slow : ℕ
  pub signal : ℕ
  pub cooldown_secs : ℕ

pub record TradingFilters (F : Type 0) : Type 0 where
  pub enabled : Bool
  pub min_holders : ℕ
  pub min_txs : ℕ
  pub top_ten_holder_percentage : F

pub record RugFilter (F : Type 0) : Type 0 where
  pub enabled : Bool
  pub min_pool_sol : F
  pub max_liquidity_drop_pct : F
  pub max_drawdown_pct : F
  pub min_samples : ℕ

pub record CapitulationConfig (F : Type 0) : Type 0 where
  pub enabled : Bool
  pub dip_pct : F
  pub window_secs : ℕ
  pub reclaim_pct : F
  pub pending_expire_secs : ℕ
  pub reclaim_confirm_secs : ℕ
  pub debounce_secs : ℕ

pub record DipBuyConfig (F : Type 0) : Type 0 where
  pub enabled : Bool
  pub window_secs : ℕ
  pub min_drawdown_pct : F
  pub max_entry_quantile : F
  pub min_pool_sol_drawdown_pct : F
  pub max_pool_sol_drawdown_pct : F
  pub min_pool_sol : F
  pub cooldown_secs : ℕ
  pub daily_spend_cap_sol : F
  pub pool_recovery_secs : ℕ
  pub pool_recovery_pct : F
  pub price_recovery_secs : ℕ
  pub price_recovery_pct : F
  pub max_session_age_secs : ℕ

pub record DipBuyExitConfig (F : Type 0) : Type 0 where
  pub take_profit_pct : F
  pub stop_loss_pct : F
  pub max_hold_secs : ℕ
  pub trail_tiers : String

pub record Config (F : Type 0) : Type 0 where
  pub wallet_path : String
  pub trading : Trading F
  pub macd : MacdConfig
  pub tradingfilters : TradingFilters F
  pub rug : RugFilter F
  pub capitulation : CapitulationConfig F
  pub dip_buy : DipBuyConfig F
  pub dip_buy_exit : DipBuyExitConfig F
  pub copy_trade : CopyTradeConfig F
  pub jito : JitoConfig F
