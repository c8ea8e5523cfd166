-- ===== src/Config/Defaults.antt =====
-- The `Default` implementations of src/config.rs, which serde takes for what the file leaves out.
use hades_ps_trader.Base.{true, false}
use hades_ps_trader.Float.{Float}
use hades_ps_trader.Config.{
  JitoConfig, CopyTradeConfig, RugFilter, CapitulationConfig, DipBuyConfig, DipBuyExitConfig,
}

module _ {F : Type 0} ⦃fl : Float F⦄ where
  open fl use {of_ℕ, decimal}

  abbrev pub default_jito : JitoConfig F
  default_jito = record {
    enabled = false;
    tip_sol = decimal 3 4;
    block_engine_url = "https://mainnet.block-engine.jito.wtf/api/v1/bundles";
  }

  abbrev pub default_copy_trade : CopyTradeConfig F
  default_copy_trade = record {
    enabled = false;
    trade_amount_sol = decimal 1 1;
    max_positions = 5;
    daily_spend_cap_sol = of_ℕ 2;
    reentry_cooldown_secs = 300;
    per_wallet_cooldown_secs = 60;
    min_pool_sol = of_ℕ 30;
    max_hold_secs = 900;
    stop_loss_pct = of_ℕ 20;
    trail_tiers = "20:6,40:10,75:15,100:20,150:25,200:30";
    take_profit_pct = of_ℕ 300;
    mirror_exit = true;
    mirror_exit_on_first_sell = true;
    mirror_close_fraction = decimal 1 1;
    mirror_max_hold_secs = 7200;
  }

  abbrev pub default_rug : RugFilter F
  default_rug = record {
    enabled = true;
    min_pool_sol = of_ℕ 5;
    max_liquidity_drop_pct = of_ℕ 50;
    max_drawdown_pct = of_ℕ 70;
    min_samples = 20;
  }

  abbrev pub default_capitulation : CapitulationConfig F
  default_capitulation = record {
    enabled = false;
    dip_pct = of_ℕ 50;
    window_secs = 60;
    reclaim_pct = of_ℕ 10;
    pending_expire_secs = 30;
    reclaim_confirm_secs = 10;
    debounce_secs = 60;
  }

  abbrev pub default_dip_buy : DipBuyConfig F
  default_dip_buy = record {
    enabled = false;
    window_secs = 60;
    min_drawdown_pct = decimal 3 1;
    max_entry_quantile = decimal 2 1;
    min_pool_sol_drawdown_pct = decimal 2 1;
    max_pool_sol_drawdown_pct = decimal 45 2;
    min_pool_sol = of_ℕ 30;
    cooldown_secs = 60;
    daily_spend_cap_sol = of_ℕ 2;
    pool_recovery_secs = 8;
    pool_recovery_pct = decimal 3 2;
    price_recovery_secs = 5;
    price_recovery_pct = decimal 5 2;
    max_session_age_secs = 600;
  }

  abbrev pub default_dip_buy_exit : DipBuyExitConfig F
  default_dip_buy_exit = record {
    take_profit_pct = of_ℕ 300;
    stop_loss_pct = of_ℕ 25;
    max_hold_secs = 600;
    trail_tiers = "20:6,40:10,75:15,100:20,150:25,200:30";
  }
