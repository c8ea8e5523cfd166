-- ===== src/Session/Loop/Data.antt =====
-- The variables of the loop of `run_session` in src/session.rs, and what a round of it meets.
use hades_ps_trader.Base.{ℕ, Option, List}
use hades_ps_trader.Position.{EntryTrigger, Position}
use hades_ps_trader.Macd.{CandleAggregator, Macd}
use hades_ps_trader.Rug.{RugGuard}
use hades_ps_trader.Capitulation.{CapitulationDetector}
use hades_ps_trader.DipBuy.{DipBuyDetector}
use hades_ps_trader.Trader.{Attempt, Sent}
use hades_ps_trader.Session.{Shared, Notice, BuyEnv}

-- The variables of the loop, and what the session has sent and reported.
pub record Session (F : Type 0) : Type 0 where
  pub position : Option (Position F)
  pub last_sell_at : Option ℕ
  pub last_price : Option F
  pub tick : ℕ
  pub rug_guard : RugGuard F
  pub cap_detector : CapitulationDetector F
  pub dip_buy_detector : DipBuyDetector F
  pub aggregator : CandleAggregator F
  pub macd : Macd F
  pub shared : Shared F
  pub sent : List Sent
  pub notices : List (Notice F)

-- What one tick meets: the instant of its `select!`, what others did before it, the attempts of a sell in it and what others
-- do during the sell, the instants it reads, and the calls of `try_buy`.
pub record TickEnv (F : Type 0) : Type 0 where
  pub polled_at : ℕ
  pub before : Shared F → Shared F
  pub sell_attempts : ℕ → F → Attempt
  pub during_sell : Shared F → Shared F
  pub exit_at : ℕ
  pub sold_at : ℕ
  pub now : ℕ
  pub buy : EntryTrigger → BuyEnv F

pub data Event (F : Type 0) : Type 0 where
  deadline : Event F
  update : (price pool_sol : F) → TickEnv F → Event F

-- `break`, or the next round.
pub data Flow (F : Type 0) : Type 0 where
  stop : Session F → Flow F
  go : Session F → Flow F
