-- ===== src/PumpPortal/Listener.antt =====
-- The two listeners of src/pumpportal.rs: one connection after the other, with a wait after each.
use Prim.Native.String.{String}
use hades_ps_trader.Base.{ℕ, ◌-◌, Bool, false, List, [], ◌∷◌, ◌++◌, length, if◌then◌else◌}
use hades_ps_trader.PumpPortal.{
  Json, MigrationEvent, AlphaTrade, Message, run_migration, run_account_trade, next_backoff,
}

-- `connect_async`, the write of the subscription, and the messages after it.
pub record Connection (V : Type 0) : Type 0 where
  pub connected : Bool
  pub subscribed : Bool
  pub messages : List (Message V)

-- The `?` of the first two calls: what is sent, and whether the connection ended without an error.
abbrev pub connect :
    {V A : Type 0} → (List (Message V) → List A × Bool) → Connection V → List A × Bool
connect read c =
    if c.connected then (if c.subscribed then read c.messages else ([], false)) else ([], false)

module _ {V F : Type 0} (json : Json V F) where
  -- The events that the loop of `spawn_migration_listener` sends, and its waits in seconds.
  unfoldable pub listen_migrations : ℕ → List (Connection V) → List MigrationEvent × List ℕ
  listen_migrations backoff [] = ([], [])
  listen_migrations backoff (c ∷ connections) =
      let (events, clean) = connect (run_migration json) c in
      let (more, waits) = listen_migrations (next_backoff backoff) connections in
      (events ++ more, backoff ∷ waits)

  -- The loop of `spawn_account_trade_listener`. After `open_for` trades the receiver has gone; the
  -- loop goes on all the same.
  unfoldable pub listen_trades :
      (backoff open_for : ℕ) → List (Connection V) → List (AlphaTrade F) × List ℕ
  listen_trades backoff open_for [] = ([], [])
  listen_trades backoff open_for (c ∷ connections) =
      let (trades, clean) = connect (run_account_trade json open_for) c in
      let (more, waits) =
        listen_trades (next_backoff backoff) (open_for - length trades) connections in
      (trades ++ more, backoff ∷ waits)

  -- Nothing is connected where no wallet is followed.
  unfoldable pub account_trade_listener :
      (wallet_keys : List String) → ℕ → List (Connection V) → List (AlphaTrade F) × List ℕ
  account_trade_listener [] open_for connections = ([], [])
  account_trade_listener (key ∷ keys) open_for connections = listen_trades 1 open_for connections
