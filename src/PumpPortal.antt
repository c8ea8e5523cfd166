-- ===== src/PumpPortal.antt =====
-- src/pumpportal.rs: the frames of the WebSocket feeds, the two listeners, and their waits between
-- connections. JSON is the interface `Json` of what the code asks of a `serde_json::Value`; what a
-- connection delivers is a list of messages.
pub mod Frames
pub mod Backoff
pub mod Listener
pub mod Feed
use Prim.Native.String.{String}
use hades_ps_trader.Base.{
  ℕ, zero, suc, ◌*◌, ◌^◌, ◌-◌, ◌++◌, Bool, true, false, ◌&&◌, ◌||◌, not, Option, none, some, List,
  [], ◌∷◌, ltb, is_some, if◌then◌else◌, ◌>>=◌,
}
use hades_ps_trader.Base.Text.{str_eq}

-- `Value::get`, `as_str` and `as_f64`.
pub record Json (V F : Type 0) : Type 0 where
  pub get : V → String → Option V
  pub as_str : V → Option String
  pub as_f64 : V → Option F

pub record MigrationEvent : Type 0 where
  pub mint : String
  pub name : Option String
  pub symbol : Option String

pub record AlphaTrade (F : Type 0) : Type 0 where
  pub mint : String
  pub trader : String
  pub tx_type : String
  pub is_pumpswap : Bool
  pub symbol : Option String
  pub token_balance : Option F

-- A message of the socket: a text, with its JSON if it is any, a ping, with whether the pong could
-- be written, and an error of the stream.
pub data Message (V : Type 0) : Type 0 where
  text : Option V → Message V
  ping : (answered : Bool) → Message V
  close other failed : Message V

-- `v.get("pool").and_then(Value::as_str) == Some("pump-amm")`
unfoldable pub is_amm : Option String → Bool
is_amm none = false
is_amm (some pool) = str_eq pool "pump-amm"

-- Only buys and sells are kept.
unfoldable pub known_type : String → Option String
known_type tx_type = if str_eq tx_type "buy" || str_eq tx_type "sell" then some tx_type else none

module _ {V F : Type 0} (json : Json V F) where
  open json use {get, as_str, as_f64}

  unfoldable pub get_str : V → String → Option String
  get_str v key = get v key >>= as_str

  unfoldable pub first_str : V → List String → Option String
  unfolding get_str
  first_str v [] = none
  first_str v (key ∷ keys) = elim (get_str v key) [ some s ↦ some s | none ↦ first_str v keys ]

  abbrev pub mint_keys : List String
  mint_keys = "mint" ∷ "tokenMint" ∷ "token_mint" ∷ "ca" ∷ "address" ∷ []

  unfoldable pub extract_mint : V → Option String
  unfolding first_str
  extract_mint v = first_str v mint_keys

  unfoldable pub parse_trade_frame : V → Option (AlphaTrade F)
  unfolding get_str is_amm known_type
  parse_trade_frame v = do
    mint ← get_str v "mint"
    trader ← get_str v "traderPublicKey"
    found ← get_str v "txType"
    tx_type ← known_type found
    some (record {
      mint = mint;
      trader = trader;
      tx_type = tx_type;
      is_pumpswap = is_amm (get_str v "pool");
      symbol = get_str v "symbol";
      token_balance = get v "newTokenBalance" >>= as_f64;
    })

  -- What a text frame of the migration feed sends.
  unfoldable pub on_migration_frame : V → List MigrationEvent
  on_migration_frame v = elim (extract_mint v) [
    | some mint ↦ record { mint = mint; name = get_str v "name"; symbol = get_str v "symbol" } ∷ []
    | none ↦ []
  ]

  -- The loop of `run_migration` after the subscription: the events sent, and whether it ended
  -- without an error.
  unfoldable pub run_migration : List (Message V) → List MigrationEvent × Bool
  run_migration [] = ([], true)
  run_migration (text none ∷ rest) = run_migration rest
  run_migration (text (some v) ∷ rest) =
      let (events, clean) = run_migration rest in (on_migration_frame v ++ events, clean)
  run_migration (ping true ∷ rest) = run_migration rest
  run_migration (ping false ∷ rest) = ([], false)
  run_migration (close ∷ rest) = ([], true)
  run_migration (other ∷ rest) = run_migration rest
  run_migration (failed ∷ rest) = ([], false)

  abbrev pub is_control : V → Bool
  is_control v = is_some (get v "message") || is_some (get v "errors")

  unfoldable pub on_trade_frame : V → Option (AlphaTrade F)
  on_trade_frame v = if is_control v then none else parse_trade_frame v

  -- The loop of `run_account_trade`: the trades sent, and whether it ended without an error. After
  -- `open_for` trades the receiver has gone and the next send ends the loop.
  unfoldable pub run_account_trade : ℕ → List (Message V) → List (AlphaTrade F) × Bool
  run_account_trade open_for [] = ([], true)
  run_account_trade open_for (text none ∷ rest) = run_account_trade open_for rest
  run_account_trade open_for (text (some v) ∷ rest) = elim (on_trade_frame v) [
    | none ↦ run_account_trade open_for rest
    | some t ↦ elim open_for [
      | zero ↦ ([], true)
      | suc n ↦ let (trades, clean) = run_account_trade n rest in (t ∷ trades, clean)
    ]
  ]
  run_account_trade open_for (ping true ∷ rest) = run_account_trade open_for rest
  run_account_trade open_for (ping false ∷ rest) = ([], false)
  run_account_trade open_for (close ∷ rest) = ([], true)
  run_account_trade open_for (other ∷ rest) = run_account_trade open_for rest
  run_account_trade open_for (failed ∷ rest) = ([], false)

-- `backoff.saturating_mul(2).min(30)`
unfoldable pub next_backoff : ℕ → ℕ
next_backoff b =
    let doubled = if ltb (b * 2) (2 ^ 64) then b * 2 else 2 ^ 64 - 1 in
    if ltb 30 doubled then 30 else doubled

-- The seconds that the listener sleeps after each of `n` connections, however they ended.
unfoldable pub waits : ℕ → ℕ → List ℕ
waits zero backoff = []
waits (suc n) backoff = backoff ∷ waits n (next_backoff backoff)
