-- ===== src/Dispatch.antt =====
-- The copy-trade mode of src/main.rs: the followed wallets, the dispatch of their trades, the wait
-- for the sessions at a shutdown, and the liquidate mode.
pub mod Cooldown
pub mod Spacing
pub mod Routing
pub mod Names
pub mod Liquidate
pub mod Loop
use Prim.Native.String.{String}
use hades_ps_trader.Base.{
  ℕ, zero, suc, ◌+◌, Bool, true, false, not, Option, none, some, List, [], ◌∷◌, ◌++◌, map, ltb,
  ◌==◌, if◌then◌else◌,
}
use hades_ps_trader.Base.Result.{Result, ok, err}
use hades_ps_trader.Base.Text.{str_eq, trim, split}
use hades_ps_trader.Clock.{since_lt, from_secs}
use hades_ps_trader.Float.{Float}
use hades_ps_trader.Config.{Config, CopyTradeConfig}
use hades_ps_trader.PumpPortal.{AlphaTrade}
use hades_ps_trader.Trader.{Attempt, Sent, TradeError, sell_all}

-- `HashMap<String, Instant>`: one entry for a key.
unfoldable pub get : String → List (String × ℕ) → Option ℕ
get key [] = none
get key ((k, at) ∷ entries) = if str_eq key k then some at else get key entries

unfoldable pub insert : String → ℕ → List (String × ℕ) → List (String × ℕ)
insert key at [] = (key, at) ∷ []
insert key at ((k, old) ∷ entries) =
    if str_eq key k then (key, at) ∷ entries else (k, old) ∷ insert key at entries

-- One of the two cooldowns at `now`: `none` skips the trade, else the key is stamped.
unfoldable pub stamp : (cooldown now : ℕ) → String → List (String × ℕ) → Option (List (String × ℕ))
stamp cooldown now key m =
    if since_lt now (get key m) cooldown then none else some (insert key now m)

pub record Recent : Type 0 where
  pub recent_wallet : List (String × ℕ)
  pub recent : List (String × ℕ)

-- A trade, and the instants at which the two cooldowns look at the clock.
pub record Arrival (F : Type 0) : Type 0 where
  pub trade : AlphaTrade F
  pub wallet_at : ℕ
  pub mint_at : ℕ

-- `sell_tx.send(t)`, `continue`, and the `tokio::spawn` of a session.
pub data Action (F : Type 0) : Type 0 where
  broadcast : AlphaTrade F → Action F
  skip : Action F
  spawn : Arrival F → Action F

module _ {F : Type 0} where
  unfoldable pub check_mint : (cooldown : ℕ) → Arrival F → Recent → Recent × Action F
  check_mint cooldown a r = elim (stamp cooldown a.mint_at a.trade.mint r.recent) [
    | none ↦ (r, skip)
    | some mints ↦ (record r { recent = mints }, spawn a)
  ]

  unfoldable pub check_wallet :
      (cooldown wallet_cooldown : ℕ) → Arrival F → Recent → Recent × Action F
  check_wallet cooldown wallet_cooldown a r =
      elim (stamp wallet_cooldown a.wallet_at a.trade.trader r.recent_wallet) [
        | none ↦ (r, skip)
        | some wallets ↦ check_mint cooldown a (record r { recent_wallet = wallets })
      ]

  unfoldable pub on_trade : CopyTradeConfig F → Arrival F → Recent → Recent × Action F
  on_trade cc a r =
      if str_eq a.trade.tx_type "sell"
      then (r, broadcast a.trade)
      else if not (str_eq a.trade.tx_type "buy")
      then (r, skip)
      else if not a.trade.is_pumpswap
      then (r, skip)
      else check_wallet (from_secs cc.reentry_cooldown_secs) (from_secs cc.per_wallet_cooldown_secs)
          a r

  abbrev pub spawned : Action F → List (Arrival F)
  spawned (broadcast t) = []
  spawned skip = []
  spawned (spawn a) = a ∷ []

  -- The loop over the trades: the sessions that it spawns, in order.
  unfoldable pub dispatch : CopyTradeConfig F → List (Arrival F) → Recent → List (Arrival F)
  dispatch cc [] r = []
  dispatch cc (a ∷ arrivals) r =
      let (r', action) = on_trade cc a r in spawned action ++ dispatch cc arrivals r'

abbrev pub new_recent : Recent
new_recent = record { recent_wallet = []; recent = [] }

abbrev pub shutdown_rounds : ℕ
shutdown_rounds = 25

-- The rounds of a second in which a shutdown waits for the counter `copy_positions` to come to 0:
-- `counter k` is its value in round `k`. The result is how many rounds it has slept.
unfoldable pub wait_closed : (left k : ℕ) → (ℕ → ℕ) → ℕ
wait_closed zero k counter = k
wait_closed (suc left) k counter =
    let rest = wait_closed left (k + 1) counter in if counter k == 0 then k else rest

abbrev pub is_empty : List ℕ → Bool
is_empty [] = true
is_empty (c ∷ cs) = false

unfoldable pub keep_nonempty : List (List ℕ) → List (List ℕ)
keep_nonempty [] = []
keep_nonempty (name ∷ names) =
    if is_empty name then keep_nonempty names else name ∷ keep_nonempty names

-- `split(',').map(trim).filter(!is_empty)`, of COPY_TRADE_WALLETS and of `--liquidate`.
unfoldable pub parse_names : List ℕ → List (List ℕ)
unfolding keep_nonempty
parse_names s = keep_nonempty (map trim (split b',' s))

-- The result of one sell counts as done if it has a signature.
abbrev pub count_ok : Result TradeError (Option ℕ) → ℕ
count_ok (ok (some sig)) = 1
count_ok (ok none) = 0
count_ok (err e) = 0

module _ {F : Type 0} ⦃fl : Float F⦄ where
  -- The liquidate mode: what it sends for each mint, and the number of sells done. `attempts` are
  -- what the sell of a mint meets.
  unfoldable pub liquidate :
      Config F → Bool → (List ℕ → ℕ → F → Attempt) → List (List ℕ) → List (List ℕ × List Sent) × ℕ
  liquidate cfg dry_run attempts [] = ([], 0)
  liquidate cfg dry_run attempts (mint ∷ mints) =
      let (sent, result) = sell_all dry_run (attempts mint) cfg.trading.slippage in
      let (more, done) = liquidate cfg dry_run attempts mints in
      ((mint, sent) ∷ more, count_ok result + done)
