-- ===== src/Examples/Dispatches.antt =====
-- Witnesses of the theorems on the copy-trade mode of src/main.rs and on the trade feed.
use Prim.Native.String.{String}
use hades_ps_trader.Base.{
  ℕ, ◌≡◌, ◌<◌, ◌-◌, ◌^◌, ltb, get_elem?, refl, true, false, Option, none, some, List, [], ◌∷◌, All,
  arith, if◌then◌else◌,
}
use hades_ps_trader.Base.Text.{str_eq, eq_iff, is_whitespace}
use hades_ps_trader.Clock.{from_secs}
use hades_ps_trader.Float.Fixed.{Fixed}
use hades_ps_trader.PumpPortal.{Json, text, failed}
use hades_ps_trader.PumpPortal.Listener.{Connection, account_trade_listener}
use hades_ps_trader.PumpPortal.Feed.{Delivers, frames_of, account_trade_listener-Delivers}
use hades_ps_trader.Dispatch.{get, Recent, new_recent, Arrival, skip, on_trade, parse_names}
use hades_ps_trader.Dispatch.Spacing.{IsSpaced}
use hades_ps_trader.Dispatch.Loop.{
  LoopEvent, arrived, shut_down, main_loop, sessions, broadcasts, sells, arrivals_of, EndsAs,
  main_loop-Runs,
}
use hades_ps_trader.Dispatch.Routing.{IsFresh, skipped-on_trade}
use hades_ps_trader.Dispatch.Names.{Written, IsWritten, write_names, parse_names-write_names}
use hades_ps_trader.Examples.{cfg}
use hades_ps_trader.Examples.Copies.{alpha}

abbrev buy_of : String → ℕ → Arrival Fixed
buy_of mint secs = record {
  trade = record alpha { mint = mint };
  wallet_at = from_secs secs;
  mint_at = from_secs secs;
}

-- A sell comes between, and the wait at the shutdown takes two seconds.
abbrev loop_events : List (LoopEvent Fixed)
loop_events =
    arrived (buy_of "mint" 0)
    ∷ arrived (record (buy_of "mint" 5) { trade = record alpha { tx_type = "sell" } })
    ∷ arrived (buy_of "other" 10)
    ∷ arrived (buy_of "mint" 70)
    ∷ shut_down (λ k. 2 - k) 0
    ∷ []

main_loop-Runs_example :
    (let (actions, exit) = main_loop cfg.copy_trade loop_events new_recent in
      IsSpaced cfg.copy_trade (sessions cfg.copy_trade actions)
      × (broadcasts cfg.copy_trade actions
          ≡ sells cfg.copy_trade (arrivals_of cfg.copy_trade loop_events))
      × EndsAs cfg.copy_trade loop_events exit)
main_loop-Runs_example = main_loop-Runs cfg.copy_trade 0 loop_events new_recent (
  omega arith,
  omega arith,
  (omega arith, omega arith, (omega arith, omega arith, (omega arith, omega arith, tt))),
)

-- The mint was bought by another wallet.
abbrev recent_mint : Recent
recent_mint = record { recent_wallet = []; recent = ("mint", from_secs 1) ∷ [] }

stale : ¬ (IsFresh cfg.copy_trade (buy_of "mint" 10) recent_mint)
unfolding get
stale e = ground (arith, e)

skipped-on_trade_example :
    ((on_trade cfg.copy_trade (buy_of "mint" 10) recent_mint).1 ≡ skip)
    × ((on_trade cfg.copy_trade
          (buy_of "other" 20)
          (on_trade cfg.copy_trade (buy_of "mint" 10) recent_mint).0).1
        ≡ skip)
unfolding get
skipped-on_trade_example =
    skipped-on_trade cfg.copy_trade (buy_of "mint" 10) (buy_of "other" 20) recent_mint
      (refl, refl, refl) stale (λ e. ground (arith, (eq_iff "buy" "sell").1 e)) refl (omega arith)

abbrev names : List Written
names =
    record { left = []; name = b'a' ∷ b'b' ∷ []; right = b' ' ∷ [] }
    ∷ record { left = b' ' ∷ []; name = b'c' ∷ []; right = [] }
    ∷ []

written : All IsWritten names
unfolding is_whitespace
written = (
  record {
    spaces = (tt, (refl, tt));
    ink = (refl, (refl, tt));
    no_comma = (refl, (refl, tt));
    named = refl;
  },
  (record { spaces = ((refl, tt), tt); ink = (refl, tt); no_comma = (refl, tt); named = refl }, tt),
)

parse_names-write_names_example :
    parse_names (write_names names) ≡ (b'a' ∷ b'b' ∷ []) ∷ (b'c' ∷ []) ∷ []
parse_names-write_names_example = parse_names-write_names names written

-- A frame as the list of its fields, all of them texts.
abbrev field : List (String × String) → String → Option String
field [] key = none
field ((k, v) ∷ rest) key = if str_eq k key then some v else field rest key

abbrev Frame : Type 0
Frame = List (String × String)

abbrev texts : Json Frame Fixed
texts = record {
  get = λ v key. elim (field v key) [ none ↦ none | some s ↦ some (("text", s) ∷ []) ];
  as_str = λ v. field v "text";
  as_f64 = λ v. none;
}

abbrev frame : Frame
frame = ("mint", "m") ∷ ("traderPublicKey", "alpha") ∷ ("txType", "buy") ∷ ("pool", "pump-amm") ∷ []

-- The first connection fails, the second brings a trade and ends in an error.
abbrev connections : List (Connection Frame)
connections =
    record { connected = false; subscribed = true; messages = [] }
    ∷ record {
      connected = true;
      subscribed = true;
      messages = text none ∷ text (some frame) ∷ failed ∷ [];
    }
    ∷ []

account_trade_listener-Delivers_example :
    (let (trades, waited) = account_trade_listener texts ("alpha" ∷ []) 5 connections in
      Delivers texts (frames_of connections) trades
      × ((k : ℕ) → k < 2 → get_elem? waited k ≡ some (if ltb 30 (2 ^ k) then 30 else 2 ^ k)))
account_trade_listener-Delivers_example =
    account_trade_listener-Delivers texts "alpha" [] connections 5 (omega arith)
