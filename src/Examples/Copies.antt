-- ===== src/Examples/Copies.antt =====
-- Witnesses of the theorems on the copy-trade sessions and their dispatch.
use hades_ps_trader.Base.{
  ◌≡◌, ◌⊎◌, ◌↔◌, ◌^◌, ◌+◌, refl, true, false, none, some, List, [], ◌∷◌, arith,
}
use hades_ps_trader.Base.Result.{ok, err}
use hades_ps_trader.Clock.{from_secs}
use hades_ps_trader.Float.Fixed.{Fixed, fin, fixed_float, whole, minus}
use hades_ps_trader.PumpPortal.{AlphaTrade}
use hades_ps_trader.Position.{ExitReason, max_hold_time, stop_loss, decide_exit_dip_buy}
use hades_ps_trader.Position.Exit.{IsTimeUp, IsStopped}
use hades_ps_trader.Trader.{confirmed, transport}
use hades_ps_trader.Copy.{Holding, mirror_exit, copy_exit}
use hades_ps_trader.Copy.Watch.{
  Watching, CopyEvent, on_sell, on_price, shutdown_lagged, sold, next, start, force_sell, on_event,
  watch,
}
use hades_ps_trader.Copy.Entry.{CopyEnv, Copied}
use hades_ps_trader.Copy.Handle.{copy_handle}
use hades_ps_trader.Copy.Exit.{as_dip_buy_exit, copy_exit_lem}
use hades_ps_trader.Copy.Mirror.{IsFollowed, on_sell_lem}
use hades_ps_trader.Copy.Closing.{IsClosed, watch-IsClosed}
use hades_ps_trader.Copy.Slot.{IsAdmitted, IsRefused, first_check, copy_handle-slot}
use hades_ps_trader.Base.Short.{IsAscii, IsCut}
use hades_ps_trader.Copy.Panic.{IsLeaking, copy_handle-panics}
use hades_ps_trader.Copy.Deadline.{IsEndless}
use hades_ps_trader.Copy.Spends.{IsBuying, IsChecked, spent_from, copy_handle-spends}
use hades_ps_trader.Copy.Paper.{IsPaper, copy_handle-IsPaper}
use hades_ps_trader.Session.{Shared}
use hades_ps_trader.Examples.{cfg, attempt, tiers, position, shared}
open fixed_float use {lt, le, add, sub, mul, div, neg}

abbrev pub alpha : AlphaTrade Fixed
alpha = record {
  mint = "mint";
  trader = "alpha";
  tx_type = "buy";
  is_pumpswap = true;
  symbol = none;
  token_balance = some (whole 1000);
}

abbrev alpha_sell : AlphaTrade Fixed
alpha_sell = record alpha { tx_type = "sell"; token_balance = some (whole 50) }

abbrev holding : Holding Fixed
holding = record {
  mint = "mint";
  symbol = none;
  amount_sol = fin (10 ^ 8) 0;
  entry_price_sol = whole 2;
  bought_at = 0;
  alpha_wallet = "alpha";
  alpha_entry_balance = some (whole 1000);
}

-- The price falls past the stop, a sell fails, and the followed wallet closes.
abbrev copy_events : List (CopyEvent Fixed)
copy_events =
    shutdown_lagged
    ∷ on_price (whole 1) (whole 100) (from_secs 1)
        (λ n s. record (attempt none) { post = err transport })
    ∷ on_sell alpha_sell (λ n s. attempt (some confirmed))
    ∷ []

abbrev copy_env : CopyEnv Fixed
copy_env = record {
  valid_mint = true;
  check_at = from_secs 1;
  after_check = λ s. s;
  attempts = λ n s. attempt (some confirmed);
  during_buy = λ s. s;
  record_at = from_secs 2;
  total_at = from_secs 2;
  bought_at = from_secs 2;
  balance = ok (record { raw_amount = 50000; decimals = 6 });
  first_prices = whole 2 ∷ [];
  events = copy_events;
  last = λ n s. attempt (some confirmed);
  during_hold = λ s. s;
}

abbrev copy_shared : Shared Fixed
copy_shared = record shared { open_positions = 0 }

watch-IsClosed_example :
    IsClosed
      (watch cfg false tiers holding
        (λ n s. attempt (some confirmed))
        copy_events
        (start true)).sells
watch-IsClosed_example =
    watch-IsClosed cfg false holding tiers (λ n s. attempt (some confirmed)) copy_events

abbrev copied : Copied Fixed
copied = copy_handle (λ s. none) cfg false true alpha copy_env copy_shared

copy_handle-slot_example :
    (copied.panicked ≡ false → copied.shared.open_positions ≡ 0)
    × (¬ (IsAdmitted (λ s. none) cfg false true alpha copy_env copy_shared)
        → IsRefused copied × (copied.shared.open_positions ≡ 0))
copy_handle-slot_example =
    copy_handle-slot (λ s. none) cfg false true alpha copy_env copy_shared
      (λ s. refl, λ s. refl, λ s. refl) (omega arith)

copy_handle-spends_example :
    (let tracked = copied.shared.spend_tracker in
      let checked = (first_check (λ s. none) cfg false true alpha copy_env copy_shared).0 in
      let buying = IsBuying (λ s. none) cfg false true alpha copy_env copy_shared in
      let reached = IsChecked (λ s. none) cfg false true alpha copy_env in
      (buying → tracked ≡ spent_from (λ s. none) cfg false true alpha copy_env checked)
      × (¬ buying
          → (reached → tracked ≡ checked) × (¬ reached → tracked ≡ copy_shared.spend_tracker)))
copy_handle-spends_example =
    copy_handle-spends (λ s. none) cfg false true alpha copy_env copy_shared (λ s. refl)
      (λ s. refl, λ s. refl, λ s. refl)

copy_handle-IsPaper_example :
    IsPaper (copy_handle (λ s. none) cfg true true alpha copy_env copy_shared)
copy_handle-IsPaper_example = copy_handle-IsPaper (λ s. none) cfg alpha copy_env true copy_shared

abbrev watching : Watching Fixed
watching = record (start true) { last_price = some (whole 3) }

on_sell_lem_example :
    (IsFollowed cfg.copy_trade holding alpha_sell watching
      → on_event cfg false tiers holding
          (on_sell alpha_sell (λ n s. attempt (some confirmed)))
          watching
        ≡ sold
            (force_sell cfg false (λ n s. attempt (some confirmed)) holding mirror_exit watching))
    × (¬ (IsFollowed cfg.copy_trade holding alpha_sell watching)
        → on_event cfg false tiers holding
            (on_sell alpha_sell (λ n s. attempt (some confirmed)))
            watching
          ≡ next watching)
on_sell_lem_example =
    on_sell_lem cfg false tiers holding alpha_sell (λ n s. attempt (some confirmed)) watching

copy_exit_lem_example :
    (copy_exit (whole 40) (minus 25) 10 cfg.copy_trade tiers false 60
      ≡ decide_exit_dip_buy position (minus 25) 10 (as_dip_buy_exit cfg.copy_trade 60) tiers)
    × ((r : ExitReason Fixed)
        → (copy_exit (whole 40) (minus 25) 10 cfg.copy_trade tiers true 60 ≡ some r) ↔ (
            (IsTimeUp 60 10 × (r ≡ max_hold_time 10 (minus 25)))
            ⊎ (¬ (IsTimeUp 60 10) × IsStopped (whole 20) (minus 25) × (r ≡ stop_loss (minus 25)))))
copy_exit_lem_example = copy_exit_lem position (minus 25) 10 cfg.copy_trade tiers 60

-- The fourth byte of the followed wallet's name lies inside a character.
abbrev odd_alpha : AlphaTrade Fixed
odd_alpha = record alpha { trader = "al…pha-wallet" }

copy_handle-panics_example :
    (let c = copy_handle (λ s. none) cfg false true odd_alpha copy_env copy_shared in
      let left = c.shared.open_positions in
      let leaking = IsLeaking (λ s. none) cfg false true odd_alpha copy_env copy_shared in
      ((c.panicked ≡ true) ↔ (IsCut odd_alpha.mint ⊎ leaking))
      × (leaking → left ≡ 0 + 1)
      × (¬ leaking → left ≡ 0)
      × (IsAscii odd_alpha.mint
          → IsAscii odd_alpha.trader
          → ¬ (IsEndless (λ s. none) cfg false true odd_alpha copy_env)
          → c.panicked ≡ false))
copy_handle-panics_example =
    copy_handle-panics (λ s. none) cfg false true odd_alpha copy_env copy_shared
      (λ s. refl, λ s. refl, λ s. refl) (omega arith)
