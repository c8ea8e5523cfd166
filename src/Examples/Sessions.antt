-- ===== src/Examples/Sessions.antt =====
-- Witnesses of the theorems on sessions and slots.
use hades_ps_trader.Base.{
  ℕ, ◌≡◌, ◌<◌, ◌*◌, ◌^◌, refl, true, false, none, some, [], All, arith, is_some,
}
use hades_ps_trader.Float.Fixed.{Fixed, fin, fixed_float, whole}
use hades_ps_trader.Clock.{from_secs, IsLate, since_lt, evict}
use hades_ps_trader.Position.{
  Position, dip_buy, pnl_pct, update_peak, decide_exit, decide_exit_dip_buy, trail_exit, find_tier,
}
use hades_ps_trader.Macd.{Ema, Macd}
use hades_ps_trader.Rug.{new_guard}
use hades_ps_trader.Capitulation.{new_capitulation}
use hades_ps_trader.DipBuy.{new_dip_buy}
use hades_ps_trader.Spend
use hades_ps_trader.Trader
use hades_ps_trader.Session.{
  try_buy, check_cap, buy_with_slot, after_trade, record_cap, settle, ui_amount, amount_sol_of,
}
use hades_ps_trader.Base.Result.{ok, err}
use hades_ps_trader.Config.{TradingFilters}
use hades_ps_trader.Trader.{rpc}
use hades_ps_trader.PumpPortal.{MigrationEvent}
use hades_ps_trader.Onchain.{no_extension}
use hades_ps_trader.Session.Handle.{Guards, graduate}
use hades_ps_trader.Session.Graduation.{Outcome, graduate-EndsWell}
use hades_ps_trader.Session.Opening.{IsOpened, HasBought, enter-IsOpened}
use hades_ps_trader.Session.Loop.{enter, Session, trade_stages, exit_stage, watch, follow}
use hades_ps_trader.Session.Run.{run_session}
use hades_ps_trader.Session.Slot.{with_slot, try_buy-with_slot}
use hades_ps_trader.Session.Stages.{IsQuietEvent, IsQuietTick, Settled}
use hades_ps_trader.Session.Interval.{Surely, IsRunnable}
use hades_ps_trader.Session.Returns.{run_session-returns}
use hades_ps_trader.Session.Dry.{IsDry, run_session-IsDry}
use hades_ps_trader.Session.Entry.{IsUntraded, trade_stages-IsUntraded}
use hades_ps_trader.Slots.{
  Slots, begin, moves, arrives, opens, IsCounted, start, arrive, open_position, reachable-IsCounted,
}
use hades_ps_trader.Examples.{
  cfg, token, events, end_env, shared, buy_env, tick_at, position, tiers,
}

runnable : IsRunnable cfg.macd
runnable = record {
  fast_pos = omega arith;
  fast_slow = omega arith;
  signal_pos = omega arith;
  candle_pos = omega arith;
}

quiet_tick : (secs : ℕ) → IsQuietTick (tick_at secs)
quiet_tick secs = (λ s. refl, λ s. refl, λ t. (λ s. refl, λ s. refl, λ s. refl))

quiet : All (IsQuietEvent {F = Fixed}) events
quiet = (
  quiet_tick 0,
  (quiet_tick 1, (quiet_tick 2, (quiet_tick 3, (quiet_tick 4, (quiet_tick 5, (tt, tt)))))),
)

timely : ¬ (IsLate 0 cfg.trading.max_monitor_time)
timely late = omega (arith, late)

run_session-returns_example :
    Surely (Settled 1) (run_session (λ s. none) cfg false token 0 events end_env shared)
run_session-returns_example =
    run_session-returns (λ s. none) cfg false token 0 events end_env shared runnable timely quiet
      (λ s. refl) (omega arith)

run_session-IsDry_example :
    Surely IsDry (run_session (λ s. none) cfg true token 0 events end_env shared)
run_session-IsDry_example =
    run_session-IsDry (λ s. none) cfg token 0 events end_env shared runnable timely

try_buy-with_slot_example :
    (let b = try_buy cfg false token dip_buy buy_env shared in
      (b.shared.open_positions ≡ with_slot 1 (is_some b.position))
      × (is_some b.position ≡ true → 1 < 2))
try_buy-with_slot_example =
    try_buy-with_slot cfg token dip_buy false buy_env shared (λ s. refl, λ s. refl, λ s. refl)
      (omega arith)

-- A held position, two candles after its start.
abbrev held : Session Fixed
held = record {
  position = some position;
  last_sell_at = none;
  last_price = some (whole 2);
  tick = 2;
  rug_guard = new_guard;
  cap_detector = new_capitulation cfg.capitulation;
  dip_buy_detector = new_dip_buy cfg.dip_buy 0;
  aggregator = record { interval = from_secs 1; bar_start = some 0; last = whole 2 };
  macd = indicator;
  shared = shared;
  sent = [];
  notices = [];
}
  where
    ema : Ema Fixed
    ema = record { period = 1; k = whole 1; value = none; warmup_sum = whole 0; warmup_count = 0 }

    indicator : Macd Fixed
    indicator = record {
      fast = ema;
      slow = ema;
      signal = ema;
      prev_macd = none;
      prev_signal = none;
    }

-- A gain of 26%.
abbrev price : Fixed
price = fin (252 * 10 ^ 7) 0

stays : is_some (exit_stage cfg false tiers tiers price (tick_at 2) held).position ≡ true
unfolding exit_stage watch follow pnl_pct update_peak decide_exit decide_exit_dip_buy trail_exit
    find_tier
stays = refl

trade_stages-IsUntraded_example :
    Surely
      (IsUntraded (exit_stage cfg false tiers tiers price (tick_at 2) held))
      (trade_stages cfg false token tiers tiers price (whole 90) (tick_at 2) held)
trade_stages-IsUntraded_example =
    trade_stages-IsUntraded cfg false token (tick_at 2) tiers tiers price (whole 90) held
      (omega arith) stays

-- Two sessions arrive at a cap of one, and the first of them opens a position.
abbrev reached : Slots
reached = open_position (arrive 1 (arrive 1 (start 2)))

second_idle : 0 < (arrive 1 (start 2)).idle
unfolding arrive
second_idle = omega arith

first_buying : 0 < (arrive 1 (arrive 1 (start 2))).buying
unfolding arrive
first_buying = omega arith

reachable-IsCounted_example : IsCounted 1 2 reached
reachable-IsCounted_example = reachable-IsCounted 1 2 reached (omega arith) (
    moves _ _
      (moves _ _ (moves _ _ begin (arrives (start 2) (omega arith))) (arrives _ second_idle))
      (opens _ first_buying))

-- The same session without its position, and the position that an entry opens.
abbrev flat : Session Fixed
flat = record held { position = none }

abbrev opened : Position Fixed
opened = record {
  mint = "mint";
  name = none;
  symbol = none;
  entry_price_sol = whole 2;
  cost_sol = fin (10 ^ 8) 0;
  peak_pct = whole 0;
  bought_at = from_secs 2;
  entry_trigger = dip_buy;
}

enters : (enter cfg false token dip_buy (tick_at 2) flat).position ≡ some opened
unfolding enter try_buy check_cap Spend.check Spend.evict_old evict buy_with_slot Trader.buy
    Trader.escalate Trader.submit Trader.submit_rpc Trader.confirmed_as Trader.confirm
    Trader.confirm_from Trader.poll_once after_trade record_cap settle ui_amount amount_sol_of
enters = refl

enter-IsOpened_example :
    (since_lt (from_secs 2) none (from_secs 10) ≡ false)
    × IsOpened cfg token dip_buy buy_env opened
    × HasBought cfg token dip_buy buy_env false
enter-IsOpened_example = enter-IsOpened cfg false token dip_buy (tick_at 2) flat opened refl enters

abbrev filters : TradingFilters Fixed
filters = record {
  enabled = true;
  min_holders = 100;
  min_txs = 50;
  top_ten_holder_percentage = fin (3 * 10 ^ 8) 0;
}

-- The filters ask for holders and transactions, and the query for the latter fails.
abbrev guards : Guards Fixed
guards = record {
  valid_mint = true;
  holders = ok 120;
  txs = err rpc;
  top_ten = ok (fin (10 ^ 8) 0);
}

abbrev graduation : MigrationEvent
graduation = record { mint = "mint"; name = none; symbol = none }

graduate-EndsWell_example :
    Outcome
      (λ cs. "name")
      (err no_extension)
      (λ s. none)
      (record cfg { tradingfilters = filters })
      false
      guards
      graduation
      0
      events
      end_env
      shared
      "mint"
      (graduate
        (λ cs. "name")
        (err no_extension)
        (λ s. none)
        (record cfg { tradingfilters = filters })
        false
        guards
        graduation
        0
        events
        end_env
        shared)
graduate-EndsWell_example =
    graduate-EndsWell (λ cs. "name") (err no_extension) (λ s. none)
      (record cfg { tradingfilters = filters }) false guards graduation 0 events end_env shared
      runnable quiet (λ s. refl) (omega arith)
