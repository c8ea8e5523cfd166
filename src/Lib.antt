-- ===== src/Lib.antt =====
-- hades-ps-trader: a bot that trades tokens of pump.fun after their graduation to PumpSwap. For
-- each graduation it runs a session, which polls a price, watches for an entry signal, buys, and
-- sells by its exit rules. This library models the trading logic of the bot.
--
-- The parts, and the files that model them (paths from the repository's root):
--
-- - Config: the records of src/config.rs; Config/Defaults has their `Default` instances.
-- - Position: src/position.rs. Position/Tiers has `parse_tiers`, Position/Exit the proofs on
--   `decide_exit`, Position/Peak those on `update_peak`.
-- - Macd: src/macd.rs. Macd/Candles is on the aggregator, Macd/Warmup on the number of closes
--   before the first answer, Macd/Crossing on the crossovers.
-- - Rug: src/rug.rs. Rug/History is on the samples and peaks, Rug/Verdict on `is_rugged`.
-- - Capitulation: `CapitulationDetector` of src/capitulation.rs; Firing, Debounce and Sustain are
--   on its signals.
-- - DipBuy: `DipBuyDetector` of src/dip_buy.rs; Recovery and Firing are on its filters and
--   signals.
-- - Spend: `DailySpendTracker` of src/dip_buy.rs; Cap and History are on the cap.
-- - Trader: `buy`, `sell_all`, `submit` and `confirm` of src/trader.rs; Confirm, Escalation and
--   Sending are on them. Trader/Bundle has `send_bundle`, whose result is what `submit` takes as
--   data; Landing is on the latter.
-- - Session: `try_buy`, `try_sell`, `run_filters` and the guards of `handle` of src/session.rs.
--   Session/Loop has the stages of one round of `run_session`, in the order of the source,
--   Session/Run the set-up, the rounds and the forced sell at the end; their records are in
--   Session/State and Session/Loop/Data. Session/Handle has `handle` and the task of a
--   graduation. Session/Slot, Accounting, Returns, Entry and Dry have the proofs on them, with
--   Stages, Interval, Opening, Filters and Graduation.
-- - PumpPortal: src/pumpportal.rs, the frames, the loops over the messages and the waits;
--   Listener has the two listeners over all their connections. Frames, Backoff and Feed are on
--   them.
-- - Copy: src/copy_session.rs. Copy has `alpha_closed`, `copy_exit` and `do_sell`, Copy/Watch the
--   loop of `copy_handle` that watches a position, Copy/Entry what follows the answer to its buy,
--   and Copy/Handle the session from its first line, with its panics. Exit, Mirror, Closing,
--   Slot, Spends, Deadline, Panic and Paper are on them.
-- - Dispatch: the copy-trade mode of src/main.rs, with the cooldowns, the names of the wallets,
--   the wait at a shutdown, and the liquidate mode. Dispatch/Loop has the `select!` loop around
--   them. Cooldown, Spacing, Routing, Names and Liquidate are on them.
-- - Startup: the warnings of src/main.rs on the configuration; Window is on the one about the
--   warm-up of the indicator.
-- - Chain: accounts, keys and little-endian numbers, as src/onchain.rs and src/pumpswap.rs read
--   them; Chain/Layout has the token account as the program writes it.
-- - PumpSwap: src/pumpswap.rs; Price and Discovery, with Owners, are on `fetch_pool_state` and
--   `find_pool`.
-- - PriceFeed: src/price_feed.rs; Polling is on the attempts to discover the pool.
-- - Onchain: src/onchain.rs. Onchain/Metadata has the names of a token, with Borsh, Extensions
--   and Mint on them; Onchain/Balance the balances, with Held; Onchain/Counts the counts, with
--   Paging; Onchain/Holders the concentration, with Largest.
-- - Labels and Discord: the texts of labels, and src/discord.rs; Discord/Posting is on when it
--   posts. Base/Short has `short`, which cuts a text at byte offsets.
-- - Slots: the counter `open_positions` of src/session.rs under interleaved sessions.
-- - Base, Float and Clock are shared: the library's names, the interface of f64, instants and
--   rolling windows. Examples has concrete inputs.
--
-- A session (Session/Loop) feeds each price to the rug guard, the exit rules of its position, the
-- detector of the entry mode that is on, and the candles; an entry goes through `try_buy`, which
-- asks the tracker (Spend), reserves a slot, and calls the trader; an exit goes through
-- `try_sell`. In the copy-trade mode the dispatch (Dispatch) turns the trades of the feed
-- (PumpPortal) into sessions (Copy/Handle), which use the same tracker, counter and trader, and
-- which a sell of the followed wallet ends.
--
-- Numbers: f64 is a type with the operations that the code uses and no laws (`Float`); where a
-- theorem needs that numbers are ordered it takes `IsOrdered`, which holds of f64 with its NaN.
-- Float/Fixed is a concrete instance. Counters are natural numbers with the wrap-around of their
-- machine type written out. Instants and durations are nanoseconds on the monotonic clock.
--
-- The outside: what the RPC node, PumpPortal and the block engine answer, the instants that the
-- code reads, and what other sessions do to the shared state between two steps of a session are
-- data of the environment records (`Attempt`, `BuyEnv`, `TickEnv`, `EndEnv`, `CopyEnv`, `Node`,
-- `HolderNode`, `BalanceTry`). JSON is the interface `Json`. A panic is `none`, the error
-- `panicked` of `find_pool`, or the field `panicked` of what a copy session leaves. The text of a
-- reason is the data that it prints.
--
-- Bounds: the loop of `confirm` is given 122 rounds, two a second for its minute and two more.
-- The attempts of a trade are counted down from 3 and 20 as in the source. A session's rounds
-- follow the list of its events, so a theorem on its end is one on any finite run of prices: with
-- a `max_monitor_time` of 0 the code itself goes on while its feed does. An instant holds less
-- than 2^63 seconds, and an addition that leads past them panics, in the deadlines of both kinds
-- of session. The walk over the extensions of a mint has as many rounds as the mint has bytes,
-- and each round moves on by four bytes at least. The retries of src/onchain.rs and
-- src/price_feed.rs are counted down as in the source.
--
-- Not modelled: logging, the HTTP post to Discord, the wallet file, the loading of the
-- configuration, the text of JSON, signing and HTTP, the WebSocket, and the command line, the
-- signals and the spawning of tasks in src/main.rs, since they are input and output; the
-- derivation of addresses and the parsing of keys, which are library code.
pub mod Base
pub mod Float
pub mod Config
pub mod Position
pub mod Macd
pub mod Rug
pub mod Capitulation
pub mod DipBuy
pub mod Spend
pub mod Clock
pub mod Trader
pub mod Session
pub mod Slots
pub mod Startup
pub mod Labels
pub mod Discord
pub mod PumpPortal
pub mod Copy
pub mod Dispatch
pub mod Chain
pub mod PriceFeed
pub mod Onchain
pub mod PumpSwap
pub mod Examples
