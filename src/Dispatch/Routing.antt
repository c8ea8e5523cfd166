-- ===== src/Dispatch/Routing.antt =====
-- What the loop of src/main.rs does with one trade of a followed wallet.
use hades_ps_trader.Base.{◌≡◌, refl, true, false, ◌-◌, ◌<◌, arith}
use hades_ps_trader.Base.Text.{str_eq, eq_iff}
use hades_ps_trader.Clock.{since_lt, from_secs}
use hades_ps_trader.Config.{CopyTradeConfig}
use hades_ps_trader.Dispatch.{
  get, insert, stamp, Recent, Arrival, broadcast, skip, spawn, check_mint, check_wallet, on_trade,
}
use hades_ps_trader.Dispatch.Cooldown.{get-insert}

module _ {F : Type 0} (cc : CopyTradeConfig F) where
  abbrev pub IsSell : Arrival F → Type 0
  IsSell a = a.trade.tx_type ≡ "sell"

  -- A buy on PumpSwap by a wallet that has cooled down.
  abbrev pub IsRipe : Arrival F → Recent → Type 0
  IsRipe a r =
      (a.trade.tx_type ≡ "buy")
      × (a.trade.is_pumpswap ≡ true)
      × (since_lt a.wallet_at (get a.trade.trader r.recent_wallet)
            (from_secs cc.per_wallet_cooldown_secs)
          ≡ false)

  -- The mint has cooled down too.
  abbrev pub IsFresh : Arrival F → Recent → Type 0
  IsFresh a r =
      since_lt a.mint_at (get a.trade.mint r.recent) (from_secs cc.reentry_cooldown_secs) ≡ false

  pub on_trade_lem :
      (a : Arrival F) (r : Recent)
      → (IsSell a → on_trade cc a r ≡ (r, broadcast a.trade))
        × (IsRipe a r → IsFresh a r → (on_trade cc a r).1 ≡ spawn a)
        × (¬ (IsSell a) → ¬ (IsRipe a r) → on_trade cc a r ≡ (r, skip))
        × (IsRipe a r
            → ¬ (IsFresh a r)
            → on_trade cc a r ≡ (
              record r { recent_wallet = insert a.trade.trader a.wallet_at r.recent_wallet },
              skip,
            ))
  unfolding on_trade check_wallet check_mint stamp
  on_trade_lem a r =
      let sell = eq_iff a.trade.tx_type "sell" in
      let buy = eq_iff a.trade.tx_type "buy" in
      (
        λ s. ground (arith, sell, s),
        λ ripe fresh.
            let not_sell : str_eq a.trade.tx_type "sell" ≡ false = rw ripe.0 refl in
            ground (arith, not_sell, buy, ripe, fresh),
        λ s ripe. ground (arith, sell, buy, s, ripe),
        λ ripe fresh.
            let not_sell : str_eq a.trade.tx_type "sell" ≡ false = rw ripe.0 refl in
            ground (arith, not_sell, buy, ripe, fresh),
      )

  -- A buy on PumpSwap by a wallet that has cooled down, of a mint that has not, is skipped, and
  -- starts the cooldown of the wallet all the same: the next buy by that wallet within its
  -- cooldown is skipped as well, of whatever mint, although nothing was copied.
  pub skipped-on_trade :
      (a b : Arrival F) (r : Recent)
      → IsRipe a r
      → ¬ (IsFresh a r)
      → ¬ (IsSell b)
      → b.trade.trader ≡ a.trade.trader
      → b.wallet_at - a.wallet_at < from_secs cc.per_wallet_cooldown_secs
      → ((on_trade cc a r).1 ≡ skip) × ((on_trade cc b (on_trade cc a r).0).1 ≡ skip)
  skipped-on_trade a b r ripe stale not_sell same soon =
      let skipped = (on_trade_lem a r).3 ripe stale in
      let stamped = get-insert a.trade.trader a.wallet_at r.recent_wallet in
      let after = record r { recent_wallet = insert a.trade.trader a.wallet_at r.recent_wallet } in
      let waiting : ¬ (IsRipe b after) = λ ripe_b. ground (arith, ripe_b, same, stamped, soon) in
      rw skipped (refl, ground (arith, (on_trade_lem b after).2 not_sell waiting))
