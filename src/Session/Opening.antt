-- ===== src/Session/Opening.antt =====
-- What a position that src/session.rs opens records, and when it may open one.
use hades_ps_trader.Base.{ℕ, ◌≡◌, refl, Bool, false, Option, none, some, List, arith}
use hades_ps_trader.Base.Result.{Result, ok, err}
use hades_ps_trader.Clock.{from_secs, since_lt}
use hades_ps_trader.Float.{Float}
use hades_ps_trader.Config.{Config}
use hades_ps_trader.Position.{EntryTrigger, Position}
use hades_ps_trader.Trader.{Sent, TradeError}
use hades_ps_trader.Trader
use hades_ps_trader.Session.{
  Shared, Token, TokenBalance, BuyEnv, ui_amount, amount_sol_of, check_cap, settle, after_trade,
  buy_with_slot, try_buy, reserve,
}
use hades_ps_trader.Session.Loop.{Session, TickEnv, enter}

module _ {F : Type 0} ⦃fl : Float F⦄ where
  open fl use {of_ℕ, div, le}

  -- A position of the token, with the trigger and the price of its purchase.
  pub record IsOpened (cfg : Config F) (token : Token) (trigger : EntryTrigger) (env : BuyEnv F)
      (pos : Position F) : Type 0 where
    pub mint_eq : pos.mint ≡ token.mint
    pub name_eq : pos.name ≡ token.name
    pub symbol_eq : pos.symbol ≡ token.symbol
    pub trigger_eq : pos.entry_trigger ≡ trigger
    pub cost_eq : pos.cost_sol ≡ amount_sol_of cfg
    pub peak_eq : pos.peak_pct ≡ of_ℕ 0
    pub bought_eq : pos.bought_at ≡ env.bought_at
    pub balance : TokenBalance
    pub balance_eq : env.balance ≡ ok balance
    pub positive : le (ui_amount balance) (of_ℕ 0) ≡ false
    pub price_eq : pos.entry_price_sol ≡ div (amount_sol_of cfg) (ui_amount balance)

  module _ (cfg : Config F) (token : Token) (trigger : EntryTrigger) (env : BuyEnv F) where
    settle-IsOpened :
        (sig : ℕ) (sent : List Sent) (s : Shared F) (pos : Position F)
        → (settle token trigger (amount_sol_of cfg) env sig sent s).position ≡ some pos
        → IsOpened cfg token trigger env pos
    unfolding settle
    settle-IsOpened sig sent s pos e = ground (arith, e)

    -- The trade has brought a signature.
    abbrev pub HasBought : Bool → Type 0
    HasBought dry_run =
        (sig : ℕ) × ((Trader.buy dry_run env.attempts cfg.trading.slippage).1 ≡ ok (some sig))

    after_trade-IsOpened :
        (sent : List Sent) (result : Result TradeError (Option ℕ)) (s : Shared F) (pos : Position F)
        → (after_trade cfg token trigger env sent result s).position ≡ some pos
        → IsOpened cfg token trigger env pos × ((sig : ℕ) × (result ≡ ok (some sig)))
    unfolding after_trade
    after_trade-IsOpened sent (ok (some sig)) s pos e =
        (settle-IsOpened sig sent _ pos e, (sig, refl))
    after_trade-IsOpened sent (ok none) s pos e = absurd (ground (arith, e))
    after_trade-IsOpened sent (err error) s pos e = absurd (ground (arith, e))

    buy_with_slot-IsOpened :
        (dry_run : Bool) (s : Shared F) (pos : Position F)
        → (buy_with_slot cfg dry_run token trigger env s).position ≡ some pos
        → IsOpened cfg token trigger env pos × HasBought dry_run
    unfolding buy_with_slot
    buy_with_slot-IsOpened dry_run s pos e = after_trade-IsOpened _ _ _ pos e

    try_buy-IsOpened :
        (dry_run : Bool) (s : Shared F) (pos : Position F)
        → (try_buy cfg dry_run token trigger env s).position ≡ some pos
        → IsOpened cfg token trigger env pos × HasBought dry_run
    try_buy-IsOpened dry_run s pos e =
        let checked = (check_cap trigger env.check_at (amount_sol_of cfg) s).0 in
        let bought = buy_with_slot-IsOpened dry_run (reserve (env.after_check checked)) pos in
        unfold try_buy in ground (arith, e, bought)

  -- An entry that brings a session without a position to one has the last sell, if there was one,
  -- at least the cooldown before, and a purchase that brought a signature and tokens; and the
  -- position records the mint, the name and the symbol of the token, the trigger, the amount, the
  -- instant of the purchase, a peak of 0, and the amount divided by the tokens for its price.
  pub enter-IsOpened :
      (cfg : Config F) (dry_run : Bool) (token : Token) (trigger : EntryTrigger) (env : TickEnv F)
      (s : Session F) (pos : Position F)
      → s.position ≡ none
      → (enter cfg dry_run token trigger env s).position ≡ some pos
      → (since_lt env.now s.last_sell_at (from_secs cfg.macd.cooldown_secs) ≡ false)
        × IsOpened cfg token trigger (env.buy trigger) pos
        × HasBought cfg token trigger (env.buy trigger) dry_run
  unfolding enter
  enter-IsOpened cfg dry_run token trigger env s pos before after =
      let bought = try_buy-IsOpened cfg token trigger (env.buy trigger) dry_run s.shared pos in
      ground (arith, before, after, bought)
