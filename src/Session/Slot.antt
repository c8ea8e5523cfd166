-- ===== src/Session/Slot.antt =====
-- The slot that `try_buy` of src/session.rs reserves, and where it gives it back.
use hades_ps_trader.Base.{
  ℕ, ◌+◌, ◌^◌, ◌<◌, ◌≡◌, ◌∙◌, Bool, true, Option, none, some, is_some, arith, if◌then◌else◌, List,
}
use hades_ps_trader.Base.Result.{Result, ok, err}
use hades_ps_trader.Float.{Float}
use hades_ps_trader.Config.{Config}
use hades_ps_trader.Position.{EntryTrigger}
use hades_ps_trader.Trader.{Sent, TradeError}
use hades_ps_trader.Trader
use hades_ps_trader.Session.{
  Shared, Token, BuyEnv, fetch_add, fetch_sub, reserve, release, amount_sol_of, check_cap,
  record_cap, settle, after_trade, buy_with_slot, try_buy,
}

-- The counter's value when a session that found it at `n` holds a position or not.
abbrev pub with_slot : ℕ → Bool → ℕ
with_slot n held = if held then n + 1 else n

fetch_sub-fetch_add : (n : ℕ) → n + 1 < 2 ^ 64 → fetch_sub (fetch_add n) ≡ n
fetch_sub-fetch_add n h = omega arith

-- Other sessions leave the counter as it is.
abbrev pub IsQuiet : {F : Type 0} → (Shared F → Shared F) → Type 0
IsQuiet {F} f = (s : Shared F) → (f s).open_positions ≡ s.open_positions

abbrev pub IsQuietBuy : {F : Type 0} → BuyEnv F → Type 0
IsQuietBuy env = IsQuiet env.after_check × IsQuiet env.during_buy × IsQuiet env.during_balance

module _ {F : Type 0} ⦃fl : Float F⦄ (cfg : Config F) (token : Token) (trigger : EntryTrigger) where
  open fl use {of_ℕ, div, lt, le}

  check_cap-open :
      (now : ℕ) (amount : F) (s : Shared F)
      → (check_cap trigger now amount s).0.open_positions ≡ s.open_positions
  unfolding check_cap
  check_cap-open now amount s = ground arith

  record_cap-open :
      (a b : ℕ) (amount : F) (s : Shared F)
      → (record_cap trigger a b amount s).open_positions ≡ s.open_positions
  unfolding record_cap
  record_cap-open a b amount s = ground arith

  -- With the slot taken, a purchase that opens no position gives it back.
  settle-with_slot :
      (amount : F) (env : BuyEnv F) (sig : ℕ) (sent : List Sent) (s : Shared F) (n : ℕ)
      → n + 1 < 2 ^ 64
      → s.open_positions ≡ n + 1
      → (let b = settle token trigger amount env sig sent s in
          b.shared.open_positions ≡ with_slot n (is_some b.position))
  unfolding settle release
  settle-with_slot amount env sig sent s n small e = ground arith

  after_trade-with_slot :
      (env : BuyEnv F) (sent : List Sent) (result : Result TradeError (Option ℕ)) (s : Shared F)
      (n : ℕ)
      → IsQuietBuy env
      → n + 1 < 2 ^ 64
      → s.open_positions ≡ n + 1
      → (let b = after_trade cfg token trigger env sent result s in
          b.shared.open_positions ≡ with_slot n (is_some b.position))
  unfolding after_trade release
  after_trade-with_slot env sent (ok (some sig)) s n quiet small e =
      let amount = amount_sol_of cfg in
      let recorded = record_cap trigger env.record_at env.total_at amount s in
      settle-with_slot amount env sig sent (env.during_balance recorded) n small
        (quiet.2 recorded ∙ record_cap-open env.record_at env.total_at amount s ∙ e)
  after_trade-with_slot env sent (ok none) s n quiet small e =
      let kept = record_cap-open env.record_at env.total_at (amount_sol_of cfg) s in
      omega (arith, kept, e)
  after_trade-with_slot env sent (err error) s n quiet small e = omega (arith, e)

  buy-with_slot :
      (dry_run : Bool) (env : BuyEnv F) (s : Shared F) (n : ℕ)
      → IsQuietBuy env
      → n + 1 < 2 ^ 64
      → s.open_positions ≡ n + 1
      → (let b = buy_with_slot cfg dry_run token trigger env s in
          b.shared.open_positions ≡ with_slot n (is_some b.position))
  unfolding buy_with_slot
  buy-with_slot dry_run env s n quiet small e =
      let (sent, result) = Trader.buy dry_run env.attempts cfg.trading.slippage in
      after_trade-with_slot env sent result (env.during_buy s) n quiet small (quiet.1 s ∙ e)

  -- If other sessions leave the counter as it is and it does not overflow, a call of `try_buy`
  -- adds one to it exactly if it returns a position, whichever step of the purchase fails, and it
  -- returns one only where the counter was below `max_positions`.
  pub try_buy-with_slot :
      (dry_run : Bool) (env : BuyEnv F) (s : Shared F)
      → IsQuietBuy env
      → s.open_positions + 1 < 2 ^ 64
      → (let b = try_buy cfg dry_run token trigger env s in
          (b.shared.open_positions ≡ with_slot s.open_positions (is_some b.position))
          × (is_some b.position ≡ true → s.open_positions < cfg.trading.max_positions))
  unfolding try_buy
  try_buy-with_slot dry_run env s quiet small =
      let (checked, may_buy) = check_cap trigger env.check_at (amount_sol_of cfg) s in
      let kept = check_cap-open env.check_at (amount_sol_of cfg) s in
      let q1 = quiet.0 checked in
      let bought =
        buy-with_slot dry_run env (reserve (env.after_check checked)) s.open_positions quiet
          small in
      unfold reserve release in ground (arith, kept, q1, bought)
