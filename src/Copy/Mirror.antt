-- ===== src/Copy/Mirror.antt =====
-- What src/copy_session.rs takes for the close of the position by the followed wallet
-- (`alpha_closed`), and what a sell of that wallet does to the session.
use hades_ps_trader.Base.{ℕ, ◌≡◌, ◌↔◌, ◌⊎◌, Bool, true, false, Option, none, some, List, arith}
use hades_ps_trader.Base.Text.{eq_iff}
use hades_ps_trader.Float.{Float}
use hades_ps_trader.Config.{Config, CopyTradeConfig}
use hades_ps_trader.Position.{TrailTier}
use hades_ps_trader.PumpPortal.{AlphaTrade}
use hades_ps_trader.Trader.{Attempt}
use hades_ps_trader.Copy.{mirror_exit, Holding, closed_by, alpha_closed}
use hades_ps_trader.Copy.Watch.{
  Watching, sold, next, on_sell, is_theirs, is_exit, force_sell, on_event,
}

module _ {F : Type 0} ⦃fl : Float F⦄ where
  open fl use {of_ℕ, mul, le}

  -- Both balances are known, that of the entry is above 0, and more than the fraction of it is
  -- left.
  abbrev pub IsStillIn : F → Option F → Option F → Type 0
  IsStillIn close_fraction (some entry) (some post) =
      (le entry (of_ℕ 0) ≡ false) × (le post (mul entry close_fraction) ≡ false)
  IsStillIn close_fraction none post = ⊥
  IsStillIn close_fraction (some entry) none = ⊥

  alpha_closed_lem :
      (entry post : Option F) (close_fraction : F) (first_sell : Bool)
      → (alpha_closed entry post close_fraction first_sell ≡ false)
        ↔ ((first_sell ≡ false) × IsStillIn close_fraction entry post)
  unfolding alpha_closed closed_by
  alpha_closed_lem none none close_fraction first_sell = ground arith
  alpha_closed_lem none (some post) close_fraction first_sell = ground arith
  alpha_closed_lem (some entry) none close_fraction first_sell = ground arith
  alpha_closed_lem (some entry) (some post) close_fraction first_sell = ground arith

  -- A message of the mirror feed that closes the position.
  abbrev pub IsFollowed : CopyTradeConfig F → Holding F → AlphaTrade F → Watching F → Type 0
  IsFollowed cc h t w =
      (w.mirror_open ≡ true)
      × (t.tx_type ≡ "sell")
      × (t.mint ≡ h.mint)
      × (t.trader ≡ h.alpha_wallet)
      × ((cc.mirror_exit_on_first_sell ≡ true)
          ⊎ (¬ (IsStillIn cc.mirror_close_fraction h.alpha_entry_balance t.token_balance)))

  -- A message of the mirror feed ends the session with a sell if the feed is open, the message is
  -- a sell of this mint by the followed wallet, and the wallet counts as out: by the first sell
  -- where that is configured, else unless both its balances are known, that of the entry is above
  -- 0 and more than the fraction of it is left. Every other message changes nothing.
  pub on_sell_lem :
      (cfg : Config F) (dry_run : Bool) (tiers : List (TrailTier F)) (h : Holding F)
      (t : AlphaTrade F) (attempts : ℕ → F → Attempt) (w : Watching F)
      → (IsFollowed cfg.copy_trade h t w
          → on_event cfg dry_run tiers h (on_sell t attempts) w
            ≡ sold (force_sell cfg dry_run attempts h mirror_exit w))
        × (¬ (IsFollowed cfg.copy_trade h t w)
            → on_event cfg dry_run tiers h (on_sell t attempts) w ≡ next w)
  unfolding on_event is_exit is_theirs
  on_sell_lem cfg dry_run tiers h t attempts w =
      let cc = cfg.copy_trade in
      let closed =
        alpha_closed_lem h.alpha_entry_balance t.token_balance cc.mirror_close_fraction
          cc.mirror_exit_on_first_sell in
      let a = eq_iff t.tx_type "sell" in
      let b = eq_iff t.mint h.mint in
      let c = eq_iff t.trader h.alpha_wallet in
      (λ f. ground (arith, closed, a, b, c, f), λ n. ground (arith, closed, a, b, c, n))
