-- ===== src/PumpPortal/Frames.antt =====
-- What the parser of trade frames in src/pumpportal.rs accepts, and what it makes of a frame.
use Prim.Native.String.{String}
use hades_ps_trader.Base.{
  ◌≡◌, ◌⊎◌, ◌↔◌, inl, inr, Option-cases, true, false, Option, none, some, arith, ◌>>=◌,
}
use hades_ps_trader.Base.Text.{eq_iff}
use hades_ps_trader.PumpPortal.{
  Json, AlphaTrade, get_str, is_amm, known_type, parse_trade_frame, on_trade_frame, is_control,
}

known_type_lem : (s t : String) → (known_type s ≡ some t) ↔ ((s ≡ t) × ((t ≡ "buy") ⊎ (t ≡ "sell")))
unfolding known_type
known_type_lem s t = ground (arith, eq_iff s "buy", eq_iff s "sell")

is_amm_lem : (o : Option String) → (is_amm o ≡ true) ↔ (o ≡ some "pump-amm")
unfolding is_amm
is_amm_lem none = ground arith
is_amm_lem (some s) = ground (arith, eq_iff s "pump-amm")

module _ {V F : Type 0} (json : Json V F) where
  open json use {get, as_f64}

  -- The frame names the trade's mint, trader, type and symbol, and its balance and its venue are
  -- those of the trade; a balance that is no number and a symbol that is no text count as missing.
  pub record Describes (v : V) (t : AlphaTrade F) : Type 0 where
    pub mint_eq : get_str json v "mint" ≡ some t.mint
    pub trader_eq : get_str json v "traderPublicKey" ≡ some t.trader
    pub type_eq : get_str json v "txType" ≡ some t.tx_type
    pub known : (t.tx_type ≡ "buy") ⊎ (t.tx_type ≡ "sell")
    pub venue : (t.is_pumpswap ≡ true) ↔ (get_str json v "pool" ≡ some "pump-amm")
    pub symbol_eq : t.symbol ≡ get_str json v "symbol"
    pub balance_eq : t.token_balance ≡ (get v "newTokenBalance" >>= as_f64)

  parse_trade_frame-Describes :
      (v : V) (t : AlphaTrade F) → (parse_trade_frame json v ≡ some t) ↔ Describes v t
  unfolding parse_trade_frame
  parse_trade_frame-Describes v t = elim (Option-cases (get_str json v "txType")) [
    | inl missing ↦ ground (arith, missing)
    | inr (found, e) ↦
        ground (arith, e, known_type_lem found t.tx_type, is_amm_lem (get_str json v "pool"))
  ]

  -- A text frame of the trade feed sends a trade exactly if it is no control frame, has a mint, a
  -- trader and a type, and the type is a buy or a sell; and then the trade is the one that the
  -- frame describes.
  pub on_trade_frame-Describes :
      (v : V) (t : AlphaTrade F)
      → (on_trade_frame json v ≡ some t) ↔ ((is_control json v ≡ false) × Describes v t)
  unfolding on_trade_frame
  on_trade_frame-Describes v t = ground (arith, parse_trade_frame-Describes v t)
