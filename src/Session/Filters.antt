-- ===== src/Session/Filters.antt =====
-- The entry filters of src/session.rs: what lets a session start.
use hades_ps_trader.Base.{ℕ, ◌≤◌, ◌≡◌, ◌⊎◌, ◌↔◌, Bool, true, false, arith}
use hades_ps_trader.Base.Result.{Result, ok, err}
use hades_ps_trader.Float.{Float}
use hades_ps_trader.Config.{TradingFilters}
use hades_ps_trader.Trader.{TradeError}
use hades_ps_trader.Session.{run_filters, starts}

-- The filter is off, or its query succeeded with enough.
abbrev pub HasEnough : ℕ → Result TradeError ℕ → Type 0
HasEnough minimum (ok n) = minimum ≤ n
HasEnough minimum (err e) = minimum ≡ 0

module _ {F : Type 0} ⦃fl : Float F⦄ where
  open fl use {of_ℕ, lt}

  abbrev pub IsSpread : F → Result TradeError F → Type 0
  IsSpread limit (ok frac) = (lt (of_ℕ 0) limit ≡ false) ⊎ (lt limit frac ≡ false)
  IsSpread limit (err e) = lt (of_ℕ 0) limit ≡ false

  abbrev pub Passes :
      TradingFilters F → Result TradeError ℕ → Result TradeError ℕ → Result TradeError F → Type 0
  Passes f holders txs top_ten =
      HasEnough f.min_holders holders
      × HasEnough f.min_txs txs
      × IsSpread f.top_ten_holder_percentage top_ten

  run_filters-Passes :
      (f : TradingFilters F) (holders txs : Result TradeError ℕ) (top_ten : Result TradeError F)
      → (run_filters f holders txs top_ten ≡ true) ↔ Passes f holders txs top_ten
  unfolding run_filters
  run_filters-Passes f holders txs top_ten = ground arith

  -- A session starts exactly if the mint is a public key and the filters are switched off or all
  -- pass: a filter on the holders or the transactions passes with at least its minimum, one on the
  -- top ten holders with a share that is not above its limit; a filter whose limit is not above 0
  -- always passes, and one that is on fails when its query fails.
  pub starts-Passes :
      (valid_mint : Bool) (f : TradingFilters F) (holders txs : Result TradeError ℕ)
      (top_ten : Result TradeError F)
      → (starts valid_mint f holders txs top_ten ≡ true)
        ↔ ((valid_mint ≡ true) × ((f.enabled ≡ false) ⊎ Passes f holders txs top_ten))
  unfolding starts
  starts-Passes valid_mint f holders txs top_ten =
      ground (arith, run_filters-Passes f holders txs top_ten)
