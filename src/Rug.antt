-- ===== src/Rug.antt =====
-- src/rug.rs: the rug guard of one session. The text of a reason is the data that is printed.
pub mod History
pub mod Verdict
use hades_ps_trader.Base.{
  ℕ, ◌+◌, ◌-◌, ◌^◌, Bool, true, false, ◌&&◌, ◌||◌, not, Option, none, some, ltb, if◌then◌else◌,
}
use hades_ps_trader.Float.{Float}
use hades_ps_trader.Config.{RugFilter}

pub record RugGuard (F : Type 0) : Type 0 where
  pub samples : ℕ
  pub peak_price : F
  pub peak_pool_sol : F

pub data RugReason (F : Type 0) : Type 0 where
  below_floor : (pool_sol floor : F) → RugReason F
  drained : (drop_pct peak limit : F) → RugReason F
  collapsed : (drawdown_pct peak limit : F) → RugReason F

-- `u32::saturating_add`
abbrev pub saturating_add : ℕ → ℕ → ℕ
saturating_add a b = if ltb (a + b) (2 ^ 32) then a + b else 2 ^ 32 - 1

module _ {F : Type 0} ⦃fl : Float F⦄ where
  open fl use {of_ℕ, sub, mul, div, lt}

  unfoldable pub new_guard : RugGuard F
  new_guard = record { samples = 0; peak_price = of_ℕ 0; peak_pool_sol = of_ℕ 0 }

  unfoldable pub observe : RugGuard F → F → F → RugGuard F
  observe g price_sol pool_sol = record {
    samples = saturating_add g.samples 1;
    peak_price = if lt g.peak_price price_sol then price_sol else g.peak_price;
    peak_pool_sol = if lt g.peak_pool_sol pool_sol then pool_sol else g.peak_pool_sol;
  }

  -- (1 - now / peak) * 100
  abbrev pub drop_from : F → F → F
  drop_from peak now = mul (sub (of_ℕ 1) (div now peak)) (of_ℕ 100)

  unfoldable pub is_rugged : RugGuard F → RugFilter F → F → F → Option (RugReason F)
  is_rugged g f price_sol pool_sol =
      if not f.enabled || ltb g.samples f.min_samples
      then none
      else if lt (of_ℕ 0) f.min_pool_sol && lt pool_sol f.min_pool_sol
      then some (below_floor pool_sol f.min_pool_sol)
      else if lt (of_ℕ 0) f.max_liquidity_drop_pct
          && lt (of_ℕ 0) g.peak_pool_sol
          && lt f.max_liquidity_drop_pct (drop_from g.peak_pool_sol pool_sol)
      then some
          (drained (drop_from g.peak_pool_sol pool_sol) g.peak_pool_sol f.max_liquidity_drop_pct)
      else if lt (of_ℕ 0) f.max_drawdown_pct
          && lt (of_ℕ 0) g.peak_price
          && lt f.max_drawdown_pct (drop_from g.peak_price price_sol)
      then some (collapsed (drop_from g.peak_price price_sol) g.peak_price f.max_drawdown_pct)
      else none
