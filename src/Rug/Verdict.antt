-- ===== src/Rug/Verdict.antt =====
-- What the verdict of src/rug.rs says, for the whole history of a session.
use hades_ps_trader.Base.{◌≤◌, ◌≡◌, ◌⊎◌, true, Option, none, some, List, map, length, arith}
use hades_ps_trader.Float.{Float, IsOrdered}
use hades_ps_trader.Float.Max.{IsMax, AreNumbers}
use hades_ps_trader.Config.{RugFilter}
use hades_ps_trader.Rug.{
  RugGuard, RugReason, below_floor, drained, collapsed, new_guard, is_rugged, drop_from,
  saturating_add,
}
use hades_ps_trader.Rug.History.{observe_all, observe_all-IsMax, observe_all-samples}

module _ {F : Type 0} ⦃fl : Float F⦄ where
  open fl use {of_ℕ, lt, le}

  -- A limit of 0 or less, or NaN, switches a test off.
  abbrev pub IsBelowFloor : RugFilter F → F → Type 0
  IsBelowFloor f pool = (lt (of_ℕ 0) f.min_pool_sol ≡ true) × (lt pool f.min_pool_sol ≡ true)

  abbrev pub HasDropped : F → F → F → Type 0
  HasDropped limit peak now =
      (lt (of_ℕ 0) limit ≡ true)
      × (lt (of_ℕ 0) peak ≡ true)
      × (lt limit (drop_from peak now) ≡ true)

  abbrev pub CanJudge : RugGuard F → RugFilter F → Type 0
  CanJudge g f = (f.enabled ≡ true) × (f.min_samples ≤ g.samples)

  -- The three tests in their order, and what each reason reports.
  abbrev pub RugDecision : RugGuard F → RugFilter F → F → F → Option (RugReason F) → Type 0
  RugDecision g f price pool none =
      ¬ (CanJudge g f)
      ⊎ (¬ (IsBelowFloor f pool)
          × ¬ (HasDropped f.max_liquidity_drop_pct g.peak_pool_sol pool)
          × ¬ (HasDropped f.max_drawdown_pct g.peak_price price))
  RugDecision g f price pool (some (below_floor p floor)) =
      CanJudge g f × IsBelowFloor f pool × (p ≡ pool) × (floor ≡ f.min_pool_sol)
  RugDecision g f price pool (some (drained drop peak limit)) =
      CanJudge g f
      × ¬ (IsBelowFloor f pool)
      × HasDropped f.max_liquidity_drop_pct g.peak_pool_sol pool
      × (drop ≡ drop_from g.peak_pool_sol pool)
      × (peak ≡ g.peak_pool_sol)
      × (limit ≡ f.max_liquidity_drop_pct)
  RugDecision g f price pool (some (collapsed drop peak limit)) =
      CanJudge g f
      × ¬ (IsBelowFloor f pool)
      × ¬ (HasDropped f.max_liquidity_drop_pct g.peak_pool_sol pool)
      × HasDropped f.max_drawdown_pct g.peak_price price
      × (drop ≡ drop_from g.peak_price price)
      × (peak ≡ g.peak_price)
      × (limit ≡ f.max_drawdown_pct)

  is_rugged-RugDecision :
      (g : RugGuard F) (f : RugFilter F) (price pool : F)
      → RugDecision g f price pool (is_rugged g f price pool)
  unfolding is_rugged
  is_rugged-RugDecision g f price pool = ground arith

  -- For numbers in their order and ticks without NaN, the verdict of a guard that has seen the
  -- ticks of a session is that of the three tests in their order, with the number of ticks for the
  -- samples (up to the largest u32) and the greatest price and pool seen, or 0, for the peaks.
  pub session-RugDecision :
      IsOrdered F
      → (ticks : List (F × F)) (f : RugFilter F) (price pool : F) → le (of_ℕ 0) (of_ℕ 0) ≡ true
      → AreNumbers (map (λ t. t.0) ticks)
      → AreNumbers (map (λ t. t.1) ticks)
      → let g = observe_all new_guard ticks in
        RugDecision g f price pool (is_rugged g f price pool)
        × IsMax (of_ℕ 0) (map (λ t. t.0) ticks) g.peak_price
        × IsMax (of_ℕ 0) (map (λ t. t.1) ticks) g.peak_pool_sol
        × (g.samples ≡ saturating_add 0 (length ticks))
  unfolding new_guard
  session-RugDecision laws ticks f price pool z ns ms =
      let (prices, pools) = observe_all-IsMax laws ticks new_guard z z ns ms in
      (
        is_rugged-RugDecision (observe_all new_guard ticks) f price pool,
        prices,
        pools,
        observe_all-samples ticks new_guard (omega arith),
      )
