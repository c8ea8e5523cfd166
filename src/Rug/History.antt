-- ===== src/Rug/History.antt =====
-- The guard of src/rug.rs over the ticks of a session.
use hades_ps_trader.Base.{◌-◌, ◌^◌, ◌≤◌, ◌≡◌, refl, inl, true, List, [], ◌∷◌, map, length, arith}
use hades_ps_trader.Float.{Float, IsOrdered}
use hades_ps_trader.Float.Max.{IsMax, AreNumbers, IsMax-cons, raise}
use hades_ps_trader.Rug.{RugGuard, observe, saturating_add}

module _ {F : Type 0} ⦃fl : Float F⦄ where
  open fl use {le}

  -- The guard after the ticks of a session, a price and the pool's SOL each.
  unfoldable pub observe_all : RugGuard F → List (F × F) → RugGuard F
  observe_all g [] = g
  observe_all g ((price, pool) ∷ ticks) = observe_all (observe g price pool) ticks

  module _ (laws : IsOrdered F) where
    open laws use {refl_of_le}

    pub observe_all-IsMax :
        (ticks : List (F × F)) (g : RugGuard F)
        → le g.peak_price g.peak_price ≡ true
        → le g.peak_pool_sol g.peak_pool_sol ≡ true
        → AreNumbers (map (λ t. t.0) ticks)
        → AreNumbers (map (λ t. t.1) ticks)
        → let h = observe_all g ticks in
          IsMax g.peak_price (map (λ t. t.0) ticks) h.peak_price
          × IsMax g.peak_pool_sol (map (λ t. t.1) ticks) h.peak_pool_sol
    unfolding observe_all
    observe_all-IsMax [] g n m ns ms = ((inl refl, n, tt), (inl refl, m, tt))
    observe_all-IsMax ((price, pool) ∷ ticks) g n m ns ms =
        let next = observe g price pool in
        let p = raise laws g.peak_price price n ns.0 in
        let q = raise laws g.peak_pool_sol pool m ms.0 in
        let (left, right) =
          observe_all-IsMax ticks next (unfold observe in (refl_of_le _ _ p.1).1)
            (unfold observe in (refl_of_le _ _ q.1).1) ns.1 ms.1 in
        (
          IsMax-cons laws g.peak_price price next.peak_price _ _ (unfold observe in p.0)
              (unfold observe in p.1) (unfold observe in p.2) left,
          IsMax-cons laws g.peak_pool_sol pool next.peak_pool_sol _ _ (unfold observe in q.0)
              (unfold observe in q.1) (unfold observe in q.2) right,
        )

  -- The number of ticks, up to the largest u32.
  pub observe_all-samples :
      (ticks : List (F × F)) (g : RugGuard F)
      → g.samples ≤ 2 ^ 32 - 1
      → (observe_all g ticks).samples ≡ saturating_add g.samples (length ticks)
  unfolding observe_all observe
  observe_all-samples [] g h = ground arith
  observe_all-samples ((price, pool) ∷ ticks) g h =
      ground (arith, observe_all-samples ticks (observe g price pool))
