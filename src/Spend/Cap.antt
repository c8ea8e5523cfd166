-- ===== src/Spend/Cap.antt =====
-- What the cap of src/dip_buy.rs promises where nothing comes between `check` and `record`.
use mathlib.Core.List.{foldl}
use hades_ps_trader.Base.{ℕ, ◌≡◌, refl, false, List, [], ◌∷◌, ◌++◌, arith}
use hades_ps_trader.Clock.{evict_same, evict_push}
use hades_ps_trader.Float.{Float}
use hades_ps_trader.Spend.{DailySpendTracker, within_cap, check, record_spend, total_24h}

module _ {F : Type 0} ⦃fl : Float F⦄ where
  open fl use {of_ℕ, add, lt}

  foldl-push :
      (xs : List (ℕ × F)) (now : ℕ) (a acc : F)
      → foldl (λ acc s. add acc s.1) acc (xs ++ (now, a) ∷ [])
        ≡ add (foldl (λ acc s. add acc s.1) acc xs) a
  foldl-push [] now a acc = refl
  foldl-push (x ∷ xs) now a acc = foldl-push xs now a (add acc x.1)

  -- A spend that the check lets through and that is recorded at the same instant keeps the total
  -- of 24 hours within the cap: the total after it is not above the cap.
  pub check-record_spend :
      (t : DailySpendTracker F) (now : ℕ) (amount : F)
      → (check t now amount).1 ≡ within_cap
      → lt t.cap_sol (total_24h (record_spend (check t now amount).0 now amount) now).1 ≡ false
  unfolding check record_spend total_24h
  check-record_spend t now amount e = simp (evict_same, evict_push, foldl-push) (ground arith)
