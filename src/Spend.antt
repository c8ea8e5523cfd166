-- ===== src/Spend.antt =====
-- `DailySpendTracker` of src/dip_buy.rs: the rolling 24 hour cap that all sessions share.
pub mod Cap
pub mod History
use mathlib.Core.List.{foldl}
use hades_ps_trader.Base.{ℕ, ◌*◌, ◌^◌, ◌≡◌, refl, true, List, [], ◌∷◌, ◌++◌, if◌then◌else◌}
use hades_ps_trader.Clock.{from_secs, evict}
use hades_ps_trader.Float.{Float}

pub record DailySpendTracker (F : Type 0) : Type 0 where
  pub cap_sol : F
  pub window : ℕ
  pub spends : List (ℕ × F)

-- `Result<(), f64>`
pub data Verdict (F : Type 0) : Type 0 where
  within_cap : Verdict F
  breach : (spent : F) → Verdict F

module _ {F : Type 0} ⦃fl : Float F⦄ where
  open fl use {of_ℕ, add, lt}

  unfoldable pub new_tracker : F → DailySpendTracker F
  new_tracker cap_sol = record { cap_sol = cap_sol; window = from_secs (24 * 60 * 60); spends = [] }

  unfoldable pub evict_old : DailySpendTracker F → ℕ → DailySpendTracker F
  evict_old t now = record t { spends = evict t.window now t.spends }

  -- `iter().sum()`
  abbrev pub total_of : List (ℕ × F) → F
  total_of = foldl (λ acc s. add acc s.1) (of_ℕ 0)

  unfoldable pub check : DailySpendTracker F → ℕ → F → DailySpendTracker F × Verdict F
  unfolding evict_old
  check t now amount_sol =
      let kept = evict_old t now in
      let total = total_of kept.spends in
      (kept, if lt kept.cap_sol (add total amount_sol) then breach total else within_cap)

  unfoldable pub record_spend : DailySpendTracker F → ℕ → F → DailySpendTracker F
  unfolding evict_old
  record_spend t now amount_sol =
      let kept = evict_old t now in record kept { spends = kept.spends ++ (now, amount_sol) ∷ [] }

  unfoldable pub total_24h : DailySpendTracker F → ℕ → DailySpendTracker F × F
  unfolding evict_old
  total_24h t now = let kept = evict_old t now in (kept, total_of kept.spends)
