-- ===== src/Spend/History.antt =====
-- The tracker of src/dip_buy.rs against the whole history of what was recorded.
use hades_ps_trader.Base.{ℕ, ◌*◌, ◌≤◌, ◌≡◌, refl, List, [], ◌∷◌, ◌++◌, if◌then◌else◌}
use hades_ps_trader.Clock.{
  IsTimed, IsTimed-later, IsTimed-push, recent, recent_push, evict-recent', from_secs,
}
use hades_ps_trader.Float.{Float}
use hades_ps_trader.Spend.{
  DailySpendTracker, within_cap, breach, total_of, check, record_spend, total_24h, new_tracker,
}

-- The calls of the tracker, with the instant that each reads.
pub data Call (F : Type 0) : Type 0 where
  checks records : (now : ℕ) (amount : F) → Call F
  totals : (now : ℕ) → Call F

module _ {F : Type 0} where
  abbrev pub time_of : Call F → ℕ
  time_of (checks now amount) = now
  time_of (records now amount) = now
  time_of (totals now) = now

  -- All that was recorded, oldest first.
  abbrev pub log_call : List (ℕ × F) → Call F → List (ℕ × F)
  log_call history (records now amount) = history ++ (now, amount) ∷ []
  log_call history _ = history

  abbrev pub log_calls : List (ℕ × F) → List (Call F) → List (ℕ × F)
  log_calls history [] = history
  log_calls history (c ∷ cs) = log_calls (log_call history c) cs

  -- The calls come in the order of their times, the last of them not after `now`.
  abbrev pub IsOrderly : ℕ → List (Call F) → ℕ → Type 0
  IsOrderly before [] now = before ≤ now
  IsOrderly before (c ∷ cs) now = (before ≤ time_of c) × IsOrderly (time_of c) cs now

  pub record Mirrors (cap : F) (window now : ℕ) (history : List (ℕ × F)) (t : DailySpendTracker F)
      : Type 0 where
    pub cap_eq : t.cap_sol ≡ cap
    pub window_eq : t.window ≡ window
    pub spends_eq : t.spends ≡ recent window now history
    pub timed : IsTimed now history

module _ {F : Type 0} ⦃fl : Float F⦄ where
  open fl use {add, lt}

  unfoldable pub make_call : DailySpendTracker F → Call F → DailySpendTracker F
  make_call t (checks now amount) = (check t now amount).0
  make_call t (records now amount) = record_spend t now amount
  make_call t (totals now) = (total_24h t now).0

  unfoldable pub make_calls : DailySpendTracker F → List (Call F) → DailySpendTracker F
  unfolding make_call
  make_calls t [] = t
  make_calls t (c ∷ cs) = make_calls (make_call t c) cs

  module _ (cap : F) (window : ℕ) where
    make_call-Mirrors :
        (before : ℕ) (history : List (ℕ × F)) (t : DailySpendTracker F) (c : Call F)
        → before ≤ time_of c
        → Mirrors cap window before history t
        → Mirrors cap window (time_of c) (log_call history c) (make_call t c)
    unfolding make_call check record_spend total_24h
    make_call-Mirrors before history t (checks now amount) h m = record {
      cap_eq = m.cap_eq;
      window_eq = m.window_eq;
      spends_eq =
          simp (m.window_eq, m.spends_eq, evict-recent' window before now history h m.timed);
      timed = IsTimed-later before now history h m.timed;
    }
    make_call-Mirrors before history t (records now amount) h m = record {
      cap_eq = m.cap_eq;
      window_eq = m.window_eq;
      spends_eq =
          simp (m.window_eq, m.spends_eq, recent_push window before now history amount h m.timed);
      timed = IsTimed-push now history amount (IsTimed-later before now history h m.timed);
    }
    make_call-Mirrors before history t (totals now) h m = record {
      cap_eq = m.cap_eq;
      window_eq = m.window_eq;
      spends_eq =
          simp (m.window_eq, m.spends_eq, evict-recent' window before now history h m.timed);
      timed = IsTimed-later before now history h m.timed;
    }

    make_calls-check :
        (cs : List (Call F)) (before now : ℕ) (history : List (ℕ × F)) (t : DailySpendTracker F)
        (amount : F)
        → IsOrderly before cs now
        → Mirrors cap window before history t
        → let total = total_of (recent window now (log_calls history cs)) in
          (check (make_calls t cs) now amount).1
          ≡ (if lt cap (add total amount) then breach total else within_cap)
    unfolding make_calls check
    make_calls-check [] before now history t amount o m =
        simp (m.cap_eq, m.window_eq, m.spends_eq, evict-recent' window before now history o m.timed)
    make_calls-check (c ∷ cs) before now history t amount o m =
        make_calls-check cs (time_of c) now (log_call history c) (make_call t c) amount o.1
          (make_call-Mirrors before history t c o.0 m)

  -- After any calls of a new tracker in the order of their times, `check` refuses exactly if the
  -- sum of all amounts recorded in the last 24 hours, with the amount asked for, is above the cap;
  -- and then it reports that sum.
  pub check-history :
      (cap : F) (cs : List (Call F)) (now : ℕ) (amount : F)
      → IsOrderly 0 cs now
      → let total = total_of (recent (from_secs (24 * 60 * 60)) now (log_calls [] cs)) in
        (check (make_calls (new_tracker cap) cs) now amount).1
        ≡ (if lt cap (add total amount) then breach total else within_cap)
  unfolding new_tracker
  check-history cap cs now amount o =
      make_calls-check cap (from_secs (24 * 60 * 60)) cs 0 now [] (new_tracker cap) amount o
        (record { cap_eq = refl; window_eq = refl; spends_eq = refl; timed = tt })
