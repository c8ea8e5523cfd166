-- ===== src/Examples/Trades.antt =====
-- Witnesses of the theorems on trades, their confirmation, the exit rules and the daily cap.
use hades_ps_trader.Base.{
  ℕ, ◌*◌, ◌^◌, ◌≡◌, ◌↔◌, ◌<◌, refl, true, false, none, some, List, [], ◌∷◌, arith, length,
  if◌then◌else◌,
}
use hades_ps_trader.Base.Result.{ok, err}
use hades_ps_trader.Float.Fixed.{Fixed, fin, fixed_float, Fixed-IsOrdered, whole}
use hades_ps_trader.Clock.{from_secs, recent}
use hades_ps_trader.Position.{decide_exit, dip_buy}
use hades_ps_trader.Position.Exit.{Decision, decide_exit-Decision}
use hades_ps_trader.Trader.{
  confirm, confirm_from, poll_once, confirm_rounds, confirmed, timed_out, buy, sell_all,
  buy_max_attempts, sell_max_attempts,
}
use hades_ps_trader.Trader.Confirm.{DecidesAt, confirm-DecidesAt}
use hades_ps_trader.Trader.Escalation.{Escalated, trade-Escalated}
use hades_ps_trader.Trader.Sending.{IsUnconfirmed, buy_repeats}
use hades_ps_trader.Trader.Bundle.{EngineResponse, BundleEnv, send_bundle}
use hades_ps_trader.Trader.Landing.{IsPosted, IsAccepted, send_bundle-IsAccepted}
use hades_ps_trader.Clock.{evict}
use hades_ps_trader.Spend.Cap.{check-record_spend}
use hades_ps_trader.Spend.{
  record_spend, evict_old, DailySpendTracker, within_cap, breach, new_tracker, check, total_24h,
  total_of, evict_old,
}
use hades_ps_trader.Spend.History.{Call, checks, records, make_calls, log_calls, check-history}
use hades_ps_trader.Examples.{attempt, polls_of, position, tiers, trading, dip_buy_exit}
open fixed_float use {lt, add}

decide_exit-Decision_example :
    Decision position
      (whole 20)
      60
      trading
      dip_buy_exit
      []
      tiers
      dip_buy
      (decide_exit position (whole 20) 60 trading dip_buy_exit [] tiers)
decide_exit-Decision_example =
    decide_exit-Decision Fixed-IsOrdered position (whole 20) 60 trading dip_buy_exit [] tiers tt
      ((refl, tt), (tt, tt))

confirm-DecidesAt_example :
    (n : ℕ) × (n < confirm_rounds)
    × DecidesAt (polls_of (some confirmed)) 0 n (confirm (polls_of (some confirmed)))
confirm-DecidesAt_example = confirm-DecidesAt (polls_of (some confirmed)) (λ k. omega arith)

trade-Escalated_example :
    Escalated false
      (λ n s. attempt (some confirmed))
      buy_max_attempts
      1
      (whole 10)
      none
      (buy false (λ n s. attempt (some confirmed)) (whole 10)).1
    × Escalated false
        (λ n s. attempt (some confirmed))
        sell_max_attempts
        1
        (whole 10)
        none
        (sell_all false (λ n s. attempt (some confirmed)) (whole 10)).1
trade-Escalated_example = trade-Escalated false (λ n s. attempt (some confirmed)) (whole 10)

-- Trade-local answers with two transactions.
abbrev engine : EngineResponse → BundleEnv
engine answer = record {
  post = ok record { success = true; encoded = some (some 7 ∷ some 8 ∷ []) };
  latest_blockhash = ok tt;
  send = λ sigs. ok answer;
}

abbrev good_answer : EngineResponse
good_answer = record { success = true; is_json = true; has_error = false }

posted : (answer : EngineResponse) → IsPosted (engine answer) 7 answer
posted answer = record {
  response = record { success = true; encoded = some (some 7 ∷ some 8 ∷ []) };
  sigs = 8 ∷ [];
  posted = refl;
  succeeded = refl;
  listed = refl;
  hashed = refl;
  taken = refl;
}

send_bundle-IsAccepted_example :
    (send_bundle (engine good_answer) ≡ ok 7) ↔ IsAccepted (engine good_answer) 7
send_bundle-IsAccepted_example = send_bundle-IsAccepted (engine good_answer) 7

unseen : confirm (polls_of none) ≡ err timed_out
unfolding confirm confirm_from poll_once
unseen = refl

unconfirmed : IsUnconfirmed (attempt none)
unconfirmed = record {
  sig = 7;
  no_bundle = refl;
  response = record { success = true; decodes = true };
  posted = refl;
  succeeded = refl;
  decoded = refl;
  hashed = refl;
  taken = refl;
  unseen = unseen;
}

buy_repeats_example :
    (length (buy false (λ n s. attempt none) (whole 10)).0 ≡ buy_max_attempts)
    × ((buy false (λ n s. attempt none) (whole 10)).1 ≡ err timed_out)
buy_repeats_example = buy_repeats (λ n s. attempt none) (whole 10) (λ n s. unconfirmed)

-- A cap of 1 SOL, and purchases of 0.6 SOL.
abbrev amount : Fixed
amount = fin (6 * 10 ^ 8) 0

abbrev tracker : DailySpendTracker Fixed
tracker = record { cap_sol = whole 1; window = from_secs 86400; spends = [] }

passes : (check tracker 5 amount).1 ≡ within_cap
unfolding check evict_old evict
passes = refl

check-record_spend_example :
    lt tracker.cap_sol (total_24h (record_spend (check tracker 5 amount).0 5 amount) 5).1 ≡ false
check-record_spend_example = check-record_spend tracker 5 amount passes

abbrev calls : List (Call Fixed)
calls = checks 1 amount ∷ records 2 amount ∷ []

check-history_example :
    (let total = total_of (recent (from_secs (24 * 60 * 60)) 3 (log_calls [] calls)) in
      (check (make_calls (new_tracker (whole 1)) calls) 3 amount).1
      ≡ (if lt (whole 1) (add total amount) then breach total else within_cap))
check-history_example =
    check-history (whole 1) calls 3 amount (omega arith, (omega arith, omega arith))
