-- ===== src/Trader/Confirm.antt =====
-- The loop of `confirm` in src/trader.rs: which round decides, and that one always does.
use native.Mathlib.Decide.{dec_lt}
use hades_ps_trader.Base.{
  ℕ, zero, suc, ◌+◌, ◌*◌, ◌≤◌, ◌<◌, ◌≡◌, refl, sym, ap, ◌∙◌, none, some, arith, Option-cases, inl,
  inr, ◌≢◌,
}
use hades_ps_trader.Base.Result.{Result}
use hades_ps_trader.Trader.{
  TradeError, Poll, confirm_poll_interval, poll_once, confirm_from, confirm_rounds, confirm,
}

-- Round `k` follows `k` sleeps.
abbrev pub IsPaced : (ℕ → Poll) → Type 0
IsPaced polls = (k : ℕ) → k * confirm_poll_interval ≤ (polls k).elapsed

-- Round `k` is the first one to decide, from round `from` on, and it decides `r`.
abbrev pub DecidesAt : (ℕ → Poll) → ℕ → ℕ → Result TradeError (Unit {0}) → Type 0
DecidesAt polls from k r =
    (from ≤ k)
    × ((j : ℕ) → from ≤ j → j < k → poll_once (polls j) ≡ none)
    × (poll_once (polls k) ≡ some r)

-- A round after the timeout decides, whatever the node answers.
late_round :
    (p : Poll) (k : ℕ) → k ≡ 121 → k * confirm_poll_interval ≤ p.elapsed → poll_once p ≢ none
unfolding poll_once
late_round p k last h = ground arith

confirm_from-some :
    (fuel k : ℕ) (polls : ℕ → Poll) (r : Result TradeError (Unit {0}))
    → poll_once (polls k) ≡ some r
    → confirm_from (suc fuel) k polls ≡ r
unfolding confirm_from
confirm_from-some fuel k polls r d = rw (confirm_from, d) refl

confirm_from-none :
    (fuel k : ℕ) (polls : ℕ → Poll)
    → poll_once (polls k) ≡ none
    → confirm_from (suc fuel) k polls ≡ confirm_from fuel (k + 1) polls
unfolding confirm_from
confirm_from-none fuel k polls silent = rw (confirm_from, silent) refl

confirm_from_lem :
    (fuel k : ℕ) (polls : ℕ → Poll)
    → IsPaced polls
    → k + fuel ≡ confirm_rounds
    → 0 < fuel
    → (n : ℕ) × (n < confirm_rounds) × DecidesAt polls k n (confirm_from fuel k polls)
confirm_from_lem zero k polls paced e h = absurd (omega arith)
confirm_from_lem (suc zero) k polls paced e h = elim (Option-cases (poll_once (polls k))) [
  | inl silent ↦ absurd (late_round (polls k) k (omega arith) (paced k) silent)
  | inr (r, d) ↦ (
    k,
    omega arith,
    (omega arith, λ j a b. absurd (omega arith), rw (confirm_from-some 0 k polls r d) d),
  )
]
confirm_from_lem (suc (suc fuel)) k polls paced e h = elim (Option-cases (poll_once (polls k))) [
  | inl silent ↦
      let (n, few, (from, before, at)) =
        confirm_from_lem (suc fuel) (k + 1) polls paced (omega arith) (omega arith) in
      (
        n,
        few,
        (
          omega arith,
          earlier n silent before,
          at ∙ ap some (sym (confirm_from-none (suc fuel) k polls silent)),
        ),
      )
  | inr (r, d) ↦ (
    k,
    omega arith,
    (omega arith, λ j a b. absurd (omega arith), rw (confirm_from-some (suc fuel) k polls r d) d),
  )
]
  where
    earlier :
        (n : ℕ)
        → poll_once (polls k) ≡ none
        → ((j : ℕ) → k + 1 ≤ j → j < n → poll_once (polls j) ≡ none)
        → (j : ℕ) → k ≤ j
        → j < n
        → poll_once (polls j) ≡ none
    earlier n silent before j a b = elim (dec_lt k j) [
      | yes later ↦ before j (omega arith) b
      | no here ↦ let e : j ≡ k = omega arith in rw e silent
    ]

-- If each round but the first follows a sleep of 500 ms, the loop of `confirm` ends with what the
-- first deciding round says, and that is one of the first 122: the rounds that the model allows
-- suffice.
pub confirm-DecidesAt :
    (polls : ℕ → Poll)
    → IsPaced polls
    → (n : ℕ) × (n < confirm_rounds) × DecidesAt polls 0 n (confirm polls)
unfolding confirm
confirm-DecidesAt polls paced =
    confirm_from_lem confirm_rounds 0 polls paced (omega arith) (omega arith)
