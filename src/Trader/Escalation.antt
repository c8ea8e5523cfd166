-- ===== src/Trader/Escalation.antt =====
-- `buy` and `sell_all` of src/trader.rs: the first attempt that succeeds counts.
use hades_ps_trader.Base.{
  ℕ, zero, suc, ◌+◌, ◌<◌, ◌≡◌, refl, sym, ap, ◌∙◌, Bool, Option, none, some, arith, inl, inr,
}
use hades_ps_trader.Base.Result.{Result, ok, err, Result-cases}
use hades_ps_trader.Float.{Float}
use hades_ps_trader.Trader.{
  Attempt, TradeError, submit, escalate, or_exhausted, buy, sell_all, buy_max_attempts,
  sell_max_attempts,
}

module _ {F : Type 0} ⦃fl : Float F⦄ where
  open fl use {of_ℕ, add}

  module _ (dry_run : Bool) (attempts : ℕ → F → Attempt) where
    -- What the attempt after `j` escalations answers: each raises the attempt's number by one and
    -- its slippage by 5 points.
    abbrev pub answer : ℕ → F → ℕ → Result TradeError (Option ℕ)
    answer number slippage zero = (submit dry_run (attempts number slippage)).1
    answer number slippage (suc j) = answer (number + 1) (add slippage (of_ℕ 5)) j

    abbrev pub Fails : ℕ → F → ℕ → Type 0
    Fails number slippage j = (e : TradeError) × (answer number slippage j ≡ err e)

    -- The error that `left` failed attempts leave.
    abbrev pub LastError : ℕ → ℕ → F → Option TradeError → TradeError → Type 0
    LastError zero number slippage last e = e ≡ or_exhausted last
    LastError (suc n) number slippage last e = answer number slippage n ≡ err e

    -- The result of at most `left` attempts: the first success, or the error of the last attempt.
    abbrev pub Escalated : ℕ → ℕ → F → Option TradeError → Result TradeError (Option ℕ) → Type 0
    Escalated left number slippage last (ok sig) =
        (j : ℕ) × (j < left)
        × (answer number slippage j ≡ ok sig)
        × ((i : ℕ) → i < j → Fails number slippage i)
    Escalated left number slippage last (err e) =
        ((i : ℕ) → i < left → Fails number slippage i) × LastError left number slippage last e

    escalate_ok :
        (left number : ℕ) (slippage : F) (last : Option TradeError) (sig : Option ℕ)
        → answer number slippage 0 ≡ ok sig
        → (escalate dry_run attempts (suc left) number slippage last).1 ≡ ok sig
    unfolding escalate
    escalate_ok left number slippage last sig e = rw (escalate, e) refl

    pub escalate_err :
        (left number : ℕ) (slippage : F) (last : Option TradeError) (error : TradeError)
        → answer number slippage 0 ≡ err error
        → (escalate dry_run attempts (suc left) number slippage last).1
          ≡ (escalate dry_run attempts left (number + 1) (add slippage (of_ℕ 5)) (some error)).1
    unfolding escalate
    escalate_err left number slippage last error e = rw (escalate, e) refl

    Fails-suc :
        (n number : ℕ) (slippage : F)
        → Fails number slippage 0
        → ((i : ℕ) → i < n → Fails (number + 1) (add slippage (of_ℕ 5)) i)
        → (i : ℕ) → i < suc n
        → Fails number slippage i
    Fails-suc n number slippage first rest zero h = first
    Fails-suc n number slippage first rest (suc i) h = rest i (omega arith)

    LastError-suc :
        (n number : ℕ) (slippage : F) (last : Option TradeError) (error e : TradeError)
        → answer number slippage 0 ≡ err error
        → LastError n (number + 1) (add slippage (of_ℕ 5)) (some error) e
        → LastError (suc n) number slippage last e
    LastError-suc zero number slippage last error e failed same = failed ∙ ap err (sym same)
    LastError-suc (suc n) number slippage last error e failed h = h

    -- One failed attempt before the others.
    Escalated-suc :
        (n number : ℕ) (slippage : F) (last : Option TradeError) (error : TradeError)
        (r : Result TradeError (Option ℕ))
        → answer number slippage 0 ≡ err error
        → Escalated n (number + 1) (add slippage (of_ℕ 5)) (some error) r
        → Escalated (suc n) number slippage last r
    Escalated-suc n number slippage last error (ok sig) failed (j, few, success, before) =
        (suc j, omega arith, success, Fails-suc j number slippage (error, failed) before)
    Escalated-suc n number slippage last error (err e) failed (all, h) = (
      Fails-suc n number slippage (error, failed) all,
      LastError-suc n number slippage last error e failed h,
    )

    escalate-Escalated :
        (left number : ℕ) (slippage : F) (last : Option TradeError)
        → Escalated left number slippage last
            (escalate dry_run attempts left number slippage last).1
    escalate-Escalated zero number slippage last =
        unfold escalate in (λ i h. absurd (omega arith), refl)
    escalate-Escalated (suc left) number slippage last =
        elim (Result-cases (answer number slippage 0)) [
          | inl (sig, e) ↦
              rw (escalate_ok left number slippage last sig e)
                (0, omega arith, e, λ i h. absurd (omega arith))
          | inr (error, e) ↦ rw (escalate_err left number slippage last error e) (
              Escalated-suc left number slippage last error _ e
                (escalate-Escalated left (number + 1) (add slippage (of_ℕ 5)) (some error)))
        ]

    -- A buy makes at most 3 attempts and a sell at most 20, each attempt with 5 points more
    -- slippage than the one before; and the result is that of the first attempt that succeeds, or
    -- the error of the last if none does.
    pub trade-Escalated :
        (slippage : F)
        → Escalated buy_max_attempts 1 slippage none (buy dry_run attempts slippage).1
          × Escalated sell_max_attempts 1 slippage none (sell_all dry_run attempts slippage).1
    unfolding buy sell_all
    trade-Escalated slippage = (
      escalate-Escalated buy_max_attempts 1 slippage none,
      escalate-Escalated sell_max_attempts 1 slippage none,
    )
