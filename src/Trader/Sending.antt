-- ===== src/Trader/Sending.antt =====
-- How many transactions a trade of src/trader.rs can send.
use hades_ps_trader.Base.{
  ℕ, zero, suc, ◌+◌, ◌≤◌, ◌≡◌, ◌<◌, ◌⊎◌, ◌∙◌, ap, refl, Bool, true, false, Option, none, some, [],
  ◌∷◌, ◌++◌, arith, inl, inr, length, length-append, length-append,
}
use hades_ps_trader.Base.Result.{ok, err, Result-cases}
use hades_ps_trader.Float.{Float}
use hades_ps_trader.Trader.{
  Attempt, Response, by_rpc, TradeError, timed_out, submit, submit_rpc, confirm, confirmed_as,
  or_exhausted, escalate, buy, sell_all, buy_max_attempts, sell_max_attempts,
}
use hades_ps_trader.Trader.Escalation.{escalate_err}

-- One submission sends one transaction at most: the RPC path is taken only where the bundle was not.
length-submit : (dry_run : Bool) (a : Attempt) → length (submit dry_run a).0 ≤ 1
unfolding submit submit_rpc
length-submit dry_run a = ground arith

-- The node has taken the transaction of this attempt, outside a bundle, and its signature is not
-- seen confirmed in time.
pub record IsUnconfirmed (a : Attempt) : Type 0 where
  pub sig : ℕ
  pub no_bundle : a.bundle ≡ none
  pub response : Response
  pub posted : a.post ≡ ok response
  pub succeeded : response.success ≡ true
  pub decoded : response.decodes ≡ true
  pub hashed : a.latest_blockhash ≡ ok tt
  pub taken : a.send ≡ ok sig
  pub unseen : confirm a.polls ≡ err timed_out

submit-IsUnconfirmed :
    (a : Attempt) (u : IsUnconfirmed a) → submit false a ≡ (by_rpc u.sig ∷ [], err timed_out)
unfolding submit submit_rpc confirmed_as
submit-IsUnconfirmed a u =
    ground (arith, u.no_bundle, u.posted, u.succeeded, u.decoded, u.hashed, u.taken, u.unseen)

module _ {F : Type 0} ⦃fl : Float F⦄ where
  open fl use {of_ℕ, add}

  module _ (dry_run : Bool) (attempts : ℕ → F → Attempt) where
    sent_ok :
        (left number : ℕ) (slippage : F) (last : Option TradeError) (sig : Option ℕ)
        → (submit dry_run (attempts number slippage)).1 ≡ ok sig
        → (escalate dry_run attempts (suc left) number slippage last).0
          ≡ (submit dry_run (attempts number slippage)).0
    unfolding escalate
    sent_ok left number slippage last sig e = rw (escalate, e) refl

    sent_err :
        (left number : ℕ) (slippage : F) (last : Option TradeError) (error : TradeError)
        → (submit dry_run (attempts number slippage)).1 ≡ err error
        → (escalate dry_run attempts (suc left) number slippage last).0
          ≡ (submit dry_run (attempts number slippage)).0
            ++ (escalate dry_run attempts left (number + 1) (add slippage (of_ℕ 5)) (some error)).0
    unfolding escalate
    sent_err left number slippage last error e = rw (escalate, e) refl

    length-escalate :
        (left number : ℕ) (slippage : F) (last : Option TradeError)
        → length (escalate dry_run attempts left number slippage last).0 ≤ left
    length-escalate zero number slippage last = unfold escalate in omega arith
    length-escalate (suc left) number slippage last =
        let one = length-submit dry_run (attempts number slippage) in
        elim (Result-cases (submit dry_run (attempts number slippage)).1) [
          | inl (sig, e) ↦ rw (sent_ok left number slippage last sig e) (omega (arith, one))
          | inr (error, e) ↦
              let more =
                escalate dry_run attempts left (number + 1) (add slippage (of_ℕ 5)) (some error) in
              let few = length-escalate left (number + 1) (add slippage (of_ℕ 5)) (some error) in
              rw (sent_err left number slippage last error e) (
                omega (
                  arith,
                  one,
                  few,
                  length-append (submit dry_run (attempts number slippage)).0 more.0,
                ))
        ]

  repeats :
      (attempts : ℕ → F → Attempt) (left number : ℕ) (slippage : F) (last : Option TradeError)
      → ((n : ℕ) (s : F) → IsUnconfirmed (attempts n s))
      → (last ≡ some timed_out) ⊎ (0 < left)
      → (length (escalate false attempts left number slippage last).0 ≡ left)
        × ((escalate false attempts left number slippage last).1 ≡ err timed_out)
  repeats attempts zero number slippage last u (inl e) =
      unfold escalate in (refl, ap (λ l. err (or_exhausted l)) e)
  repeats attempts zero number slippage last u (inr h) = absurd (omega (arith, h))
  repeats attempts (suc left) number slippage last u h =
      let s = submit-IsUnconfirmed (attempts number slippage) (u number slippage) in
      let failed = ap (λ r. r.1) s in
      let rest =
        repeats attempts left (number + 1) (add slippage (of_ℕ 5)) (some timed_out) u (inl refl) in
      let one = ap (λ r. length r.0) s in
      let more =
        (escalate false attempts left (number + 1) (add slippage (of_ℕ 5)) (some timed_out)).0 in
      (
        rw (sent_err false attempts left number slippage last timed_out failed) (
            omega
              (arith, one, rest.0, length-append (submit false (attempts number slippage)).0 more)),
        escalate_err false attempts left number slippage last timed_out failed ∙ rest.1,
      )

  -- Of the transactions of a trade, those whose submission brought a signature: at most 3 of a buy
  -- and at most 20 of a sell.
  trade_length :
      (dry_run : Bool) (attempts : ℕ → F → Attempt) (slippage : F)
      → (length (buy dry_run attempts slippage).0 ≤ buy_max_attempts)
        × (length (sell_all dry_run attempts slippage).0 ≤ sell_max_attempts)
  unfolding buy sell_all
  trade_length dry_run attempts slippage = (
    length-escalate dry_run attempts buy_max_attempts 1 slippage none,
    length-escalate dry_run attempts sell_max_attempts 1 slippage none,
  )

  -- A buy whose attempts the node takes, outside a bundle, and whose signatures are not seen
  -- confirmed in time, sends one transaction for each of the 3 attempts and fails with the
  -- timeout.
  pub buy_repeats :
      (attempts : ℕ → F → Attempt) (slippage : F)
      → ((number : ℕ) (s : F) → IsUnconfirmed (attempts number s))
      → (length (buy false attempts slippage).0 ≡ buy_max_attempts)
        × ((buy false attempts slippage).1 ≡ err timed_out)
  unfolding buy
  buy_repeats attempts slippage u =
      repeats attempts buy_max_attempts 1 slippage none u (inr (omega arith))
