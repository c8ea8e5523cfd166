-- ===== src/Trader.antt =====
-- src/trader.rs: one submission of a trade, its confirmation, and the escalation of the slippage.
-- What the RPC node, PumpPortal and the block engine answer is data: an `Attempt` holds the
-- answers that one submission meets. A signature is a number. Logging, the JSON bodies and the
-- signing itself are not modelled.
pub mod Confirm
pub mod Escalation
pub mod Sending
pub mod Bundle
pub mod Landing
use hades_ps_trader.Base.{
  ℕ, zero, suc, ◌+◌, ◌*◌, ◌^◌, Bool, true, false, ◌||◌, Option, none, some, List, [], ◌∷◌, ◌++◌,
  ltb, if◌then◌else◌,
}
use hades_ps_trader.Base.Result.{Result, ok, err}
use hades_ps_trader.Float.{Float}

pub data TradeError : Type 0 where
  transport http_status decode blockhash send_failed rpc on_chain timed_out exhausted : TradeError

-- `TransactionConfirmationStatus`
pub data Confirmation : Type 0 where
  processed confirmed finalized : Confirmation

pub record SignatureStatus : Type 0 where
  pub failed : Bool
  pub confirmation : Option Confirmation

-- One round of the loop of `confirm`: the answer of the node, and the time since the start, in
-- nanoseconds, when the round compares it with the timeout.
pub record Poll : Type 0 where
  pub answer : Result TradeError (Option SignatureStatus)
  pub elapsed : ℕ

abbrev pub confirm_timeout : ℕ
confirm_timeout = 60 * 10 ^ 9

abbrev pub confirm_poll_interval : ℕ
confirm_poll_interval = 500 * 10 ^ 6

abbrev pub is_confirmed : Option Confirmation → Bool
is_confirmed (some confirmed) = true
is_confirmed (some finalized) = true
is_confirmed _ = false

-- What a round decides: `none` is one more round.
unfoldable pub poll_once : Poll → Option (Result TradeError (Unit {0}))
poll_once p = elim p.answer [
  | err e ↦ some (err e)
  | ok none ↦ if ltb confirm_timeout p.elapsed then some (err timed_out) else none
  | ok (some status) ↦
      if status.failed
      then some (err on_chain)
      else if is_confirmed status.confirmation
      then some (ok tt)
      else if ltb confirm_timeout p.elapsed
      then some (err timed_out)
      else none
]

-- The rounds from number `k` on, at most as many as the fuel.
unfoldable pub confirm_from : ℕ → ℕ → (ℕ → Poll) → Result TradeError (Unit {0})
confirm_from zero k polls = err timed_out
confirm_from (suc fuel) k polls =
    let rest = confirm_from fuel (k + 1) polls in
    elim (poll_once (polls k)) [ some r ↦ r | none ↦ rest ]

-- Two rounds a second for a minute, and the last one.
abbrev pub confirm_rounds : ℕ
confirm_rounds = 122

unfoldable pub confirm : (ℕ → Poll) → Result TradeError (Unit {0})
confirm polls = confirm_from confirm_rounds 0 polls

-- The response of trade-local: its status, and whether its body is a transaction.
pub record Response : Type 0 where
  pub success : Bool
  pub decodes : Bool

pub record Attempt : Type 0 where
  -- the result of `send_bundle`, where Jito is configured
  pub bundle : Option (Result TradeError ℕ)
  pub post : Result TradeError Response
  pub latest_blockhash : Result TradeError (Unit {0})
  pub send : Result TradeError ℕ
  pub polls : ℕ → Poll

-- A transaction that has left for the chain.
pub data Sent : Type 0 where
  by_bundle by_rpc : (sig : ℕ) → Sent

-- `confirm(...).await?; Ok(Some(sig))`
unfoldable pub confirmed_as : (ℕ → Poll) → ℕ → Result TradeError (Option ℕ)
confirmed_as polls sig = elim (confirm polls) [ ok u ↦ ok (some sig) | err e ↦ err e ]

unfoldable pub submit_rpc : Attempt → List Sent × Result TradeError (Option ℕ)
submit_rpc a = elim a.post [
  | err e ↦ ([], err e)
  | ok response ↦
      if response.success
      then if response.decodes
        then elim a.latest_blockhash [
          | err e ↦ ([], err e)
          | ok u ↦ elim a.send [
            | err e ↦ ([], err e)
            | ok sig ↦ (by_rpc sig ∷ [], confirmed_as a.polls sig)
          ]
        ]
        else ([], err decode)
      else ([], err http_status)
]

-- The transactions sent, and the result.
unfoldable pub submit : Bool → Attempt → List Sent × Result TradeError (Option ℕ)
unfolding submit_rpc
submit dry_run a = if dry_run then ([], ok none) else elim a.bundle [
  | none ↦ submit_rpc a
  | some (err e) ↦ submit_rpc a
  | some (ok sig) ↦ (by_bundle sig ∷ [], confirmed_as a.polls sig)
]

abbrev pub buy_max_attempts : ℕ
buy_max_attempts = 3

abbrev pub sell_max_attempts : ℕ
sell_max_attempts = 20

-- `last_err.unwrap_or_else(...)`
abbrev pub or_exhausted : Option TradeError → TradeError
or_exhausted none = exhausted
or_exhausted (some e) = e

module _ {F : Type 0} ⦃fl : Float F⦄ where
  open fl use {of_ℕ, add}

  -- The loop that `buy` and `sell_all` share: `left` attempts are left, `number` is the number of
  -- the next one. What an attempt meets may depend on its number and on the slippage asked for.
  unfoldable pub escalate :
      Bool
      → (ℕ → F → Attempt)
      → (left number : ℕ) (slippage : F) → Option TradeError
      → List Sent × Result TradeError (Option ℕ)
  escalate dry_run attempts zero number slippage last_err = ([], err (or_exhausted last_err))
  escalate dry_run attempts (suc left) number slippage last_err =
      let (sent, result) = submit dry_run (attempts number slippage) in
      elim result [
        | ok sig ↦ (sent, ok sig)
        | err e ↦
            let (more, final) =
              escalate dry_run attempts left (number + 1) (add slippage (of_ℕ 5)) (some e) in
            (sent ++ more, final)
      ]

  unfoldable pub buy : Bool → (ℕ → F → Attempt) → F → List Sent × Result TradeError (Option ℕ)
  buy dry_run attempts slippage = escalate dry_run attempts buy_max_attempts 1 slippage none

  unfoldable pub sell_all : Bool → (ℕ → F → Attempt) → F → List Sent × Result TradeError (Option ℕ)
  sell_all dry_run attempts slippage = escalate dry_run attempts sell_max_attempts 1 slippage none
