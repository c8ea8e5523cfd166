-- ===== src/Trader/Bundle.antt =====
-- `send_bundle` of src/trader.rs: a trade as a bundle of Jito. What trade-local, the node and the
-- block engine answer is data, and so is whether a transaction decodes and what its signature is.
use hades_ps_trader.Base.{ℕ, Bool, Option, none, some, List, [], ◌∷◌, if◌then◌else◌}
use hades_ps_trader.Base.Result.{Result, ok, err}
use hades_ps_trader.Config.{JitoConfig}
use hades_ps_trader.Trader.{Attempt, TradeError, http_status, decode, send_failed}

-- A transaction of the answer: its signature where it decodes and is serialized again.
abbrev pub Encoded : Type 0
Encoded = Option ℕ

-- The status of trade-local, and the transactions of its body, if that is a list of texts.
pub record BundleResponse : Type 0 where
  pub success : Bool
  pub encoded : Option (List Encoded)

-- The status of the block engine, and whether its body is JSON, without an "error" then.
pub record EngineResponse : Type 0 where
  pub success : Bool
  pub is_json : Bool
  pub has_error : Bool

-- What one call meets. `send` is the answer to the signed transactions with these signatures.
pub record BundleEnv : Type 0 where
  pub post : Result TradeError BundleResponse
  pub latest_blockhash : Result TradeError (Unit {0})
  pub send : List ℕ → Result TradeError EngineResponse

-- The loop that signs each transaction: `none` where one does not decode.
unfoldable pub sign_all : List Encoded → Option (List ℕ)
sign_all [] = some []
sign_all (none ∷ rest) = none
sign_all (some sig ∷ rest) = elim (sign_all rest) [ none ↦ none | some sigs ↦ some (sig ∷ sigs) ]

abbrev pub accept : ℕ → Result TradeError EngineResponse → Result TradeError ℕ
accept sig (err e) = err e
accept sig (ok r) =
    if r.success
    then if r.is_json then if r.has_error then err send_failed else ok sig else err decode
    else err http_status

-- The bundle, and the signature of its first transaction.
abbrev pub submit_bundle : BundleEnv → Option (List ℕ) → Result TradeError ℕ
submit_bundle env none = err decode
submit_bundle env (some []) = err decode
submit_bundle env (some (sig ∷ sigs)) = accept sig (env.send (sig ∷ sigs))

abbrev pub sign_bundle : BundleEnv → Option (List Encoded) → Result TradeError ℕ
sign_bundle env none = err decode
sign_bundle env (some []) = err decode
sign_bundle env (some (tx ∷ txs)) = elim env.latest_blockhash [
  | err e ↦ err e
  | ok u ↦ submit_bundle env (sign_all (tx ∷ txs))
]

unfoldable pub send_bundle : BundleEnv → Result TradeError ℕ
send_bundle env = elim env.post [
  | err e ↦ err e
  | ok response ↦ if response.success then sign_bundle env response.encoded else err http_status
]

module _ {F : Type 0} where
  -- `JITO.set` on the cell `JITO`: the first one stays.
  unfoldable pub init_jito :
      JitoConfig F → Option (Option (JitoConfig F)) → Option (Option (JitoConfig F))
  init_jito cfg none = some (if cfg.enabled then some cfg else none)
  init_jito cfg (some settings) = some settings

  unfoldable pub jito_settings : Option (Option (JitoConfig F)) → Option (JitoConfig F)
  jito_settings none = none
  jito_settings (some settings) = settings

  -- What an attempt meets where the cell `JITO` holds this: `bundle j` is what a bundle meets.
  unfoldable pub with_jito :
      Option (Option (JitoConfig F)) → (bundle : JitoConfig F → BundleEnv) → Attempt → Attempt
  with_jito cell bundle a = elim (jito_settings cell) [
    | none ↦ record a { bundle = none }
    | some j ↦ record a { bundle = some (send_bundle (bundle j)) }
  ]
