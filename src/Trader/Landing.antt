-- ===== src/Trader/Landing.antt =====
-- When `send_bundle` of src/trader.rs returns a signature.
use hades_ps_trader.Base.{
  ℕ, ◌≡◌, ◌↔◌, ◌∙◌, ap, sym, refl, Bool, true, false, if◌then◌else◌, inl, inr, Option, Option-cases,
  none, some, List, [], ◌∷◌, map, Bool-cases,
}
use hades_ps_trader.Base.Result.{ok, err, Result-cases}
use hades_ps_trader.Trader.{decode, http_status, send_failed}
use hades_ps_trader.Trader.Bundle.{
  Encoded, BundleResponse, EngineResponse, BundleEnv, sign_all, accept, sign_bundle, send_bundle,
}

-- Trade-local has answered with a transaction of signature `sig`, and perhaps others after it, all
-- of which decode; the node has a blockhash, and `answer` is that of the block engine to all of
-- them.
pub record IsPosted (env : BundleEnv) (sig : ℕ) (answer : EngineResponse) : Type 0 where
  pub response : BundleResponse
  pub sigs : List ℕ
  pub posted : env.post ≡ ok response
  pub succeeded : response.success ≡ true
  pub listed : response.encoded ≡ some (map some (sig ∷ sigs))
  pub hashed : env.latest_blockhash ≡ ok tt
  pub taken : env.send (sig ∷ sigs) ≡ ok answer

-- The engine has answered with success, with JSON, and without an error in it.
pub record IsAccepted (env : BundleEnv) (sig : ℕ) : Type 0 where
  pub answer : EngineResponse
  pub sent : IsPosted env sig answer
  pub succeeded : answer.success ≡ true
  pub parsed : answer.is_json ≡ true
  pub clean : answer.has_error ≡ false

sign_all-map : (sigs : List ℕ) → sign_all (map some sigs) ≡ some sigs
unfolding sign_all
sign_all-map [] = refl
sign_all-map (sig ∷ sigs) = rw (sign_all-map sigs) refl

sign_all_inv : (txs : List Encoded) (sigs : List ℕ) → sign_all txs ≡ some sigs → txs ≡ map some sigs
unfolding sign_all
sign_all_inv [] [] e = refl
sign_all_inv [] (sig ∷ sigs) e = cc e
sign_all_inv (none ∷ txs) sigs e = cc e
sign_all_inv (some tx ∷ txs) sigs e = elim (Option-cases (sign_all txs)) [
  | inl absent ↦ cc (e, absent)
  | inr (rest, signed) ↦
      let h : tx ∷ rest ≡ sigs = cc (e, signed) in rw (sym h, sign_all_inv txs rest signed) refl
]

pass_inv :
    (success is_json has_error : Bool) (sig sig' : ℕ)
    → (if success
        then if is_json then if has_error then err send_failed else ok sig else err decode
        else err http_status)
      ≡ ok sig'
    → (success ≡ true) × (is_json ≡ true) × (has_error ≡ false) × (sig ≡ sig')
pass_inv true true true sig sig' e = cc e
pass_inv true true false sig sig' e = (refl, refl, refl, cc e)
pass_inv true false has_error sig sig' e = cc e
pass_inv false is_json has_error sig sig' e = cc e

-- From the post on, where the bundle has reached the engine.
send_bundle-IsPosted :
    (env : BundleEnv) (sig : ℕ) (answer : EngineResponse)
    → IsPosted env sig answer
    → send_bundle env ≡ accept sig (ok answer)
unfolding send_bundle sign_all
send_bundle-IsPosted env sig answer p =
    rw (p.posted, p.succeeded, p.listed, p.hashed, sign_all-map p.sigs, p.taken) refl

sign_bundle_inv :
    (env : BundleEnv) (encoded : Option (List Encoded)) (sig : ℕ)
    → sign_bundle env encoded ≡ ok sig
    → (first : ℕ) × (sigs : List ℕ) × (encoded ≡ some (map some (first ∷ sigs)))
      × (env.latest_blockhash ≡ ok tt)
      × (accept first (env.send (first ∷ sigs)) ≡ ok sig)
sign_bundle_inv env none sig e = cc e
sign_bundle_inv env (some []) sig e = cc e
sign_bundle_inv env (some (tx ∷ txs)) sig e = elim (Result-cases env.latest_blockhash) [
  | inr (error, failed) ↦ cc (e, failed)
  | inl (u, hashed) ↦ elim (Option-cases (sign_all (tx ∷ txs))) [
    | inl absent ↦ cc (e, hashed, absent)
    | inr ([], signed) ↦ cc (e, hashed, signed)
    | inr (first ∷ sigs, signed) ↦ (
      first,
      sigs,
      ap some (sign_all_inv (tx ∷ txs) (first ∷ sigs) signed),
      hashed,
      cc (e, hashed, signed),
    )
  ]
]

sent_inv :
    (env : BundleEnv) (sig : ℕ)
    → send_bundle env ≡ ok sig
    → (response : BundleResponse) × (env.post ≡ ok response)
      × (response.success ≡ true)
      × (sign_bundle env response.encoded ≡ ok sig)
unfolding send_bundle
sent_inv env sig e = elim (Result-cases env.post) [
  | inr (error, failed) ↦ cc (e, failed)
  | inl (response, posted) ↦ elim (Bool-cases response.success) [
    | inl good ↦ (response, posted, good, cc (e, posted, good))
    | inr bad ↦ cc (e, posted, bad)
  ]
]

landed : (env : BundleEnv) (sig : ℕ) → send_bundle env ≡ ok sig → IsAccepted env sig
landed env sig e =
    let (response, posted, succeeded, signed) = sent_inv env sig e in
    let (first, sigs, listed, hashed, passed) = sign_bundle_inv env response.encoded sig signed in
    elim (Result-cases (env.send (first ∷ sigs))) [
      | inr (error, failed) ↦ cc (passed, failed)
      | inl (answer, taken) ↦
          let checked : accept first (ok answer) ≡ ok sig = cc (passed, taken) in
          let (success, parsed, clean, same) =
            pass_inv answer.success answer.is_json answer.has_error first sig checked in
          rw (sym same) record {
            answer = answer;
            sent = record {
              response = response;
              sigs = sigs;
              posted = posted;
              succeeded = succeeded;
              listed = listed;
              hashed = hashed;
              taken = taken;
            };
            succeeded = success;
            parsed = parsed;
            clean = clean;
          }
    ]

accepted : (env : BundleEnv) (sig : ℕ) → IsAccepted env sig → send_bundle env ≡ ok sig
accepted env sig a =
    send_bundle-IsPosted env sig a.answer a.sent ∙ rw (a.succeeded, a.parsed, a.clean) refl

-- `send_bundle` returns a signature exactly if trade-local answers with success and a list of
-- transactions that is not empty and all decode, the node has a blockhash, and the block engine
-- answers to the bundle of all of them, in their order, with success and with JSON that has no
-- error; and the signature is that of the first.
pub send_bundle-IsAccepted :
    (env : BundleEnv) (sig : ℕ) → (send_bundle env ≡ ok sig) ↔ IsAccepted env sig
send_bundle-IsAccepted env sig = (landed env sig, accepted env sig)
