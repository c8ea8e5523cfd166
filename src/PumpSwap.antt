-- ===== src/PumpSwap.antt =====
-- src/pumpswap.rs: the discovery of the pool of a mint, and the read of its two vaults. The node is
-- the record `Node` of what it answers, and the parsing of a key from its text is a parameter.
pub mod Price
pub mod Owners
pub mod Discovery
use Prim.Native.String.{String}
use hades_ps_trader.Base.{
  ℕ, zero, suc, ◌+◌, Bool, true, false, Option, none, some, List, [], ◌∷◌, map, take, get_elem?,
  length, ltb, ◌==◌, if◌then◌else◌, ◌>>=◌,
}
use hades_ps_trader.Base.Result.{Result, ok, err}
use hades_ps_trader.Chain.{Pubkey, Account, same_key, owner_field, amount_field}
use hades_ps_trader.Float.{Float}

pub data PoolError : Type 0 where
  timed_out rpc no_accounts undecodable no_pool no_sol_vault : PoolError
  missing_vault short_vault empty_vault : PoolError
  -- an index out of range
  panicked : PoolError

pub record PoolInfo : Type 0 where
  pub pool_id : Pubkey
  pub base_vault : Pubkey
  pub quote_vault : Pubkey

pub record PoolState (F : Type 0) : Type 0 where
  pub price_sol : F
  pub pool_sol : F

-- What the node answers: the largest accounts of the mint (`none` past the limit of 3 s), the
-- accounts of a list of keys, and the addresses of the WSOL accounts of an owner.
pub record Node (E : Type 0) : Type 0 where
  pub largest : Option (Result E (List String))
  pub accounts : List Pubkey → Result E (List (Option Account))
  pub wsol_accounts : Pubkey → Result E (List String)

-- The addresses that parse: `filter_map`.
unfoldable pub parse_keys : (String → Option Pubkey) → List String → List Pubkey
parse_keys parse [] = []
parse_keys parse (a ∷ rest) = elim (parse a) [
  | some key ↦ key ∷ parse_keys parse rest
  | none ↦ parse_keys parse rest
]

abbrev pub owner_of : Option Account → Option Pubkey
owner_of none = none
owner_of (some acc) = owner_field acc

-- `candidates.push((owner, idx))`, where there is an owner.
abbrev pub add_candidate : ℕ → Option Pubkey → List (Pubkey × ℕ) → List (Pubkey × ℕ)
add_candidate idx none rest = rest
add_candidate idx (some owner) rest = (owner, idx) ∷ rest

-- The owners of the accounts from index `idx` on, each with the index.
unfoldable pub candidates_from : ℕ → List (Option Account) → List (Pubkey × ℕ)
candidates_from idx [] = []
candidates_from idx (acc ∷ accs) = add_candidate idx (owner_of acc) (candidates_from (idx + 1) accs)

abbrev pub is_owned_by : Pubkey → Option Account → Bool
is_owned_by program none = false
is_owned_by program (some acc) = same_key acc.owner program

-- The index of the first account that the program owns.
unfoldable pub find_owned : Pubkey → List (Option Account) → ℕ → Option ℕ
find_owned program [] i = none
find_owned program (acc ∷ accs) i =
    let rest = find_owned program accs (i + 1) in if is_owned_by program acc then some i else rest

abbrev pub key_of : Pubkey × ℕ → Pubkey
key_of (key, idx) = key

-- `(owner_pubkeys[i], token_account_pubkeys[candidates[i].1])`
unfoldable pub pool_at : List (Pubkey × ℕ) → List Pubkey → ℕ → Option (Pubkey × Pubkey)
pool_at candidates token_accounts i = do
  (pool_id, idx) ← get_elem? candidates i
  base_vault ← get_elem? token_accounts idx
  some (pool_id, base_vault)

module _ {E : Type 0} (parse : String → Option Pubkey) (program : Pubkey) (node : Node E) where
  abbrev pub quote_from : Pubkey × Pubkey → Result E (List String) → Result PoolError PoolInfo
  quote_from found (err e) = err rpc
  quote_from found (ok []) = err no_sol_vault
  quote_from (pool_id, base_vault) (ok (first ∷ rest)) = elim (parse first) [
    | none ↦ err no_sol_vault
    | some quote_vault ↦
        ok (record { pool_id = pool_id; base_vault = base_vault; quote_vault = quote_vault })
  ]

  unfoldable pub quote_of : Pubkey × Pubkey → Result PoolError PoolInfo
  quote_of (pool_id, base_vault) = quote_from (pool_id, base_vault) (node.wsol_accounts pool_id)

  unfoldable pub choose_pool :
      List (Pubkey × ℕ) → List Pubkey → List (Option Account) → Result PoolError PoolInfo
  choose_pool candidates token_accounts owners = elim (find_owned program owners 0) [
    | none ↦ err no_pool
    | some i ↦ elim (pool_at candidates token_accounts i) [
      | none ↦ err panicked
      | some found ↦ quote_of found
    ]
  ]

  unfoldable pub among : List (Pubkey × ℕ) → List Pubkey → Result PoolError PoolInfo
  among [] token_accounts = err undecodable
  among (c ∷ cs) token_accounts = elim (node.accounts (map key_of (c ∷ cs))) [
    | err e ↦ err rpc
    | ok owners ↦ choose_pool (c ∷ cs) token_accounts owners
  ]

  unfoldable pub with_holders : List Pubkey → Result PoolError PoolInfo
  with_holders token_accounts = elim (node.accounts token_accounts) [
    | err e ↦ err rpc
    | ok accs ↦ among (candidates_from 0 accs) token_accounts
  ]

  abbrev pub from_largest : Option (Result E (List String)) → Result PoolError PoolInfo
  from_largest none = err timed_out
  from_largest (some (err e)) = err rpc
  from_largest (some (ok [])) = err no_accounts
  from_largest (some (ok (a ∷ rest))) = with_holders (parse_keys parse (take 10 (a ∷ rest)))

  unfoldable pub find_pool : Result PoolError PoolInfo
  find_pool = from_largest node.largest

module _ {F : Type 0} ⦃fl : Float F⦄ where
  open fl use {of_ℕ, div}

  -- The amounts of the two vaults.
  unfoldable pub state_of_amounts : ℕ → ℕ → Result PoolError (PoolState F)
  state_of_amounts base_amount quote_amount =
      if base_amount == 0
      then err empty_vault
      else (let pool_sol = div (of_ℕ quote_amount) (of_ℕ 1000000000) in
          ok (record {
            price_sol = div pool_sol (div (of_ℕ base_amount) (of_ℕ 1000000));
            pool_sol = pool_sol;
          }))

  unfoldable pub state_of_vaults : Account → Account → Result PoolError (PoolState F)
  state_of_vaults base quote = elim (amount_field base) [
    | none ↦ err short_vault
    | some base_amount ↦ elim (amount_field quote) [
      | none ↦ err short_vault
      | some quote_amount ↦ state_of_amounts base_amount quote_amount
    ]
  ]

  -- `answer` is that of `getMultipleAccounts` for the two vaults, `none` past the time limit.
  unfoldable pub fetch_pool_state :
      {E : Type 0}
      → Option (Result E (Option Account × Option Account))
      → Result PoolError (PoolState F)
  fetch_pool_state none = err timed_out
  fetch_pool_state (some (err e)) = err rpc
  fetch_pool_state (some (ok (none, quote))) = err missing_vault
  fetch_pool_state (some (ok (some base, none))) = err missing_vault
  fetch_pool_state (some (ok (some base, some quote))) = state_of_vaults base quote
