-- ===== src/Onchain/Holders.antt =====
-- The concentration of a mint in its largest holders, of src/onchain.rs. What the node answers is
-- the record `HolderNode`; the derived address of the bonding curve is a parameter.
use Prim.Native.String.{String}
use hades_ps_trader.Base.{
  ℕ, ◌+◌, Bool, true, false, not, ◌||◌, ◌&&◌, Option, none, some, List, [], ◌∷◌, map, take, leb,
  ◌==◌, if◌then◌else◌,
}
use hades_ps_trader.Base.Result.{Result, ok, err}
use hades_ps_trader.Chain.{Pubkey, Account, same_key}
use hades_ps_trader.Float.{Float}
use hades_ps_trader.PumpSwap.{owner_of, is_owned_by}
use hades_ps_trader.Onchain.{QueryError, rpc, no_accounts, undecodable, parse_failed, zero_supply}

-- An account of `getTokenLargestAccounts`: its address and its amount, as texts.
pub record LargeAccount : Type 0 where
  pub address : String
  pub amount : String

pub record HolderNode : Type 0 where
  pub largest : Result QueryError (List LargeAccount)
  pub accounts : List Pubkey → Result QueryError (List (Option Account))
  pub supply : Result QueryError String

abbrev pub contains : List Pubkey → Pubkey → Bool
contains [] key = false
contains (k ∷ ks) key = same_key k key || contains ks key

-- The owners but the bonding curve, each once: `seen` are those before.
unfoldable pub unique_from : Pubkey → List Pubkey → List (Option Pubkey) → List Pubkey
unique_from bonding seen [] = []
unique_from bonding seen (none ∷ rest) = unique_from bonding seen rest
unique_from bonding seen (some o ∷ rest) =
    let skipped = unique_from bonding seen rest in
    let kept = o ∷ unique_from bonding (o ∷ seen) rest in
    if same_key o bonding || contains seen o then skipped else kept

-- Those of the keys whose account the program owns.
unfoldable pub pools_of : Pubkey → List Pubkey → List (Option Account) → List Pubkey
pools_of program [] accs = []
pools_of program (k ∷ ks) [] = []
pools_of program (k ∷ ks) (acc ∷ accs) =
    let rest = pools_of program ks accs in if is_owned_by program acc then k ∷ rest else rest

-- An account of unknown owner counts.
unfoldable pub is_counted : Pubkey → List Pubkey → Option Pubkey → Bool
is_counted bonding pools none = true
is_counted bonding pools (some o) = not (same_key o bonding) && not (contains pools o)

unfoldable pub kept_amounts :
    Pubkey → List Pubkey → List (Pubkey × ℕ) → List (Option Pubkey) → List ℕ
kept_amounts bonding pools [] owners = []
kept_amounts bonding pools (e ∷ es) [] = []
kept_amounts bonding pools ((key, amount) ∷ es) (o ∷ owners) =
    let rest = kept_amounts bonding pools es owners in
    if is_counted bonding pools o then amount ∷ rest else rest

-- `sort_unstable_by(|a, b| b.cmp(a))`, as an insertion sort.
unfoldable pub insert_desc : ℕ → List ℕ → List ℕ
insert_desc a [] = a ∷ []
insert_desc a (b ∷ bs) = let rest = insert_desc a bs in if leb b a then a ∷ b ∷ bs else b ∷ rest

unfoldable pub sort_desc : List ℕ → List ℕ
sort_desc [] = []
sort_desc (a ∷ as_rest) = insert_desc a (sort_desc as_rest)

unfoldable pub top_of : ℕ → List ℕ → List ℕ
top_of n amounts = take n (sort_desc amounts)

abbrev pub sum : List ℕ → ℕ
sum [] = 0
sum (a ∷ rest) = a + sum rest

module _ (key : String → Option Pubkey) (parse : String → Option ℕ) where
  -- The accounts whose address and amount parse.
  unfoldable pub entries_of : List LargeAccount → List (Pubkey × ℕ)
  entries_of [] = []
  entries_of (a ∷ rest) = elim (key a.address) [
    | none ↦ entries_of rest
    | some k ↦ elim (parse a.amount) [
      | none ↦ entries_of rest
      | some raw ↦ (k, raw) ∷ entries_of rest
    ]
  ]

abbrev pub entry_key : Pubkey × ℕ → Pubkey
entry_key (key, amount) = key

module _ (program bonding : Pubkey) (node : HolderNode) where
  -- The query of the owners is left out where there are none.
  unfoldable pub find_pools : List Pubkey → Result QueryError (List Pubkey)
  find_pools [] = ok []
  find_pools (o ∷ os) = elim (node.accounts (o ∷ os)) [
    | err e ↦ err rpc
    | ok accs ↦ ok (pools_of program (o ∷ os) accs)
  ]

  -- The amounts that count.
  unfoldable pub counted_amounts : List (Pubkey × ℕ) → Result QueryError (List ℕ)
  counted_amounts entries = elim (node.accounts (map entry_key entries)) [
    | err e ↦ err rpc
    | ok accs ↦
        let owners = map owner_of accs in
        elim (find_pools (unique_from bonding [] owners)) [
          | err e ↦ err e
          | ok pools ↦ ok (kept_amounts bonding pools entries owners)
        ]
  ]

module _ {F : Type 0} ⦃fl : Float F⦄ (key : String → Option Pubkey) (parse : String → Option ℕ)
    (program bonding : Pubkey) (node : HolderNode) where
  open fl use {of_ℕ, div}

  unfoldable pub fraction_of : ℕ → Result QueryError F
  fraction_of sum_top = elim node.supply [
    | err e ↦ err rpc
    | ok amount ↦ elim (parse amount) [
      | none ↦ err parse_failed
      | some total ↦ if total == 0 then err zero_supply else ok (div (of_ℕ sum_top) (of_ℕ total))
    ]
  ]

  unfoldable pub with_entries : ℕ → List (Pubkey × ℕ) → Result QueryError F
  with_entries n [] = err undecodable
  with_entries n (e ∷ es) = elim (counted_amounts program bonding node (e ∷ es)) [
    | err e' ↦ err e'
    | ok amounts ↦ fraction_of (sum (top_of n amounts))
  ]

  abbrev pub from_largest : ℕ → Result QueryError (List LargeAccount) → Result QueryError F
  from_largest n (err e) = err rpc
  from_largest n (ok []) = err no_accounts
  from_largest n (ok (a ∷ rest)) = with_entries n (entries_of key parse (a ∷ rest))

  unfoldable pub top_n_holder_concentration : ℕ → Result QueryError F
  top_n_holder_concentration n = from_largest n node.largest
