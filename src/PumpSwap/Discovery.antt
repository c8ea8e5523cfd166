-- ===== src/PumpSwap/Discovery.antt =====
-- The pool that `find_pool` of src/pumpswap.rs finds.
use Prim.Native.String.{String}
use hades_ps_trader.Base.{
  ℕ, ◌≡◌, refl, inl, inr, Option, none, some, List, [], ◌∷◌, map, take, get_elem?, arith,
  Option-cases,
}
use hades_ps_trader.Base.Result.{Result, ok, err, Result-cases}
use hades_ps_trader.Chain.{Pubkey, Account, owner_field}
use hades_ps_trader.PumpSwap.{
  PoolInfo, Node, parse_keys, candidates_from, find_owned, key_of, pool_at, quote_from, quote_of,
  choose_pool, among, with_holders, from_largest, find_pool,
}
use hades_ps_trader.PumpSwap.Owners.{IsFirstOwned, find_owned-IsFirstOwned, candidates_from-owner}

module _ {E : Type 0} (parse : String → Option Pubkey) (program : Pubkey) (node : Node E) where
  -- The pool owns its base vault, one of the accounts `accs` of the keys, the program owns the pool,
  -- and no owner of an account before it.
  abbrev pub IsPoolOf : List Pubkey → PoolInfo → Type 0
  IsPoolOf keys info =
      (accs : List (Option Account)) × (owners : List (Option Account)) × (i : ℕ) × (idx : ℕ)
      × (acc : Account) × (node.accounts keys ≡ ok accs)
      × (node.accounts (map key_of (candidates_from 0 accs)) ≡ ok owners)
      × (get_elem? (candidates_from 0 accs) i ≡ some (info.pool_id, idx))
      × IsFirstOwned program owners i
      × (get_elem? keys idx ≡ some info.base_vault)
      × (get_elem? accs idx ≡ some (some acc))
      × (owner_field acc ≡ some info.pool_id)

  -- The quote vault is the first WSOL account of the pool.
  abbrev pub IsQuoteOf : PoolInfo → Type 0
  IsQuoteOf info =
      (first : String) × (rest : List String) × (node.wsol_accounts info.pool_id
        ≡ ok (first ∷ rest))
      × (parse first ≡ some info.quote_vault)

  quote_from-ok :
      (found : Pubkey × Pubkey) (answer : Result E (List String)) (info : PoolInfo)
      → quote_from parse program node found answer ≡ ok info
      → (info.pool_id ≡ found.0)
        × (info.base_vault ≡ found.1)
        × ((first : String) × (rest : List String) × (answer ≡ ok (first ∷ rest))
            × (parse first ≡ some info.quote_vault))
  quote_from-ok found (err e) info h = absurd (ground (arith, h))
  quote_from-ok found (ok []) info h = absurd (ground (arith, h))
  quote_from-ok found (ok (first ∷ rest)) info h = elim (Option-cases (parse first)) [
    | inl f ↦ absurd (ground (arith, h, f))
    | inr (quote_vault, f) ↦
        (ground (arith, h, f), ground (arith, h, f), (first, rest, refl, ground (arith, h, f)))
  ]

  pool_at-some :
      (cs : List (Pubkey × ℕ)) (keys : List Pubkey) (i : ℕ) (found : Pubkey × Pubkey)
      → pool_at cs keys i ≡ some found
      → (idx : ℕ) × (get_elem? cs i ≡ some (found.0, idx)) × (get_elem? keys idx ≡ some found.1)
  unfolding pool_at
  pool_at-some cs keys i found e = elim (Option-cases (get_elem? cs i)) [
    | inl f ↦ absurd (ground (arith, e, f))
    | inr ((pool_id, idx), f) ↦ elim (Option-cases (get_elem? keys idx)) [
      | inl g ↦ absurd (ground (arith, e, f, g))
      | inr (base_vault, g) ↦ (idx, ground (arith, e, f, g), ground (arith, e, f, g))
    ]
  ]

  choose_pool-ok :
      (cs : List (Pubkey × ℕ)) (keys : List Pubkey) (owners : List (Option Account))
      (info : PoolInfo)
      → choose_pool parse program node cs keys owners ≡ ok info
      → (i : ℕ) × (found : Pubkey × Pubkey) × (find_owned program owners 0 ≡ some i)
        × (pool_at cs keys i ≡ some found)
        × (quote_of parse program node found ≡ ok info)
  unfolding choose_pool
  choose_pool-ok cs keys owners info e = elim (Option-cases (find_owned program owners 0)) [
    | inl f ↦ absurd (ground (arith, e, f))
    | inr (i, f) ↦ elim (Option-cases (pool_at cs keys i)) [
      | inl g ↦ absurd (ground (arith, e, f, g))
      | inr (found, g) ↦ (i, found, f, g, ground (arith, e, f, g))
    ]
  ]

  among-ok :
      (cs : List (Pubkey × ℕ)) (keys : List Pubkey) (info : PoolInfo)
      → among parse program node cs keys ≡ ok info
      → (owners : List (Option Account)) × (node.accounts (map key_of cs) ≡ ok owners)
        × (choose_pool parse program node cs keys owners ≡ ok info)
  unfolding among
  among-ok [] keys info e = absurd (ground (arith, e))
  among-ok (c ∷ cs) keys info e = elim (Result-cases (node.accounts (map key_of (c ∷ cs)))) [
    | inl (owners, f) ↦ (owners, f, ground (arith, e, f))
    | inr (error, f) ↦ absurd (ground (arith, e, f))
  ]

  among-IsPoolOf :
      (keys : List Pubkey) (accs : List (Option Account)) (info : PoolInfo)
      → node.accounts keys ≡ ok accs
      → among parse program node (candidates_from 0 accs) keys ≡ ok info
      → IsPoolOf keys info × IsQuoteOf info
  unfolding quote_of
  among-IsPoolOf keys accs info answered e =
      let (owners, owned_by, chosen) = among-ok (candidates_from 0 accs) keys info e in
      let (i, found, first, at, quoted) =
        choose_pool-ok (candidates_from 0 accs) keys owners info chosen in
      let (idx, candidate, vault) = pool_at-some (candidates_from 0 accs) keys i found at in
      let (same_pool, same_vault, quote) =
        quote_from-ok found (node.wsol_accounts found.0) info quoted in
      let (acc, there, field) = candidates_from-owner accs i found.0 idx candidate in
      let is_first = find_owned-IsFirstOwned program owners i first in
      let pool : IsPoolOf keys info = (
        accs,
        owners,
        i,
        idx,
        acc,
        answered,
        owned_by,
        rw same_pool candidate,
        is_first,
        rw same_vault vault,
        there,
        rw same_pool field,
      ) in
      (pool, rw same_pool quote)

  with_holders-IsPoolOf :
      (keys : List Pubkey) (info : PoolInfo)
      → with_holders parse program node keys ≡ ok info
      → IsPoolOf keys info × IsQuoteOf info
  unfolding with_holders
  with_holders-IsPoolOf keys info e = elim (Result-cases (node.accounts keys)) [
    | inl (accs, f) ↦ among-IsPoolOf keys accs info f (ground (arith, e, f))
    | inr (error, f) ↦ absurd (ground (arith, e, f))
  ]

  from_largest-IsPoolOf :
      (answer : Option (Result E (List String))) (info : PoolInfo)
      → from_largest parse program node answer ≡ ok info
      → (addresses : List String) × (answer ≡ some (ok addresses))
        × IsPoolOf (parse_keys parse (take 10 addresses)) info
        × IsQuoteOf info
  from_largest-IsPoolOf none info e = absurd (ground (arith, e))
  from_largest-IsPoolOf (some (err error)) info e = absurd (ground (arith, e))
  from_largest-IsPoolOf (some (ok [])) info e = absurd (ground (arith, e))
  from_largest-IsPoolOf (some (ok (a ∷ rest))) info e =
      let (pool, quote) = with_holders-IsPoolOf _ info e in (a ∷ rest, refl, pool, quote)

  -- A pool that `find_pool` finds is owned by the PumpSwap program and owns the base vault, one of
  -- the ten largest accounts of the mint; no owner before it among those of the accounts is owned
  -- by the program; and the quote vault is the first of its WSOL accounts.
  pub find_pool-IsPoolOf :
      (info : PoolInfo)
      → find_pool parse program node ≡ ok info
      → (addresses : List String) × (node.largest ≡ some (ok addresses))
        × IsPoolOf (parse_keys parse (take 10 addresses)) info
        × IsQuoteOf info
  unfolding find_pool
  find_pool-IsPoolOf info e = from_largest-IsPoolOf node.largest info e
