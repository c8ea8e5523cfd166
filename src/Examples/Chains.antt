-- ===== src/Examples/Chains.antt =====
-- Witnesses of the theorems on the reads of the chain.
use Prim.Native.String.{String}
use hades_ps_trader.Base.{
  ℕ, ◌≡◌, ◌<◌, refl, false, Option, some, List, [], ◌∷◌, arith, if◌then◌else◌, take, ◌==◌,
}
use hades_ps_trader.Base.Result.{Result, ok, err}
use hades_ps_trader.Base.Text.{str_eq}
use hades_ps_trader.Chain.{Pubkey, Account, owner_field, same_key}
use hades_ps_trader.Chain.Bytes.{to_le}
use hades_ps_trader.Chain.Layout.{TokenAccount, IsTokenAccount}
use hades_ps_trader.Float.Fixed.{Fixed, fixed_float, whole}
use hades_ps_trader.PumpSwap.{
  PoolError, empty_vault, PoolInfo, PoolState, Node, with_holders, among, choose_pool, quote_of,
  find_owned, pool_at, candidates_from, fetch_pool_state, find_pool, parse_keys,
}
use hades_ps_trader.PumpSwap.Price.{vault_account, fetch_pool_state-bytes_of}
use hades_ps_trader.PumpSwap.Discovery.{IsPoolOf, IsQuoteOf, find_pool-IsPoolOf}
use hades_ps_trader.Session.{TokenBalance}
use hades_ps_trader.Onchain.{QueryError, rpc}
use hades_ps_trader.Onchain.Metadata.{clean, fetch_token2022_metadata}
use hades_ps_trader.Onchain.Mint.{Mint, IsMint, mint_account, fetch_token2022_metadata-account_of}
use hades_ps_trader.Onchain.Balance.{BalanceTry, fetch_token_balance}
use hades_ps_trader.Onchain.Counts.{bonding_curve_tx_count}
use hades_ps_trader.Onchain.Paging.{bonding_curve_tx_count-Serves}
use hades_ps_trader.Onchain.Holders.{
  HolderNode, entries_of, counted_amounts, fraction_of, with_entries, find_pools, unique_from,
  pools_of, kept_amounts, is_counted, top_of, sort_desc, insert_desc, top_n_holder_concentration,
}
use hades_ps_trader.Onchain.Largest.{IsShare, top_n_holder_concentration-IsShare}
open fixed_float use {div}

abbrev repeated : ℕ → ℕ → List ℕ
repeated b Prim.Native.Nat.zero = []
repeated b (Prim.Native.Nat.suc n) = b ∷ repeated b n

-- The key of the pool owns both vaults.
abbrev vault : ℕ → TokenAccount
vault amount = record { mint = repeated 1 32; owner = repeated 9 32; amount = amount; rest = [] }

vault-IsTokenAccount : (amount : ℕ) → amount < 18446744073709551616 → IsTokenAccount (vault amount)
vault-IsTokenAccount amount h = record { mint_32 = refl; owner_32 = refl; amount_64 = h }

abbrev base_amount : ℕ
base_amount = 2000000

abbrev vault_answer : (base quote : ℕ) → Result PoolError (PoolState Fixed)
vault_answer base quote = fetch_pool_state {E = PoolError} (
    some (
      ok (
        some (vault_account (repeated 6 32) (vault base)),
        some (vault_account (repeated 6 32) (vault quote)),
      )))

fetch_pool_state-bytes_of_example :
    (0 < base_amount
      → vault_answer 2000000 4000000000
        ≡ ok (record {
          price_sol =
              div (div (whole 4000000000) (whole 1000000000)) (div (whole 2000000) (whole 1000000));
          pool_sol = div (whole 4000000000) (whole 1000000000);
        }))
    × (base_amount ≡ 0 → vault_answer 2000000 4000000000 ≡ err empty_vault)
fetch_pool_state-bytes_of_example =
    fetch_pool_state-bytes_of PoolError (repeated 6 32) (vault 2000000) (vault 4000000000)
      (vault-IsTokenAccount 2000000 (omega arith)) (vault-IsTokenAccount 4000000000 (omega arith))

-- The token account has the key of ones, the pool that of nines.
abbrev key_named : String → Option Pubkey
key_named s = if str_eq s "token" then some (repeated 1 32) else some (repeated 5 32)

abbrev accounts_of : List Pubkey → List (Option Account)
accounts_of [] = []
accounts_of (k ∷ ks) =
    let rest = accounts_of ks in
    if same_key k (repeated 1 32)
    then some (vault_account (repeated 6 32) (vault 2000000)) ∷ rest
    else some (record { owner = repeated 7 32; bytes = [] }) ∷ rest

abbrev node : Node PoolError
node = record {
  largest = some (ok ("token" ∷ []));
  accounts = λ keys. ok (accounts_of keys);
  wsol_accounts = λ owner. ok ("wsol" ∷ []);
}

abbrev pool : PoolInfo
pool = record { pool_id = repeated 9 32; base_vault = repeated 1 32; quote_vault = repeated 5 32 }

found : find_pool key_named (repeated 7 32) node ≡ ok pool
unfolding find_pool with_holders among choose_pool quote_of find_owned pool_at candidates_from
    parse_keys owner_field same_key to_le
found = refl

find_pool-IsPoolOf_example :
    (addresses : List String) × (node.largest ≡ some (ok addresses))
    × IsPoolOf key_named (repeated 7 32) node (parse_keys key_named (take 10 addresses)) pool
    × IsQuoteOf key_named (repeated 7 32) node pool
find_pool-IsPoolOf_example = find_pool-IsPoolOf key_named (repeated 7 32) node pool found

abbrev mint : Mint
mint = record {
  program = repeated 2 32;
  base = repeated 0 165;
  others = record { ext_type = 18; value = repeated 3 64 } ∷ [];
  header = repeated 4 64;
  name = b'a' ∷ b'b' ∷ [];
  symbol = b'c' ∷ [];
  after = [];
  rest = [];
}

mint-IsMint : IsMint (λ raw. some raw) mint (b'a' ∷ b'b' ∷ []) (b'c' ∷ [])
unfolding to_le
mint-IsMint = record {
  base_165 = refl;
  header_64 = refl;
  sizes = ((omega arith, omega arith), ((omega arith, omega arith), tt));
  others_unnamed = (refl, tt);
  name_text = (omega arith, refl);
  symbol_text = (omega arith, refl);
}

fetch_token2022_metadata-account_of_example :
    fetch_token2022_metadata (λ raw. some raw) (λ i. ok (some (mint_account mint)))
    ≡ ok (record { name = clean (b'a' ∷ b'b' ∷ []); symbol = clean (b'c' ∷ []) })
fetch_token2022_metadata-account_of_example =
    fetch_token2022_metadata-account_of (λ raw. some raw) (λ i. ok (some (mint_account mint))) mint
      (b'a' ∷ b'b' ∷ []) (b'c' ∷ []) refl mint-IsMint

abbrev signatures : List String
signatures = "first" ∷ "second" ∷ []

bonding_curve_tx_count-Serves_example :
    bonding_curve_tx_count (λ s. some 0) (λ before. ok signatures)
    ≡ ok (record { count = 2; capped = false })
bonding_curve_tx_count-Serves_example =
    bonding_curve_tx_count-Serves (λ s. some 0) (λ before. ok signatures) signatures
      (refl, λ long. absurd (omega (arith, long)))

abbrev amount_named : String → Option ℕ
amount_named s = if str_eq s "thirty" then some 30 else some 100

-- Two accounts of 30, one of them the pool's, in a supply of 100.
abbrev holders : HolderNode
holders = record {
  largest = ok (
      record { address = "token"; amount = "thirty" }
      ∷ record { address = "other"; amount = "thirty" }
      ∷ []);
  accounts = λ keys. ok (accounts_of keys);
  supply = ok "hundred";
}

concentrated :
    top_n_holder_concentration key_named amount_named (repeated 7 32) (repeated 8 32) holders 10
    ≡ ok (div (whole 30) (whole 100))
unfolding top_n_holder_concentration with_entries entries_of counted_amounts fraction_of find_pools
    unique_from pools_of kept_amounts is_counted top_of sort_desc insert_desc owner_field same_key
    to_le
concentrated = refl

top_n_holder_concentration-IsShare_example :
    IsShare key_named amount_named
      (repeated 7 32)
      (repeated 8 32)
      holders
      10
      (div (whole 30) (whole 100))
top_n_holder_concentration-IsShare_example =
    top_n_holder_concentration-IsShare key_named amount_named (repeated 7 32) (repeated 8 32)
      holders 10 (div (whole 30) (whole 100)) concentrated

-- The derived account is not there; the scan finds the balance in the second attempt.
abbrev balance_try : ℕ → BalanceTry
balance_try i = record {
  ata = err rpc;
  addresses = if i == 0 then ok [] else ok ("token" ∷ []);
  balance_of = λ k. ok (record { amount = "thirty"; decimals = 6 });
}

abbrev balance_answer : Result QueryError TokenBalance
balance_answer =
    fetch_token_balance amount_named key_named (repeated 6 32) (repeated 2 32)
      (λ i. ok (some (record { owner = repeated 6 32; bytes = [] }))) 5 balance_try
