-- ===== src/Onchain.antt =====
-- src/onchain.rs: the queries of the chain. What the node answers is data; the parsing of keys and
-- numbers from text, UTF-8 and the derived addresses are parameters. The names of a token are the
-- queries of Onchain/Metadata, the counts those of Onchain/Counts and Onchain/Holders.
pub mod Metadata
pub mod Borsh
pub mod Extensions
pub mod Mint
pub mod Balance
pub mod Held
pub mod Counts
pub mod Paging
pub mod Holders
pub mod Largest
use hades_ps_trader.Base.{
  ℕ, zero, suc, ◌+◌, Bool, true, false, ◌||◌, Option, none, some, if◌then◌else◌,
}
use hades_ps_trader.Base.Result.{Result, ok, err}
use hades_ps_trader.Chain.{Pubkey, Account, same_key}

pub data QueryError : Type 0 where
  rpc not_visible wrong_program parse_failed no_accounts undecodable zero_supply zero_balance
        no_attempt :
      QueryError
  name_parse symbol_parse too_short no_extension_area ext_too_short no_extension : QueryError

abbrev pub account_lookup_attempts : ℕ
account_lookup_attempts = 4

-- The attempts from number `i` on: `lookup i` is the answer to attempt `i`.
unfoldable pub lookup_from :
    (left i : ℕ) → (ℕ → Result QueryError (Option Account)) → Result QueryError Account
lookup_from zero i lookup = err not_visible
lookup_from (suc left) i lookup =
    let rest = lookup_from left (i + 1) lookup in
    elim (lookup i) [ err e ↦ err rpc | ok (some acc) ↦ ok acc | ok none ↦ rest ]

unfoldable pub get_account_with_retry :
    (ℕ → Result QueryError (Option Account)) → Result QueryError Account
get_account_with_retry lookup = lookup_from account_lookup_attempts 0 lookup

-- `classic` and `token_2022` are the ids of the two token programs.
unfoldable pub resolve_token_program :
    (classic token_2022 : Pubkey)
    → (ℕ → Result QueryError (Option Account))
    → Result QueryError Pubkey
resolve_token_program classic token_2022 lookup = elim (get_account_with_retry lookup) [
  | err e ↦ err e
  | ok acc ↦
      if same_key acc.owner classic || same_key acc.owner token_2022
      then ok acc.owner
      else err wrong_program
]
