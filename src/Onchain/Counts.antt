-- ===== src/Onchain/Counts.antt =====
-- The counts of src/onchain.rs: the holders of a mint, and the signatures of a bonding curve.
use Prim.Native.String.{String}
use hades_ps_trader.Base.{
  ℕ, zero, suc, ◌+◌, ◌%◌, ◌^◌, Bool, true, false, Option, none, some, List, [], ◌∷◌, length, ltb,
  if◌then◌else◌,
}
use hades_ps_trader.Base.Result.{Result, ok, err}
use hades_ps_trader.Chain.{Pubkey, Account, amount_field}
use hades_ps_trader.Onchain.{QueryError, rpc, parse_failed, resolve_token_program}

-- An account of the mint that is not empty.
unfoldable pub is_holder : Account → Bool
is_holder acc = elim (amount_field acc) [ none ↦ false | some amount ↦ ltb 0 amount ]

unfoldable pub count_holders : List Account → ℕ
count_holders [] = 0
count_holders (acc ∷ accs) =
    let rest = count_holders accs in if is_holder acc then suc rest else rest

-- `accounts` is the answer of `getProgramAccounts` of a token program for the mint.
unfoldable pub holder_count :
    (classic token_2022 : Pubkey)
    → (ℕ → Result QueryError (Option Account))
    → (Pubkey → Result QueryError (List Account))
    → Result QueryError ℕ
holder_count classic token_2022 lookup accounts =
    elim (resolve_token_program classic token_2022 lookup) [
      | err e ↦ err e
      | ok program ↦ elim (accounts program) [
        | err e ↦ err rpc
        | ok accs ↦ ok (count_holders accs % 2 ^ 64)
      ]
    ]

pub record BondingCurveActivity : Type 0 where
  pub count : ℕ
  pub capped : Bool

abbrev pub sig_page_size : ℕ
sig_page_size = 1000

abbrev pub max_sig_pages : ℕ
max_sig_pages = 5

unfoldable pub last_of : List String → Option String
last_of [] = none
last_of (s ∷ []) = some s
last_of (s ∷ t ∷ rest) = last_of (t ∷ rest)

-- `sigs.last().unwrap()` and its parse.
abbrev pub cursor_of : (String → Option ℕ) → Option String → Option ℕ
cursor_of parse none = none
cursor_of parse (some last) = parse last

-- The pages that are left, from the cursor `before` on: `page` is the answer of
-- `getSignaturesForAddress`, and `parse` stands for `Signature::from_str`.
unfoldable pub count_pages :
    (String → Option ℕ)
    → (Option ℕ → Result QueryError (List String))
    → (left count : ℕ) → Option ℕ
    → Result QueryError BondingCurveActivity
count_pages parse page zero count before = ok (record { count = count; capped = true })
count_pages parse page (suc left) count before = elim (page before) [
  | err e ↦ err rpc
  | ok sigs ↦
      let total = (count + length sigs) % 2 ^ 64 in
      if ltb (length sigs) sig_page_size
      then ok (record { count = total; capped = false })
      else elim (cursor_of parse (last_of sigs)) [
        | none ↦ err parse_failed
        | some sig ↦ count_pages parse page left total (some sig)
      ]
]

unfoldable pub bonding_curve_tx_count :
    (String → Option ℕ)
    → (Option ℕ → Result QueryError (List String))
    → Result QueryError BondingCurveActivity
bonding_curve_tx_count parse page = count_pages parse page max_sig_pages 0 none
