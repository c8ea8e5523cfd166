-- ===== src/Onchain/Metadata.antt =====
-- The name and symbol of a token in src/onchain.rs: the Metaplex account, and the extension area of
-- a Token-2022 mint. A text is the list of its code points; `utf8` stands for `String::from_utf8`.
use hades_ps_trader.Base.{
  ℕ, zero, suc, ◌+◌, Option, none, some, List, [], ◌∷◌, reverse, length, get_elem?, ltb, ◌==◌,
  ◌>>=◌, if◌then◌else◌,
}
use hades_ps_trader.Base.Result.{Result, ok, err}
use hades_ps_trader.Base.Text.{trim}
use hades_ps_trader.Chain.{Account, slice, from_le}
use hades_ps_trader.Onchain.{
  QueryError, name_parse, symbol_parse, too_short, no_extension_area, ext_too_short, no_extension,
  get_account_with_retry,
}

pub record TokenMetadata : Type 0 where
  pub name : List ℕ
  pub symbol : List ℕ

unfoldable pub drop_nuls : List ℕ → List ℕ
drop_nuls [] = []
drop_nuls (c ∷ cs) = if c == 0 then drop_nuls cs else c ∷ cs

-- `s.trim_end_matches('\0').trim()`
unfoldable pub clean : List ℕ → List ℕ
unfolding drop_nuls
clean cs = trim (reverse (drop_nuls (reverse cs)))

abbrev pub account_type_offset : ℕ
account_type_offset = 165

abbrev pub tlv_start : ℕ
tlv_start = 166

abbrev pub ext_token_metadata : ℕ
ext_token_metadata = 19

module _ (utf8 : List ℕ → Option (List ℕ)) where
  -- The text at the offset, and the offset after it.
  unfoldable pub read_borsh_string : List ℕ → ℕ → Option (List ℕ × ℕ)
  read_borsh_string bytes offset =
      let len = from_le (slice offset (offset + 4) bytes) in
      let start = offset + 4 in
      if ltb (length bytes) (offset + 4)
      then none
      else if ltb (length bytes) (start + len)
      then none
      else utf8 (slice start (start + len) bytes) >>= λ s. some (clean s, start + len)

  -- Two texts in a row from the offset.
  unfoldable pub read_name_symbol : List ℕ → ℕ → Result QueryError TokenMetadata
  read_name_symbol bytes offset = elim (read_borsh_string bytes offset) [
    | none ↦ err name_parse
    | some (name, next) ↦ elim (read_borsh_string bytes next) [
      | none ↦ err symbol_parse
      | some (symbol, end) ↦ ok (record { name = name; symbol = symbol })
    ]
  ]

  unfoldable pub fetch_metaplex_metadata :
      (ℕ → Result QueryError (Option Account)) → Result QueryError TokenMetadata
  fetch_metaplex_metadata lookup = elim (get_account_with_retry lookup) [
    | err e ↦ err e
    | ok acc ↦ read_name_symbol acc.bytes (1 + 32 + 32)
  ]

  unfoldable pub parse_extension : List ℕ → Result QueryError TokenMetadata
  parse_extension ext = if ltb (length ext) 64 then err ext_too_short else read_name_symbol ext 64

  -- The rounds of the `while` from the offset on. A round moves the offset by 4 at least.
  unfoldable pub walk : (fuel offset : ℕ) → List ℕ → Result QueryError TokenMetadata
  walk zero offset bytes = err no_extension
  walk (suc fuel) offset bytes =
      let ext_type = from_le (slice offset (offset + 2) bytes) in
      let ext_len = from_le (slice (offset + 2) (offset + 4) bytes) in
      let start = offset + 4 in
      let rest = walk fuel (start + ext_len) bytes in
      if ltb (length bytes) (offset + 4)
      then err no_extension
      else if ltb (length bytes) (start + ext_len)
      then err no_extension
      else if ext_type == ext_token_metadata
      then parse_extension (slice start (start + ext_len) bytes)
      else rest

  unfoldable pub metadata_of_mint : List ℕ → Result QueryError TokenMetadata
  metadata_of_mint bytes = elim (get_elem? bytes account_type_offset) [
    | none ↦ err too_short
    | some account_type ↦
        if account_type == 1 then walk (length bytes) tlv_start bytes else err no_extension_area
  ]

  unfoldable pub fetch_token2022_metadata :
      (ℕ → Result QueryError (Option Account)) → Result QueryError TokenMetadata
  fetch_token2022_metadata lookup = elim (get_account_with_retry lookup) [
    | err e ↦ err e
    | ok acc ↦
        if ltb (length acc.bytes) tlv_start then err too_short else metadata_of_mint acc.bytes
  ]

  -- The lookups of the Metaplex account and of the mint.
  unfoldable pub fetch_token_metadata :
      (metaplex mint : ℕ → Result QueryError (Option Account)) → Result QueryError TokenMetadata
  fetch_token_metadata metaplex mint = elim (fetch_metaplex_metadata metaplex) [
    | ok m ↦ ok m
    | err e ↦ fetch_token2022_metadata mint
  ]
