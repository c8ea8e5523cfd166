-- ===== src/Onchain/Mint.antt =====
-- The name and symbol of a Token-2022 mint, as the program writes it, under
-- `fetch_token2022_metadata` of src/onchain.rs.
use hades_ps_trader.Base.{
  ℕ, ◌≡◌, ◌∙◌, refl, false, Option, some, List, ◌∷◌, ◌++◌, All, length, ◌==◌,
}
use hades_ps_trader.Base.Result.{Result, ok}
use hades_ps_trader.Chain.{Pubkey, Account}
use hades_ps_trader.Onchain.{QueryError}
use hades_ps_trader.Onchain.Borsh.{borsh, IsText, parse_extension-borsh}
use hades_ps_trader.Onchain.Extensions.{
  Extension, IsExtension, area_of, first_metadata-append, fetch_token2022_metadata-area_of,
}
use hades_ps_trader.Onchain.Metadata.{clean, fetch_token2022_metadata}

-- A mint whose extensions `others` come before that of its name and symbol.
pub record Mint : Type 0 where
  pub program : Pubkey
  pub base : List ℕ
  pub others : List Extension
  -- the update authority and the mint
  pub header : List ℕ
  pub name : List ℕ
  pub symbol : List ℕ
  pub after : List ℕ
  pub rest : List Extension

abbrev pub metadata_extension : Mint → Extension
metadata_extension m = record {
  ext_type = 19;
  value = m.header ++ (borsh m.name ++ (borsh m.symbol ++ m.after));
}

abbrev pub extensions_of : Mint → List Extension
extensions_of m = m.others ++ metadata_extension m ∷ m.rest

abbrev pub mint_account : Mint → Account
mint_account m = record { owner = m.program; bytes = m.base ++ (1 ∷ area_of (extensions_of m)) }

module _ (utf8 : List ℕ → Option (List ℕ)) where
  pub record IsMint (m : Mint) (name symbol : List ℕ) : Type 0 where
    pub base_165 : length m.base ≡ 165
    pub header_64 : length m.header ≡ 64
    pub sizes : All IsExtension (extensions_of m)
    pub others_unnamed : All (λ o. o.ext_type == 19 ≡ false) m.others
    pub name_text : IsText utf8 m.name name
    pub symbol_text : IsText utf8 m.symbol symbol

  -- From a Token-2022 mint as the program writes it, with the metadata extension after any others,
  -- the walk of the extensions comes to its end and returns the name and the symbol, each as
  -- decoded from UTF-8 and cleaned of trailing NULs and white space around it.
  pub fetch_token2022_metadata-account_of :
      (lookup : ℕ → Result QueryError (Option Account)) (m : Mint) (name symbol : List ℕ)
      → lookup 0 ≡ ok (some (mint_account m))
      → IsMint m name symbol
      → fetch_token2022_metadata utf8 lookup
        ≡ ok (record { name = clean name; symbol = clean symbol })
  fetch_token2022_metadata-account_of lookup m name symbol answered h =
      fetch_token2022_metadata-area_of utf8 lookup m.program m.base (extensions_of m) answered
        h.base_165 h.sizes
      ∙ first_metadata-append utf8 m.others m.rest (metadata_extension m) h.others_unnamed refl
      ∙ parse_extension-borsh utf8 m.header m.name m.symbol m.after name symbol h.header_64
          h.name_text h.symbol_text
