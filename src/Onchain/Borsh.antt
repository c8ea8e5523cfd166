-- ===== src/Onchain/Borsh.antt =====
-- The name and symbol that src/onchain.rs reads from texts as the programs write them, in Borsh.
use mathlib.Core.List.{append_assoc}
use hades_ps_trader.Base.{
  ℕ, ◌+◌, ◌^◌, ◌<◌, ◌≤◌, ◌≡◌, ◌∙◌, refl, sym, ap, false, true, Option, some, List, ◌++◌, length,
  length-append, ltb, arith,
}
use hades_ps_trader.Base.Result.{ok}
use hades_ps_trader.Chain.{slice, from_le}
use hades_ps_trader.Chain.Bytes.{to_le, length-to_le, from_le-to_le}
use hades_ps_trader.Chain.Layout.{slice-append}
use hades_ps_trader.Onchain.Metadata.{clean, read_borsh_string, read_name_symbol, parse_extension}

-- A text in Borsh: its length in 4 bytes, and its bytes.
abbrev pub borsh : List ℕ → List ℕ
borsh raw = to_le 4 (length raw) ++ raw

pub not_short : (n m : ℕ) → m ≤ n → ltb n m ≡ false
not_short n m le = ground arith

pub is_short : (n m : ℕ) → n < m → ltb n m ≡ true
is_short n m less = ground arith

length-three : (xs ys zs : List ℕ) → length (xs ++ (ys ++ zs)) ≡ length xs + (length ys + length zs)
length-three xs ys zs = omega (arith, length-append xs (ys ++ zs), length-append ys zs)

module _ (utf8 : List ℕ → Option (List ℕ)) where
  read_borsh_string-borsh :
      (before raw after text : List ℕ) (offset : ℕ)
      → length before ≡ offset
      → length raw < 256 ^ 4
      → utf8 raw ≡ some text
      → read_borsh_string utf8 (before ++ (borsh raw ++ after)) offset
        ≡ some (clean text, offset + 4 + length raw)
  unfolding read_borsh_string
  read_borsh_string-borsh before raw after text offset at small decodes =
      let bytes = before ++ (borsh raw ++ after) in
      let prefix = to_le 4 (length raw) in
      let width = length-to_le 4 (length raw) in
      let layout : before ++ (borsh raw ++ after) ≡ before ++ (prefix ++ (raw ++ after)) =
        ap (λ xs. before ++ xs) (append_assoc prefix raw after) in
      let layout' : before ++ (borsh raw ++ after) ≡ (before ++ prefix) ++ (raw ++ after) =
        layout ∙ sym (append_assoc before prefix (raw ++ after)) in
      let len : from_le (slice offset (offset + 4) (before ++ (borsh raw ++ after))) ≡ length raw =
        rw
          (
            layout,
            slice-append offset (offset + 4) before prefix (raw ++ after) at (omega (arith, width)),
          )
          (from_le-to_le 4 (length raw) small) in
      let text_slice : slice (offset + 4) (offset + 4 + length raw) (before ++ (borsh raw ++ after))
          ≡ raw =
        rw layout' (
          slice-append (offset + 4) (offset + 4 + length raw) (before ++ prefix) raw after
            (omega (arith, length-append before prefix, width, at)) refl) in
      let long : length (before ++ (borsh raw ++ after)) ≡ offset + 4 + length raw + length after =
        omega (arith, length-three before (borsh raw) after, length-append prefix raw, width, at) in
      rw
        (
          len,
          not_short (length bytes) (offset + 4) (omega (arith, long)),
          not_short (length bytes) (offset + 4 + length raw) (omega (arith, long)),
          text_slice,
          decodes,
        )
        refl

  -- A name and a symbol that decode.
  abbrev pub IsText : List ℕ → List ℕ → Type 0
  IsText raw text = (length raw < 256 ^ 4) × (utf8 raw ≡ some text)

  pub read_name_symbol-borsh :
      (before name symbol after name_text symbol_text : List ℕ) (offset : ℕ)
      → length before ≡ offset
      → IsText name name_text
      → IsText symbol symbol_text
      → read_name_symbol utf8 (before ++ (borsh name ++ (borsh symbol ++ after))) offset
        ≡ ok (record { name = clean name_text; symbol = clean symbol_text })
  unfolding read_name_symbol
  read_name_symbol-borsh before name symbol after name_text symbol_text offset at n s =
      let bytes = before ++ (borsh name ++ (borsh symbol ++ after)) in
      let first =
        read_borsh_string-borsh before name (borsh symbol ++ after) name_text offset at n.0 n.1 in
      let together : bytes ≡ (before ++ borsh name) ++ (borsh symbol ++ after) =
        sym (append_assoc before (borsh name) (borsh symbol ++ after)) in
      let header : length (before ++ borsh name) ≡ offset + 4 + length name = omega (
        arith,
        length-append before (borsh name),
        length-append (to_le 4 (length name)) name,
        length-to_le 4 (length name),
        at,
      ) in
      let second : read_borsh_string utf8 bytes (offset + 4 + length name)
          ≡ some (clean symbol_text, offset + 4 + length name + 4 + length symbol) =
        rw together (
          read_borsh_string-borsh (before ++ borsh name) symbol after symbol_text
            (offset + 4 + length name) header s.0 s.1) in
      rw (read_name_symbol, first, second) refl

  pub parse_extension-borsh :
      (header name symbol after name_text symbol_text : List ℕ)
      → length header ≡ 64
      → IsText name name_text
      → IsText symbol symbol_text
      → parse_extension utf8 (header ++ (borsh name ++ (borsh symbol ++ after)))
        ≡ ok (record { name = clean name_text; symbol = clean symbol_text })
  unfolding parse_extension
  parse_extension-borsh header name symbol after name_text symbol_text at n s =
      let body = borsh name ++ (borsh symbol ++ after) in
      rw (not_short (length (header ++ body)) 64 (omega (arith, length-append header body, at)))
        (read_name_symbol-borsh header name symbol after name_text symbol_text 64 at n s)
