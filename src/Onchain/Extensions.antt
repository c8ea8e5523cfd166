-- ===== src/Onchain/Extensions.antt =====
-- The extension area of a Token-2022 mint, as the program writes it, under the walk of
-- src/onchain.rs.
use mathlib.Core.List.{append_assoc}
use mathlib.Core.Path.{subst}
use hades_ps_trader.Base.{
  ℕ, zero, suc, ◌+◌, ◌^◌, ◌<◌, ◌≡◌, ◌∙◌, refl, sym, ap, false, true, Option, some, List, [], ◌∷◌,
  ◌++◌, All, length, length-append, ltb, ◌==◌, arith, if◌then◌else◌,
}
use hades_ps_trader.Base.Result.{Result, ok, err}
use hades_ps_trader.Chain.{Pubkey, Account, slice, from_le}
use hades_ps_trader.Chain.Bytes.{to_le, length-to_le, from_le-to_le, get_elem?-append}
use hades_ps_trader.Chain.Layout.{slice-append}
use hades_ps_trader.Onchain.{QueryError, no_extension, get_account_with_retry, lookup_from}
use hades_ps_trader.Onchain.Borsh.{not_short, is_short}
use hades_ps_trader.Onchain.Metadata.{
  TokenMetadata, parse_extension, walk, metadata_of_mint, fetch_token2022_metadata,
}

-- An entry of the extension area.
pub record Extension : Type 0 where
  pub ext_type : ℕ
  pub value : List ℕ

abbrev pub IsExtension : Extension → Type 0
IsExtension e = (e.ext_type < 256 ^ 2) × (length e.value < 256 ^ 2)

abbrev pub entry_of : Extension → List ℕ
entry_of e = to_le 2 e.ext_type ++ (to_le 2 (length e.value) ++ e.value)

abbrev pub area_of : List Extension → List ℕ
area_of [] = []
area_of (e ∷ es) = entry_of e ++ area_of es

-- What a round of the walk reads of an entry that begins at the offset.
abbrev ReadsEntry : Extension → List ℕ → List ℕ → List ℕ → ℕ → Type 0
ReadsEntry e bytes before rest offset =
    (from_le (slice offset (offset + 2) bytes) ≡ e.ext_type)
    × (from_le (slice (offset + 2) (offset + 4) bytes) ≡ length e.value)
    × (slice (offset + 4) (offset + 4 + length e.value) bytes ≡ e.value)
    × (length bytes ≡ offset + 4 + length e.value + length rest)
    × (bytes ≡ (before ++ entry_of e) ++ rest)
    × (length (before ++ entry_of e) ≡ offset + 4 + length e.value)

entry_of-ReadsEntry :
    (e : Extension) (before rest : List ℕ) (offset : ℕ)
    → length before ≡ offset
    → IsExtension e
    → ReadsEntry e (before ++ (entry_of e ++ rest)) before rest offset
entry_of-ReadsEntry e before rest offset at h =
    let kind = to_le 2 e.ext_type in
    let size = to_le 2 (length e.value) in
    let kind_2 = length-to_le 2 e.ext_type in
    let size_2 = length-to_le 2 (length e.value) in
    let bytes = before ++ (entry_of e ++ rest) in
    let e1 : bytes ≡ before ++ (kind ++ ((size ++ e.value) ++ rest)) =
      ap (λ xs. before ++ xs) (append_assoc kind (size ++ e.value) rest) in
    let e2 : bytes ≡ (before ++ kind) ++ (size ++ (e.value ++ rest)) =
      e1
      ∙ sym (append_assoc before kind ((size ++ e.value) ++ rest))
      ∙ ap (λ xs. (before ++ kind) ++ xs) (append_assoc size e.value rest) in
    let e3 : bytes ≡ ((before ++ kind) ++ size) ++ (e.value ++ rest) =
      e2 ∙ sym (append_assoc (before ++ kind) size (e.value ++ rest)) in
    let two : length (before ++ kind) ≡ offset + 2 =
      omega (arith, length-append before kind, kind_2, at) in
    let four : length ((before ++ kind) ++ size) ≡ offset + 4 =
      omega (arith, length-append (before ++ kind) size, size_2, two) in
    let entry : length (entry_of e) ≡ 4 + length e.value =
      omega
        (arith, length-append kind (size ++ e.value), length-append size e.value, kind_2, size_2) in
    (
      rw (e1, slice-append offset (offset + 2) before kind _ at (omega (arith, kind_2)))
          (from_le-to_le 2 e.ext_type h.0),
      rw
          (
            e2,
            slice-append (offset + 2) (offset + 4) (before ++ kind) size _ two
                (omega (arith, size_2)),
          )
          (from_le-to_le 2 (length e.value) h.1),
      rw e3 (slice-append (offset + 4) (offset + 4 + length e.value) _ e.value rest four refl),
      omega (
        arith,
        length-append before (entry_of e ++ rest),
        length-append (entry_of e) rest,
        entry,
        at,
      ),
      sym (append_assoc before (entry_of e) rest),
      omega (arith, length-append before (entry_of e), entry, at),
    )

length-area_of :
    (e : Extension) (es : List Extension)
    → length (area_of (e ∷ es)) ≡ 4 + length e.value + length (area_of es)
length-area_of e es = omega (
  arith,
  length-append (entry_of e) (area_of es),
  length-to_le 2 e.ext_type,
  length-append (to_le 2 e.ext_type) (to_le 2 (length e.value) ++ e.value),
  length-append (to_le 2 (length e.value)) e.value,
  length-to_le 2 (length e.value),
)

module _ (utf8 : List ℕ → Option (List ℕ)) where
  -- What the first `TokenMetadata` extension holds.
  abbrev pub first_metadata : List Extension → Result QueryError TokenMetadata
  first_metadata [] = err no_extension
  first_metadata (e ∷ es) =
      let rest = first_metadata es in
      if e.ext_type == 19 then parse_extension utf8 e.value else rest

  walk-area_of :
      (es : List Extension) (before : List ℕ) (fuel offset : ℕ)
      → length before ≡ offset
      → length (area_of es) < fuel
      → All IsExtension es
      → walk utf8 fuel offset (before ++ area_of es) ≡ first_metadata es
  unfolding walk
  walk-area_of [] before zero offset at enough h = refl
  walk-area_of [] before (suc fuel) offset at enough h =
      let short : ltb (length (before ++ [])) (offset + 4) ≡ true =
        is_short (length (before ++ [])) (offset + 4)
          (omega (arith, length-append before [], at)) in
      rw short refl
  walk-area_of (e ∷ es) before zero offset at enough h = absurd (omega (arith, enough))
  walk-area_of (e ∷ es) before (suc fuel) offset at enough h =
      let bytes = before ++ area_of (e ∷ es) in
      let (kind, size, value, long, together, header) =
        entry_of-ReadsEntry e before (area_of es) offset at h.0 in
      let later : walk utf8 fuel (offset + 4 + length e.value) bytes ≡ first_metadata es =
        rw together (
          walk-area_of es (before ++ entry_of e) fuel (offset + 4 + length e.value) header
            (omega (arith, length-area_of e es, enough)) h.1) in
      rw
        (
          walk,
          kind,
          size,
          value,
          not_short (length bytes) (offset + 4) (omega (arith, long)),
          not_short (length bytes) (offset + 4 + length e.value) (omega (arith, long)),
          later,
        )
        refl

  -- The answer of the node to the first lookup is a mint with the extensions `es`.
  pub fetch_token2022_metadata-area_of :
      (lookup : ℕ → Result QueryError (Option Account)) (owner : Pubkey) (base : List ℕ)
      (es : List Extension)
      → lookup 0 ≡ ok (some (record { owner = owner; bytes = base ++ (1 ∷ area_of es) }))
      → length base ≡ 165
      → All IsExtension es
      → fetch_token2022_metadata utf8 lookup ≡ first_metadata es
  unfolding fetch_token2022_metadata metadata_of_mint get_account_with_retry lookup_from
  fetch_token2022_metadata-area_of lookup owner base es answered at h =
      let bytes = base ++ (1 ∷ area_of es) in
      let long : length bytes ≡ 166 + length (area_of es) =
        omega (arith, length-append base (1 ∷ area_of es), at) in
      let together : bytes ≡ (base ++ (1 ∷ [])) ++ area_of es =
        sym (append_assoc base (1 ∷ []) (area_of es)) in
      let walked : walk utf8 (length bytes) 166 bytes ≡ first_metadata es =
        subst (λ bs. walk utf8 (length bytes) 166 bs ≡ first_metadata es) (sym together)
          (walk-area_of es (base ++ (1 ∷ [])) (length bytes) 166
            (omega (arith, length-append base (1 ∷ []), at)) (omega (arith, long)) h) in
      rw
        (
          answered,
          not_short (length bytes) 166 (omega (arith, long)),
          metadata_of_mint,
          get_elem?-append 165 base 1 (area_of es) at,
          walked,
        )
        refl

  pub first_metadata-append :
      (others rest : List Extension) (e : Extension)
      → All (λ o. o.ext_type == 19 ≡ false) others
      → e.ext_type == 19 ≡ true
      → first_metadata (others ++ e ∷ rest) ≡ parse_extension utf8 e.value
  first_metadata-append [] rest e h named = rw named refl
  first_metadata-append (o ∷ others) rest e h named =
      rw h.0 (first_metadata-append others rest e h.1 named)
