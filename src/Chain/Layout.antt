-- ===== src/Chain/Layout.antt =====
-- The fields of an SPL token account as the programs write it.
use mathlib.Core.List.{append_assoc}
use hades_ps_trader.Base.{
  ℕ, ◌+◌, ◌-◌, ◌^◌, ◌<◌, ◌≡◌, ◌∙◌, refl, sym, false, some, List, ◌++◌, length, length-append, arith,
  ltb,
}
use hades_ps_trader.Chain.{Pubkey, slice, owner_field, amount_field}
use hades_ps_trader.Chain.Bytes.{drop-append, take-append, to_le, length-to_le, from_le-to_le}

-- The extensions of a Token-2022 account follow the amount too.
pub record TokenAccount : Type 0 where
  pub mint : Pubkey
  pub owner : Pubkey
  pub amount : ℕ
  pub rest : List ℕ

pub record IsTokenAccount (t : TokenAccount) : Type 0 where
  pub mint_32 : length t.mint ≡ 32
  pub owner_32 : length t.owner ≡ 32
  pub amount_64 : t.amount < 2 ^ 64

abbrev pub bytes_of : TokenAccount → List ℕ
bytes_of t = t.mint ++ (t.owner ++ (to_le 8 t.amount ++ t.rest))

-- The part of `xs ++ (ys ++ zs)` that is `ys`.
pub slice-append :
    (from to : ℕ) (xs ys zs : List ℕ)
    → length xs ≡ from
    → from + length ys ≡ to
    → slice from to (xs ++ (ys ++ zs)) ≡ ys
slice-append from to xs ys zs e f =
    rw (drop-append from xs (ys ++ zs) e) (take-append (to - from) ys zs (omega (arith, f)))

length-bytes_of : (t : TokenAccount) → IsTokenAccount t → length (bytes_of t) ≡ 72 + length t.rest
length-bytes_of t h = omega (
  arith,
  length-append t.mint (t.owner ++ (to_le 8 t.amount ++ t.rest)),
  length-append t.owner (to_le 8 t.amount ++ t.rest),
  length-append (to_le 8 t.amount) t.rest,
  length-to_le 8 t.amount,
  h.mint_32,
  h.owner_32,
)

pub owner_field-bytes_of :
    (t : TokenAccount) (program : Pubkey)
    → IsTokenAccount t
    → owner_field (record { owner = program; bytes = bytes_of t }) ≡ some t.owner
unfolding owner_field
owner_field-bytes_of t program h = ground (
  arith,
  length-bytes_of t h,
  slice-append 32 64 t.mint t.owner (to_le 8 t.amount ++ t.rest) h.mint_32
      (omega (arith, h.owner_32)),
)

not_short : (least n more : ℕ) → n ≡ least + more → ltb n least ≡ false
not_short least n more e = ground (arith, e)

pub amount_field-bytes_of :
    (t : TokenAccount) (program : Pubkey)
    → IsTokenAccount t
    → amount_field (record { owner = program; bytes = bytes_of t }) ≡ some t.amount
unfolding amount_field
amount_field-bytes_of t program h =
    let long = length-bytes_of t h in
    let header : length (t.mint ++ t.owner) ≡ 64 =
      length-append t.mint t.owner ∙ omega (arith, h.mint_32, h.owner_32) in
    let together : bytes_of t ≡ (t.mint ++ t.owner) ++ (to_le 8 t.amount ++ t.rest) =
      sym (append_assoc t.mint t.owner (to_le 8 t.amount ++ t.rest)) in
    let field : slice 64 72 (bytes_of t) ≡ to_le 8 t.amount = rw together (
      slice-append 64 72 (t.mint ++ t.owner) (to_le 8 t.amount) t.rest header
        (omega (arith, length-to_le 8 t.amount))) in
    rw (not_short 72 _ _ long, amount_field, field, from_le-to_le 8 t.amount h.amount_64) refl
