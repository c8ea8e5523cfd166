-- ===== src/Onchain/Largest.antt =====
-- The amounts that the concentration of src/onchain.rs sums.
use mathlib.Core.List.{Perm}
use mathlib.Core.List.Perm
use hades_ps_trader.Base.{
  ℕ, zero, suc, ◌≤◌, ◌≡◌, refl, Option, ◌≢◌, Option-cases, some, List, [], ◌∷◌, ◌++◌, length, take,
  drop, All, All-map, leb, arith, Bool-cases, inl, inr,
}
use hades_ps_trader.Base.Taking.{at_most, length-take}
use hades_ps_trader.Chain.{Pubkey}
use Prim.Native.String.{String}
use hades_ps_trader.Base.Result.{Result, ok, err, Result-cases}
use hades_ps_trader.Float.{Float}
use hades_ps_trader.Onchain.{QueryError}
use hades_ps_trader.Onchain.Holders.{
  LargeAccount, HolderNode, entries_of, counted_amounts, fraction_of, with_entries, from_largest,
  top_n_holder_concentration, insert_desc, sort_desc, top_of, sum,
}

length-insert_desc : (a : ℕ) (bs : List ℕ) → length (insert_desc a bs) ≡ suc (length bs)
unfolding insert_desc
length-insert_desc a [] = refl
length-insert_desc a (b ∷ bs) = ground (arith, length-insert_desc a bs)

length-sort_desc : (bs : List ℕ) → length (sort_desc bs) ≡ length bs
unfolding sort_desc
length-sort_desc [] = refl
length-sort_desc (b ∷ bs) = omega (arith, length-insert_desc b (sort_desc bs), length-sort_desc bs)

insert_desc-perm : (a : ℕ) (bs : List ℕ) → Perm (insert_desc a bs) (a ∷ bs)
unfolding insert_desc
insert_desc-perm a [] = Perm.refl (a ∷ [])
insert_desc-perm a (b ∷ bs) = elim (Bool-cases (leb b a)) [
  | inl e ↦ rw e (Perm.refl (a ∷ b ∷ bs))
  | inr e ↦ rw e (Perm.trans (Perm.cons b (insert_desc-perm a bs)) (Perm.swap a b bs))
]

sort_desc-perm : (bs : List ℕ) → Perm (sort_desc bs) bs
unfolding sort_desc
sort_desc-perm [] = Perm.refl []
sort_desc-perm (b ∷ bs) =
    Perm.trans (insert_desc-perm b (sort_desc bs)) (Perm.cons b (sort_desc-perm bs))

abbrev IsDescending : List ℕ → Type 0
IsDescending [] = Unit
IsDescending (a ∷ rest) = All (λ b. b ≤ a) rest × IsDescending rest

insert_desc-All : (P : ℕ → Type 0) (a : ℕ) (bs : List ℕ) → P a → All P bs → All P (insert_desc a bs)
unfolding insert_desc
insert_desc-All P a [] pa h = (pa, tt)
insert_desc-All P a (b ∷ bs) pa h = elim (Bool-cases (leb b a)) [
  | inl e ↦ rw e (pa, h)
  | inr e ↦ rw e (h.0, insert_desc-All P a bs pa h.1)
]

insert_desc-IsDescending : (a : ℕ) (bs : List ℕ) → IsDescending bs → IsDescending (insert_desc a bs)
unfolding insert_desc
insert_desc-IsDescending a [] h = (tt, tt)
insert_desc-IsDescending a (b ∷ bs) h = elim (Bool-cases (leb b a)) [
  | inl e ↦
      let le : b ≤ a = ground (arith, e) in
      rw e ((le, All-map (λ c. c ≤ b) (λ c. c ≤ a) (λ c c_le. omega arith) bs h.0), h)
  | inr e ↦
      rw e (
        insert_desc-All (λ c. c ≤ b) a bs (ground (arith, e)) h.0,
        insert_desc-IsDescending a bs h.1,
      )
]

sort_desc-IsDescending : (bs : List ℕ) → IsDescending (sort_desc bs)
unfolding sort_desc
sort_desc-IsDescending [] = tt
sort_desc-IsDescending (b ∷ bs) =
    insert_desc-IsDescending b (sort_desc bs) (sort_desc-IsDescending bs)

take-drop : (n : ℕ) (bs : List ℕ) → take n bs ++ drop n bs ≡ bs
take-drop zero bs = refl
take-drop (suc n) [] = refl
take-drop (suc n) (b ∷ bs) = rw (take-drop n bs) refl

drop-All : (P : ℕ → Type 0) (n : ℕ) (bs : List ℕ) → All P bs → All P (drop n bs)
drop-All P zero bs h = h
drop-All P (suc n) [] h = tt
drop-All P (suc n) (b ∷ bs) h = drop-All P n bs h.1

-- Each of the first `n` is at least each of the others.
abbrev pub IsAbove : List ℕ → List ℕ → Type 0
IsAbove top rest = All (λ a. All (λ b. b ≤ a) rest) top

take-IsAbove : (n : ℕ) (bs : List ℕ) → IsDescending bs → IsAbove (take n bs) (drop n bs)
take-IsAbove zero bs h = tt
take-IsAbove (suc n) [] h = tt
take-IsAbove (suc n) (b ∷ bs) h = (drop-All (λ c. c ≤ b) n bs h.0, take-IsAbove n bs h.1)

-- The `n` largest of the amounts, or all of them where there are fewer.
abbrev pub IsTop : ℕ → List ℕ → List ℕ → Type 0
IsTop n amounts top =
    (rest : List ℕ) × Perm (top ++ rest) amounts
    × IsAbove top rest
    × (length top ≡ at_most n (length amounts))

top_of-IsTop : (n : ℕ) (amounts : List ℕ) → IsTop n amounts (top_of n amounts)
unfolding top_of
top_of-IsTop n amounts = (
  drop n (sort_desc amounts),
  rw (take-drop n (sort_desc amounts)) (sort_desc-perm amounts),
  take-IsAbove n (sort_desc amounts) (sort_desc-IsDescending amounts),
  rw (length-take n (sort_desc amounts), length-sort_desc amounts) refl,
)

-- The total supply that the node reports.
abbrev pub IsSupply : (String → Option ℕ) → HolderNode → ℕ → Type 0
IsSupply parse node total =
    (amount : String) × (node.supply ≡ ok amount) × (parse amount ≡ some total)

module _ {F : Type 0} ⦃fl : Float F⦄ (key : String → Option Pubkey) (parse : String → Option ℕ)
    (program bonding : Pubkey) (node : HolderNode) where
  open fl use {of_ℕ, div}

  fraction_of-ok :
      (sum_top : ℕ) (f : F)
      → fraction_of key parse program bonding node sum_top ≡ ok f
      → (total : ℕ) × IsSupply parse node total
        × (total ≢ 0)
        × (f ≡ div (of_ℕ sum_top) (of_ℕ total))
  unfolding fraction_of
  fraction_of-ok sum_top f e = elim (Result-cases node.supply) [
    | inr (error, g) ↦ absurd (ground (arith, e, g))
    | inl (amount, g) ↦ elim (Option-cases (parse amount)) [
      | inl h ↦ absurd (ground (arith, e, g, h))
      | inr (total, h) ↦
          (total, (amount, g, h), λ z. ground (arith, e, g, h, z), ground (arith, e, g, h))
    ]
  ]

  -- The share of the `n` largest of the amounts that count in the supply, which is not 0.
  abbrev pub IsShare : ℕ → F → Type 0
  IsShare n f =
      (accounts : List LargeAccount) × (amounts : List ℕ) × (total : ℕ) × (node.largest
        ≡ ok accounts)
      × (counted_amounts program bonding node (entries_of key parse accounts) ≡ ok amounts)
      × (top : List ℕ) × IsTop n amounts top
      × IsSupply parse node total
      × (total ≢ 0)
      × (f ≡ div (of_ℕ (sum top)) (of_ℕ total))

  with_entries-ok :
      (n : ℕ) (entries : List (Pubkey × ℕ)) (f : F)
      → with_entries key parse program bonding node n entries ≡ ok f
      → (amounts : List ℕ) × (counted_amounts program bonding node entries ≡ ok amounts)
        × (fraction_of key parse program bonding node (sum (top_of n amounts)) ≡ ok f)
  unfolding with_entries
  with_entries-ok n [] f e = absurd (ground (arith, e))
  with_entries-ok n (x ∷ xs) f e =
      elim (Result-cases (counted_amounts program bonding node (x ∷ xs))) [
        | inr (error, g) ↦ absurd (ground (arith, e, g))
        | inl (amounts, g) ↦ (amounts, g, ground (arith, e, g))
      ]

  from_largest-ok :
      (n : ℕ) (answer : Result QueryError (List LargeAccount)) (f : F)
      → from_largest key parse program bonding node n answer ≡ ok f
      → (accounts : List LargeAccount) × (answer ≡ ok accounts)
        × (with_entries key parse program bonding node n (entries_of key parse accounts) ≡ ok f)
  from_largest-ok n (err error) f e = absurd (ground (arith, e))
  from_largest-ok n (ok []) f e = absurd (ground (arith, e))
  from_largest-ok n (ok (a ∷ rest)) f e = (a ∷ rest, refl, e)

  -- A concentration that is returned is the quotient of a sum and the total supply that the node
  -- reports, which is not 0: the sum of the `n` largest of the amounts that count, or of all of
  -- them where there are fewer.
  pub top_n_holder_concentration-IsShare :
      (n : ℕ) (f : F)
      → top_n_holder_concentration key parse program bonding node n ≡ ok f
      → IsShare n f
  unfolding top_n_holder_concentration
  top_n_holder_concentration-IsShare n f e =
      let (accounts, largest, given) = from_largest-ok n node.largest f e in
      let (amounts, counted, shared) = with_entries-ok n (entries_of key parse accounts) f given in
      let (total, supply, nonzero, share) = fraction_of-ok (sum (top_of n amounts)) f shared in
      (
        accounts,
        amounts,
        total,
        largest,
        counted,
        top_of n amounts,
        top_of-IsTop n amounts,
        supply,
        nonzero,
        share,
      )
