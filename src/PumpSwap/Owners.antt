-- ===== src/PumpSwap/Owners.antt =====
-- The owners among which `find_pool` of src/pumpswap.rs looks for the pool, and their accounts.
use mathlib.Core.Path.{subst}
use hades_ps_trader.Base.{
  ℕ, zero, suc, ◌+◌, ◌<◌, ◌≡◌, ◌≢◌, refl, true, false, ◌⊎◌, inl, inr, Option, none, some, List, [],
  ◌∷◌, get_elem?, arith, ap, ◌↔◌, Bool-cases,
}
use hades_ps_trader.Chain.{Pubkey, Account, owner_field}
use hades_ps_trader.Chain.Bytes.{same_key_iff}
use hades_ps_trader.PumpSwap.{owner_of, add_candidate, candidates_from, is_owned_by, find_owned}

-- An entry of the candidates: the owner of the account at its index.
abbrev IsCandidate : ℕ → List (Option Account) → Pubkey × ℕ → Type 0
IsCandidate first accs (key, idx) =
    (k : ℕ) × (idx ≡ first + k)
    × (acc : Account) × (get_elem? accs k ≡ some (some acc))
    × (owner_field acc ≡ some key)

add_candidate-get :
    (idx : ℕ) (o : Option Pubkey) (rest : List (Pubkey × ℕ)) (i : ℕ) (c : Pubkey × ℕ)
    → get_elem? (add_candidate idx o rest) i ≡ some c
    → ((o ≡ some c.0) × (c.1 ≡ idx)) ⊎ ((j : ℕ) × (get_elem? rest j ≡ some c))
add_candidate-get idx none rest i c e = inr (i, e)
add_candidate-get idx (some owner) rest zero c e = inl (ground arith, ground arith)
add_candidate-get idx (some owner) rest (suc i) c e = inr (i, e)

owner_of-some :
    (o : Option Account) (key : Pubkey)
    → owner_of o ≡ some key
    → (acc : Account) × (o ≡ some acc) × (owner_field acc ≡ some key)
owner_of-some none key e = absurd (ground arith)
owner_of-some (some acc) key e = (acc, refl, e)

candidates_from-IsCandidate :
    (first : ℕ) (accs : List (Option Account)) (i : ℕ) (c : Pubkey × ℕ)
    → get_elem? (candidates_from first accs) i ≡ some c
    → IsCandidate first accs c
unfolding candidates_from
candidates_from-IsCandidate first [] i c e = absurd (ground arith)
candidates_from-IsCandidate first (o ∷ accs) i c e =
    elim (add_candidate-get first (owner_of o) (candidates_from (first + 1) accs) i c e) [
      | inl (owned, at) ↦
          let (acc, there, field) = owner_of-some o c.0 owned in
          (0, omega (arith, at), acc, ap some there, field)
      | inr (j, f) ↦
          let (k, at, acc, there, field) = candidates_from-IsCandidate (first + 1) accs j c f in
          (suc k, omega (arith, at), acc, there, field)
    ]

abbrev pub IsFirstOwned : Pubkey → List (Option Account) → ℕ → Type 0
IsFirstOwned program accs k =
    (acc : Account) × (get_elem? accs k ≡ some (some acc))
    × (acc.owner ≡ program)
    × ((j : ℕ)
        → j < k
        → (other : Account) → get_elem? accs j ≡ some (some other)
        → other.owner ≢ program)

is_owned_by_iff :
    (program : Pubkey) (o : Option Account)
    → (is_owned_by program o ≡ true) ↔ ((acc : Account) × (o ≡ some acc) × (acc.owner ≡ program))
is_owned_by_iff program none =
    (λ e. absurd (ground arith), λ (acc, e, f). absurd (ground (arith, e)))
is_owned_by_iff program (some acc) = (
  λ e. (acc, refl, (same_key_iff acc.owner program).0 e),
  λ (a, e, f). (same_key_iff acc.owner program).1 (ground (arith, e, f)),
)

find_owned_lem :
    (program : Pubkey) (accs : List (Option Account)) (from i : ℕ)
    → find_owned program accs from ≡ some i
    → (k : ℕ) × (i ≡ from + k) × IsFirstOwned program accs k
unfolding find_owned
find_owned_lem program [] from i e = absurd (ground arith)
find_owned_lem program (o ∷ accs) from i e = elim (Bool-cases (is_owned_by program o)) [
  | inl b ↦
      let (acc, there, owned) = (is_owned_by_iff program o).0 b in
      (0, ground (arith, e, b), (acc, ap some there, owned, λ j less. absurd (omega (arith, less))))
  | inr b ↦
      let (k, at, (acc, there, owned, before)) =
        find_owned_lem program accs (from + 1) i (ground (arith, e, b)) in
      (suc k, omega (arith, at), (acc, there, owned, not_before o b before))
]
  where
    not_before :
        (o : Option Account)
        → is_owned_by program o ≡ false
        → {k : ℕ}
        → ((j : ℕ)
            → j < k
            → (other : Account) → get_elem? accs j ≡ some (some other)
            → other.owner ≢ program)
        → (j : ℕ) → j < suc k
        → (other : Account) → get_elem? (o ∷ accs) j ≡ some (some other)
        → other.owner ≢ program
    not_before o b before zero less other there owned =
        ground (arith, b, (is_owned_by_iff program o).1 (other, ground (arith, there), owned))
    not_before o b before (suc j) less other there owned =
        before j (omega (arith, less)) other there owned

pub find_owned-IsFirstOwned :
    (program : Pubkey) (accs : List (Option Account)) (i : ℕ)
    → find_owned program accs 0 ≡ some i
    → IsFirstOwned program accs i
find_owned-IsFirstOwned program accs i e =
    let (k, at, first) = find_owned_lem program accs 0 i e in
    let same : k ≡ i = omega (arith, at) in subst (IsFirstOwned program accs) same first

pub candidates_from-owner :
    (accs : List (Option Account)) (i : ℕ) (key : Pubkey) (idx : ℕ)
    → get_elem? (candidates_from 0 accs) i ≡ some (key, idx)
    → (acc : Account) × (get_elem? accs idx ≡ some (some acc)) × (owner_field acc ≡ some key)
candidates_from-owner accs i key idx e =
    let (k, at, acc, there, field) = candidates_from-IsCandidate 0 accs i (key, idx) e in
    let same : k ≡ idx = omega (arith, at) in
    (acc, subst (λ n. get_elem? accs n ≡ some (some acc)) same there, field)
