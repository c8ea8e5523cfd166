-- ===== src/Onchain/Paging.antt =====
-- The count of signatures of src/onchain.rs against the whole history that the node serves.
use Prim.Native.String.{String}
use hades_ps_trader.Base.{
  ℕ, zero, suc, ◌+◌, ◌*◌, ◌-◌, ◌%◌, ◌^◌, ◌≤◌, ◌<◌, ◌≡◌, ◌∙◌, ap, refl, true, false, Option, none,
  some, List, length, take, drop, ltb, leb, arith, Bool-cases, inl, inr,
}
use hades_ps_trader.Base.Result.{Result, ok}
use hades_ps_trader.Base.Taking.{at_most, length-take, length-drop}
use hades_ps_trader.Onchain.{QueryError}
use hades_ps_trader.Onchain.Counts.{last_of, cursor_of, count_pages, bonding_curve_tx_count}

wraps_not : (n : ℕ) → n < 2 ^ 64 → n % 2 ^ 64 ≡ n
wraps_not n h = omega (arith, h)

-- One page of 1000, and the pages after it.
at_most-page :
    (count left n : ℕ)
    → 1000 ≤ n
    → count + 1000 + at_most (left * 1000) (n - 1000) ≡ count + at_most (suc left * 1000) n
at_most-page count left n h = ground (arith, h)

leb-page : (left n : ℕ) → 1000 ≤ n → leb (left * 1000) (n - 1000) ≡ leb (suc left * 1000) n
leb-page left n h = ground (arith, h)

at_least : (m n : ℕ) → ltb n m ≡ false → m ≤ n
at_least m n h = ground arith

at_most-full : (m n : ℕ) → ltb n m ≡ false → at_most m n ≡ m
at_most-full m n h = rw h refl

at_most-short : (m n : ℕ) → ltb n m ≡ true → at_most m n ≡ n
at_most-short m n h = rw h refl

-- A page that is not full is the last one.
last_page :
    (left n : ℕ)
    → ltb n 1000 ≡ true
    → (at_most (suc left * 1000) n ≡ n) × (leb (suc left * 1000) n ≡ false) × n < suc left * 1000
last_page left n h = ground (arith, h)

module _ (parse : String → Option ℕ) (page : Option ℕ → Result QueryError (List String)) where
  -- For the pages that are left, the node answers with the next 1000 signatures of the history, and
  -- the last of a full page parses to the cursor of the rest.
  abbrev pub Serves : (left : ℕ) → Option ℕ → List String → Type 0
  Serves zero before history = Unit
  Serves (suc left) before history =
      (page before ≡ ok (take 1000 history))
      × (1000 ≤ length history
          → (sig : ℕ) × (cursor_of parse (last_of (take 1000 history)) ≡ some sig)
            × Serves left (some sig) (drop 1000 history))

  full_page :
      (left count : ℕ) (before : Option ℕ) (sigs : List String) (sig : ℕ)
      → page before ≡ ok sigs
      → ltb (length sigs) 1000 ≡ false
      → cursor_of parse (last_of sigs) ≡ some sig
      → count + length sigs < 2 ^ 64
      → count_pages parse page (suc left) count before
        ≡ count_pages parse page left (count + length sigs) (some sig)
  unfolding count_pages
  full_page left count before sigs sig answered full parsed small =
      rw (count_pages, answered, full, parsed, wraps_not (count + length sigs) small) refl

  count_pages-Serves :
      (left count : ℕ) (before : Option ℕ) (history : List String)
      → Serves left before history
      → count + left * 1000 < 2 ^ 64
      → count_pages parse page left count before
        ≡ ok (record {
          count = count + at_most (left * 1000) (length history);
          capped = leb (left * 1000) (length history);
        })
  unfolding count_pages
  count_pages-Serves zero count before history served small = ground arith
  count_pages-Serves (suc left) count before history (answered, more) small =
      let n = length history in
      let taken = length-take 1000 history in
      elim (Bool-cases (ltb n 1000)) [
        | inl short ↦
            let (all, uncapped, less) = last_page left n short in
            rw
              (
                count_pages,
                answered,
                taken,
                at_most-short 1000 n short,
                short,
                wraps_not (count + n) (omega (arith, small, less)),
                all,
                uncapped,
              )
              refl
        | inr full ↦
            let long = at_least 1000 n full in
            let (sig, parsed, served) = more long in
            let rest =
              count_pages-Serves left (count + 1000) (some sig) (drop 1000 history) served
                (omega (arith, small)) in
            let page_length = taken ∙ at_most-full 1000 n full in
            full_page left count before (take 1000 history) sig answered (rw page_length refl)
              parsed (omega (arith, small, page_length))
            ∙ ap (λ m. count_pages parse page left (count + m) (some sig)) page_length
            ∙ rest
            ∙ rw (length-drop 1000 history, at_most-page count left n long, leb-page left n long)
                refl
      ]

  -- Where the node serves a history in pages of 1000, each from the cursor of the one before, the
  -- count is the length of the history, at most 5000, and it is marked as capped exactly if the
  -- history has 5000 signatures or more.
  pub bonding_curve_tx_count-Serves :
      (history : List String)
      → Serves 5 none history
      → bonding_curve_tx_count parse page
        ≡ ok (record { count = at_most 5000 (length history); capped = leb 5000 (length history) })
  unfolding bonding_curve_tx_count
  bonding_curve_tx_count-Serves history served =
      count_pages-Serves 5 0 none history served (omega arith)
      ∙ ap (λ m. ok (record { count = m; capped = leb 5000 (length history) })) (omega arith)
