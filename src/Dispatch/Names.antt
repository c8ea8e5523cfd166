-- ===== src/Dispatch/Names.antt =====
-- The lists of names that src/main.rs reads from COPY_TRADE_WALLETS and from `--liquidate`.
use mathlib.Core.List.{reverse-append, reverse-reverse}
use hades_ps_trader.Base.{
  ℕ, ◌≡◌, refl, ap, true, false, List, [], ◌∷◌, ◌++◌, map, reverse, All, All-map, All-append,
  All-reverse, arith, ◌==◌,
}
use hades_ps_trader.Base.Text.{is_whitespace, trim_start, trim, split}
use hades_ps_trader.Dispatch.{is_empty, keep_nonempty, parse_names}

abbrev IsSpace : ℕ → Type 0
IsSpace c = is_whitespace c ≡ true

abbrev IsInk : ℕ → Type 0
IsInk c = is_whitespace c ≡ false

-- A name, and the spaces written around it.
pub record Written : Type 0 where
  pub left : List ℕ
  pub name : List ℕ
  pub right : List ℕ

-- The name has a character, and no space and no comma.
pub record IsWritten (w : Written) : Type 0 where
  pub spaces : All IsSpace w.left × All IsSpace w.right
  pub ink : All IsInk w.name
  pub no_comma : All (λ c. c == b',' ≡ false) w.name
  pub named : is_empty w.name ≡ false

abbrev pub text_of : Written → List ℕ
text_of w = w.left ++ (w.name ++ w.right)

-- With a comma between two names.
abbrev pub write_names : List Written → List ℕ
write_names [] = []
write_names (w ∷ []) = text_of w
write_names (w ∷ v ∷ ws) = text_of w ++ b',' ∷ write_names (v ∷ ws)

trim_start-spaces :
    (spaces xs : List ℕ) → All IsSpace spaces → trim_start (spaces ++ xs) ≡ trim_start xs
unfolding trim_start
trim_start-spaces [] xs h = refl
trim_start-spaces (c ∷ spaces) xs h = rw h.0 (trim_start-spaces spaces xs h.1)

trim_start-ink :
    (name xs : List ℕ)
    → All IsInk name
    → is_empty name ≡ false
    → trim_start (name ++ xs) ≡ name ++ xs
unfolding trim_start
trim_start-ink [] xs h n = ground arith
trim_start-ink (c ∷ name) xs h n = rw h.0 refl

trim_start-All : (name : List ℕ) → All IsInk name → trim_start name ≡ name
unfolding trim_start
trim_start-All [] h = refl
trim_start-All (c ∷ name) h = rw h.0 refl

trim-text_of : (w : Written) → IsWritten w → trim (text_of w) ≡ w.name
unfolding trim
trim-text_of w h =
    rw
      (
        trim_start-spaces w.left (w.name ++ w.right) h.spaces.0,
        trim_start-ink w.name w.right h.ink h.named,
        reverse-append w.name w.right,
        trim_start-spaces (reverse w.right) (reverse w.name)
            (All-reverse IsSpace w.right h.spaces.1),
        trim_start-All (reverse w.name) (All-reverse IsInk w.name h.ink),
      )
      (reverse-reverse w.name)

abbrev IsPlain : ℕ → Type 0
IsPlain c = c == b',' ≡ false

IsSpace-IsPlain : (c : ℕ) → IsSpace c → IsPlain c
unfolding is_whitespace
IsSpace-IsPlain c h = ground arith

text_of-IsPlain : (w : Written) → IsWritten w → All IsPlain (text_of w)
text_of-IsPlain w h =
    let plain = All-map IsSpace IsPlain IsSpace-IsPlain in
    All-append IsPlain w.left _ (plain w.left h.spaces.0)
      (All-append IsPlain w.name w.right h.no_comma (plain w.right h.spaces.1))

split-last : (piece : List ℕ) → All IsPlain piece → split b',' piece ≡ piece ∷ []
unfolding split
split-last [] h = refl
split-last (c ∷ piece) h = rw (split-last piece h.1, h.0) refl

split-comma :
    (piece rest : List ℕ)
    → All IsPlain piece
    → split b',' (piece ++ b',' ∷ rest) ≡ piece ∷ split b',' rest
unfolding split
split-comma [] rest h = refl
split-comma (c ∷ piece) rest h = rw (split-comma piece rest h.1, h.0) refl

keep-parsed :
    (w : Written) (pieces : List (List ℕ))
    → IsWritten w
    → keep_nonempty (map trim (text_of w ∷ pieces)) ≡ w.name ∷ keep_nonempty (map trim pieces)
unfolding keep_nonempty
keep-parsed w pieces h = rw (trim-text_of w h, h.named) refl

-- Names that have a character, no white space and no comma, written with a comma between two and
-- any white space around each, are read back in their order and without the white space.
pub parse_names-write_names :
    (ws : List Written) → All IsWritten ws → parse_names (write_names ws) ≡ map (λ w. w.name) ws
unfolding parse_names split trim
parse_names-write_names [] h = refl
parse_names-write_names (w ∷ []) h =
    rw (split-last (text_of w) (text_of-IsPlain w h.0)) (keep-parsed w [] h.0)
parse_names-write_names (w ∷ v ∷ ws) h =
    rw
      (
        split-comma (text_of w) (write_names (v ∷ ws)) (text_of-IsPlain w h.0),
        keep-parsed w (split b',' (write_names (v ∷ ws))) h.0,
      )
      (ap (λ names. w.name ∷ names) (parse_names-write_names (v ∷ ws) h.1))
