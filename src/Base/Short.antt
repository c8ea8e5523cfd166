-- ===== src/Base/Short.antt =====
-- The shortened mint of log lines and messages: `short` of src/session.rs and src/copy_session.rs,
-- and `short_mint` of src/discord.rs. Lengths and positions count bytes of UTF-8; `none` is the
-- panic of a slice that cuts a character.
use Prim.Native.Nat.{compare, Ordering}
use Prim.Native.Char.{Char, code, len_utf8, len_utf8_def, width}
use Prim.Native.String.len
use Prim.Native.String.{String, len, ◌++◌}
use text.Mathlib.Text.{get?, is_char_boundary}
use text.Mathlib.TextPositions.{boundary-zero, boundary-len, boundary-append}
use text.Mathlib.TextLemmas.{nil-append, cons-append}
use hades_ps_trader.Base.{
  ℕ, zero, suc, ◌-◌, ◌≤◌, ◌<◌, ◌≡◌, refl, sym, ap, ◌∙◌, Option-cases, ◌⊎◌, ◌↔◌, inl, inr, true,
  false, Option, none, some, ltb, arith, if◌then◌else◌, ◌>>=◌,
}

-- `format!("{}…{}", &mint[..4], &mint[mint.len() - 4..])`
unfoldable pub ends_of : String → Option String
ends_of mint = do
  head ← get? mint 0 4
  tail ← get? mint (len mint - 4) (len mint)
  some (head ++ "…" ++ tail)

unfoldable pub short : String → Option String
unfolding ends_of
short mint = if ltb 8 (len mint) then ends_of mint else some mint

-- Every character takes one byte.
abbrev pub IsAscii : String → Type 0
IsAscii String.[] = Unit
IsAscii (String.◌∷◌ c s) = (code c < 128) × IsAscii s

-- The two positions at which `short` cuts.
abbrev pub IsCut : String → Type 0
IsCut s = (8 < len s) × ((is_char_boundary s 4 ≡ false) ⊎ (is_char_boundary s (len s - 4) ≡ false))

pub short-IsCut : (s : String) → (short s ≡ none) ↔ IsCut s
unfolding short
short-IsCut s = ground (arith, boundary-zero s, boundary-len s)

len_utf8-ascii : (c : Char) → code c < 128 → len_utf8 c ≡ 1
len_utf8-ascii c h =
    let first : compare (code c) 128 ≡ Ordering.lt = ground arith in
    let clause : len_utf8 c
        ≡ width (compare (code c) 128) (compare (code c) 2048) (compare (code c) 65536) =
      λ i. len_utf8_def c i in
    rw (clause, first) refl

-- A text of one-byte characters splits at every position.
split_at :
    (s : String) (i : ℕ)
    → IsAscii s
    → i ≤ len s
    → (u : String) × (v : String) × (s ≡ u ++ v) × (len u ≡ i)
split_at s zero h le = (String.[], s, sym (nil-append s), len.nil)
split_at String.[] (suc i) h le = absurd (omega (arith, le, len.nil))
split_at (String.◌∷◌ c s) (suc i) (one, h) le =
    let single = len_utf8-ascii c one in
    let (u, v, e, l) = split_at s i h (omega (arith, le, len.cons c s, single)) in
    (
      String.◌∷◌ c u,
      v,
      ap (λ r. String.◌∷◌ c r) e ∙ sym (cons-append c u v),
      omega (arith, len.cons c u, single, l),
    )

IsAscii-boundary : (s : String) (i : ℕ) → IsAscii s → i ≤ len s → is_char_boundary s i ≡ true
IsAscii-boundary s i h le =
    let (u, v, e, l) = split_at s i h le in rw (e, sym l) (boundary-append u v)

-- A text of one-byte characters, a public key in its base58 form for one, is not cut.
pub short-IsAscii : (s : String) → IsAscii s → (out : String) × (short s ≡ some out)
short-IsAscii s h = elim (Option-cases (short s)) [
  | inr found ↦ found
  | inl cut ↦
      let (long, inside) = (short-IsCut s).0 cut in
      let head = IsAscii-boundary s 4 h (omega arith) in
      let tail = IsAscii-boundary s (len s - 4) h (omega arith) in ground arith
]

pub short-cases :
    (s : String)
    → (IsCut s × (short s ≡ none)) ⊎ ((¬ (IsCut s)) × (out : String) × (short s ≡ some out))
short-cases s = elim (Option-cases (short s)) [
  | inl e ↦ inl ((short-IsCut s).0 e, e)
  | inr (out, e) ↦ inr (λ cut. cc (e, (short-IsCut s).1 cut), out, e)
]

pub IsAscii-uncut : (s : String) → IsAscii s → ¬ (IsCut s)
IsAscii-uncut s h cut = let (out, e) = short-IsAscii s h in cc (e, (short-IsCut s).1 cut)
