-- ===== src/Clock.antt =====
-- Instants and durations as nanoseconds on the monotonic clock, and the rolling windows of timed
-- entries that src/capitulation.rs and src/dip_buy.rs keep: oldest entry first, evicted from the
-- front. `duration_since` stops at 0.
use hades_ps_trader.Base.{
  ℕ, ◌+◌, ◌-◌, ◌*◌, ◌^◌, ◌<◌, ◌≤◌, ◌↔◌, leb, ◌≡◌, refl, Bool, false, Option, Option-cases, ◌⊎◌,
  none, some, List, [], ◌∷◌, ◌++◌, All, ltb, if◌then◌else◌, arith, Bool-cases, inl, inr, All-append,
}

-- `Duration::from_secs`
abbrev pub from_secs : ℕ → ℕ
from_secs n = n * 10 ^ 9

-- An `Instant` counts its seconds in an `i64`, and an addition that takes it past them panics.
abbrev pub instant_limit : ℕ
instant_limit = 2 ^ 63 * 10 ^ 9

-- The instant so many seconds after another; `none` is the panic.
unfoldable pub instant_add : ℕ → ℕ → Option ℕ
instant_add start secs =
    if ltb (start + from_secs secs) instant_limit then some (start + from_secs secs) else none

-- A deadline so many seconds after a start, where 0 stands for no deadline.
unfoldable pub deadline_of : ℕ → ℕ → Option (Option ℕ)
unfolding instant_add
deadline_of start secs =
    if ltb 0 secs
    then elim (instant_add start secs) [ none ↦ none | some d ↦ some (some d) ]
    else some none

-- A deadline that cannot be told as an instant.
abbrev pub IsLate : ℕ → ℕ → Type 0
IsLate start secs = 0 < secs × (instant_limit ≤ start + from_secs secs)

pub deadline_of-none : (start secs : ℕ) → (deadline_of start secs ≡ none) ↔ IsLate start secs
unfolding deadline_of
deadline_of-none start secs = (λ e. ground (arith, e), λ l. ground (arith, l))

pub IsLate-cases : (start secs : ℕ) → IsLate start secs ⊎ (¬ (IsLate start secs))
IsLate-cases start secs = elim (Option-cases (deadline_of start secs)) [
  | inl e ↦ inl ((deadline_of-none start secs).0 e)
  | inr (d, e) ↦ inr (λ l. cc (e, (deadline_of-none start secs).1 l))
]

-- Whether a deadline has passed at an instant.
abbrev pub has_passed : Option ℕ → ℕ → Bool
has_passed none now = false
has_passed (some d) now = leb d now

-- The age of an instant that may be missing, tested against a limit.
abbrev pub since_lt : ℕ → Option ℕ → ℕ → Bool
since_lt now none limit = false
since_lt now (some t) limit = ltb (now - t) limit

abbrev pub since_gt : ℕ → Option ℕ → ℕ → Bool
since_gt now none limit = false
since_gt now (some t) limit = ltb limit (now - t)

module _ {A : Type 0} where
  -- The loop of `evict_old`: pop the front while it is older than the window.
  unfoldable pub evict : ℕ → ℕ → List (ℕ × A) → List (ℕ × A)
  evict window now [] = []
  evict window now ((ts, a) ∷ entries) =
      if ltb window (now - ts) then evict window now entries else (ts, a) ∷ entries

  -- Entries stand in the order of their times, none of them later than `now`.
  abbrev pub IsTimed : ℕ → List (ℕ × A) → Type 0
  IsTimed now [] = Unit
  IsTimed now ((ts, a) ∷ entries) = (ts ≤ now) × All (λ e. ts ≤ e.0) entries × IsTimed now entries

  abbrev pub IsInside : ℕ → ℕ → ℕ × A → Type 0
  IsInside window now e = now - e.0 ≤ window

  All-IsInside :
      (window now ts : ℕ) (entries : List (ℕ × A))
      → now - ts ≤ window
      → All (λ e. ts ≤ e.0) entries
      → All (IsInside window now) entries
  All-IsInside window now ts [] h a = tt
  All-IsInside window now ts (e ∷ es) h a = (omega arith, All-IsInside window now ts es h a.1)

  -- Eviction leaves exactly entries of the window.
  pub evict-IsInside :
      (window now : ℕ) (entries : List (ℕ × A))
      → IsTimed now entries
      → All (IsInside window now) (evict window now entries)
  unfolding evict
  evict-IsInside window now [] t = tt
  evict-IsInside window now ((ts, a) ∷ es) t =
      ground (arith, evict-IsInside window now es t.2, All-IsInside window now ts es)

  pub evict-IsTimed :
      (window now : ℕ) (entries : List (ℕ × A))
      → IsTimed now entries
      → IsTimed now (evict window now entries)
  unfolding evict
  evict-IsTimed window now [] t = tt
  evict-IsTimed window now ((ts, a) ∷ es) t = ground (arith, evict-IsTimed window now es t.2)

  pub evict-All :
      (P : ℕ × A → Type 0) (window now : ℕ) (entries : List (ℕ × A))
      → All P entries
      → All P (evict window now entries)
  unfolding evict
  evict-All P window now [] t = tt
  evict-All P window now ((ts, a) ∷ es) t = ground (arith, evict-All P window now es t.1)

  pub IsTimed-later :
      (now later : ℕ) (entries : List (ℕ × A))
      → now ≤ later
      → IsTimed now entries
      → IsTimed later entries
  IsTimed-later now later [] h t = tt
  IsTimed-later now later (e ∷ es) h t = (omega arith, t.1, IsTimed-later now later es h t.2)

  -- The entries that are no older than the window, wherever they stand.
  abbrev pub recent : ℕ → ℕ → List (ℕ × A) → List (ℕ × A)
  recent window now [] = []
  recent window now (e ∷ es) =
      if ltb window (now - e.0) then recent window now es else e ∷ recent window now es

  recent-All' :
      (window now : ℕ) (es : List (ℕ × A))
      → All (IsInside window now) es
      → recent window now es ≡ es
  recent-All' window now [] h = refl
  recent-All' window now (e ∷ es) h = ground (arith, recent-All' window now es h.1)

  -- Stopping at the first entry that is young enough loses nothing, since times do not fall.
  pub evict-recent :
      (window now : ℕ) (es : List (ℕ × A))
      → IsTimed now es
      → evict window now es ≡ recent window now es
  unfolding evict
  evict-recent window now [] t = refl
  evict-recent window now ((ts, a) ∷ es) t = elim (Bool-cases (ltb window (now - ts))) [
    | inl e ↦ rw e (evict-recent window now es t.2)
    | inr e ↦
        let young = All-IsInside window now ts es (ground arith) t.1 in
        rw (e, recent-All' window now es young)
  ]

  recent-append :
      (window now : ℕ) (xs ys : List (ℕ × A))
      → recent window now (xs ++ ys) ≡ recent window now xs ++ recent window now ys
  recent-append window now [] ys = refl
  recent-append window now (x ∷ xs) ys = ground (arith, recent-append window now xs ys)

  -- An entry that was evicted earlier would be evicted now too.
  recent-recent :
      (window before now : ℕ) (es : List (ℕ × A))
      → before ≤ now
      → recent window now (recent window before es) ≡ recent window now es
  recent-recent window before now [] h = refl
  recent-recent window before now (e ∷ es) h = ground (arith, recent-recent window before now es h)

  pub IsTimed-push :
      (now : ℕ) (es : List (ℕ × A)) (a : A) → IsTimed now es → IsTimed now (es ++ (now, a) ∷ [])
  IsTimed-push now [] a t = ground arith
  IsTimed-push now (e ∷ es) a t =
      (t.0, All-append _ es ((now, a) ∷ []) t.1 (t.0, tt), IsTimed-push now es a t.2)

  -- Eviction at one instant is done once.
  pub evict_same :
      (window now : ℕ) (es : List (ℕ × A))
      → evict window now (evict window now es) ≡ evict window now es
  unfolding evict
  evict_same window now [] = refl
  evict_same window now ((ts, a) ∷ es) = ground (arith, evict_same window now es)

  pub evict_push :
      (window now : ℕ) (es : List (ℕ × A)) (a : A)
      → evict window now (es ++ (now, a) ∷ []) ≡ evict window now es ++ (now, a) ∷ []
  unfolding evict
  evict_push window now [] a = ground arith
  evict_push window now ((ts, b) ∷ es) a = ground (arith, evict_push window now es a)

  pub recent-All :
      (P : ℕ × A → Type 0) (window now : ℕ) (es : List (ℕ × A))
      → All P es
      → All P (recent window now es)
  recent-All P window now [] h = tt
  recent-All P window now (e ∷ es) h = ground (arith, recent-All P window now es h.1)

  recent-IsTimed :
      (window later now : ℕ) (es : List (ℕ × A))
      → IsTimed now es
      → IsTimed now (recent window later es)
  recent-IsTimed window later now [] t = tt
  recent-IsTimed window later now (e ∷ es) t =
      let rest = recent-IsTimed window later now es t.2 in
      let above = recent-All (λ (q : ℕ × A). e.0 ≤ q.0) window later es t.1 in
      elim (Bool-cases (ltb window (later - e.0))) [
        | inl gone ↦ rw gone rest
        | inr kept ↦ rw kept (t.0, above, rest)
      ]

  pub evict-recent' :
      (window before now : ℕ) (history : List (ℕ × A))
      → before ≤ now
      → IsTimed before history
      → evict window now (recent window before history) ≡ recent window now history
  evict-recent' window before now history h t =
      rw
        (evict-recent window now _
          (IsTimed-later before now _ h (recent-IsTimed window before before history t)))
        (recent-recent window before now history h)

  -- A deque that holds the recent part of a history still does after eviction and a push.
  pub recent_push :
      (window before now : ℕ) (history : List (ℕ × A)) (a : A)
      → before ≤ now
      → IsTimed before history
      → evict window now (recent window before history) ++ (now, a) ∷ []
        ≡ recent window now (history ++ (now, a) ∷ [])
  recent_push window before now history a h t =
      rw
        (
          evict-recent' window before now history h t,
          recent-append window now history ((now, a) ∷ []),
        )
        (ground arith)
