-- ===== src/Copy/Panic.antt =====
-- Where a session of src/copy_session.rs panics: `short` cuts the mint at the start and the followed
-- wallet once a slot is reserved, and the deadline of a position is added to an instant. A panic
-- with a slot reserved leaves it reserved.
use Prim.Native.String.{String}
use hades_ps_trader.Base.{
  ℕ, ◌+◌, ◌^◌, ◌<◌, ◌≡◌, refl, ◌⊎◌, ◌↔◌, inl, inr, Bool, true, false, Bool-cases, Option, none,
  some, List, [], arith, if◌then◌else◌,
}
use hades_ps_trader.Base.Result.{Result}
use hades_ps_trader.Base.Short.{short, short-cases, IsAscii, IsAscii-uncut, IsCut}
use hades_ps_trader.Float.{Float}
use hades_ps_trader.Config.{Config}
use hades_ps_trader.PumpPortal.{AlphaTrade}
use hades_ps_trader.Trader.{Sent, TradeError}
use hades_ps_trader.Trader
use hades_ps_trader.Session.{Shared, reserve}
use hades_ps_trader.Copy.Entry.{CopyEnv, Copied, lost}
use hades_ps_trader.Copy.Handle.{
  entry_line, entry_line-cases, buy_copy, copy_with_slot, copy_handle,
}
use hades_ps_trader.Copy.Slot.{
  IsQuietCopy, IsAdmitted, IsAdmitted-cases, first_check, copy_with_slot-slot,
  copy_handle-IsAdmitted, copy_handle-refused,
}
use hades_ps_trader.Copy.Deadline.{Enters, IsEndless, after_buy-panics}

-- The line on the entry is written, and cuts the followed wallet inside a character.
abbrev pub IsEntryCut : {F : Type 0} → Bool → AlphaTrade F → Type 0
IsEntryCut info_on alpha = (info_on ≡ true) × IsCut alpha.trader

module _ {F : Type 0} ⦃fl : Float F⦄ where
  pub entry_line-none :
      (info_on : Bool) (alpha : AlphaTrade F)
      → (entry_line info_on alpha ≡ none) ↔ IsEntryCut info_on alpha
  unfolding entry_line
  entry_line-none false alpha = (λ h. cc h, λ h. cc h.0)
  entry_line-none true alpha = elim (short-cases alpha.trader) [
    | inl (cut, e) ↦ (λ h. (refl, cut), λ h. rw e refl)
    | inr (whole, out, e) ↦ (λ h. absurd (ground (arith, e, h)), λ h. absurd (whole h.1))
  ]

module _ {F : Type 0} ⦃fl : Float F⦄ (parse : List ℕ → Option F) (cfg : Config F)
    (dry_run info_on : Bool) (alpha : AlphaTrade F) (env : CopyEnv F) where
  -- What the buy brings.
  abbrev pub bought : Result TradeError (Option ℕ)
  bought = (Trader.buy dry_run env.attempts cfg.trading.slippage).1

  -- The buy brings a position whose deadline is no instant.
  abbrev pub IsStranded : Type 0
  IsStranded =
      Enters parse cfg dry_run info_on alpha env bought
      × IsEndless parse cfg dry_run info_on alpha env

  -- A session panics with its slot reserved.
  abbrev pub IsLeaking : Shared F → Type 0
  IsLeaking s =
      (¬ (IsCut alpha.mint))
      × IsAdmitted parse cfg dry_run info_on alpha env s
      × (IsEntryCut info_on alpha ⊎ IsStranded)

  copy_with_slot-panics :
      (s : Shared F)
      → ((copy_with_slot parse cfg dry_run info_on alpha env s).panicked ≡ true)
        ↔ (IsEntryCut info_on alpha ⊎ IsStranded)
  unfolding copy_with_slot buy_copy
  copy_with_slot-panics s =
      let after = after_buy-panics parse cfg dry_run info_on alpha env _ bought _ in
      let line = entry_line-none info_on alpha in
      elim (entry_line-cases info_on alpha) [
        | inl cut ↦ (λ e. inl (line.0 cut), λ h. rw (copy_with_slot, cut) refl)
        | inr whole ↦
            rw (copy_with_slot, whole)
              (
                λ e. inr (after.0 e),
                λ h. elim h [ inl c ↦ cc (whole, line.1 c) | inr late ↦ after.1 late ],
              )
      ]

  abbrev copied : Shared F → Copied F
  copied s = copy_handle parse cfg dry_run info_on alpha env s

  copied-cut : (s : Shared F) → short alpha.mint ≡ none → copied s ≡ lost none s [] []
  unfolding copy_handle
  copied-cut s e = ground (arith, e)

  -- After the first line, a panic is one with the slot reserved.
  copied-whole :
      (s : Shared F) (tag : String)
      → IsQuietCopy env
      → s.open_positions + 1 < 2 ^ 64
      → ¬ (IsCut alpha.mint)
      → short alpha.mint ≡ some tag
      → let c = copied s in
        ((c.panicked ≡ true) ↔ IsLeaking s)
        × (c.shared.open_positions
            ≡ (if c.panicked then s.open_positions + 1 else s.open_positions))
  copied-whole s tag quiet small whole e =
      let checked = record s {
        spend_tracker = (first_check parse cfg dry_run info_on alpha env s).0;
      } in
      let held = reserve (env.after_check checked) in
      elim (IsAdmitted-cases parse cfg dry_run info_on alpha env s) [
        | inr out ↦
            let (ended, same) =
              copy_handle-refused parse cfg dry_run info_on alpha env s tag quiet small e out in
            ((λ p. cc (ended, p), λ l. absurd (out l.1)), rw ended same)
        | inl a ↦
            let panics = copy_with_slot-panics held in
            let count : held.open_positions ≡ s.open_positions + 1 =
              unfold reserve in ground (arith, quiet.0 checked, small) in
            rw (copy_handle-IsAdmitted parse cfg dry_run info_on alpha env s tag quiet.0 e a) (
              (λ p. (whole, a, panics.0 p), λ l. panics.1 l.2),
              copy_with_slot-slot parse cfg dry_run info_on alpha env held s.open_positions quiet
                  small count,
            )
      ]

  -- Neither text is cut, and the deadline is an instant.
  unleaked :
      (s : Shared F)
      → IsAscii alpha.mint
      → IsAscii alpha.trader
      → ¬ (IsEndless parse cfg dry_run info_on alpha env)
      → ¬ (IsCut alpha.mint ⊎ IsLeaking s)
  unleaked s mint trader timely (inl cut) = IsAscii-uncut alpha.mint mint cut
  unleaked s mint trader timely (inr (whole, a, inl cut)) = IsAscii-uncut alpha.trader trader cut.1
  unleaked s mint trader timely (inr (whole, a, inr late)) = timely late.1

  copied-panics :
      (s : Shared F)
      → IsQuietCopy env
      → s.open_positions + 1 < 2 ^ 64
      → ((copied s).panicked ≡ true) ↔ (IsCut alpha.mint ⊎ IsLeaking s)
  copied-panics s quiet small = elim (short-cases alpha.mint) [
    | inl (cut, e) ↦ rw (copied-cut s e) (λ p. inl cut, λ h. refl)
    | inr (whole, tag, e) ↦
        let panics = (copied-whole s tag quiet small whole e).0 in
        (λ p. inr (panics.0 p), λ h. elim h [ inl cut ↦ absurd (whole cut) | inr l ↦ panics.1 l ])
  ]

  copied-slot :
      (s : Shared F)
      → IsQuietCopy env
      → s.open_positions + 1 < 2 ^ 64
      → let left = (copied s).shared.open_positions in
        (IsLeaking s → left ≡ s.open_positions + 1) × (¬ (IsLeaking s) → left ≡ s.open_positions)
  copied-slot s quiet small = elim (short-cases alpha.mint) [
    | inl (cut, e) ↦ rw (copied-cut s e) (λ l. absurd (l.0 cut), λ n. refl)
    | inr (whole, tag, e) ↦
        let (panics, left) = copied-whole s tag quiet small whole e in
        (
          λ l. let p = panics.1 l in ground (arith, left, p),
          λ n. elim (Bool-cases (copied s).panicked) [
            | inl p ↦ absurd (n (panics.0 p))
            | inr q ↦ ground (arith, left, q)
          ],
        )
  ]

  -- If other sessions leave the counter of copy positions as it is and it does not overflow, a
  -- copy session panics exactly if its first line cuts the mint inside a character, or else it
  -- leaks its slot; and the counter is one higher than it found it exactly for a session that
  -- leaks. That is one that is admitted and whose line on the entry is written and cuts the
  -- followed wallet inside a character, or whose buy brings a position (tokens in the wallet, or
  -- in a dry run a first price above 0) with a maximum time to hold it that is not 0 and ends 2^63
  -- seconds or more from the origin of the clock. With a mint and a wallet of one-byte characters
  -- and a time that ends before, a session does not panic.
  pub copy_handle-panics :
      (s : Shared F)
      → IsQuietCopy env
      → s.open_positions + 1 < 2 ^ 64
      → (let c = copied s in
          let left = c.shared.open_positions in
          ((c.panicked ≡ true) ↔ (IsCut alpha.mint ⊎ IsLeaking s))
          × (IsLeaking s → left ≡ s.open_positions + 1)
          × (¬ (IsLeaking s) → left ≡ s.open_positions)
          × (IsAscii alpha.mint
              → IsAscii alpha.trader
              → ¬ (IsEndless parse cfg dry_run info_on alpha env)
              → c.panicked ≡ false))
  copy_handle-panics s quiet small =
      let panics = copied-panics s quiet small in
      let (leaks, keeps) = copied-slot s quiet small in
      (
        panics,
        leaks,
        keeps,
        λ mint trader timely. elim (Bool-cases (copied s).panicked) [
          | inr ended ↦ ended
          | inl p ↦ absurd (unleaked s mint trader timely (panics.0 p))
        ],
      )
