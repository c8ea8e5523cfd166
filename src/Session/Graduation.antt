-- ===== src/Session/Graduation.antt =====
-- How the task of a graduation ends.
use Prim.Native.String.{String}
use mathlib.Core.Path.{subst}
use hades_ps_trader.Base.{
  ℕ, ◌+◌, ◌^◌, ◌<◌, ◌≡◌, refl, ◌⊎◌, inl, inr, Bool, true, false, Option, none, some, List, All,
  arith, Bool-cases,
}
use hades_ps_trader.Base.Result.{Result}
use hades_ps_trader.Base.Short.{short, IsCut, short-cases}
use hades_ps_trader.Clock.{IsLate, IsLate-cases}
use hades_ps_trader.Float.{Float}
use hades_ps_trader.Config.{Config}
use hades_ps_trader.PumpPortal.{MigrationEvent}
use hades_ps_trader.Onchain.{QueryError}
use hades_ps_trader.Onchain.Metadata.{TokenMetadata}
use hades_ps_trader.Session.{Shared, starts}
use hades_ps_trader.Session.Loop.{Session, Event}
use hades_ps_trader.Session.Run.{EndEnv, run_session}
use hades_ps_trader.Session.Slot.{IsQuiet}
use hades_ps_trader.Session.Stages.{IsQuietEvent, Settled}
use hades_ps_trader.Session.Interval.{IsRunnable}
use hades_ps_trader.Session.Returns.{run_session-IsLate, run_session-returns}
use hades_ps_trader.Session.Filters.{Passes, starts-Passes}
use hades_ps_trader.Session.Handle.{
  Guards, Handled, refused, watched, token_of, named, handle, graduate,
}

-- The look-up leaves the mint.
named-mint :
    (text : List ℕ → String) (valid_mint : Bool) (found : Result QueryError TokenMetadata)
    (ev : MigrationEvent)
    → (named text valid_mint found ev).mint ≡ ev.mint
unfolding named
named-mint text valid_mint found ev = ground arith

module _ {F : Type 0} ⦃fl : Float F⦄ (text : List ℕ → String)
    (found : Result QueryError TokenMetadata) (parse : List ℕ → Option F) (cfg : Config F)
    (dry_run : Bool) (g : Guards F) (ev : MigrationEvent) (session_start : ℕ)
    (events : List (Event F)) (env : EndEnv F) (shared : Shared F) where
  abbrev pub task : Option (Handled F)
  task = graduate text found parse cfg dry_run g ev session_start events env shared

  -- The guards let the session start.
  abbrev pub IsLetIn : Type 0
  IsLetIn =
      (g.valid_mint ≡ true)
      × ((cfg.tradingfilters.enabled ≡ false) ⊎ Passes cfg.tradingfilters g.holders g.txs g.top_ten)

  -- A session that has been watched to its end, or an early return.
  abbrev pub EndsWell : Handled F → Type 0
  EndsWell (watched s) = IsLetIn × Settled shared.open_positions s
  EndsWell refused = ¬ IsLetIn

  abbrev handled : MigrationEvent → Option (Handled F)
  handled e = handle parse cfg dry_run g e session_start events env shared

  -- The first line cuts the mint, or a session starts whose deadline is no instant.
  abbrev pub Panics : (mint : String) → Type 0
  Panics mint = IsCut mint ⊎ (IsLetIn × IsLate session_start cfg.trading.max_monitor_time)

  -- The task panics, or it ends well.
  abbrev pub Outcome : (mint : String) → Option (Handled F) → Type 0
  Outcome mint o =
      (Panics mint × (o ≡ none)) ⊎ (¬ (Panics mint) × (h : Handled F) × (o ≡ some h) × EndsWell h)

  abbrev let_in : Bool
  let_in = starts g.valid_mint cfg.tradingfilters g.holders g.txs g.top_ten

  handle-cut : (e : MigrationEvent) → short e.mint ≡ none → handled e ≡ none
  unfolding handle
  handle-cut e s = rw (s, handle) refl

  handle-watched :
      (e : MigrationEvent) (tag : String) (ended : Session F)
      → short e.mint ≡ some tag
      → let_in ≡ true
      → run_session parse cfg dry_run (token_of e) session_start events env shared ≡ some ended
      → handled e ≡ some (watched ended)
  unfolding handle
  handle-watched e tag ended s l r = ground (arith, s, l, r)

  handle-late :
      (e : MigrationEvent) (tag : String)
      → short e.mint ≡ some tag
      → let_in ≡ true
      → run_session parse cfg dry_run (token_of e) session_start events env shared ≡ none
      → handled e ≡ none
  unfolding handle
  handle-late e tag s l r = ground (arith, s, l, r)

  handle-refused :
      (e : MigrationEvent) (tag : String)
      → short e.mint ≡ some tag
      → let_in ≡ false
      → handled e ≡ some refused
  unfolding handle
  handle-refused e tag s l = ground (arith, s, l)

  unpanicked :
      (mint : String)
      → ¬ (IsCut mint)
      → ¬ (IsLetIn × IsLate session_start cfg.trading.max_monitor_time)
      → ¬ (Panics mint)
  unpanicked mint whole timely (inl cut) = whole cut
  unpanicked mint whole timely (inr late) = timely late

  handle-let_in :
      IsRunnable cfg.macd
      → All IsQuietEvent events
      → IsQuiet env.during_sell
      → shared.open_positions + 1 < 2 ^ 64
      → (e : MigrationEvent) → (tag : String) → ¬ (IsCut e.mint)
      → short e.mint ≡ some tag
      → let_in ≡ true
      → Outcome e.mint (handled e)
  handle-let_in r quiet calm small e tag whole s l =
      let passes = starts-Passes g.valid_mint cfg.tradingfilters g.holders g.txs g.top_ten in
      elim (IsLate-cases session_start cfg.trading.max_monitor_time) [
        | inl late ↦
            let lost =
              run_session-IsLate parse cfg dry_run (token_of e) session_start events env shared
                late in
            inl (inr (passes.0 l, late), handle-late e tag s l lost)
        | inr timely ↦
            let (ended, f, settled) =
              run_session-returns parse cfg dry_run (token_of e) session_start events env shared r
                timely quiet calm small in
            inr (
              unpanicked e.mint whole (λ p. timely p.1),
              watched ended,
              handle-watched e tag ended s l f,
              (passes.0 l, settled),
            )
      ]

  handle-EndsWell :
      IsRunnable cfg.macd
      → All IsQuietEvent events
      → IsQuiet env.during_sell
      → shared.open_positions + 1 < 2 ^ 64
      → (e : MigrationEvent) → Outcome e.mint (handled e)
  handle-EndsWell r quiet calm small e =
      let passes = starts-Passes g.valid_mint cfg.tradingfilters g.holders g.txs g.top_ten in
      elim (short-cases e.mint) [
        | inl (cut, s) ↦ inl (inl cut, handle-cut e s)
        | inr (whole, tag, s) ↦ elim (Bool-cases let_in) [
          | inl l ↦ handle-let_in r quiet calm small e tag whole s l
          | inr l ↦
              let out : ¬ IsLetIn = λ in_. cc (l, passes.1 in_) in
              inr (unpanicked e.mint whole (λ p. out p.0), refused, handle-refused e tag s l, out)
        ]
      ]

  -- For a configuration whose periods are in their order and positive and whose candles have some
  -- length, while other sessions leave the counter as it is and it does not overflow, over every
  -- finite run of prices: the task of a graduation panics exactly if its mint has more than 8
  -- bytes and a cut at the fourth byte or the fourth last falls inside a character, or if it gets
  -- to its session and `max_monitor_time`, not 0, ends 2^63 seconds or more from the origin of the
  -- clock. Every other one ends: in a session, exactly if the mint is a public key and the filters
  -- are switched off or all pass (at least the minimum of holders and of transactions, and a share
  -- of the top ten that is not above its limit, where a limit that is not above 0 always passes
  -- and a query that fails does not), and that session holds no position in the end and has put
  -- the counter back; else in an early return.
  pub graduate-EndsWell :
      IsRunnable cfg.macd
      → All IsQuietEvent events
      → IsQuiet env.during_sell
      → shared.open_positions + 1 < 2 ^ 64
      → Outcome ev.mint task
  unfolding graduate
  graduate-EndsWell r quiet calm small =
      subst (λ m. Outcome m task) (named-mint text g.valid_mint found ev)
        (handle-EndsWell r quiet calm small (named text g.valid_mint found ev))
