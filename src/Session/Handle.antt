-- ===== src/Session/Handle.antt =====
-- `handle` of src/session.rs, and the task that `main` spawns for a graduation: the look-up of the
-- token's name, the guards, and the session. `none` is a panic.
use Prim.Native.String.{String}
use hades_ps_trader.Base.{ℕ, Bool, Option, none, some, List, if◌then◌else◌, ◌>>=◌}
use hades_ps_trader.Base.Result.{Result, ok, err}
use hades_ps_trader.Base.Short.{short}
use hades_ps_trader.Float.{Float}
use hades_ps_trader.Config.{Config}
use hades_ps_trader.PumpPortal.{MigrationEvent}
use hades_ps_trader.Onchain.{QueryError}
use hades_ps_trader.Onchain.Metadata.{TokenMetadata}
use hades_ps_trader.Trader.{TradeError}
use hades_ps_trader.Session.{Shared, Token, starts}
use hades_ps_trader.Session.Loop.{Session, Event}
use hades_ps_trader.Session.Run.{EndEnv, run_session}

-- What the guards meet: whether the mint is a public key, and the answers to the queries of the
-- filters.
pub record Guards (F : Type 0) : Type 0 where
  pub valid_mint : Bool
  pub holders : Result TradeError ℕ
  pub txs : Result TradeError ℕ
  pub top_ten : Result TradeError F

-- An early return, or a session that has come to its end.
pub data Handled (F : Type 0) : Type 0 where
  refused : Handled F
  watched : Session F → Handled F

abbrev pub token_of : MigrationEvent → Token
token_of ev = record { mint = ev.mint; name = ev.name; symbol = ev.symbol }

-- A graduation without a symbol takes the name and the symbol of the token's metadata, where they
-- are found. `text` makes a text of code points.
unfoldable pub named :
    (List ℕ → String)
    → (valid_mint : Bool) → Result QueryError TokenMetadata
    → MigrationEvent
    → MigrationEvent
named text valid_mint found ev = elim ev.symbol [
  | some symbol ↦ ev
  | none ↦
      if valid_mint
      then elim found [
        | ok m ↦ record ev { name = some (text m.name); symbol = some (text m.symbol) }
        | err e ↦ ev
      ]
      else ev
]

module _ {F : Type 0} ⦃fl : Float F⦄ where
  unfoldable pub handle :
      (List ℕ → Option F)
      → Config F
      → Bool
      → Guards F
      → MigrationEvent
      → ℕ
      → List (Event F)
      → EndEnv F
      → Shared F
      → Option (Handled F)
  handle parse cfg dry_run g ev session_start events env shared = elim (short ev.mint) [
    | none ↦ none
    | some tag ↦
        if starts g.valid_mint cfg.tradingfilters g.holders g.txs g.top_ten
        then (do
          s ← run_session parse cfg dry_run (token_of ev) session_start events env shared
          some (watched s))
        else some refused
  ]

  -- The task of a graduation.
  unfoldable pub graduate :
      (List ℕ → String)
      → Result QueryError TokenMetadata
      → (List ℕ → Option F)
      → Config F
      → Bool
      → Guards F
      → MigrationEvent
      → ℕ
      → List (Event F)
      → EndEnv F
      → Shared F
      → Option (Handled F)
  graduate text found parse cfg dry_run g ev session_start events env shared =
      handle parse cfg dry_run g (named text g.valid_mint found ev) session_start events env shared
