-- ===== src/Discord.antt =====
-- src/discord.rs: the notifications of buys, sells and orphaned buys, as the payload that is posted to
-- the webhook. `format!` of numbers is the interface `Format`; the timestamp and the answer of the
-- webhook are left out. `none` is the panic of a mint that is cut inside a character.
pub mod Posting
use Prim.Native.String.{String, ◌++◌}
use hades_ps_trader.Base.{
  ℕ, Bool, true, false, Option, none, some, List, [], ◌∷◌, if◌then◌else◌, ◌>>=◌,
}
use hades_ps_trader.Base.Short.{short}
use hades_ps_trader.Base.Text.{codes, trim}
use hades_ps_trader.Float.{Float}
use hades_ps_trader.Dispatch.{is_empty}
use hades_ps_trader.Labels.{Format}

pub record Notifier : Type 0 where
  pub webhook_url : Option String

unfoldable pub new_notifier : Option String → Notifier
new_notifier none = record { webhook_url = none }
new_notifier (some url) = record {
  webhook_url = if is_empty (trim (codes url)) then none else some url;
}

pub data Color : Type 0 where
  green red : Color

pub record Field : Type 0 where
  pub name : String
  pub value : String
  pub inline : Bool

pub record Embed : Type 0 where
  pub title : String
  pub url : String
  pub color : Color
  pub fields : List Field

-- `spawn_send(url, payload)`, or the early return without a webhook.
pub data Post : Type 0 where
  silent : Post
  post : (url : String) → Embed → Post

abbrev pub pumpfun_url : String → String
pumpfun_url mint = "https://pump.fun/coin/" ++ mint

-- The same function as `short`.
abbrev pub short_mint : String → Option String
short_mint = short

unfoldable pub display : (name symbol : Option String) → (mint : String) → Option String
display (some n) (some s) mint = some (n ++ " (" ++ s ++ ")")
display (some n) none mint = some n
display none (some s) mint = some ("(" ++ s ++ ")")
display none none mint = short_mint mint

abbrev code_of : String → String
code_of s = "`" ++ s ++ "`"

-- The post of an embed whose title ends in the display of the token.
unfoldable pub notify :
    Notifier
    → (name symbol : Option String) → (mint title : String) → Color
    → List Field
    → Option Post
notify n name symbol mint title color fields = elim n.webhook_url [
  | none ↦ some silent
  | some url ↦ do
    shown ← display name symbol mint
    some (
        post url
          record { title = title ++ shown; url = pumpfun_url mint; color = color; fields = fields })
]

module _ {F : Type 0} ⦃fl : Float F⦄ (fmt : Format F) where
  open fl use {of_ℕ, le}
  open fmt use {fixed, signed}

  -- `format_tokens`
  unfoldable pub format_tokens : F → String
  format_tokens t = if le (of_ℕ 1) t then fixed 2 t else fixed 6 t

  unfoldable pub notify_buy :
      Notifier
      → (mint : String) (name symbol : Option String) → (amount_sol tokens entry_price_sol : F)
      → Option Post
  notify_buy n mint name symbol amount_sol tokens entry_price_sol =
      notify n name symbol mint "BUY: " green (
        record { name = "Mint"; value = code_of mint; inline = false }
        ∷ record { name = "Spent"; value = fixed 4 amount_sol ++ " SOL"; inline = true }
        ∷ record { name = "Tokens"; value = format_tokens tokens; inline = true }
        ∷ record { name = "Entry Price"; value = fixed 10 entry_price_sol ++ " SOL"; inline = true }
        ∷ [])

  unfoldable pub notify_sell :
      Notifier
      → (mint : String) (name symbol : Option String) (reason : String)
      → (pnl_pct net_return_sol : F) → Option Post
  notify_sell n mint name symbol reason pnl_pct net_return_sol =
      notify n name symbol mint "SELL: " (if le (of_ℕ 0) net_return_sol then green else red) (
        record { name = "Mint"; value = code_of mint; inline = false }
        ∷ record { name = "Reason"; value = reason; inline = false }
        ∷ record { name = "PnL"; value = signed 2 pnl_pct ++ "%"; inline = true }
        ∷ record {
          name = "Net Return";
          value = signed 4 net_return_sol ++ " SOL (at trigger price)";
          inline = true;
        }
        ∷ [])

  unfoldable pub notify_orphan_buy :
      Notifier
      → (mint : String) (name symbol : Option String) (buy_sig : String)
      → (amount_sol : F) (reason : String) → Option Post
  notify_orphan_buy n mint name symbol buy_sig amount_sol reason =
      notify n name symbol mint "ORPHAN POSITION — MANUAL SELL REQUIRED: " red (
        record { name = "Mint"; value = code_of mint; inline = false }
        ∷ record { name = "Buy tx"; value = code_of buy_sig; inline = false }
        ∷ record { name = "Spent"; value = fixed 4 amount_sol ++ " SOL"; inline = true }
        ∷ record { name = "Reason"; value = reason; inline = false }
        ∷ record {
          name = "Action";
          value = "Bot cannot monitor this position. Sell manually via pump.fun or Phantom.";
          inline = false;
        }
        ∷ [])
