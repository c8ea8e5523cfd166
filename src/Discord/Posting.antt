-- ===== src/Discord/Posting.antt =====
-- When src/discord.rs posts.
use Prim.Native.String.{String, ◌++◌}
use mathlib.Core.Path.{subst}
use hades_ps_trader.Base.{
  ◌≡◌, refl, ap, ◌↔◌, inl, inr, false, Option, none, some, List, arith, Bool-cases,
}
use hades_ps_trader.Base.Short.{IsAscii, short-IsAscii}
use hades_ps_trader.Base.Text.{codes, trim}
use hades_ps_trader.Dispatch.{is_empty}
use hades_ps_trader.Discord.{
  new_notifier, Color, Field, Embed, Post, silent, post, display, notify, pumpfun_url,
}

-- A text that is not blank.
abbrev pub IsInked : String → Type 0
IsInked url = is_empty (trim (codes url)) ≡ false

display-IsAscii :
    (name symbol : Option String) (mint : String)
    → IsAscii mint
    → (shown : String) × (display name symbol mint ≡ some shown)
unfolding display
display-IsAscii (some n) (some s) mint h = (_, refl)
display-IsAscii (some n) none mint h = (_, refl)
display-IsAscii none (some s) mint h = (_, refl)
display-IsAscii none none mint h = short-IsAscii mint h

-- A notification on a mint of one-byte characters does not panic, and is posted to a webhook exactly
-- if that is configured and its text is not blank; the embed has the color and the fields asked for.
notify-IsInked :
    (webhook : Option String) (name symbol : Option String) (mint title : String) (color : Color)
    (fields : List Field)
    → IsAscii mint
    → (p : Post) × (notify (new_notifier webhook) name symbol mint title color fields ≡ some p)
      × ((url : String)
          → ((webhook ≡ some url) × IsInked url)
            ↔ ((e : Embed) × (p ≡ post url e) × (e.color ≡ color) × (e.fields ≡ fields)))
unfolding notify new_notifier
notify-IsInked none name symbol mint title color fields h =
    (silent, refl, λ url. (λ k. cc (k.0), λ e. cc (e.1)))
notify-IsInked (some hook) name symbol mint title color fields h =
    let (shown, d) = display-IsAscii name symbol mint h in
    elim (Bool-cases (is_empty (trim (codes hook)))) [
      | inl blank ↦ (silent, rw blank refl, λ url. (λ k. ground (arith, blank, k), λ e. cc (e.1)))
      | inr inked ↦
          let embed : Embed = record {
            title = title ++ shown;
            url = pumpfun_url mint;
            color = color;
            fields = fields;
          } in
          (
            post hook embed,
            rw (inked, d) refl,
            λ url. (
              λ k. let e : hook ≡ url = cc (k.0) in (embed, ap (λ u. post u embed) e, refl, refl),
              λ x. let e : hook ≡ url = cc (x.1) in (ap some e, subst IsInked e inked),
            ),
          )
    ]
