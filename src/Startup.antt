-- ===== src/Startup.antt =====
-- What `main` of src/main.rs warns of before it starts: a warm-up of the indicator that does not
-- fit into a session, and a target below the lowest trailing tier.
pub mod Window
use hades_ps_trader.Base.{
  ℕ, ◌+◌, ◌-◌, ◌*◌, ◌%◌, ◌^◌, Bool, true, false, ◌&&◌, Option, List, [], ◌∷◌, ltb, leb,
  if◌then◌else◌,
}
use hades_ps_trader.Base.Text.{codes}
use hades_ps_trader.Float.{Float}
use hades_ps_trader.Config.{Config, Trading, MacdConfig}
use hades_ps_trader.Position.{TrailTier}
use hades_ps_trader.Position.Tiers.{parse_tiers}

-- The two warnings on the warm-up: it takes the whole session, or at least half of it.
pub data WarmupWarning : Type 0 where
  silent no_signals short_window : WarmupWarning

-- `saturating_mul` of u64.
abbrev pub saturating_mul : ℕ → ℕ → ℕ
saturating_mul a b = if ltb (a * b) (2 ^ 64) then a * b else 2 ^ 64 - 1

-- The sum is one of u32, which wraps.
unfoldable pub warmup_secs : MacdConfig → ℕ
warmup_secs m = saturating_mul ((m.slow + m.signal) % 2 ^ 32) m.candle_interval_secs

-- `max` is `max_monitor_time`.
unfoldable pub warn_warmup : MacdConfig → (max : ℕ) → WarmupWarning
warn_warmup m max =
    if ltb 0 max
    then if leb max (warmup_secs m)
      then no_signals
      else if leb max ((warmup_secs m * 2) % 2 ^ 64)
      then short_window
      else silent
    else silent

module _ {F : Type 0} ⦃fl : Float F⦄ where
  open fl use {of_ℕ, lt, infinity}

  abbrev pub first_gain : List (TrailTier F) → F
  first_gain [] = infinity
  first_gain (tier ∷ tiers) = tier.gain_pct

  -- `parse` is the parser of `f64`.
  unfoldable pub warn_target : (List ℕ → Option F) → Trading F → Bool
  warn_target parse t =
      lt (of_ℕ 0) t.profit_target_percent
      && lt t.profit_target_percent
          (first_gain (parse_tiers parse (codes t.dynamic_trailing_stop_thresholds)))
