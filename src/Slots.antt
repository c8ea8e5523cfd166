-- ===== src/Slots.antt =====
-- The counter `open_positions` under the interleaved sessions of src/session.rs: `fetch_add`,
-- the comparison with `max_positions`, and `fetch_sub` on every way out of a buy or a position.
-- A session is between two of its atomic operations; the state counts the sessions at each place.
use hades_ps_trader.Base.{ℕ, ◌+◌, ◌-◌, ◌^◌, ◌≤◌, ◌<◌, ◌≡◌, arith, leb, if◌then◌else◌}
use hades_ps_trader.Session.{fetch_add, fetch_sub}

pub record Slots : Type 0 where
  pub open_positions : ℕ
  -- not in a buy and without a position
  pub idle : ℕ
  -- has found the counter full and has yet to give its slot back
  pub refused : ℕ
  -- is buying, with a slot
  pub buying : ℕ
  -- has a position
  pub holding : ℕ

-- `let slot = open_positions.fetch_add(1); if slot >= max_positions`
unfoldable pub arrive : ℕ → Slots → Slots
arrive max_positions s =
    if leb max_positions s.open_positions
    then record s {
      open_positions = fetch_add s.open_positions;
      idle = s.idle - 1;
      refused = s.refused + 1;
    }
    else record s {
      open_positions = fetch_add s.open_positions;
      idle = s.idle - 1;
      buying = s.buying + 1;
    }

unfoldable pub turn_away : Slots → Slots
turn_away s = record s {
  open_positions = fetch_sub s.open_positions;
  refused = s.refused - 1;
  idle = s.idle + 1;
}

-- A buy that fails, is dry, or leaves no tokens.
unfoldable pub give_up : Slots → Slots
give_up s = record s {
  open_positions = fetch_sub s.open_positions;
  buying = s.buying - 1;
  idle = s.idle + 1;
}

unfoldable pub open_position : Slots → Slots
open_position s = record s { buying = s.buying - 1; holding = s.holding + 1 }

-- A sell that succeeds, or a forced one.
unfoldable pub close_position : Slots → Slots
close_position s = record s {
  open_positions = fetch_sub s.open_positions;
  holding = s.holding - 1;
  idle = s.idle + 1;
}

-- One session makes one move.
pub data Step (max_positions : ℕ) : Slots → Slots → Type 0 where
  arrives : (s : Slots) → 0 < s.idle → Step max_positions s (arrive max_positions s)
  is_turned_away : (s : Slots) → 0 < s.refused → Step max_positions s (turn_away s)
  gives_up : (s : Slots) → 0 < s.buying → Step max_positions s (give_up s)
  opens : (s : Slots) → 0 < s.buying → Step max_positions s (open_position s)
  closes : (s : Slots) → 0 < s.holding → Step max_positions s (close_position s)

-- `sessions` sessions, none of which has begun.
abbrev pub start : ℕ → Slots
start sessions = record {
  open_positions = 0;
  idle = sessions;
  refused = 0;
  buying = 0;
  holding = 0;
}

pub data Reach (max_positions sessions : ℕ) : Slots → Type 0 where
  begin : Reach max_positions sessions (start sessions)
  moves :
      (s t : Slots)
      → Reach max_positions sessions s
      → Step max_positions s t
      → Reach max_positions sessions t

-- The counter counts the sessions that have a slot or are about to give one back.
pub record IsCounted (max_positions sessions : ℕ) (s : Slots) : Type 0 where
  pub all_there : s.idle + s.refused + s.buying + s.holding ≡ sessions
  pub counted : s.open_positions ≡ s.refused + s.buying + s.holding
  pub capped : s.buying + s.holding ≤ max_positions

Step-IsCounted :
    (max_positions sessions : ℕ) (s t : Slots)
    → sessions < 2 ^ 64
    → Step max_positions s t
    → IsCounted max_positions sessions s
    → IsCounted max_positions sessions t
unfolding arrive turn_away give_up open_position close_position
Step-IsCounted max_positions sessions _ _ small (arrives s h) c = record {
  all_there = ground (arith, h, c.all_there);
  counted = ground (arith, h, c.counted, c.all_there, small);
  capped = ground (arith, h, c.capped, c.counted);
}
Step-IsCounted max_positions sessions _ _ small (is_turned_away s h) c = record {
  all_there = omega (arith, h, c.all_there);
  counted = omega (arith, h, c.counted, c.all_there, small);
  capped = c.capped;
}
Step-IsCounted max_positions sessions _ _ small (gives_up s h) c = record {
  all_there = omega (arith, h, c.all_there);
  counted = omega (arith, h, c.counted, c.all_there, small);
  capped = omega (arith, h, c.capped);
}
Step-IsCounted max_positions sessions _ _ small (opens s h) c = record {
  all_there = omega (arith, h, c.all_there);
  counted = omega (arith, h, c.counted);
  capped = omega (arith, h, c.capped);
}
Step-IsCounted max_positions sessions _ _ small (closes s h) c = record {
  all_there = omega (arith, h, c.all_there);
  counted = omega (arith, h, c.counted, c.all_there, small);
  capped = omega (arith, h, c.capped);
}

-- However the moves of fewer than 2^64 sessions interleave, the counter is the number of those
-- that have reserved and not yet given back, and never more than `max_positions` of them are
-- buying or hold a position.
pub reachable-IsCounted :
    (max_positions sessions : ℕ) (s : Slots)
    → sessions < 2 ^ 64
    → Reach max_positions sessions s
    → IsCounted max_positions sessions s
reachable-IsCounted max_positions sessions _ small begin = record {
  all_there = omega arith;
  counted = omega arith;
  capped = omega arith;
}
reachable-IsCounted max_positions sessions _ small (moves s t r step) =
    Step-IsCounted max_positions sessions s t small step
      (reachable-IsCounted max_positions sessions s small r)
