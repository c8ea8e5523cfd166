-- ===== src/Dispatch/Loop.antt =====
-- The `select!` loop of the copy-trade mode in src/main.rs: the trades of the feed, the end of the
-- feed, and the shutdown.
use native.Mathlib.Decide.{dec_lt}
use hades_ps_trader.Base.{
  ℕ, zero, suc, ◌+◌, ◌≤◌, ◌<◌, ◌≡◌, refl, Option, none, some, List, [], ◌∷◌, ◌++◌, arith, ◌==◌,
  if◌then◌else◌, Bool-cases, inl, inr,
}
use hades_ps_trader.Base.Text.{str_eq}
use hades_ps_trader.Config.{CopyTradeConfig}
use hades_ps_trader.PumpPortal.{AlphaTrade}
use hades_ps_trader.Dispatch.{
  Recent, new_recent, Arrival, Action, broadcast, skip, spawn, on_trade, spawned, dispatch,
  shutdown_rounds, wait_closed, parse_names, check_wallet, check_mint,
}
use hades_ps_trader.Dispatch.Spacing.{IsForward, IsSpaced, dispatch-IsSpaced}

-- What `select!` takes next. At a shutdown `counter k` is the counter `copy_positions` in round `k`
-- of the wait, and `left` is its value after the wait.
pub data LoopEvent (F : Type 0) : Type 0 where
  arrived : Arrival F → LoopEvent F
  feed_closed : LoopEvent F
  shut_down : (counter : ℕ → ℕ) (left : ℕ) → LoopEvent F

-- How the loop has ended, if it has: at a shutdown, the seconds slept, and the positions that may
-- not have closed.
pub data Exit : Type 0 where
  running : Exit
  closed : Exit
  stopped : (slept left : ℕ) → Exit

-- The wait has slept until the first second in which no position is open, or all its seconds.
abbrev pub HasWaited : (ℕ → ℕ) → ℕ → Type 0
HasWaited counter slept =
    (slept ≤ shutdown_rounds)
    × (slept < shutdown_rounds → counter slept ≡ 0)
    × ((k : ℕ) → k < slept → 0 < counter k)

wait_closed-HasWaited :
    (left k : ℕ) (counter : ℕ → ℕ)
    → (k ≤ wait_closed left k counter)
      × (wait_closed left k counter ≤ k + left)
      × (wait_closed left k counter < k + left → counter (wait_closed left k counter) ≡ 0)
      × ((i : ℕ) → k ≤ i → i < wait_closed left k counter → 0 < counter i)
unfolding wait_closed
wait_closed-HasWaited zero k counter =
    (omega arith, omega arith, λ h. absurd (omega (arith, h)), λ i le lt. absurd (omega arith))
wait_closed-HasWaited (suc left) k counter = elim (Bool-cases (counter k == 0)) [
  | inl done ↦
      rw done (omega arith, omega arith, λ h. ground (arith, done), λ i le lt. absurd (omega arith))
  | inr open_ ↦
      let (low, high, early, waited) = wait_closed-HasWaited left (k + 1) counter in
      rw open_ (
        omega arith,
        omega arith,
        λ h. early (omega arith),
        λ i le lt. elim (dec_lt k i) [
          | yes later ↦ waited i (omega (arith, later)) lt
          | no here ↦ let e : i ≡ k = omega (arith, le, here) in rw e (ground (arith, open_))
        ],
      )
]

module _ {F : Type 0} (cc : CopyTradeConfig F) where
  unfoldable pub main_loop : List (LoopEvent F) → Recent → List (Action F) × Exit
  main_loop [] r = ([], running)
  main_loop (arrived a ∷ events) r =
      let (r', action) = on_trade cc a r in
      let (actions, exit) = main_loop events r' in (action ∷ actions, exit)
  main_loop (feed_closed ∷ events) r = ([], closed)
  main_loop (shut_down counter left ∷ events) r =
      ([], stopped (wait_closed shutdown_rounds 0 counter) left)

  -- `wallets` is the text of COPY_TRADE_WALLETS; `none` where it names nobody.
  unfoldable pub copy_mode :
      (wallets : List ℕ) → List (LoopEvent F) → Option (List (Action F) × Exit)
  copy_mode wallets events = elim (parse_names wallets) [
    | [] ↦ none
    | name ∷ names ↦ some (main_loop events new_recent)
  ]

  -- The trades before the end.
  abbrev pub arrivals_of : List (LoopEvent F) → List (Arrival F)
  arrivals_of [] = []
  arrivals_of (arrived a ∷ events) = a ∷ arrivals_of events
  arrivals_of (feed_closed ∷ events) = []
  arrivals_of (shut_down counter left ∷ events) = []

  abbrev pub sessions : List (Action F) → List (Arrival F)
  sessions [] = []
  sessions (action ∷ actions) = spawned action ++ sessions actions

  abbrev broadcast_by : Action F → List (AlphaTrade F)
  broadcast_by (broadcast t) = t ∷ []
  broadcast_by skip = []
  broadcast_by (spawn a) = []

  abbrev pub broadcasts : List (Action F) → List (AlphaTrade F)
  broadcasts [] = []
  broadcasts (action ∷ actions) = broadcast_by action ++ broadcasts actions

  abbrev pub sells : List (Arrival F) → List (AlphaTrade F)
  sells [] = []
  sells (a ∷ arrivals) =
      (if str_eq a.trade.tx_type "sell" then a.trade ∷ [] else []) ++ sells arrivals

  -- The event that ends the loop, and the end that it brings.
  abbrev pub EndsAs : List (LoopEvent F) → Exit → Type 0
  EndsAs [] exit = exit ≡ running
  EndsAs (arrived a ∷ events) exit = EndsAs events exit
  EndsAs (feed_closed ∷ events) exit = exit ≡ closed
  EndsAs (shut_down counter left ∷ events) exit =
      (slept : ℕ) × (exit ≡ stopped slept left) × HasWaited counter slept

  main_loop-sessions :
      (events : List (LoopEvent F)) (r : Recent)
      → sessions (main_loop events r).0 ≡ dispatch cc (arrivals_of events) r
  unfolding main_loop dispatch
  main_loop-sessions [] r = refl
  main_loop-sessions (arrived a ∷ events) r =
      rw (main_loop-sessions events (on_trade cc a r).0) refl
  main_loop-sessions (feed_closed ∷ events) r = refl
  main_loop-sessions (shut_down counter left ∷ events) r = refl

  broadcast_by-on_trade :
      (a : Arrival F) (r : Recent)
      → broadcast_by (on_trade cc a r).1
        ≡ (if str_eq a.trade.tx_type "sell" then a.trade ∷ [] else [])
  unfolding on_trade check_wallet check_mint
  broadcast_by-on_trade a r = ground arith

  main_loop-broadcasts :
      (events : List (LoopEvent F)) (r : Recent)
      → broadcasts (main_loop events r).0 ≡ sells (arrivals_of events)
  unfolding main_loop
  main_loop-broadcasts [] r = refl
  main_loop-broadcasts (arrived a ∷ events) r =
      rw (broadcast_by-on_trade a r, main_loop-broadcasts events (on_trade cc a r).0) refl
  main_loop-broadcasts (feed_closed ∷ events) r = refl
  main_loop-broadcasts (shut_down counter left ∷ events) r = refl

  main_loop-EndsAs :
      (events : List (LoopEvent F)) (r : Recent) → EndsAs events (main_loop events r).1
  unfolding main_loop
  main_loop-EndsAs [] r = refl
  main_loop-EndsAs (arrived a ∷ events) r = main_loop-EndsAs events (on_trade cc a r).0
  main_loop-EndsAs (feed_closed ∷ events) r = refl
  main_loop-EndsAs (shut_down counter left ∷ events) r =
      let (low, high, early, waited) = wait_closed-HasWaited shutdown_rounds 0 counter in
      (_, refl, (omega arith, λ h. early (omega arith), λ k lt. waited k (omega arith) lt))

  -- Where the loop reads the clock in its order: of any two sessions that it spawns, the later one
  -- of the same mint comes at least the re-entry cooldown after the other, and the later one of
  -- the same wallet at least the cooldown of a wallet; it broadcasts the sells among the trades
  -- before its end, in their order and nothing else; and it ends by the first end of the feed or
  -- shutdown. At a shutdown it sleeps until the first second in which no copy position is open,
  -- and 25 seconds if there is none, and reports the positions that are left.
  pub main_loop-Runs :
      (before : ℕ) (events : List (LoopEvent F)) (r : Recent)
      → IsForward cc before (arrivals_of events)
      → (let (actions, exit) = main_loop events r in
          IsSpaced cc (sessions actions)
          × (broadcasts actions ≡ sells (arrivals_of events))
          × EndsAs events exit)
  main_loop-Runs before events r forward = (
    rw (main_loop-sessions events r) (dispatch-IsSpaced cc before (arrivals_of events) r forward),
    main_loop-broadcasts events r,
    main_loop-EndsAs events r,
  )
