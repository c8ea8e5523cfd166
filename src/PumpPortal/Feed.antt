-- ===== src/PumpPortal/Feed.antt =====
-- What the listener of src/pumpportal.rs sends of all the frames of its connections.
use Prim.Native.String.{String}
use hades_ps_trader.Base.{
  ℕ, zero, suc, ◌-◌, ◌^◌, ltb, get_elem?, ◌≤◌, ◌<◌, ◌≡◌, refl, ◌⊎◌, inl, inr, true, false, none,
  some, List, [], ◌∷◌, ◌++◌, arith, length, length-append, Option-cases, if◌then◌else◌, Bool-cases,
}
use hades_ps_trader.PumpPortal.{
  Json, AlphaTrade, Message, text, ping, close, other, failed, is_control, on_trade_frame,
  run_account_trade, next_backoff, waits,
}
use hades_ps_trader.PumpPortal.Backoff.{waits_lem}
use hades_ps_trader.PumpPortal.Frames.{Describes, on_trade_frame-Describes}
use hades_ps_trader.PumpPortal.Listener.{Connection, connect, listen_trades, account_trade_listener}

-- The JSON texts that a connection brings before it ends.
abbrev pub texts_of : {V : Type 0} → List (Message V) → List V
texts_of [] = []
texts_of (text none ∷ rest) = texts_of rest
texts_of (text (some v) ∷ rest) = v ∷ texts_of rest
texts_of (ping true ∷ rest) = texts_of rest
texts_of (ping false ∷ rest) = []
texts_of (close ∷ rest) = []
texts_of (other ∷ rest) = texts_of rest
texts_of (failed ∷ rest) = []

abbrev frames_in : {V : Type 0} → Connection V → List V
frames_in c = if c.connected then if c.subscribed then texts_of c.messages else [] else []

abbrev pub frames_of : {V : Type 0} → List (Connection V) → List V
frames_of [] = []
frames_of (c ∷ connections) = frames_in c ++ frames_of connections

module _ {V F : Type 0} (json : Json V F) where
  -- A frame of a trade.
  abbrev pub IsTrade : V → AlphaTrade F → Type 0
  IsTrade v t = (is_control json v ≡ false) × Describes json v t

  -- The trades are those of the frames, in their order; a frame of no trade is passed over.
  abbrev pub Delivers : List V → List (AlphaTrade F) → Type 0
  Delivers [] trades = trades ≡ []
  Delivers (v ∷ frames) trades =
      ((t : AlphaTrade F) × (rest : List (AlphaTrade F)) × (trades ≡ t ∷ rest)
        × IsTrade v t
        × Delivers frames rest)
      ⊎ (((t : AlphaTrade F) → ¬ (IsTrade v t)) × Delivers frames trades)

  collect : List V → List (AlphaTrade F)
  collect [] = []
  collect (v ∷ frames) = elim (on_trade_frame json v) [
    | none ↦ collect frames
    | some t ↦ t ∷ collect frames
  ]

  collect-append : (xs ys : List V) → collect (xs ++ ys) ≡ collect xs ++ collect ys
  unfolding collect
  collect-append [] ys = refl
  collect-append (v ∷ xs) ys = ground (arith, collect-append xs ys)

  collect-none :
      (v : V) (frames : List V)
      → on_trade_frame json v ≡ none
      → collect (v ∷ frames) ≡ collect frames
  unfolding collect
  collect-none v frames e = ground (arith, e)

  collect-some :
      (v : V) (frames : List V) (t : AlphaTrade F)
      → on_trade_frame json v ≡ some t
      → collect (v ∷ frames) ≡ t ∷ collect frames
  unfolding collect
  collect-some v frames t e = ground (arith, e)

  collect-Delivers : (frames : List V) → Delivers frames (collect frames)
  collect-Delivers [] = unfold collect in refl
  collect-Delivers (v ∷ frames) = elim (Option-cases (on_trade_frame json v)) [
    | inl e ↦
        rw (collect-none v frames e)
          (inr (λ t d. cc (e, (on_trade_frame-Describes json v t).1 d), collect-Delivers frames))
    | inr (t, e) ↦ rw (collect-some v frames t e) (
        inl (
          t,
          collect frames,
          refl,
          (on_trade_frame-Describes json v t).0 e,
          collect-Delivers frames,
        ))
  ]

  length-collect : (frames : List V) → length (collect frames) ≤ length frames
  unfolding collect
  length-collect [] = omega arith
  length-collect (v ∷ frames) = ground (arith, length-collect frames)

  run_account_trade-collect :
      (messages : List (Message V)) (open_for : ℕ)
      → length (texts_of messages) ≤ open_for
      → (run_account_trade json open_for messages).0 ≡ collect (texts_of messages)
  unfolding run_account_trade collect
  run_account_trade-collect [] open_for h = refl
  run_account_trade-collect (text none ∷ rest) open_for h =
      run_account_trade-collect rest open_for h
  run_account_trade-collect (text (some v) ∷ rest) zero h = absurd (omega (arith, h))
  run_account_trade-collect (text (some v) ∷ rest) (suc n) h =
      elim (Option-cases (on_trade_frame json v)) [
        | inl e ↦ ground (arith, e, run_account_trade-collect rest (suc n) (omega (arith, h)))
        | inr (t, e) ↦ ground (arith, e, run_account_trade-collect rest n (omega (arith, h)))
      ]
  run_account_trade-collect (ping true ∷ rest) open_for h =
      run_account_trade-collect rest open_for h
  run_account_trade-collect (ping false ∷ rest) open_for h = refl
  run_account_trade-collect (close ∷ rest) open_for h = refl
  run_account_trade-collect (other ∷ rest) open_for h = run_account_trade-collect rest open_for h
  run_account_trade-collect (failed ∷ rest) open_for h = refl

  connect-collect :
      (c : Connection V) (open_for : ℕ)
      → length (frames_in c) ≤ open_for
      → (connect (run_account_trade json open_for) c).0 ≡ collect (frames_in c)
  unfolding collect
  connect-collect c open_for h = elim (Bool-cases c.connected) [
    | inr down ↦ rw down refl
    | inl up ↦ elim (Bool-cases c.subscribed) [
      | inr down ↦ rw (up, down) refl
      | inl on ↦ rw (up, on) (run_account_trade-collect c.messages open_for (rw (up, on) at h))
    ]
  ]

  listen_trades-collect :
      (connections : List (Connection V)) (backoff open_for : ℕ)
      → length (frames_of connections) ≤ open_for
      → (listen_trades json backoff open_for connections).0 ≡ collect (frames_of connections)
  unfolding listen_trades
  listen_trades-collect [] backoff open_for h = unfold collect in refl
  listen_trades-collect (c ∷ connections) backoff open_for h =
      let split = length-append (frames_in c) (frames_of connections) in
      let few = length-collect (frames_in c) in
      let first = connect-collect c open_for (omega (arith, h, split)) in
      let left : length (frames_of connections) ≤ open_for - length (collect (frames_in c)) =
        omega (arith, h, split, few) in
      rw
        (
          first,
          listen_trades-collect connections (next_backoff backoff)
              (open_for - length (collect (frames_in c))) left,
          collect-append (frames_in c) (frames_of connections),
        )
        refl

  listen_trades-waits :
      (connections : List (Connection V)) (backoff open_for : ℕ)
      → (listen_trades json backoff open_for connections).1 ≡ waits (length connections) backoff
  unfolding listen_trades waits
  listen_trades-waits [] backoff open_for = refl
  listen_trades-waits (c ∷ connections) backoff open_for =
      rw (listen_trades-waits connections (next_backoff backoff) _) refl

  -- While its receiver takes as many trades as there are frames, the trade listener sends, over
  -- all its connections, for each JSON text that a connection brings before it ends and in their
  -- order, the trade that the frame describes, if it is no control frame, has a mint, a trader and
  -- a type, and the type is a buy or a sell; and it passes over the others. A connection that
  -- fails loses no frame of the others. The wait after connection number k, counted from 0, is 2^k
  -- seconds, and 30 once that is more.
  pub account_trade_listener-Delivers :
      (key : String) (keys : List String) (connections : List (Connection V)) (open_for : ℕ)
      → length (frames_of connections) ≤ open_for
      → (let (trades, waited) = account_trade_listener json (key ∷ keys) open_for connections in
          Delivers (frames_of connections) trades
          × ((k : ℕ)
              → k < length connections
              → get_elem? waited k ≡ some (if ltb 30 (2 ^ k) then 30 else 2 ^ k)))
  unfolding account_trade_listener
  account_trade_listener-Delivers key keys connections open_for h = (
    rw (listen_trades-collect connections 1 open_for h) (collect-Delivers (frames_of connections)),
    λ k lt. rw (listen_trades-waits connections 1 open_for) (waits_lem (length connections) k lt),
  )
