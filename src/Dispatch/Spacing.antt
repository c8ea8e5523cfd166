-- ===== src/Dispatch/Spacing.antt =====
-- How far apart the sessions are that the dispatch of src/main.rs spawns.
use Prim.Native.String.{String}
use hades_ps_trader.Base.{
  ℕ, ◌-◌, ◌≤◌, ◌≡◌, ◌≢◌, refl, sym, ◌⊎◌, inl, inr, Bool, true, false, not, some, List, [], ◌∷◌, All,
  arith, if◌then◌else◌, Bool-cases, Option-cases,
}
use hades_ps_trader.Base.Text.{str_eq, eq_iff}
use hades_ps_trader.Clock.{from_secs}
use hades_ps_trader.Config.{CopyTradeConfig}
use hades_ps_trader.Dispatch.{
  get, stamp, Recent, Arrival, Action, broadcast, skip, check_mint, check_wallet, on_trade, spawned,
  dispatch,
}
use hades_ps_trader.Dispatch.Cooldown.{stamp_lem}

-- The key was stamped at `t` or after it, and no later than `before`.
abbrev pub HasStamp : ℕ → ℕ → String → List (String × ℕ) → Type 0
HasStamp t before key m = (last : ℕ) × (get key m ≡ some last) × (t ≤ last) × (last ≤ before)

HasStamp-later :
    (t before later : ℕ) (key : String) (m : List (String × ℕ))
    → before ≤ later
    → HasStamp t before key m
    → HasStamp t later key m
HasStamp-later t before later key m h (last, e, le, le') = (last, e, le, omega arith)

-- A stamp keeps the others, and comes at least the cooldown after that of its own key.
stamp-HasStamp :
    (cooldown now t before : ℕ) (k key : String) (m m' : List (String × ℕ))
    → stamp cooldown now k m ≡ some m'
    → before ≤ now
    → HasStamp t before key m
    → (k ≡ key → cooldown ≤ now - t) × HasStamp t now key m'
stamp-HasStamp cooldown now t before k key m m' e h (last, found, le, le') =
    let (old, new, others) = stamp_lem cooldown now k m m' e in
    elim (Bool-cases (str_eq k key)) [
      | inl same ↦
          let same_key : k ≡ key = ground (arith, eq_iff k key, same) in
          let found_key : get k m ≡ some last = rw same_key found in
          (
            λ _. ground (arith, found_key, old),
            (now, rw (sym same_key) new, omega arith, omega arith),
          )
      | inr differ ↦
          let other_key : k ≢ key = ground (arith, eq_iff k key, differ) in
          (λ s. absurd (other_key s), (last, rw (others key other_key) found, le, omega arith))
    ]

module _ {F : Type 0} (cc : CopyTradeConfig F) where
  abbrev cooldown : ℕ
  cooldown = from_secs cc.reentry_cooldown_secs

  abbrev wallet_cooldown : ℕ
  wallet_cooldown = from_secs cc.per_wallet_cooldown_secs

  -- Of two sessions, of which `b` is the later one.
  abbrev pub IsApart : Arrival F → Arrival F → Type 0
  IsApart a b =
      (b.trade.mint ≡ a.trade.mint → from_secs cc.reentry_cooldown_secs ≤ b.mint_at - a.mint_at)
      × (b.trade.trader ≡ a.trade.trader
          → from_secs cc.per_wallet_cooldown_secs ≤ b.wallet_at - a.wallet_at)

  abbrev pub IsSpaced : List (Arrival F) → Type 0
  IsSpaced [] = Unit
  IsSpaced (a ∷ rest) = All (IsApart a) rest × IsSpaced rest

  -- What a trade does to the maps.
  abbrev Moves : Arrival F → Recent → Recent × Action F → Type 0
  Moves a r (r', action) =
      ((r' ≡ r) × (spawned action ≡ []))
      ⊎ (((wallets : List (String × ℕ)) × (stamp wallet_cooldown a.wallet_at a.trade.trader
                r.recent_wallet
              ≡ some wallets)
            × (r' ≡ record r { recent_wallet = wallets })
            × (spawned action ≡ []))
          ⊎ ((wallets : List (String × ℕ)) × (mints : List (String × ℕ)) × (stamp wallet_cooldown
                  a.wallet_at a.trade.trader r.recent_wallet
                ≡ some wallets)
              × (stamp cooldown a.mint_at a.trade.mint r.recent ≡ some mints)
              × (r' ≡ record { recent_wallet = wallets; recent = mints })
              × (spawned action ≡ a ∷ [])))

  check_wallet-Moves :
      (a : Arrival F) (r : Recent) → Moves a r (check_wallet cooldown wallet_cooldown a r)
  unfolding check_wallet check_mint
  check_wallet-Moves a r =
      elim (Option-cases (stamp wallet_cooldown a.wallet_at a.trade.trader r.recent_wallet)) [
        | inl e ↦ rw (e, check_wallet) (inl (refl, refl))
        | inr (wallets, e) ↦ elim (Option-cases (stamp cooldown a.mint_at a.trade.mint r.recent)) [
          | inl f ↦ rw (e, check_wallet, f, check_mint) (inr (inl (wallets, refl, refl, refl)))
          | inr (mints, f) ↦
              rw (e, check_wallet, f, check_mint)
                (inr (inr (wallets, mints, refl, refl, refl, refl)))
        ]
      ]

  gate-Moves :
      (a : Arrival F) (r : Recent) (b : Bool) (action : Action F) (x : Recent × Action F)
      → spawned action ≡ []
      → Moves a r x
      → Moves a r (if b then (r, action) else x)
  gate-Moves a r true action x none_spawned moves = inl (refl, none_spawned)
  gate-Moves a r false action x none_spawned moves = moves

  on_trade-Moves : (a : Arrival F) (r : Recent) → Moves a r (on_trade cc a r)
  unfolding on_trade
  on_trade-Moves a r =
      let checked = check_wallet cooldown wallet_cooldown a r in
      let amm = if not a.trade.is_pumpswap then (r, skip) else checked in
      let buy = if not (str_eq a.trade.tx_type "buy") then (r, skip) else amm in
      let amm-Moves =
        gate-Moves a r (not a.trade.is_pumpswap) skip checked refl (check_wallet-Moves a r) in
      let buy-Moves = gate-Moves a r (not (str_eq a.trade.tx_type "buy")) skip amm refl amm-Moves in
      gate-Moves a r (str_eq a.trade.tx_type "sell") (broadcast a.trade) buy refl buy-Moves

  -- The instants at which the loop reads the clock.
  abbrev pub IsForward : ℕ → List (Arrival F) → Type 0
  IsForward before [] = Unit
  IsForward before (a ∷ rest) =
      (before ≤ a.wallet_at) × (a.wallet_at ≤ a.mint_at) × IsForward a.mint_at rest

  -- After the session of `a`.
  abbrev HasSession : Arrival F → ℕ → Recent → Type 0
  HasSession a before r =
      HasStamp a.mint_at before a.trade.mint r.recent
      × HasStamp a.wallet_at before a.trade.trader r.recent_wallet

  dispatch-IsApart :
      (a : Arrival F) (before : ℕ) (rest : List (Arrival F)) (r : Recent)
      → HasSession a before r
      → IsForward before rest
      → All (IsApart a) (dispatch cc rest r)
  unfolding dispatch
  dispatch-IsApart a before [] r has forward = tt
  dispatch-IsApart a before (b ∷ rest) r (mint, wallet) (le, le', forward) =
      let wallet_next =
        stamp-HasStamp wallet_cooldown b.wallet_at a.wallet_at before b.trade.trader a.trade.trader
          r.recent_wallet in
      let mint_next =
        stamp-HasStamp cooldown b.mint_at a.mint_at before b.trade.mint a.trade.mint r.recent in
      let mint_later =
        HasStamp-later a.mint_at before b.mint_at a.trade.mint r.recent (omega arith) mint in
      elim (on_trade-Moves b r) [
        | inl (e, none_spawned) ↦
            rw (none_spawned, e)
              (dispatch-IsApart a b.mint_at rest r
                (
                  mint_later,
                  HasStamp-later a.wallet_at before b.mint_at a.trade.trader r.recent_wallet
                      (omega arith) wallet,
                )
                forward)
        | inr (inl (wallets, stamped, e, none_spawned)) ↦
            rw (none_spawned, e)
              (dispatch-IsApart a b.mint_at rest _
                (
                  mint_later,
                  HasStamp-later a.wallet_at b.wallet_at b.mint_at a.trade.trader wallets le'
                      (wallet_next wallets stamped le wallet).1,
                )
                forward)
        | inr (inr (wallets, mints, stamped, minted, e, one_spawned)) ↦
            let (wallet_apart, wallet_has) = wallet_next wallets stamped le wallet in
            let (mint_apart, mint_has) = mint_next mints minted (omega arith) mint in
            rw (one_spawned, e)
              (
                (mint_apart, wallet_apart),
                dispatch-IsApart a b.mint_at rest _
                    (
                      mint_has,
                      HasStamp-later a.wallet_at b.wallet_at b.mint_at a.trade.trader wallets le'
                          wallet_has,
                    )
                    forward,
              )
      ]

  -- Where the loop reads the clock in its order, of any two sessions that it spawns, the later one
  -- of the same mint comes at least the re-entry cooldown after the other, and the later one of
  -- the same wallet at least the cooldown of a wallet.
  pub dispatch-IsSpaced :
      (before : ℕ) (arrivals : List (Arrival F)) (r : Recent)
      → IsForward before arrivals
      → IsSpaced (dispatch cc arrivals r)
  unfolding dispatch
  dispatch-IsSpaced before [] r forward = tt
  dispatch-IsSpaced before (a ∷ rest) r (le, le', forward) = elim (on_trade-Moves a r) [
    | inl (e, none_spawned) ↦ rw (none_spawned, e) (dispatch-IsSpaced a.mint_at rest r forward)
    | inr (inl (wallets, stamped, e, none_spawned)) ↦
        rw (none_spawned, e) (dispatch-IsSpaced a.mint_at rest _ forward)
    | inr (inr (wallets, mints, stamped, minted, e, one_spawned)) ↦
        let wallet_has =
          (stamp_lem wallet_cooldown a.wallet_at a.trade.trader r.recent_wallet wallets
            stamped).1 in
        let mint_has = (stamp_lem cooldown a.mint_at a.trade.mint r.recent mints minted).1 in
        rw (one_spawned, e)
          (
            dispatch-IsApart a a.mint_at rest _
                (
                  (a.mint_at, mint_has, omega arith, omega arith),
                  (a.wallet_at, wallet_has, omega arith, le'),
                )
                forward,
            dispatch-IsSpaced a.mint_at rest _ forward,
          )
  ]
