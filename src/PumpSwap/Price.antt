-- ===== src/PumpSwap/Price.antt =====
-- The price that src/pumpswap.rs reads from the vaults as the token program writes them.
use hades_ps_trader.Base.{◌<◌, ◌≡◌, some, arith}
use hades_ps_trader.Base.Result.{ok, err}
use hades_ps_trader.Chain.{Pubkey, Account}
use hades_ps_trader.Chain.Layout.{TokenAccount, IsTokenAccount, bytes_of, amount_field-bytes_of}
use hades_ps_trader.Float.{Float}
use hades_ps_trader.PumpSwap.{empty_vault, state_of_amounts, state_of_vaults, fetch_pool_state}

abbrev pub vault_account : Pubkey → TokenAccount → Account
vault_account program t = record { owner = program; bytes = bytes_of t }

module _ {F : Type 0} ⦃fl : Float F⦄ where
  open fl use {of_ℕ, div}

  -- From two vaults as the token program writes them, the pool state is the price and the
  -- liquidity of their amounts, unless the base vault holds 0, which is an error.
  pub fetch_pool_state-bytes_of :
      (E : Type 0) (program : Pubkey) (base quote : TokenAccount)
      → IsTokenAccount base
      → IsTokenAccount quote
      → (let state =
            fetch_pool_state {F = F} {E = E}
              (some (ok (some (vault_account program base), some (vault_account program quote)))) in
          (0 < base.amount
            → state
              ≡ ok (record {
                price_sol =
                    div
                      (div (of_ℕ quote.amount) (of_ℕ 1000000000))
                      (div (of_ℕ base.amount) (of_ℕ 1000000));
                pool_sol = div (of_ℕ quote.amount) (of_ℕ 1000000000);
              }))
          × (base.amount ≡ 0 → state ≡ err empty_vault))
  unfolding fetch_pool_state state_of_vaults state_of_amounts
  fetch_pool_state-bytes_of E program base quote b q =
      rw
        (
          fetch_pool_state,
          state_of_vaults,
          amount_field-bytes_of base program b,
          amount_field-bytes_of quote program q,
        )
        (λ h. ground (arith, h), λ h. ground (arith, h))
