-- ===== src/Chain.antt =====
-- What src/pumpswap.rs and src/onchain.rs read of Solana: accounts with their bytes, public keys as
-- 32 bytes, and little-endian numbers. The node itself is data: what it answers.
pub mod Bytes
pub mod Layout
use hades_ps_trader.Base.{
  ℕ, zero, suc, ◌+◌, ◌-◌, ◌*◌, ◌/◌, ◌%◌, Bool, true, false, ◌&&◌, Option, none, some, List, [], ◌∷◌,
  length, take, drop, ltb, leb, ◌==◌, if◌then◌else◌,
}

abbrev pub Pubkey : Type 0
Pubkey = List ℕ

unfoldable pub same_key : Pubkey → Pubkey → Bool
same_key [] [] = true
same_key [] (b ∷ bs) = false
same_key (a ∷ rest) [] = false
same_key (a ∷ rest) (b ∷ bs) = a == b && same_key rest bs

pub record Account : Type 0 where
  pub owner : Pubkey
  pub bytes : List ℕ

-- `data[from..to]` of an account's `data`, where it is in range.
abbrev pub slice : ℕ → ℕ → List ℕ → List ℕ
slice from to bs = take (to - from) (drop from bs)

-- `from_le_bytes` of any width.
unfoldable pub from_le : List ℕ → ℕ
from_le [] = 0
from_le (b ∷ bs) = b + 256 * from_le bs

-- The layout of an SPL token account: mint (0..32), owner (32..64), amount (64..72).
abbrev pub spl_owner_offset : ℕ
spl_owner_offset = 32

abbrev pub spl_owner_end : ℕ
spl_owner_end = 64

abbrev pub spl_amount_offset : ℕ
spl_amount_offset = 64

abbrev pub spl_amount_end : ℕ
spl_amount_end = 72

-- The owner field of an account that is long enough.
unfoldable pub owner_field : Account → Option Pubkey
owner_field acc =
    if ltb (length acc.bytes) spl_owner_end
    then none
    else some (slice spl_owner_offset spl_owner_end acc.bytes)

unfoldable pub amount_field : Account → Option ℕ
amount_field acc =
    if ltb (length acc.bytes) spl_amount_end
    then none
    else some (from_le (slice spl_amount_offset spl_amount_end acc.bytes))
