-- ===== src/Staking/Sums.antt =====
-- src/core/economics/staking.rs: exact sums of a ledger, to state what the operations keep.
use amunchain.Base.{ℕ, ◌+◌, Bytes, List, [], ◌∷◌, ◌++◌, ◌≡◌, arith, if◌then◌else◌}
use amunchain.Order.{◌=?◌, bytes_ord, pair_ord}
use amunchain.BtreeMap.{BtreeMap, get_or}
use amunchain.Staking.{Key, Delegation, UnbondingEntry, StakingLedger}

-- The stake that all delegators together have with a validator.
unfoldable pub stake_with : Bytes → BtreeMap Key Delegation → ℕ
stake_with validator [] = 0
stake_with validator (((d, v), del) ∷ m) =
    (if v =? validator then del.amount else 0) + stake_with validator m

unfoldable pub sum_pending : List UnbondingEntry → ℕ
sum_pending [] = 0
sum_pending (e ∷ es) = e.amount + sum_pending es

-- What a delegator has at stake with a validator, and what is on its way back.
abbrev pub staked : Key → StakingLedger → ℕ
staked key l = (get_or (record { amount = 0 }) key l.delegations).amount

abbrev pub pending : Key → StakingLedger → ℕ
pending key l = sum_pending (get_or [] key l.unbonding)

pub sum_pending-append :
    (xs ys : List UnbondingEntry) → sum_pending (xs ++ ys) ≡ sum_pending xs + sum_pending ys
unfolding sum_pending
sum_pending-append [] ys = omega arith
sum_pending-append (x ∷ xs) ys = omega (arith, sum_pending-append xs ys)
