-- ===== src/Staking/Total.antt =====
-- src/core/economics/staking.rs: what the whole ledger holds, before and after an operation.
use amunchain.Base.{ℕ, ◌+◌, ◌≤◌, ◌≡◌, Bytes, [], ◌∷◌, ap, refl, arith, Bool-cases, inl, inr}
use amunchain.Order.{◌=?◌, bytes_ord, pair_ord}
use amunchain.BtreeMap.{BtreeMap, keys}
use amunchain.BtreeMap.Sum.{sum}
use amunchain.Staking.{Key, Delegation, StakingLedger, slash_delegations, pay_shares}
use amunchain.Staking.Sums.{stake_with, sum_pending}

-- All that is at stake, and all that is on its way back.
abbrev pub all_staked : BtreeMap Key Delegation → ℕ
all_staked m = sum (λ (x : Delegation). x.amount) m

abbrev pub all_pending : StakingLedger → ℕ
all_pending l = sum sum_pending l.unbonding

pub stake_with-all_staked :
    (v : Bytes) (m : BtreeMap Key Delegation) → stake_with v m ≤ all_staked m
unfolding stake_with sum
stake_with-all_staked v [] = omega arith
stake_with-all_staked v (((d, w), del) ∷ m) = ground (arith, stake_with-all_staked v m)

-- Slashing and rewards change the whole by what they change of the stake with the validator.
pub all_staked-slash :
    (v : Bytes) (frac : ℕ) (m : BtreeMap Key Delegation) (acc : ℕ)
    → all_staked (slash_delegations v frac m acc).1 + stake_with v m
      ≡ all_staked m + stake_with v (slash_delegations v frac m acc).1
unfolding slash_delegations stake_with sum
all_staked-slash v frac [] acc = omega arith
all_staked-slash v frac (((d, w), del) ∷ m) acc = elim (Bool-cases (w =? v)) [
  | inl e ↦ rw e (omega (arith, all_staked-slash v frac m _))
  | inr e ↦ rw e (omega (arith, all_staked-slash v frac m acc))
]

pub all_staked-pay :
    (v : Bytes) (reward total : ℕ) (m : BtreeMap Key Delegation)
    → all_staked (pay_shares v reward total m) + stake_with v m
      ≡ all_staked m + stake_with v (pay_shares v reward total m)
unfolding pay_shares stake_with sum
all_staked-pay v reward total [] = omega arith
all_staked-pay v reward total (((d, w), del) ∷ m) = elim (Bool-cases (w =? v)) [
  | inl e ↦ rw e (omega (arith, all_staked-pay v reward total m))
  | inr e ↦ rw e (omega (arith, all_staked-pay v reward total m))
]

pub keys-slash :
    (v : Bytes) (frac : ℕ) (m : BtreeMap Key Delegation) (acc : ℕ)
    → keys m ≡ keys (slash_delegations v frac m acc).1
unfolding slash_delegations
keys-slash v frac [] acc = refl
keys-slash v frac (((d, w), del) ∷ m) acc = ap (λ r. (d, w) ∷ r) (keys-slash v frac m _)

pub keys-pay :
    (v : Bytes) (reward total : ℕ) (m : BtreeMap Key Delegation)
    → keys m ≡ keys (pay_shares v reward total m)
unfolding pay_shares
keys-pay v reward total [] = refl
keys-pay v reward total (((d, w), del) ∷ m) = ap (λ r. (d, w) ∷ r) (keys-pay v reward total m)
