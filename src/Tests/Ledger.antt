-- ===== src/Tests/Ledger.antt =====
-- The theorems on stakes, applied to a ledger with two delegators and two validators.
use Prim.Native.Nat.{min}
use amunchain.Base.{
  leb, if◌then◌else◌, ◌≡◌, ◌≢◌, ◌≤◌, ◌*◌, refl, ◌+◌, Bytes, List, [], ◌∷◌, ok, arith, get_elem?, ap,
  u128_max,
}
use amunchain.Order.{pair_ord, bytes_ord}
use amunchain.BtreeMap.{get, insert}
use amunchain.Staking.{
  Key, StakingLedger, bond, begin_unbond, finalize_unbond, slash_validator, distribute_rewards,
  release, slash_delegations, note_slashed, slice, sum_stake, pay_shares,
}
use amunchain.Staking.Sums.{pending, stake_with, sum_pending}
use amunchain.Staking.Unbonding.{unbonding_takes_seven_days}
use amunchain.Staking.Shares.{slash_validator_conserves}
use amunchain.Staking.History.{
  Call, bond_call, unbond_call, finalize_call, slash_call, reward_call, opening, serve, serve_all,
}
use amunchain.Staking.Balance.{IsBalanced, Fits, books_balance}

abbrev ann : Bytes
ann = 1 ∷ []

abbrev bob : Bytes
bob = 2 ∷ []

abbrev alpha : Bytes
alpha = 7 ∷ []

abbrev beta : Bytes
beta = 8 ∷ []

abbrev ledger : StakingLedger
ledger = record {
  validators = (alpha, record { commission_bps = 0; self_stake = 0; slashed = 0 }) ∷ [];
  delegations =
      ((ann, alpha), record { amount = 100 })
      ∷ ((bob, alpha), record { amount = 50 })
      ∷ ((bob, beta), record { amount = 30 })
      ∷ [];
  unbonding =
      (
        (ann, alpha),
        record { amount = 5; unlock_time = 10 } ∷ record { amount = 6; unlock_time = 20 } ∷ [],
      )
      ∷ [];
}

abbrev owner : Key
owner = (ann, alpha)

abbrev neighbour : Key
neighbour = (bob, alpha)

apart : neighbour ≢ owner
apart e = cc (ap (λ (k : Key). get_elem? k.0 0) e)

beta_apart : beta ≢ alpha
beta_apart e = cc (ap (λ (b : Bytes). get_elem? b 0) e)

pending_small : pending owner ledger ≤ u128_max
unfolding get pair_ord sum_pending
pending_small = omega arith

stake_small : stake_with alpha ledger.delegations ≤ u128_max
unfolding stake_with
stake_small = omega arith

slash_validator_conserves_example :
    let (total, l') = slash_validator alpha 500 ledger in
    (total + stake_with alpha l'.delegations ≡ stake_with alpha ledger.delegations)
    × (total * 10_000 ≤ stake_with alpha ledger.delegations * min 500 10_000)
    × (stake_with beta l'.delegations ≡ stake_with beta ledger.delegations)
slash_validator_conserves_example =
    slash_validator_conserves alpha beta 500 ledger beta_apart stake_small

unbonding_takes_seven_days_example :
    (finalize_unbond bob alpha 605_800 (begin_unbond bob alpha 40 1_000 ledger).1).0
    ≡ ok (if leb (1_000 + 604_800) 605_800 then 40 else 0)
unfolding begin_unbond get pair_ord
unbonding_takes_seven_days_example =
    unbonding_takes_seven_days bob alpha 40 1_000 605_800 ledger refl (omega arith) (omega arith)
      refl

-- Bonds, a reward, a slash and two rounds of unbonding.
abbrev history : List Call
history =
    bond_call ann alpha 100
    ∷ bond_call bob beta 0
    ∷ bond_call bob alpha 50
    ∷ reward_call alpha 10
    ∷ unbond_call ann alpha 40 1_000
    ∷ slash_call alpha 500
    ∷ unbond_call bob alpha 90 1_000
    ∷ finalize_call ann alpha 605_800
    ∷ finalize_call ann alpha 605_800
    ∷ []

tally :
    let a = serve_all history opening in
    (a.deposited ≡ 150) × (a.rewarded ≡ 10) × (a.paid ≡ 40) × (a.slashed ≡ 5)
unfolding serve_all serve bond begin_unbond finalize_unbond release slash_validator
    slash_delegations note_slashed slice distribute_rewards sum_stake pay_shares get insert pair_ord
tally = (refl, refl, refl, refl)

history-Fits : Fits (serve_all history opening)
history-Fits = omega (arith, tally)

books_balance_example : IsBalanced (serve_all history opening)
books_balance_example = books_balance history history-Fits
