-- ===== src/Staking.antt =====
-- src/core/economics/staking.rs: the ledger of delegations. A call is a function from the ledger to
-- its result and the new ledger. Amounts are `u128`, times `u64`; `saturating_add` and
-- `saturating_mul` are written out. `Vec<u8>` identities are byte lists in their own order.
pub mod Sums
pub mod Unbonding
pub mod Shares
pub mod Total
pub mod History
pub mod Balance
use amunchain.Base.{
  ℕ, ◌+◌, ◌-◌, ◌*◌, ◌/◌, Bytes, Option, none, some, Bool, List, [], ◌∷◌, ◌++◌, Result, ok, err, ltb,
  leb, ◌==◌, if◌then◌else◌, sat_add, sat_mul, u64_max, u128_max,
}
use Prim.Native.Nat.{min}
use amunchain.Order.{Ord, ◌=?◌, bytes_ord, pair_ord}
use amunchain.BtreeMap.{BtreeMap, get, get_or, insert}

abbrev pub seconds_per_day : ℕ
seconds_per_day = 86_400

abbrev pub min_unbonding_days : ℕ
min_unbonding_days = 7

pub data StakingError : Type 0 where
  invalid_amount insufficient_stake : StakingError

pub record Delegation : Type 0 where
  pub amount : ℕ

pub record UnbondingEntry : Type 0 where
  pub amount : ℕ
  pub unlock_time : ℕ

pub record Validator : Type 0 where
  pub commission_bps : ℕ
  pub self_stake : ℕ
  pub slashed : ℕ

-- A delegator and a validator.
abbrev pub Key : Type 0
Key = Bytes × Bytes

pub record StakingLedger : Type 0 where
  pub validators : BtreeMap Bytes Validator
  pub delegations : BtreeMap Key Delegation
  pub unbonding : BtreeMap Key (List UnbondingEntry)

-- `StakingLedger::bond`
unfoldable pub bond :
    Bytes → Bytes → ℕ → StakingLedger → Result StakingError (Unit {0}) × StakingLedger
bond delegator validator amount l =
    let key : Key = (delegator, validator) in
    let entry : Delegation = get_or (record { amount = 0 }) key l.delegations in
    if amount == 0 then (err invalid_amount, l) else (
      ok tt,
      record l {
        delegations =
            insert key (record { amount = sat_add u128_max entry.amount amount }) l.delegations;
      },
    )

-- `StakingLedger::begin_unbond`
unfoldable pub begin_unbond :
    Bytes → Bytes → ℕ → ℕ → StakingLedger → Result StakingError (Unit {0}) × StakingLedger
begin_unbond delegator validator amount now_unix l =
    let key : Key = (delegator, validator) in
    let unlock_time =
      sat_add u64_max now_unix (sat_mul u64_max min_unbonding_days seconds_per_day) in
    if amount == 0 then (err invalid_amount, l) else elim (get key l.delegations) [
      | none ↦ (err insufficient_stake, l)
      | some del ↦ if ltb del.amount amount then (err insufficient_stake, l) else (
        ok tt,
        record l {
          delegations = insert key (record { amount = del.amount - amount }) l.delegations;
          unbonding =
              insert key
                (get_or [] key l.unbonding
                  ++ (record { amount = amount; unlock_time = unlock_time } ∷ []))
                l.unbonding;
        },
      )
    ]

-- The loop of `finalize_unbond`: what is released, and the entries that remain.
unfoldable pub release : ℕ → List UnbondingEntry → ℕ → ℕ × List UnbondingEntry
release now_unix [] released = (released, [])
release now_unix (e ∷ es) released =
    let due = leb e.unlock_time now_unix in
    let (total, remaining) =
      release now_unix es (if due then sat_add u128_max released e.amount else released) in
    (total, if due then remaining else e ∷ remaining)

-- `StakingLedger::finalize_unbond`
unfoldable pub finalize_unbond :
    Bytes → Bytes → ℕ → StakingLedger → Result StakingError ℕ × StakingLedger
unfolding release
finalize_unbond delegator validator now_unix l =
    let key : Key = (delegator, validator) in
    elim (get key l.unbonding) [
      | none ↦ (ok 0, l)
      | some list ↦
          let (released, remaining) = release now_unix list 0 in
          (ok released, record l { unbonding = insert key remaining l.unbonding })
    ]

-- What a delegation loses at a fraction in basis points.
unfoldable pub slice : ℕ → ℕ → ℕ
slice frac amount = sat_mul u128_max amount frac / 10_000

-- The loop of `slash_validator`, with the sum of what is taken.
unfoldable pub slash_delegations :
    Bytes → ℕ → BtreeMap Key Delegation → ℕ → ℕ × BtreeMap Key Delegation
slash_delegations validator frac [] total_slashed = (total_slashed, [])
slash_delegations validator frac (((d, v), del) ∷ m) total_slashed =
    let sl = slice frac del.amount in
    let (total, rest) =
      slash_delegations validator frac m
        (if v =? validator then sat_add u128_max total_slashed sl else total_slashed) in
    (total, ((d, v), if v =? validator then record { amount = del.amount - sl } else del) ∷ rest)

unfoldable pub note_slashed : Bytes → ℕ → BtreeMap Bytes Validator → BtreeMap Bytes Validator
note_slashed validator total vs = elim (get validator vs) [
  | none ↦ vs
  | some val ↦ insert validator (record val { slashed = sat_add u128_max val.slashed total }) vs
]

-- `StakingLedger::slash_validator`
unfoldable pub slash_validator : Bytes → ℕ → StakingLedger → ℕ × StakingLedger
unfolding slash_delegations note_slashed
slash_validator validator fraction_bps l =
    let (total, delegations) =
      slash_delegations validator (min fraction_bps 10_000) l.delegations 0 in
    (
      total,
      record l {
        validators = note_slashed validator total l.validators;
        delegations = delegations;
      },
    )

-- The first loop of `distribute_rewards`.
unfoldable pub sum_stake : Bytes → BtreeMap Key Delegation → ℕ → ℕ
sum_stake validator [] total_stake = total_stake
sum_stake validator (((d, v), del) ∷ m) total_stake =
    sum_stake validator m
      (if v =? validator then sat_add u128_max total_stake del.amount else total_stake)

-- The second loop of `distribute_rewards`.
unfoldable pub pay_shares : Bytes → ℕ → ℕ → BtreeMap Key Delegation → BtreeMap Key Delegation
pay_shares validator total_reward total_stake [] = []
pay_shares validator total_reward total_stake (((d, v), del) ∷ m) =
    let share = sat_mul u128_max total_reward del.amount / total_stake in
    ((d, v), if v =? validator then record { amount = sat_add u128_max del.amount share } else del)
    ∷ pay_shares validator total_reward total_stake m

-- `StakingLedger::distribute_rewards`
unfoldable pub distribute_rewards : Bytes → ℕ → StakingLedger → StakingLedger
unfolding sum_stake pay_shares
distribute_rewards validator total_reward l =
    let total_stake = sum_stake validator l.delegations 0 in
    if total_reward == 0
    then l
    else if total_stake == 0
    then l
    else record l { delegations = pay_shares validator total_reward total_stake l.delegations }
