-- ===== src/Staking/Shares.antt =====
-- src/core/economics/staking.rs: the sums that slashing and rewards take and give.
use Prim.Native.Nat.{min}
use native.Mathlib.Nat.{mul-le-mul_left, mul_comm, mul-div-le, le_of_mul-le-mul_left}
use amunchain.Base.{
  ap, sym, ◌∙◌, ℕ, ◌+◌, ◌*◌, ◌/◌, ◌≤◌, ◌≡◌, ◌≢◌, refl, Bytes, [], ◌∷◌, Bool-cases, inl, inr, arith,
  true, false, sat_add, sat_mul, u128_max, if◌then◌else◌, ◌==◌,
}
use amunchain.Order.{◌=?◌, =?_iff, bytes_ord}
use amunchain.BtreeMap.{BtreeMap}
use amunchain.Staking.{
  Key, Delegation, StakingLedger, slice, slash_delegations, slash_validator, sum_stake, pay_shares,
  distribute_rewards,
}
use amunchain.Staking.Sums.{stake_with}

slice_le : (frac amount : ℕ) → frac ≤ 10_000 → slice frac amount ≤ amount
unfolding slice
slice_le frac amount h =
    let p : amount * frac ≤ amount * 10_000 = mul-le-mul_left amount h in omega (arith, p)

slice_share : (frac amount : ℕ) → slice frac amount * 10_000 ≤ amount * frac
unfolding slice
slice_share frac amount = omega arith

pub slash_lem :
    (v : Bytes) (frac : ℕ) (m : BtreeMap Key Delegation) (acc : ℕ)
    → frac ≤ 10_000
    → acc + stake_with v m ≤ u128_max
    → (let r = slash_delegations v frac m acc in
        (r.0 + stake_with v r.1 ≡ acc + stake_with v m)
        × (r.0 * 10_000 ≤ acc * 10_000 + stake_with v m * frac))
unfolding slash_delegations stake_with
slash_lem v frac [] acc f h = (omega arith, omega arith)
slash_lem v frac (((d, w), del) ∷ m) acc f h = elim (Bool-cases (w =? v)) [
  | inl e ↦
      let le = slice_le frac del.amount f in
      let le' = slice_share frac del.amount in
      let k : acc + (del.amount + stake_with v m) ≤ u128_max = rw e at h in
      let (i, j) = slash_lem v frac m (acc + slice frac del.amount) f (omega arith) in
      let same : sat_add u128_max acc (slice frac del.amount) ≡ acc + slice frac del.amount =
        omega arith in
      rw e (rw same (omega (arith, i, le), omega (arith, j, le')))
  | inr e ↦
      let k : acc + (0 + stake_with v m) ≤ u128_max = rw e at h in
      let (i, j) = slash_lem v frac m acc f (omega arith) in
      rw e (omega (arith, i), omega (arith, j))
]

=?_ne : (w u v : Bytes) → u ≢ v → (w =? v) ≡ true → (w =? u) ≡ false
=?_ne w u v n e = elim (Bool-cases (w =? u)) [
  | inl h ↦ absurd (n (sym ((=?_iff w u).0 h) ∙ (=?_iff w v).0 e))
  | inr h ↦ h
]

slash_others :
    (v u : Bytes) (frac : ℕ) (m : BtreeMap Key Delegation) (acc : ℕ)
    → u ≢ v
    → stake_with u (slash_delegations v frac m acc).1 ≡ stake_with u m
unfolding slash_delegations stake_with
slash_others v u frac [] acc n = refl
slash_others v u frac (((d, w), del) ∷ m) acc n =
    let ih = λ (x : ℕ). slash_others v u frac m x n in
    elim (Bool-cases (w =? v)) [
      | inl e ↦
          let f : (w =? u) ≡ false = =?_ne w u v n e in
          rw (e, f) (omega (arith, ih (sat_add u128_max acc (slice frac del.amount))))
      | inr e ↦ rw e (ap (λ x. (if w =? u then del.amount else 0) + x) (ih acc))
    ]

-- Slashing a validator takes from its delegations exactly the sum that it returns, and of all of
-- them together at most the fraction, capped at the whole. It leaves the stake with every other
-- validator alone. The stake with the validator fits in a `u128`.
pub slash_validator_conserves :
    (v u : Bytes) (bps : ℕ) (l : StakingLedger)
    → u ≢ v
    → stake_with v l.delegations ≤ u128_max
    → let (total, l') = slash_validator v bps l in
      (total + stake_with v l'.delegations ≡ stake_with v l.delegations)
      × (total * 10_000 ≤ stake_with v l.delegations * min bps 10_000)
      × (stake_with u l'.delegations ≡ stake_with u l.delegations)
unfolding slash_validator
slash_validator_conserves v u bps l n h =
    let (i, j) = slash_lem v (min bps 10_000) l.delegations 0 (omega arith) (omega arith) in
    (omega (arith, i), omega (arith, j), slash_others v u (min bps 10_000) l.delegations 0 n)

sum_stake_lem :
    (v : Bytes) (m : BtreeMap Key Delegation) (acc : ℕ)
    → acc + stake_with v m ≤ u128_max
    → sum_stake v m acc ≡ acc + stake_with v m
unfolding sum_stake stake_with
sum_stake_lem v [] acc h = omega arith
sum_stake_lem v (((d, w), del) ∷ m) acc h = elim (Bool-cases (w =? v)) [
  | inl e ↦
      let k : acc + (del.amount + stake_with v m) ≤ u128_max = rw e at h in
      let same : sat_add u128_max acc del.amount ≡ acc + del.amount = omega arith in
      rw e (rw same (omega (arith, sum_stake_lem v m (acc + del.amount) (omega arith))))
  | inr e ↦
      let k : acc + (0 + stake_with v m) ≤ u128_max = rw e at h in
      rw e (omega (arith, sum_stake_lem v m acc (omega arith)))
]

-- What the shares of a reward come to, before the division is undone.
pay_shares_le :
    (v : Bytes) (reward total : ℕ) (m : BtreeMap Key Delegation)
    → total * stake_with v (pay_shares v reward total m)
      ≤ total * stake_with v m + reward * stake_with v m
unfolding pay_shares stake_with
pay_shares_le v reward total [] = omega arith
pay_shares_le v reward total (((d, w), del) ∷ m) = elim (Bool-cases (w =? v)) [
  | inl e ↦
      let a = del.amount in
      let s = sat_mul u128_max reward a in
      let share = s / total in
      let p : sat_add u128_max a share ≤ a + share = omega arith in
      let top = mul-le-mul_left total p in
      let cut : total * share ≤ s = mul-div-le s total in
      rw e (omega (arith, pay_shares_le v reward total m, cut, top))
  | inr e ↦ rw e (omega (arith, pay_shares_le v reward total m))
]

pay_shares_ge :
    (v : Bytes) (reward total : ℕ) (m : BtreeMap Key Delegation)
    → stake_with v m ≤ u128_max
    → stake_with v m ≤ stake_with v (pay_shares v reward total m)
unfolding pay_shares stake_with
pay_shares_ge v reward total [] h = omega arith
pay_shares_ge v reward total (((d, w), del) ∷ m) h = elim (Bool-cases (w =? v)) [
  | inl e ↦
      let k : del.amount + stake_with v m ≤ u128_max = rw e at h in
      rw e (omega (arith, pay_shares_ge v reward total m (omega arith)))
  | inr e ↦
      let k : 0 + stake_with v m ≤ u128_max = rw e at h in
      rw e (omega (arith, pay_shares_ge v reward total m (omega arith)))
]

-- A distribution takes nothing from the stake with a validator, and adds at most the reward to it:
-- rounding and the saturating steps only ever pay less. The stake fits in a `u128`.
pub distribute_rewards_bounded :
    (v : Bytes) (reward : ℕ) (l : StakingLedger)
    → stake_with v l.delegations ≤ u128_max
    → (stake_with v l.delegations ≤ stake_with v (distribute_rewards v reward l).delegations)
      × (stake_with v (distribute_rewards v reward l).delegations
          ≤ stake_with v l.delegations + reward)
unfolding distribute_rewards
distribute_rewards_bounded v reward l h =
    let total = sum_stake v l.delegations 0 in
    let s : total ≡ stake_with v l.delegations =
      omega (arith, sum_stake_lem v l.delegations 0 (omega arith)) in
    let ge = pay_shares_ge v reward total l.delegations h in
    let le = pay_shares_le v reward total l.delegations in
    elim (Bool-cases (reward == 0)) [
      | inl e ↦ rw (e, distribute_rewards) (omega arith, omega arith)
      | inr e ↦ elim (Bool-cases (total == 0)) [
        | inl z ↦ rw (e, z, distribute_rewards) (omega arith, omega arith)
        | inr z ↦
            let st = stake_with v l.delegations in
            let after = stake_with v (pay_shares v reward total l.delegations) in
            let swap : reward * st ≡ total * reward = rw s (mul_comm reward st) in
            let p : total * after ≤ total * (st + reward) = omega (arith, le, swap) in
            rw (e, z, distribute_rewards) (ge, le_of_mul-le-mul_left {k = total} p (ground arith))
      ]
    ]
