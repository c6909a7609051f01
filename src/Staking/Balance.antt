-- ===== src/Staking/Balance.antt =====
-- src/core/economics/staking.rs: the books of a ledger through any sequence of calls.
use Prim.Native.Nat.{min}
use amunchain.Base.{
  ℕ, ◌+◌, ◌≤◌, ◌≡◌, Bytes, List, [], ◌∷◌, u128_max, arith, Result-cases, inl, inr, refl,
  Option-cases, Bool-cases, ◌==◌, ◌++◌, sat_add, ap, sym, subst,
}
use amunchain.Order.{bytes_ord, pair_ord}
use amunchain.BtreeMap.{IsSorted, keys, get, get_or, insert, insert-IsSorted}
use amunchain.BtreeMap.Sum.{sum, sum-insert, get_or-sum, same_keys-IsSorted}
use amunchain.Staking.{
  Key, Delegation, UnbondingEntry, StakingLedger, bond, begin_unbond, finalize_unbond,
  slash_validator, distribute_rewards, slash_delegations, sum_stake, release,
}
use amunchain.Staking.Sums.{stake_with, sum_pending, sum_pending-append, staked}
use amunchain.Staking.Shares.{slash_lem, distribute_rewards_bounded}
use amunchain.Staking.Unbonding.{begin_unbond-ok, begin_unbond-err, release_lem, unlock_time}
use amunchain.Staking.Total.{
  all_staked, all_pending, stake_with-all_staked, all_staked-slash, all_staked-pay, keys-slash,
  keys-pay,
}
use amunchain.Staking.History.{
  Call, bond_call, unbond_call, finalize_call, slash_call, reward_call, Account, opening, serve,
  serve_all,
}

-- What was put in is what was paid back, what was slashed, what is at stake and what is on its way
-- back; rewards only add to that, and at most what was handed in.
abbrev pub held : Account → ℕ
held a = all_staked a.ledger.delegations + all_pending a.ledger

abbrev pub IsBalanced : Account → Type 0
IsBalanced a =
    IsSorted a.ledger.delegations
    × IsSorted a.ledger.unbonding
    × (a.deposited ≤ a.paid + a.slashed + held a)
    × (a.paid + a.slashed + held a ≤ a.deposited + a.rewarded)

abbrev pub Fits : Account → Type 0
Fits a = a.deposited + a.rewarded ≤ u128_max

bond-IsBalanced :
    (d v : Bytes) (amount : ℕ) (a : Account)
    → Fits (serve (bond_call d v amount) a)
    → IsBalanced a
    → IsBalanced (serve (bond_call d v amount) a)
unfolding serve bond sum
bond-IsBalanced d v amount a h (s, t, lo, hi) = elim (Bool-cases (amount == 0)) [
  | inl e ↦ rw (bond, e) (s, t, omega (arith, lo), omega (arith, hi))
  | inr e ↦
      let k : Key = (d, v) in
      let none_yet : Delegation = record { amount = 0 } in
      let m = a.ledger.delegations in
      let new : Delegation = record { amount = sat_add u128_max (staked k a.ledger) amount } in
      let before = get_or-sum (λ (x : Delegation). x.amount) none_yet k m refl in
      let after = sum-insert (λ (x : Delegation). x.amount) none_yet k new m refl s in
      let fits : a.deposited + amount + a.rewarded ≤ u128_max = rw (bond, e) at h in
      let same : sat_add u128_max (staked k a.ledger) amount ≡ staked k a.ledger + amount =
        omega (arith, before, hi, fits) in
      rw (bond, e)
        (
          insert-IsSorted k new m s,
          t,
          omega (arith, lo, after, same),
          omega (arith, hi, after, same),
        )
]

unbond-IsBalanced :
    (d v : Bytes) (amount now : ℕ) (a : Account)
    → IsBalanced a
    → IsBalanced (serve (unbond_call d v amount now) a)
unfolding serve sum sum_pending
unbond-IsBalanced d v amount now a (s, t, lo, hi) =
    elim (Result-cases (begin_unbond d v amount now a.ledger).0) [
      | inr (x, e) ↦ rw (begin_unbond-err d v amount now a.ledger x e) (s, t, lo, hi)
      | inl (tt, e) ↦
          let k : Key = (d, v) in
          let (rest, r, u) = begin_unbond-ok d v amount now a.ledger e in
          let none_yet : Delegation = record { amount = 0 } in
          let del : Delegation = record { amount = rest } in
          let entry : UnbondingEntry = record { amount = amount; unlock_time = unlock_time now } in
          let old = get_or [] k a.ledger.unbonding in
          let es : List UnbondingEntry = old ++ (entry ∷ []) in
          let more = sum_pending-append old (entry ∷ []) in
          let less =
            sum-insert (λ (x : Delegation). x.amount) none_yet k del a.ledger.delegations refl s in
          let grown = sum-insert sum_pending [] k es a.ledger.unbonding refl t in
          rw u (
            insert-IsSorted k del a.ledger.delegations s,
            insert-IsSorted k es a.ledger.unbonding t,
            omega (arith, lo, less, grown, more, r),
            omega (arith, hi, less, grown, more, r),
          )
    ]

finalize-IsBalanced :
    (d v : Bytes) (now : ℕ) (a : Account)
    → Fits a
    → IsBalanced a
    → IsBalanced (serve (finalize_call d v now) a)
unfolding serve sum finalize_unbond sum_pending
finalize-IsBalanced d v now a h (s, t, lo, hi) =
    elim (Option-cases (get (d, v) a.ledger.unbonding)) [
      | inl e ↦ rw (finalize_unbond, e) (s, t, omega (arith, lo), omega (arith, hi))
      | inr (es, e) ↦
          let k : Key = (d, v) in
          let left = (release now es 0).1 in
          let before = get_or-sum sum_pending [] k a.ledger.unbonding refl in
          let after = sum-insert sum_pending [] k left a.ledger.unbonding refl t in
          let here : sum_pending es ≤ all_pending a.ledger = rw e at before in
          let moved : all_pending (record a.ledger { unbonding = insert k left a.ledger.unbonding })
                + sum_pending es
              ≡ all_pending a.ledger + sum_pending left =
            rw e at after in
          let (out, _) = release_lem now es 0 (omega (arith, here, hi, h)) in
          rw (finalize_unbond, e)
            (
              s,
              insert-IsSorted k left a.ledger.unbonding t,
              omega (arith, lo, moved, out),
              omega (arith, hi, moved, out),
            )
    ]

slash-IsBalanced :
    (v : Bytes) (bps : ℕ) (a : Account)
    → Fits a
    → IsBalanced a
    → IsBalanced (serve (slash_call v bps) a)
unfolding serve slash_validator
slash-IsBalanced v bps a h (s, t, lo, hi) =
    let m = a.ledger.delegations in
    let frac = min bps 10_000 in
    let part = stake_with-all_staked v m in
    let (taken, _) = slash_lem v frac m 0 (omega arith) (omega (arith, part, hi, h)) in
    let whole = all_staked-slash v frac m 0 in
    (
      same_keys-IsSorted m (slash_delegations v frac m 0).1 (keys-slash v frac m 0) s,
      t,
      omega (arith, lo, taken, whole),
      omega (arith, hi, taken, whole),
    )

distribute-keys :
    (v : Bytes) (reward : ℕ) (l : StakingLedger)
    → (keys l.delegations ≡ keys (distribute_rewards v reward l).delegations)
      × (l.unbonding ≡ (distribute_rewards v reward l).unbonding)
      × (all_staked (distribute_rewards v reward l).delegations + stake_with v l.delegations
          ≡ all_staked l.delegations + stake_with v (distribute_rewards v reward l).delegations)
unfolding distribute_rewards
distribute-keys v reward l =
    let total = sum_stake v l.delegations 0 in
    elim (Bool-cases (reward == 0)) [
      | inl e ↦ rw (e, distribute_rewards) (refl, refl, refl)
      | inr e ↦ elim (Bool-cases (total == 0)) [
        | inl z ↦ rw (e, z, distribute_rewards) (refl, refl, refl)
        | inr z ↦
            rw (e, z, distribute_rewards)
              (
                keys-pay v reward total l.delegations,
                refl,
                all_staked-pay v reward total l.delegations,
              )
      ]
    ]

reward-IsBalanced :
    (v : Bytes) (reward : ℕ) (a : Account)
    → Fits (serve (reward_call v reward) a)
    → IsBalanced a
    → IsBalanced (serve (reward_call v reward) a)
unfolding serve
reward-IsBalanced v reward a h (s, t, lo, hi) =
    let m = a.ledger.delegations in
    let l' = distribute_rewards v reward a.ledger in
    let part = stake_with-all_staked v m in
    let (up, down) = distribute_rewards_bounded v reward a.ledger (omega (arith, part, hi, h)) in
    let (k, u, whole) = distribute-keys v reward a.ledger in
    let same : all_pending l' ≡ all_pending a.ledger = ap (λ x. sum sum_pending x) (sym u) in
    (
      same_keys-IsSorted m l'.delegations k s,
      subst IsSorted u t,
      omega (arith, lo, up, whole, same),
      omega (arith, hi, down, whole, same),
    )

grows : (c : Call) (a : Account) → Fits (serve c a) → Fits a
unfolding serve
grows (bond_call d v amount) a h = omega (arith, h)
grows (unbond_call d v amount now) a h = h
grows (finalize_call d v now) a h = h
grows (slash_call v bps) a h = h
grows (reward_call v reward) a h = omega (arith, h)

serve-IsBalanced :
    (c : Call) (a : Account) → Fits (serve c a) → IsBalanced a → IsBalanced (serve c a)
serve-IsBalanced (bond_call d v amount) a h i = bond-IsBalanced d v amount a h i
serve-IsBalanced (unbond_call d v amount now) a h i = unbond-IsBalanced d v amount now a i
serve-IsBalanced (finalize_call d v now) a h i = finalize-IsBalanced d v now a (grows _ a h) i
serve-IsBalanced (slash_call v bps) a h i = slash-IsBalanced v bps a (grows _ a h) i
serve-IsBalanced (reward_call v reward) a h i = reward-IsBalanced v reward a h i

grows_all : (cs : List Call) (a : Account) → Fits (serve_all cs a) → Fits a
unfolding serve_all
grows_all [] a h = h
grows_all (c ∷ cs) a h = grows c a (grows_all cs (serve c a) h)

serve_all-IsBalanced :
    (cs : List Call) (a : Account)
    → Fits (serve_all cs a)
    → IsBalanced a
    → IsBalanced (serve_all cs a)
unfolding serve_all
serve_all-IsBalanced [] a h i = i
serve_all-IsBalanced (c ∷ cs) a h i =
    serve_all-IsBalanced cs (serve c a) h (serve-IsBalanced c a (grows_all cs (serve c a) h) i)

-- Whatever calls an empty ledger answers, in whatever order, its maps stay in order and its books
-- balance: what was paid back, what was slashed, what is at stake and what is on its way back are
-- together at least the accepted bonds, and at most those and the rewards that were handed in, as
-- long as these two fit in a `u128`.
pub books_balance :
    (cs : List Call) → Fits (serve_all cs opening) → IsBalanced (serve_all cs opening)
unfolding sum
books_balance cs h = serve_all-IsBalanced cs opening h (tt, tt, omega arith, omega arith)
