-- ===== src/Staking/Unbonding.antt =====
-- src/core/economics/staking.rs: where bonding and unbonding move amounts.
use amunchain.Base.{
  ap, ◌∙◌, ℕ, ◌+◌, ◌-◌, ◌≤◌, ◌<◌, ◌≡◌, ◌≢◌, Bytes, List, [], ◌∷◌, All, ok, err, arith, u64_max,
  u128_max, refl, Option-cases, Bool-cases, sat_add, sat_mul, ltb, ◌==◌, ◌++◌, inl, inr, none, leb,
  if◌then◌else◌,
}
use amunchain.Order.{bytes_ord, pair_ord}
use amunchain.BtreeMap.{get, get_or, insert, get-insert_self, get-insert_ne}
use amunchain.Staking.{
  min_unbonding_days, seconds_per_day, Key, Delegation, UnbondingEntry, StakingLedger, StakingError,
  bond, begin_unbond, finalize_unbond, release,
}
use amunchain.Staking.Sums.{staked, pending, sum_pending, sum_pending-append}

-- What a call that is accepted leaves.
abbrev pub bonded : Key → ℕ → StakingLedger → StakingLedger
bonded k amount l =
    let total = sat_add u128_max (staked k l) amount in
    record l { delegations = insert k (record { amount = total }) l.delegations }

abbrev pub unlock_time : ℕ → ℕ
unlock_time now = sat_add u64_max now (sat_mul u64_max min_unbonding_days seconds_per_day)

abbrev pub unbonded : Key → ℕ → ℕ → ℕ → StakingLedger → StakingLedger
unbonded k rest amount time l = record l {
  delegations = insert k (record { amount = rest }) l.delegations;
  unbonding =
      insert k (get_or [] k l.unbonding ++ (record { amount = amount; unlock_time = time } ∷ []))
        l.unbonding;
}

pub bond-ok :
    (d v : Bytes) (amount : ℕ) (l : StakingLedger)
    → (bond d v amount l).0 ≡ ok tt
    → (bond d v amount l).1 ≡ bonded (d, v) amount l
unfolding bond
bond-ok d v amount l e = elim (Bool-cases (amount == 0)) [
  | inl h ↦ absurd (cc (rw (h, bond) at e))
  | inr h ↦ rw (h, bond)
]

pub begin_unbond-ok :
    (d v : Bytes) (amount now : ℕ) (l : StakingLedger)
    → (begin_unbond d v amount now l).0 ≡ ok tt
    → (rest : ℕ) × (rest + amount ≡ staked (d, v) l)
      × ((begin_unbond d v amount now l).1 ≡ unbonded (d, v) rest amount (unlock_time now) l)
unfolding begin_unbond
begin_unbond-ok d v amount now l e = elim (Bool-cases (amount == 0)) [
  | inl h ↦ absurd (cc (rw (h, begin_unbond) at e))
  | inr h ↦ elim (Option-cases (get (d, v) l.delegations)) [
    | inl g ↦ absurd (cc (rw (h, g, begin_unbond) at e))
    | inr (del, g) ↦ elim (Bool-cases (ltb del.amount amount)) [
      | inl b ↦ absurd (cc (rw (h, g, b, begin_unbond) at e))
      | inr b ↦ (del.amount - amount, ground arith, rw (h, g, b, begin_unbond))
    ]
  ]
]

-- A call that is refused changes nothing.
pub begin_unbond-err :
    (d v : Bytes) (amount now : ℕ) (l : StakingLedger) (x : StakingError)
    → (begin_unbond d v amount now l).0 ≡ err x
    → (begin_unbond d v amount now l).1 ≡ l
unfolding begin_unbond
begin_unbond-err d v amount now l x e = elim (Bool-cases (amount == 0)) [
  | inl h ↦ rw (h, begin_unbond)
  | inr h ↦ elim (Option-cases (get (d, v) l.delegations)) [
    | inl g ↦ rw (h, g, begin_unbond)
    | inr (del, g) ↦ elim (Bool-cases (ltb del.amount amount)) [
      | inl b ↦ rw (h, g, b, begin_unbond)
      | inr b ↦ absurd (cc (rw (h, g, b, begin_unbond) at e))
    ]
  ]
]

-- Below the greatest `u128`, a bond that is accepted adds exactly its amount to one delegation: the
-- other delegations, and everything that is on its way back, stay as they are.
pub bond_adds :
    (d v : Bytes) (amount : ℕ) (l : StakingLedger) (k : Key)
    → k ≢ (d, v)
    → staked (d, v) l + amount ≤ u128_max
    → (bond d v amount l).0 ≡ ok tt
    → let l' = (bond d v amount l).1 in
      (staked (d, v) l' ≡ staked (d, v) l + amount)
      × (staked k l' ≡ staked k l)
      × (l'.unbonding ≡ l.unbonding)
bond_adds d v amount l k n h e =
    let del : Delegation = record { amount = sat_add u128_max (staked (d, v) l) amount } in
    rw (bond-ok d v amount l e) (
      rw (staked, get-insert_self (d, v) del l.delegations) (ground arith),
      rw (staked, get-insert_ne k (d, v) del l.delegations n),
      refl,
    )

-- A started unbonding moves exactly its amount from the delegation to what is on its way back; the
-- delegator's other delegations and those of others stay.
pub begin_unbond_moves :
    (d v : Bytes) (amount now : ℕ) (l : StakingLedger) (k : Key)
    → k ≢ (d, v)
    → (begin_unbond d v amount now l).0 ≡ ok tt
    → let l' = (begin_unbond d v amount now l).1 in
      (staked (d, v) l' + amount ≡ staked (d, v) l)
      × (pending (d, v) l' ≡ pending (d, v) l + amount)
      × (staked k l' ≡ staked k l)
      × (pending k l' ≡ pending k l)
unfolding sum_pending
begin_unbond_moves d v amount now l k n e =
    let (rest, r, u) = begin_unbond-ok d v amount now l e in
    let del : Delegation = record { amount = rest } in
    let entry : UnbondingEntry = record { amount = amount; unlock_time = unlock_time now } in
    let old = get_or [] (d, v) l.unbonding in
    let es : List UnbondingEntry = old ++ (entry ∷ []) in
    rw u (
      rw (staked, get-insert_self (d, v) del l.delegations) r,
      rw (get-insert_self (d, v) es l.unbonding)
          (omega (arith, sum_pending-append old (entry ∷ []))),
      rw (staked, get-insert_ne k (d, v) del l.delegations n),
      rw (get-insert_ne k (d, v) es l.unbonding n),
    )

pub release_lem :
    (now : ℕ) (es : List UnbondingEntry) (acc : ℕ)
    → acc + sum_pending es ≤ u128_max
    → ((release now es acc).0 + sum_pending (release now es acc).1 ≡ acc + sum_pending es)
      × All (λ e. now < e.unlock_time) (release now es acc).1
unfolding release sum_pending
release_lem now [] acc h = (omega arith, tt)
release_lem now (e ∷ es) acc h =
    ground (arith, release_lem now es acc, release_lem now es (acc + e.amount))

-- Finalizing pays out and keeps: what is released and what stays on its way back are together what
-- was there, for amounts that a `u128` can sum; every entry that stays unlocks later than now, and
-- the delegations are left alone.
pub finalize_unbond_conserves :
    (d v : Bytes) (now : ℕ) (l : StakingLedger)
    → pending (d, v) l ≤ u128_max
    → (released : ℕ) × ((finalize_unbond d v now l).0 ≡ ok released)
      × (released + pending (d, v) (finalize_unbond d v now l).1 ≡ pending (d, v) l)
      × All (λ e. now < e.unlock_time) (get_or [] (d, v) (finalize_unbond d v now l).1.unbonding)
      × ((finalize_unbond d v now l).1.delegations ≡ l.delegations)
unfolding finalize_unbond sum_pending
finalize_unbond_conserves d v now l h = elim (Option-cases (get (d, v) l.unbonding)) [
  | inl e ↦ (
    0,
    rw (e, finalize_unbond),
    rw (e, finalize_unbond) (rw e refl),
    rw (e, finalize_unbond) (rw e tt),
    rw (e, finalize_unbond),
  )
  | inr (es, e) ↦
      let left = (release now es 0).1 in
      let p : 0 + sum_pending es ≤ u128_max = omega (arith, rw e at h) in
      let (f, g) = release_lem now es 0 p in
      (
        (release now es 0).0,
        rw (e, finalize_unbond),
        rw (e, finalize_unbond) (rw (get-insert_self (d, v) left l.unbonding) (omega (arith, f))),
        rw (e, finalize_unbond) (rw (get-insert_self (d, v) left l.unbonding) g),
        rw (e, finalize_unbond),
      )
]

-- With nothing on its way back before, a started unbonding is paid out in full from seven days
-- later on, and not at all before, for times and amounts in range.
pub unbonding_takes_seven_days :
    (d v : Bytes) (amount now later : ℕ) (l : StakingLedger)
    → get (d, v) l.unbonding ≡ none
    → now + 604_800 ≤ u64_max
    → amount ≤ u128_max
    → (begin_unbond d v amount now l).0 ≡ ok tt
    → (finalize_unbond d v later (begin_unbond d v amount now l).1).0
      ≡ ok (if leb (now + 604_800) later then amount else 0)
unfolding finalize_unbond release
unbonding_takes_seven_days d v amount now later l n t a e =
    let (rest, r, u) = begin_unbond-ok d v amount now l e in
    let entry : UnbondingEntry = record { amount = amount; unlock_time = unlock_time now } in
    let es : List UnbondingEntry = entry ∷ [] in
    let s : unlock_time now ≡ now + 604_800 = omega arith in
    let m : sat_add u128_max 0 amount ≡ amount = omega arith in
    rw (u, n, finalize_unbond, get-insert_self (d, v) es l.unbonding)
      (ap (λ y. ok (if leb y later then sat_add u128_max 0 amount else 0)) s
        ∙ ap (λ y. ok (if leb (now + 604_800) later then y else 0)) m)
