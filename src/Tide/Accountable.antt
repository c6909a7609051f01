-- ===== src/Tide/Accountable.antt =====
-- src/core/consensus/tide.rs: what two commits that `process_commit_verified` accepts prove
-- together, whoever made them.
use amunchain.Base.{
  ℕ, ◌*◌, ◌≤◌, ◌<◌, ◌≡◌, inl, inr, true, ◌&&◌, [], ◌∷◌, ok, ◌==◌, length, All, All-both,
  Result-cases, Bool-cases, ltb, arith, false, ◌⊎◌,
}
use amunchain.Order.{pair_ord}
use amunchain.BtreeMap.{BtreeMap, BtreeSet, contains, IsSorted, All-get}
use amunchain.BtreeMap.Subset.{KeysIn, length-KeysIn}
use amunchain.BtreeMap.Overlap.{common, length-common, common-IsSorted, All-common}
use amunchain.Types.{Signature, ValidatorId, Commit, validator_ord}
use amunchain.Tide.{
  check_freshness, check_signature, check_signatures, all_known, process_commit_verified, vote_in,
  threshold,
}
use amunchain.Tide.State.{TideConfig, Outside}

-- A signature of the validator over the commit's content.
abbrev pub Signs : Outside → Commit → ValidatorId × Signature → Type 0
Signs out c e = check_signature out (vote_in c e.0 e.1) ≡ ok tt

all_known-KeysIn :
    (cfg : TideConfig) (sigs : BtreeMap ValidatorId Signature)
    → all_known cfg sigs ≡ true
    → KeysIn cfg.validators sigs
unfolding all_known
all_known-KeysIn cfg [] h = tt
all_known-KeysIn cfg ((vid, sig) ∷ sigs) h = elim (Bool-cases (contains vid cfg.validators)) [
  | inl e ↦ (e, all_known-KeysIn cfg sigs (rw (all_known, e) at h))
  | inr e ↦ absurd (cc (rw (all_known, e) at h))
]

check_signatures-Signs :
    (out : Outside) (c : Commit) (sigs : BtreeMap ValidatorId Signature)
    → check_signatures out c sigs ≡ ok tt
    → All (Signs out c) sigs
unfolding check_signatures
check_signatures-Signs out c [] h = tt
check_signatures-Signs out c ((vid, sig) ∷ sigs) h =
    elim (Result-cases (check_signature out (vote_in c vid sig))) [
      | inl (tt, e) ↦ (e, check_signatures-Signs out c sigs (rw (check_signatures, e) at h))
      | inr (x, e) ↦ absurd (cc (rw (check_signatures, e) at h))
    ]

-- What an accepted commit shows.
abbrev Shows : Outside → TideConfig → Commit → Type 0
Shows out cfg c =
    KeysIn cfg.validators c.signatures
    × (threshold cfg ≤ length c.signatures)
    × All (Signs out c) c.signatures

accepted-Shows :
    (out : Outside) (now : ℕ) (c : Commit) (cfg : TideConfig)
    → process_commit_verified out now c cfg ≡ ok tt
    → Shows out cfg c
unfolding process_commit_verified
accepted-Shows out now c cfg h =
    elim (Result-cases (check_freshness now cfg c.sent_ts_ms c.ttl_ms)) [
      | inr (x, e) ↦ absurd (cc (rw (process_commit_verified, e) at h))
      | inl (tt, e) ↦ elim (Bool-cases (cfg.require_epoch && c.epoch == 0)) [
        | inl f ↦ absurd (cc (rw (process_commit_verified, e, f) at h))
        | inr f ↦ elim (Bool-cases (all_known cfg c.signatures)) [
          | inr k ↦ absurd (cc (rw (process_commit_verified, e, f, k) at h))
          | inl k ↦ elim (Bool-cases (ltb (length c.signatures) (threshold cfg))) [
            | inl l ↦ absurd (cc (rw (process_commit_verified, e, f, k, l) at h))
            | inr l ↦ (
              all_known-KeysIn cfg c.signatures k,
              ground (arith, l),
              check_signatures-Signs out c c.signatures
                  (rw (process_commit_verified, e, f, k, l) at h),
            )
          ]
        ]
      ]
    ]

-- A validator with its signature over the commit's content.
abbrev pub Signer : Outside → TideConfig → Commit → ValidatorId × Signature → Type 0
Signer out cfg c e = (contains e.0 cfg.validators ≡ true) × Signs out c e

-- Of any two commits that pass the check under one configuration, also of two for different blocks,
-- whoever made them and whenever they are checked, more than a third of the validators signed both:
-- a signature of each of these verifies over the vote for the one commit, and one over the vote for
-- the other.
pub commits_accountable :
    (out : Outside) (now now' : ℕ) (c c' : Commit) (cfg : TideConfig)
    → IsSorted cfg.validators
    → IsSorted c.signatures
    → IsSorted c'.signatures
    → process_commit_verified out now c cfg ≡ ok tt
    → process_commit_verified out now' c' cfg ≡ ok tt
    → (both : BtreeMap ValidatorId Signature) × IsSorted both
      × (length cfg.validators < 3 * length both)
      × All (λ e. Signer out cfg c e × (sig' : Signature) × Signs out c' (e.0, sig')) both
unfolding threshold
commits_accountable out now now' c c' cfg z s t h h' =
    let (k, q, a) = accepted-Shows out now c cfg h in
    let (k', q', a') = accepted-Shows out now' c' cfg h' in
    let m = c.signatures in
    let n = c'.signatures in
    (
      common m n,
      common-IsSorted m n s,
      omega (arith, length-common cfg.validators m n z s t k k', q, q'),
      All-common (Signer out cfg c) (Signs out c') m n
          (All-both (λ e. contains e.0 cfg.validators ≡ true) (Signs out c) m k a)
          (λ v sig e. All-get (λ v sig. Signs out c' (v, sig)) v n a' e),
    )

-- Some entry has a key outside the set, or all keys are in it.
outside_or_in :
    (faulty : BtreeSet ValidatorId) (P : ValidatorId × Signature → Type 0)
    (m : BtreeMap ValidatorId Signature)
    → All P m
    → ((e : ValidatorId × Signature) × (contains e.0 faulty ≡ false) × P e) ⊎ KeysIn faulty m
outside_or_in faulty P [] a = inr tt
outside_or_in faulty P (e ∷ m) (p, a) = elim (Bool-cases (contains e.0 faulty)) [
  | inr out ↦ inl (e, out, p)
  | inl k ↦ elim (outside_or_in faulty P m a) [ inl found ↦ inl found | inr ks ↦ inr (k, ks) ]
]

-- When at most a third of the validators are faulty, and no other validator has signatures that
-- verify over votes for two different blocks out of these two commits, any two commits that pass
-- the check finalize the same block, whichever nodes made them and checked them.
pub honest_commits_agree :
    (out : Outside) (now now' : ℕ) (c c' : Commit) (cfg : TideConfig)
    (faulty : BtreeSet ValidatorId)
    → IsSorted cfg.validators
    → IsSorted c.signatures
    → IsSorted c'.signatures
    → IsSorted faulty
    → 3 * length faulty ≤ length cfg.validators
    → ((vid : ValidatorId) (sig sig' : Signature)
        → contains vid cfg.validators ≡ true
        → contains vid faulty ≡ false
        → Signs out c (vid, sig)
        → Signs out c' (vid, sig')
        → c.block_hash ≡ c'.block_hash)
    → process_commit_verified out now c cfg ≡ ok tt
    → process_commit_verified out now' c' cfg ≡ ok tt
    → c.block_hash ≡ c'.block_hash
honest_commits_agree out now now' c c' cfg faulty z s t f few honest h h' =
    let (both, sorted, many, each) = commits_accountable out now now' c c' cfg z s t h h' in
    elim (outside_or_in faulty _ both each) [
      | inl (e, free, ((known, signed), sig', signed')) ↦
          honest e.0 e.1 sig' known free signed signed'
      | inr ks ↦ absurd (omega (arith, length-KeysIn faulty both f sorted ks, many, few))
    ]
