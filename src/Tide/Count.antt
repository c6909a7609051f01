-- ===== src/Tide/Count.antt =====
-- The vote count of `try_build_commit`: the map of counts against a plain count of the votes.
use amunchain.Base.{
  ℕ, suc, ◌+◌, ◌≤◌, ◌<◌, ◌≡◌, ◌≢◌, ◌∙◌, Bool, [], ◌∷◌, none, some, leb, length, arith,
  if◌then◌else◌, Bool-cases, inl, inr, sym, leb→le,
}
use amunchain.Order.{Ord, ◌=?◌, =?_iff, nat_ord, pair_ord}
use amunchain.BtreeMap.{
  BtreeMap, get, get_or, insert, IsSorted, get-insert, insert-IsSorted, get-IsAbove,
}
use amunchain.Types.{H256, ValidatorId, hash_ord, validator_ord}
use amunchain.Tide.{bump, count_votes, find_quorum}
use amunchain.Tide.State.{VoteMeta, meta_ord, Entry, VoteMap}

abbrev pub Ballot : Type 0
Ballot = H256 × VoteMeta

-- Whether an entry is a vote for the block, under the metadata.
abbrev pub is_for : Ballot → Entry → Bool
is_for k e = k =? (e.hash, e.meta)

-- How many of the entries vote for the block, under the metadata.
unfoldable pub votes_for : Ballot → VoteMap → ℕ
votes_for k [] = 0
votes_for k ((vid, e) ∷ rm) = if is_for k e then suc (votes_for k rm) else votes_for k rm

module _ {ℓ} {K : Type ℓ} ⦃o : Ord K⦄ where
  get_or-bump :
      (k j : K) (counts : BtreeMap K ℕ)
      → get_or 0 k (bump j counts) ≡ (if k =? j then get_or 0 k counts + 1 else get_or 0 k counts)
  get_or-bump k j counts =
      ground (arith, get-insert k j (get_or 0 j counts + 1) counts, o.antisym k j)

  -- What the search finds has enough votes.
  find_quorum_sound :
      (n : ℕ) (counts : BtreeMap K ℕ) {k : K}
      → IsSorted counts
      → find_quorum n counts ≡ some k
      → (c : ℕ) × (get k counts ≡ some c) × (n ≤ c)
  unfolding find_quorum get
  find_quorum_sound n [] s h = cc
  find_quorum_sound n ((j, c) ∷ counts) {k} s h = elim (Bool-cases (leb n c)) [
    | inl e ↦
        let p : j ≡ k = cc (rw (e, find_quorum) at h) in
        (c, rw (← p) (ground (arith, o.same j)), leb→le n c e)
    | inr e ↦
        let (d, p, q) = find_quorum_sound n counts s.1 (rw (e, find_quorum) at h) in
        (d, ground (arith, o.antisym k j, get-IsAbove k counts), q)
  ]

  -- It finds something if any key has enough.
  find_quorum_complete :
      (n : ℕ) (k : K) (counts : BtreeMap K ℕ)
      → 0 < n
      → n ≤ get_or 0 k counts
      → find_quorum n counts ≢ none
  unfolding find_quorum get
  find_quorum_complete n k [] z h = omega arith
  find_quorum_complete n k ((j, c) ∷ counts) z h = ground (arith, find_quorum_complete n k counts z)

pub get_or-count_votes :
    (k : Ballot) (rm : VoteMap) (counts : BtreeMap Ballot ℕ)
    → get_or 0 k (count_votes rm counts) ≡ get_or 0 k counts + votes_for k rm
unfolding count_votes votes_for
get_or-count_votes k [] counts = omega arith
get_or-count_votes k ((vid, e) ∷ rm) counts =
    let b = get_or-bump k (e.hash, e.meta) counts in
    get_or-count_votes k rm (bump (e.hash, e.meta) counts)
    ∙ (elim (Bool-cases (is_for k e)) [ inl p ↦ rw (b, p) (omega arith) | inr p ↦ rw (b, p) ])

count_votes-IsSorted :
    (rm : VoteMap) (counts : BtreeMap Ballot ℕ) → IsSorted counts → IsSorted (count_votes rm counts)
unfolding count_votes
count_votes-IsSorted [] counts s = s
count_votes-IsSorted ((vid, e) ∷ rm) counts s =
    count_votes-IsSorted rm _ (insert-IsSorted (e.hash, e.meta) _ counts s)

-- Votes for two ballots are different votes.
pub votes_for_disjoint :
    (k j : Ballot) (rm : VoteMap) → k ≢ j → votes_for k rm + votes_for j rm ≤ length rm
unfolding votes_for
votes_for_disjoint k j [] n = omega arith
votes_for_disjoint k j ((vid, e) ∷ rm) n = elim (Bool-cases (is_for k e)) [
  | inl p ↦ elim (Bool-cases (is_for j e)) [
    | inl q ↦ absurd (n ((=?_iff k (e.hash, e.meta)).0 p ∙ sym ((=?_iff j (e.hash, e.meta)).0 q)))
    | inr q ↦ rw (p, q) (omega (arith, votes_for_disjoint k j rm n))
  ]
  | inr p ↦ elim (Bool-cases (is_for j e)) [
    | inl q ↦ rw (p, q) (omega (arith, votes_for_disjoint k j rm n))
    | inr q ↦ rw (p, q) (omega (arith, votes_for_disjoint k j rm n))
  ]
]

-- The ballot that the search finds among the counts of the votes has that many votes.
pub find_quorum-votes_for :
    (n : ℕ) (rm : VoteMap) {k : Ballot}
    → find_quorum n (count_votes rm []) ≡ some k
    → n ≤ votes_for k rm
unfolding get
find_quorum-votes_for n rm {k} h =
    let (c, p, q) = find_quorum_sound n (count_votes rm []) (count_votes-IsSorted rm [] tt) h in
    let g = get_or-count_votes k rm [] in omega (arith, rw p at g)

-- A ballot with enough votes makes the search succeed.
pub find_quorum_total :
    (n : ℕ) (k : Ballot) (rm : VoteMap)
    → 0 < n
    → n ≤ votes_for k rm
    → find_quorum n (count_votes rm []) ≢ none
unfolding get
find_quorum_total n k rm z h =
    find_quorum_complete n k (count_votes rm []) z (omega (arith, get_or-count_votes k rm []))

-- A new voter's entry takes no vote away.
pub votes_for-insert :
    (k : Ballot) (vid : ValidatorId) (e : Entry) (rm : VoteMap)
    → get vid rm ≡ none
    → votes_for k rm ≤ votes_for k (insert vid e rm)
unfolding votes_for insert get
votes_for-insert k vid e [] h = omega arith
votes_for-insert k vid e ((j, f) ∷ rm) h = ground (arith, votes_for-insert k vid e rm)
