-- ===== src/Tide/Gather.antt =====
-- The signatures that `try_build_commit` gathers: those of the votes for the ballot, in order.
use Prim.Native.Nat.Ordering.{lt}
use amunchain.Base.{
  suc, sym, ◌≡◌, refl, ap, ◌∙◌, true, ◌&&◌, [], ◌∷◌, ◌++◌, length, arith, if◌then◌else◌, Bool-cases,
  inl, inr, All, All-append,
}
use mathlib.Core.List.{append_assoc, append-nil}
use amunchain.Order.{Ord, ◌=?◌, pair_ord}
use amunchain.BtreeMap.{BtreeMap, insert, IsSorted, IsAbove}
use amunchain.Types.{H256, Signature, ValidatorId, hash_ord, validator_ord}
use amunchain.Tide.{gather}
use amunchain.Tide.Count.{Ballot, is_for, votes_for}
use amunchain.Tide.State.{VoteMeta, meta_ord, Entry, VoteMap}

-- The same selection as a plain recursion.
unfoldable pub select : Ballot → VoteMap → BtreeMap ValidatorId Signature
select k [] = []
select k ((vid, e) ∷ rm) = if is_for k e then (vid, e.signature) ∷ select k rm else select k rm

pub length-select : (k : Ballot) (rm : VoteMap) → length (select k rm) ≡ votes_for k rm
unfolding select votes_for
length-select k [] = refl
length-select k ((vid, e) ∷ rm) = elim (Bool-cases (is_for k e)) [
  | inl p ↦ rw p (ap suc (length-select k rm))
  | inr p ↦ rw p (length-select k rm)
]

-- A property of the entries for the ballot is one of the selected signatures.
pub All-select {μ} :
    (P : ValidatorId × Signature → Type μ) (Q : ValidatorId × Entry → Type μ) (k : Ballot)
    (rm : VoteMap)
    → ((vid : ValidatorId) (e : Entry) → is_for k e ≡ true → Q (vid, e) → P (vid, e.signature))
    → All Q rm
    → All P (select k rm)
unfolding select
All-select P Q k [] f a = tt
All-select P Q k ((vid, e) ∷ rm) f a = elim (Bool-cases (is_for k e)) [
  | inl p ↦ rw p (f vid e p a.0, All-select P Q k rm f a.1)
  | inr p ↦ rw p (All-select P Q k rm f a.1)
]

module _ {ℓ κ} {K : Type ℓ} {V : Type κ} ⦃o : Ord K⦄ where
  -- Every key of the map is below `k`.
  abbrev IsBelow : K → BtreeMap K V → Type 0
  IsBelow k m = All (λ e. o.cmp e.0 k ≡ lt) m

  insert_last : (k : K) (v : V) (m : BtreeMap K V) → IsBelow k m → insert k v m ≡ m ++ (k, v) ∷ []
  unfolding insert
  insert_last k v [] b = refl
  insert_last k v ((j, w) ∷ m) b = ground (arith, o.flip j k, insert_last k v m b.1)

=?_pair {ℓ κ} :
    {A : Type ℓ} {B : Type κ} ⦃p : Ord A⦄ ⦃q : Ord B⦄ (a c : A) (b d : B)
    → ((c =? a) && (d =? b)) ≡ ◌=?◌ {K = A × B} (a, b) (c, d)
unfolding pair_ord
=?_pair ⦃p⦄ ⦃q⦄ a c b d = ground (arith, p.flip a c, q.flip b d)

-- Every key of `sigs` is below every key of `rm`.
abbrev Precedes : BtreeMap ValidatorId Signature → VoteMap → Type 0
Precedes sigs rm = All (λ e. IsBelow e.0 sigs) rm

Precedes-add :
    (sigs : BtreeMap ValidatorId Signature) (vid : ValidatorId) (sig : Signature) (rm : VoteMap)
    → Precedes sigs rm
    → IsAbove vid rm
    → Precedes (sigs ++ (vid, sig) ∷ []) rm
Precedes-add sigs vid sig [] b a = tt
Precedes-add sigs vid sig ((j, e) ∷ rm) b a =
    (All-append _ sigs _ b.0 (a.0, tt), Precedes-add sigs vid sig rm b.1 a.1)

gather-append :
    (hash : H256) (meta : VoteMeta) (rm : VoteMap) (sigs : BtreeMap ValidatorId Signature)
    → IsSorted rm
    → Precedes sigs rm
    → gather hash meta rm sigs ≡ sigs ++ select (hash, meta) rm
unfolding gather select
gather-append hash meta [] sigs s b = sym (append-nil sigs)
gather-append hash meta ((vid, e) ∷ rm) sigs s b =
    rw (=?_pair hash e.hash meta e.meta) (elim (Bool-cases (is_for (hash, meta) e)) [
      | inl p ↦
          rw (p, insert_last vid e.signature sigs b.0)
            (gather-append hash meta rm (sigs ++ (vid, e.signature) ∷ []) s.1
                (Precedes-add sigs vid e.signature rm b.1 s.0)
              ∙ append_assoc sigs ((vid, e.signature) ∷ []) (select (hash, meta) rm))
      | inr p ↦ rw p (gather-append hash meta rm sigs s.1 b.1)
    ])

Precedes-nil : (rm : VoteMap) → Precedes [] rm
Precedes-nil [] = tt
Precedes-nil (e ∷ rm) = (tt, Precedes-nil rm)

-- The loop gathers exactly the signatures of the votes for the ballot.
pub gather-eq-select :
    (hash : H256) (meta : VoteMeta) (rm : VoteMap)
    → IsSorted rm
    → gather hash meta rm [] ≡ select (hash, meta) rm
gather-eq-select hash meta rm s = gather-append hash meta rm [] s (Precedes-nil rm)
