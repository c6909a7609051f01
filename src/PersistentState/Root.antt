-- ===== src/PersistentState/Root.antt =====
-- src/core/state/persistent_state.rs: the state root against the contents.
use Prim.Native.Nat.Ordering.{lt}
use amunchain.Base.{
  ◌≡◌, ◌⊎◌, Bytes, Option, none, some, List, [], ◌∷◌, ok, inl, inr, refl, ap, ◌∙◌, sym, subst, map,
  arith, Result-cases, ok_inj, err≢ok, if◌then◌else◌,
}
use amunchain.Order.{◌=?◌, bytes_ord}
use amunchain.BtreeMap.{get, IsAbove, IsSorted, IsAbove-trans}
use amunchain.BtreeMap.Extensional.{IsSorted-extensional, IsAbove-fresh}
use amunchain.Merkle.{Hash32, merkle_root_sorted}
use amunchain.Merkle.Binding.{IsSha256}
use amunchain.Merkle.Levels.{IsDistinct}
use amunchain.Merkle.Commitment.{Broken, root_commits}
use amunchain.PersistentState.{KvOp, Pair, Sled, insert_pair, sort_pairs, collect, state_root}
use amunchain.PersistentState.Contents.{◌≗◌, apply_ops_cong, HasDistinctKeys, SledLaws}
use amunchain.PersistentState.Commits.{Commits, Commits-apply_ops}

-- A pair that is sorted in takes the lookups of its key: the sort is stable.
get-insert_pair :
    (k : Bytes) (p : Pair) (qs : List Pair)
    → get k (insert_pair p qs) ≡ (if k =? p.0 then some p.1 else get k qs)
unfolding get insert_pair
get-insert_pair k (j, v) [] = refl
get-insert_pair k (j, v) ((i, w) ∷ qs) = ground (
  arith,
  get-insert_pair k (j, v) qs,
  bytes_ord.antisym k j,
  bytes_ord.antisym k i,
  bytes_ord.same i,
  bytes_ord.same j,
)

pub get-sort_pairs : (k : Bytes) (ps : List Pair) → get k (sort_pairs ps) ≡ get k ps
unfolding get sort_pairs
get-sort_pairs k [] = refl
get-sort_pairs k ((j, v) ∷ ps) =
    get-insert_pair k (j, v) (sort_pairs ps)
    ∙ ap (λ x. if k =? j then some v else x) (get-sort_pairs k ps)

insert_pair-IsAbove :
    (b : Bytes) (p : Pair) (qs : List Pair)
    → bytes_ord.cmp b p.0 ≡ lt
    → IsAbove b qs
    → IsAbove b (insert_pair p qs)
unfolding insert_pair
insert_pair-IsAbove b (k, v) [] h a = (h, tt)
insert_pair-IsAbove b (k, v) ((j, w) ∷ qs) h a =
    ground (arith, insert_pair-IsAbove b (k, v) qs h a.1)

insert_pair-IsSorted :
    (p : Pair) (qs : List Pair) → get p.0 qs ≡ none → IsSorted qs → IsSorted (insert_pair p qs)
unfolding get insert_pair
insert_pair-IsSorted (k, v) [] n s = (tt, tt)
insert_pair-IsSorted (k, v) ((j, w) ∷ qs) n s = ground (
  arith,
  bytes_ord.flip k j,
  insert_pair-IsSorted (k, v) qs,
  insert_pair-IsAbove j (k, v) qs,
  IsAbove-trans k j qs,
)

pub sort_pairs-IsSorted : (ps : List Pair) → HasDistinctKeys ps → IsSorted (sort_pairs ps)
unfolding sort_pairs
sort_pairs-IsSorted [] u = tt
sort_pairs-IsSorted ((k, v) ∷ ps) (n, u) =
    insert_pair-IsSorted (k, v) (sort_pairs ps) (get-sort_pairs k ps ∙ n) (sort_pairs-IsSorted ps u)

pub IsSorted-IsDistinct : (ps : List Pair) → IsSorted ps → IsDistinct ps
IsSorted-IsDistinct [] s = tt
IsSorted-IsDistinct ((k, v) ∷ ps) (a, s) = (IsAbove-fresh k v ps a, IsSorted-IsDistinct ps s)

-- Sorted, the pairs of two lists with the same lookups are the same list.
pub sort_pairs_same :
    (ps qs : List Pair)
    → HasDistinctKeys ps
    → HasDistinctKeys qs
    → (λ k. get k ps) ≗ (λ k. get k qs)
    → sort_pairs ps ≡ sort_pairs qs
sort_pairs_same ps qs u v h =
    IsSorted-extensional (sort_pairs ps) (sort_pairs qs) (sort_pairs-IsSorted ps u)
      (sort_pairs-IsSorted qs v) (λ k. get-sort_pairs k ps ∙ h k ∙ sym (get-sort_pairs k qs))

-- Lists with the same root, once sorted, have the same lookups, up to what breaks the hash.
pub sort_pairs_commit :
    (sha256 : Bytes → Hash32) (ps qs : List Pair)
    → IsSha256 sha256
    → HasDistinctKeys ps
    → HasDistinctKeys qs
    → merkle_root_sorted sha256 (sort_pairs ps) ≡ merkle_root_sorted sha256 (sort_pairs qs)
    → ((λ k. get k ps) ≗ (λ k. get k qs)) ⊎ Broken sha256
sort_pairs_commit sha256 ps qs d u v e =
    elim (root_commits sha256 d (sort_pairs ps) (sort_pairs qs)
      (IsSorted-IsDistinct (sort_pairs ps) (sort_pairs-IsSorted ps u))
      (IsSorted-IsDistinct (sort_pairs qs) (sort_pairs-IsSorted qs v)) e) [
        | inr c ↦ inr c
        | inl f ↦ inl (λ i. sym (get-sort_pairs i ps) ∙ ap (λ x. get i x) f ∙ get-sort_pairs i qs)
      ]

-- Pairs are read when no item of the iteration is an error.
pub collect-ok :
    (items : List (Option Pair)) (ps : List Pair) → collect items ≡ ok ps → items ≡ map some ps
unfolding collect
collect-ok [] ps h = let e : [] ≡ ps = cc h in subst (λ x. [] ≡ map some x) e refl
collect-ok (none ∷ items) ps h = absurd (cc h)
collect-ok (some p ∷ items) ps h = elim (Result-cases (collect items)) [
  | inr (e, f) ↦ absurd (err≢ok (rw (collect, f) at h))
  | inl (qs, f) ↦
      let e : p ∷ qs ≡ ps = ok_inj (rw (collect, f) at h) in
      subst (λ x. some p ∷ items ≡ map some x) e (ap (λ x. some p ∷ x) (collect-ok items qs f))
]

module _ {Db Tx : Type 0} (sled : Sled Db Tx) (laws : SledLaws sled) (sha256 : Bytes → Hash32) where
  open laws use {view, iter_view}

  -- What a root was computed from.
  pub state_root-ok :
      (db : Db) (r : Hash32)
      → state_root sled sha256 db ≡ ok r
      → (ps : List Pair) × HasDistinctKeys ps
        × ((λ k. get k ps) ≗ view db)
        × (r ≡ merkle_root_sorted sha256 (sort_pairs ps))
  unfolding state_root
  state_root-ok db r h = elim (Result-cases (collect (sled.iter db))) [
    | inr (e, f) ↦ absurd (err≢ok (rw (state_root, f) at h))
    | inl (ps, f) ↦
        let (u, g) = iter_view db ps (collect-ok (sled.iter db) ps f) in
        (ps, u, g, sym (ok_inj (rw (state_root, f) at h)))
  ]

  -- Two databases that hold the same values under the same keys have the same state root, in
  -- whatever order they iterate; two databases with the same state root hold the same values under
  -- the same keys, or a collision of SHA-256 or a preimage of the zero hash is at hand.
  pub state_root_exact :
      (a b : Db) (r s : Hash32)
      → IsSha256 sha256
      → state_root sled sha256 a ≡ ok r
      → state_root sled sha256 b ≡ ok s
      → (view a ≗ view b → r ≡ s) × (r ≡ s → (view a ≗ view b) ⊎ Broken sha256)
  state_root_exact a b r s d h k =
      let (ps, up, gp, rp) = state_root-ok a r h in
      let (qs, uq, gq, rq) = state_root-ok b s k in
      (
        λ same.
            rp
            ∙ ap (λ x. merkle_root_sorted sha256 x)
                (sort_pairs_same ps qs up uq (λ i. gp i ∙ same i ∙ sym (gq i)))
            ∙ sym rq,
        λ e. elim (sort_pairs_commit sha256 ps qs d up uq (sym rp ∙ e ∙ rq)) [
          | inr c ↦ inr c
          | inl f ↦ inl (λ i. sym (gp i) ∙ f i ∙ gq i)
        ],
      )

  -- Two replicas that start with the same contents and commit the same operations in the same
  -- order, cut into transactions as each of them likes, have the same state root.
  pub replicas_agree :
      (ops : List KvOp) (a b a' b' : Db) (r s : Hash32)
      → view a ≗ view b
      → Commits sled laws ops a a'
      → Commits sled laws ops b b'
      → IsSha256 sha256
      → state_root sled sha256 a' ≡ ok r
      → state_root sled sha256 b' ≡ ok s
      → r ≡ s
  replicas_agree ops a b a' b' r s same p q d h k = (state_root_exact a' b' r s d h k).0 (λ i.
      Commits-apply_ops sled laws p i
      ∙ apply_ops_cong ops (view a) (view b) same i
      ∙ sym (Commits-apply_ops sled laws q i))
