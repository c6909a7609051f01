-- ===== src/PersistentState/Answers.antt =====
-- src/core/state/persistent_state.rs: what `prove_key` answers, against the contents.
use amunchain.Base.{
  ℕ, suc, get_elem?, ◌≡◌, ◌⊎◌, Bytes, Option, none, some, true, List, [], ◌∷◌, ok, inl, inr, refl,
  ap, ◌∙◌, sym, arith, Option-cases, Bool-cases, some_inj, false,
}
use amunchain.Order.{◌=?◌, =?_iff, =?_refl, bytes_ord}
use amunchain.BtreeMap.{get}
use amunchain.Merkle.{Hash32, verify_proof, hash_leaf, merkle_root_sorted}
use amunchain.Merkle.Complete.{merkle_proof_verifies}
use amunchain.PersistentState.{
  Pair, Sled, Proven, sort_pairs, position, collect, state_root, prove_key, prove_among, get_value,
}
use amunchain.PersistentState.Contents.{SledLaws}
use amunchain.PersistentState.Proofs.{has_key, has_key-sort_pairs, position-get_elem?}
use amunchain.PersistentState.Root.{collect-ok, get-sort_pairs}

get-has_key : (k v : Bytes) (ps : List Pair) → get k ps ≡ some v → has_key k ps ≡ true
unfolding get has_key
get-has_key k v [] h = absurd (cc h)
get-has_key k v ((j, w) ∷ ps) h = ground (arith, get-has_key k v ps, bytes_ord.flip k j)

-- The first pair with a key has the value that a lookup finds.
position-get :
    (key value : Bytes) (ps : List Pair) (i : ℕ)
    → position key ps ≡ some i
    → get_elem? ps i ≡ some (key, value)
    → get key ps ≡ some value
unfolding get position
position-get key value [] i p g = absurd (cc p)
position-get key value ((j, w) ∷ ps) i p g = elim (Bool-cases (j =? key)) [
  | inl e ↦
      let z : i ≡ 0 = sym (some_inj (rw (position, e) at p)) in
      let at : j ≡ key = (=?_iff j key).0 e in
      let q : (j, w) ≡ (key, value) = some_inj (rw z at g) in
      rw (sym at, =?_refl j) (ap (λ (x : Pair). some x.1) q)
  | inr e ↦ elim (Option-cases (position key ps)) [
    | inl n ↦ absurd (cc (rw (position, e, n) at p))
    | inr (k, n) ↦
        let z : suc k ≡ i = some_inj (rw (position, e, n) at p) in
        let f : (key =? j) ≡ false = ground (arith, bytes_ord.flip key j) in
        let ih = position-get key value ps k n (rw (sym z) at g) in rw f ih
  ]
]

module _ {Db Tx : Type 0} (sled : Sled Db Tx) (laws : SledLaws sled) (sha256 : Bytes → Hash32) where
  open laws use {view, read_view, iter_view}

  -- When the reads succeed, `prove_key` answers exactly what is stored. A key without a value gets
  -- no proof. A key with a value gets the key and that value, the state's root, and a proof that
  -- starts at the leaf of the two and verifies against the root.
  pub prove_key_exact :
      (key : Bytes) (db : Db) (v : Option Bytes) (ps : List Pair)
      → sled.read key db ≡ some v
      → collect (sled.iter db) ≡ ok ps
      → ((view db key ≡ none) × (prove_key sled sha256 key db ≡ ok none))
        ⊎ ((value : Bytes) × (r : Proven) × (view db key ≡ some value)
            × (prove_key sled sha256 key db ≡ ok (some r))
            × (r.key ≡ key)
            × (r.value ≡ value)
            × (state_root sled sha256 db ≡ ok r.root)
            × (r.proof.leaf ≡ hash_leaf sha256 key value)
            × (verify_proof sha256 r.root r.proof ≡ true))
  unfolding prove_key state_root prove_among get_value
  prove_key_exact key db none ps g c =
      inl (sym (read_view key db none g), rw (prove_key, get_value, g))
  prove_key_exact key db (some value) ps g c =
      let stored : view db key ≡ some value = sym (read_view key db (some value) g) in
      let (_, same) = iter_view db ps (collect-ok (sled.iter db) ps c) in
      let found : get key ps ≡ some value = same key ∙ stored in
      let pairs = sort_pairs ps in
      let (i, v, p, e) =
        position-get_elem? key pairs (has_key-sort_pairs key ps ∙ get-has_key key value ps found) in
      let right : v ≡ value =
        some_inj (sym (position-get key v pairs i p e) ∙ get-sort_pairs key ps ∙ found) in
      let (proof, made, leaf, verifies) = merkle_proof_verifies sha256 pairs i key v e in
      let r : Proven = record {
        key = key;
        value = v;
        root = merkle_root_sorted sha256 pairs;
        proof = proof;
      } in
      inr (
        value,
        r,
        stored,
        rw (prove_key, get_value, g, c, prove_among, p, made, e),
        refl,
        right,
        rw (state_root, c),
        leaf ∙ ap (λ x. hash_leaf sha256 key x) right,
        verifies,
      )
