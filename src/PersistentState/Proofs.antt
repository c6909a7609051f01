-- ===== src/PersistentState/Proofs.antt =====
-- src/core/state/persistent_state.rs: the proof of a key and the root of the state.
use amunchain.Base.{
  ℕ, suc, ◌≡◌, refl, ap, ◌∙◌, inl, inr, ◌||◌, Bytes, Bool, true, false, some, List, [], ◌∷◌, ok,
  get_elem?, arith, Bool-cases,
}
use amunchain.Order.{◌=?◌, =?_iff, bytes_ord}
use amunchain.Merkle.{Hash32, merkle_root_sorted, verify_proof, hash_leaf}
use amunchain.Merkle.Complete.{merkle_proof_verifies}
use amunchain.PersistentState.{
  Pair, Sled, Proven, insert_pair, sort_pairs, position, collect, state_root, prove_among,
  prove_key, get_value,
}

-- Some pair has the key.
unfoldable pub has_key : Bytes → List Pair → Bool
has_key key [] = false
has_key key (p ∷ ps) = (p.0 =? key) || has_key key ps

has_key-insert_pair :
    (key : Bytes) (p : Pair) (qs : List Pair)
    → has_key key (insert_pair p qs) ≡ ((p.0 =? key) || has_key key qs)
unfolding has_key insert_pair
has_key-insert_pair key p [] = refl
has_key-insert_pair key p (q ∷ qs) = ground (arith, has_key-insert_pair key p qs)

pub has_key-sort_pairs :
    (key : Bytes) (ps : List Pair) → has_key key (sort_pairs ps) ≡ has_key key ps
unfolding has_key sort_pairs
has_key-sort_pairs key [] = refl
has_key-sort_pairs key (p ∷ ps) =
    has_key-insert_pair key p (sort_pairs ps)
    ∙ ap (λ b. (p.0 =? key) || b) (has_key-sort_pairs key ps)

pub position-get_elem? :
    (key : Bytes) (ps : List Pair)
    → has_key key ps ≡ true
    → (i : ℕ) × (value : Bytes) × (position key ps ≡ some i) × (get_elem? ps i ≡ some (key, value))
unfolding has_key position
position-get_elem? key [] h = absurd (cc h)
position-get_elem? key ((k, v) ∷ ps) h = elim (Bool-cases (k =? key)) [
  | inl e ↦ (0, v, rw e, ap (λ x. some (x, v)) ((=?_iff k key).0 e))
  | inr e ↦ let (i, w, p, g) = position-get_elem? key ps (rw e at h) in (suc i, w, rw (e, p), g)
]

module _ {Db Tx : Type 0} (sled : Sled Db Tx) (sha256 : Bytes → Hash32) where
  -- A key that is stored and that the iteration shows is proved: the answer is for that key, its
  -- root is the root of the state, its proof starts at the leaf of the key and the returned value,
  -- and it verifies.
  pub prove_key_verifies :
      (key value : Bytes) (db : Db) (ps : List Pair)
      → sled.read key db ≡ some (some value)
      → collect (sled.iter db) ≡ ok ps
      → has_key key ps ≡ true
      → (r : Proven) × (prove_key sled sha256 key db ≡ ok (some r))
        × (r.key ≡ key)
        × (state_root sled sha256 db ≡ ok r.root)
        × (r.proof.leaf ≡ hash_leaf sha256 r.key r.value)
        × (verify_proof sha256 r.root r.proof ≡ true)
  unfolding prove_key state_root prove_among get_value
  prove_key_verifies key value db ps g c h =
      let pairs = sort_pairs ps in
      let (i, v, p, e) = position-get_elem? key pairs (has_key-sort_pairs key ps ∙ h) in
      let (proof, made, leaf, verifies) = merkle_proof_verifies sha256 pairs i key v e in
      let r : Proven = record {
        key = key;
        value = v;
        root = merkle_root_sorted sha256 pairs;
        proof = proof;
      } in
      (
        r,
        rw (prove_key, get_value, g, c, prove_among, p, made, e),
        refl,
        rw (state_root, c),
        leaf,
        verifies,
      )
