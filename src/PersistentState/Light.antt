-- ===== src/PersistentState/Light.antt =====
-- src/core/state/persistent_state.rs with src/core/state/merkle.rs: what a state root and a proof
-- tell whoever has nothing else.
use amunchain.Base.{
  ℕ, zero, suc, ◌≡◌, ◌⊎◌, ◌∙◌, sym, ap, inl, inr, Bytes, true, false, some, List, [], ◌∷◌, ok,
  get_elem?, arith, subst, some_inj,
}
use amunchain.Order.{◌=?◌, =?_refl, bytes_ord}
use amunchain.BtreeMap.{get, IsAbove, IsSorted}
use amunchain.Merkle.{Hash32, MerkleProof, hash_leaf, verify_proof}
use amunchain.Merkle.Binding.{IsSha256, HasHashes}
use amunchain.Merkle.Commitment.{Broken}
use amunchain.Merkle.Sound.{verify_proof_sound}
use amunchain.PersistentState.{Pair, Sled, sort_pairs, state_root, verify_state_proof}
use amunchain.PersistentState.Contents.{SledLaws}
use amunchain.PersistentState.Root.{get-sort_pairs, sort_pairs-IsSorted, state_root-ok}

IsAbove-get_elem? :
    (b k v : Bytes) (ps : List Pair) (i : ℕ)
    → IsAbove b ps
    → get_elem? ps i ≡ some (k, v)
    → (k =? b) ≡ false
IsAbove-get_elem? b k v [] i a h = absurd (cc h)
IsAbove-get_elem? b k v ((j, w) ∷ ps) zero a h =
    let e : j ≡ k = ap (λ (x : Pair). x.0) (some_inj h) in
    subst (λ x. (x =? b) ≡ false) e (ground (arith, bytes_ord.flip b j, a.0))
IsAbove-get_elem? b k v ((j, w) ∷ ps) (suc i) a h = IsAbove-get_elem? b k v ps i a.1 h

-- In a sorted list, every entry is what a lookup of its key finds.
Member-get :
    (ps : List Pair) (k v : Bytes) (i : ℕ)
    → IsSorted ps
    → get_elem? ps i ≡ some (k, v)
    → get k ps ≡ some v
unfolding get
Member-get [] k v i s h = absurd (cc h)
Member-get ((j, w) ∷ ps) k v zero s h =
    let e : (j, w) ≡ (k, v) = some_inj h in
    rw (sym (ap (λ (x : Pair). x.0) e), =?_refl j) (ap (λ (x : Pair). some x.1) e)
Member-get ((j, w) ∷ ps) k v (suc i) s h =
    let f = IsAbove-get_elem? j k v ps i s.0 h in rw f (Member-get ps k v i s.1 h)

module _ {Db Tx : Type 0} (sled : Sled Db Tx) (laws : SledLaws sled) (sha256 : Bytes → Hash32) where
  open laws use {view}

  -- Whoever holds a state root and is given any proof, honest or forged, that starts at the leaf of
  -- a key and a value and verifies against the root, knows that the database held that value under
  -- that key, or has a collision of SHA-256 or a preimage of the zero hash.
  pub verify_state_proof_sound :
      (db : Db) (root : Hash32) (key value : Bytes) (proof : MerkleProof)
      → IsSha256 sha256
      → state_root sled sha256 db ≡ ok root
      → HasHashes proof.path
      → proof.leaf ≡ hash_leaf sha256 key value
      → verify_state_proof sled sha256 root proof ≡ true
      → (view db key ≡ some value) ⊎ Broken sha256
  unfolding verify_state_proof
  verify_state_proof_sound db root key value proof d h hs e v =
      let (ps, u, g, r) = state_root-ok sled laws sha256 db root h in
      let pairs = sort_pairs ps in
      elim (verify_proof_sound sha256 pairs key value proof d hs e
        (subst (λ x. verify_proof sha256 x proof ≡ true) r v)) [
          | inr c ↦ inr c
          | inl (i, m) ↦ inl (
              sym (g key)
              ∙ sym (get-sort_pairs key ps)
              ∙ Member-get pairs key value i (sort_pairs-IsSorted ps u) m)
        ]
