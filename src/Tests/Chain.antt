-- ===== src/Tests/Chain.antt =====
-- The theorems on encodings, signed bytes and Merkle proofs, applied to small inputs.
use amunchain.Base.{
  ℕ, ◌*◌, ◌^◌, ◌≤◌, ◌<◌, ◌≡◌, ◌⊎◌, refl, Bytes, List, [], ◌∷◌, some, none, ok, err, ◌++◌, true,
  arith, length,
}
use amunchain.Types.{Vote, IsInRange}
use amunchain.Types.Codec.{encode_canonical}
use amunchain.Signing.{
  domain_v2, vote_signing_bytes_auto, vote_signing_bytes_v1, vote_signing_bytes_v2, to_be_bytes,
}
use amunchain.Signing.Injective.{vote_bytes_injective, SameContent}
use amunchain.Merkle.{
  Hash32, MerkleProof, merkle_root_sorted, merkle_proof_sorted, verify_proof, hash_leaf, hash_node,
  climb, next_level, proof_path, proof_item, fold_path, leaves,
}
use amunchain.Merkle.Tree.{tree_node, merkle_root_sorted-tree_node}
use amunchain.Merkle.Binding.{IsSha256}
use amunchain.Order.{bytes_ord}
use amunchain.BtreeMap.{get, insert}
use amunchain.BtreeMap.{IsSorted}
use amunchain.Merkle.Levels.{IsDistinct}
use amunchain.Merkle.Commitment.{Broken, root_commits}
use amunchain.PersistentState.{
  KvOp, put, del, db_io, Proven, prove_key, state_root, collect, sort_pairs, insert_pair,
  commit_atomic, run_ops, run_op,
}
use amunchain.PersistentState.Contents.{◌≗◌, apply_ops}
use amunchain.PersistentState.Commits.{commit_atomic-apply_ops, Commits, none_yet, then_commit}
use amunchain.PersistentState.Root.{IsSorted-IsDistinct, state_root_exact, replicas_agree}
use amunchain.PersistentState.Answers.{prove_key_exact}
use amunchain.PersistentState.Light.{verify_state_proof_sound}
use amunchain.PersistentState.{verify_state_proof}
use amunchain.Tests.Memory.{Store, memory, memory-SledLaws, without}
use amunchain.Tests.{plain, plain-RoundTrips, ballot, replicate}

abbrev cast : Vote
cast = ballot 1 5 0 7 1 1

cast-IsInRange : IsInRange cast
cast-IsInRange = record {
  height_lt = omega arith;
  round_lt = omega arith;
  epoch_lt = omega arith;
  msg_counter_lt = omega arith;
  sent_ts_ms_lt = omega arith;
  ttl_ms_lt = omega arith;
  hash_length = refl;
}

abbrev cast_bytes : Bytes
cast_bytes =
    domain_v2
    ++ (replicate 7 0
        ++ (1
            ∷ (replicate 15 0
                ++ (1
                    ∷ (replicate 7 0
                        ++ (5 ∷ (replicate 12 0 ++ (replicate 32 7 ++ replicate 32 1))))))))

vote_bytes_injective_example : SameContent cast cast
unfolding vote_signing_bytes_auto vote_signing_bytes_v1 vote_signing_bytes_v2 to_be_bytes
    encode_canonical
vote_bytes_injective_example =
    vote_bytes_injective plain plain-RoundTrips cast cast cast_bytes cast-IsInRange cast-IsInRange
      refl refl

-- A function with 32 bytes of output.
abbrev digest : Bytes → Hash32
digest [] = replicate 32 0
digest (b ∷ bs) = replicate 32 (length bs)

digest-IsSha256 : IsSha256 digest
digest-IsSha256 [] = refl
digest-IsSha256 (b ∷ bs) = refl

abbrev pairs : List (Bytes × Bytes)
pairs = (1 ∷ [], 2 ∷ []) ∷ (3 ∷ [], 4 ∷ []) ∷ (5 ∷ [], 6 ∷ []) ∷ []

abbrev honest : MerkleProof
honest = record {
  leaf = hash_leaf digest (5 ∷ []) (6 ∷ []);
  path = proof_path digest 3 (leaves digest pairs) 2;
}

abbrev last_key : Bytes
last_key = 5 ∷ []

abbrev last_value : Bytes
last_value = 6 ∷ []

merkle_root_sorted-tree_node_example :
    (k : ℕ) × (3 ≤ 2 ^ k)
    × (2 ^ k < 2 * 3)
    × (merkle_root_sorted digest pairs ≡ tree_node digest k (leaves digest pairs) 0)
merkle_root_sorted-tree_node_example =
    merkle_root_sorted-tree_node digest (1 ∷ [], 2 ∷ []) ((3 ∷ [], 4 ∷ []) ∷ (5 ∷ [], 6 ∷ []) ∷ [])

pairs-IsSorted : IsSorted pairs
pairs-IsSorted = ((refl, (refl, tt)), ((refl, tt), (tt, tt)))

pairs-IsDistinct : IsDistinct pairs
pairs-IsDistinct = IsSorted-IsDistinct pairs pairs-IsSorted

root_commits_example : (pairs ≡ pairs) ⊎ Broken digest
root_commits_example =
    root_commits digest digest-IsSha256 pairs pairs pairs-IsDistinct pairs-IsDistinct refl

-- A last entry that stands twice is not told from one that stands once.
abbrev repeated : List (Bytes × Bytes)
repeated = pairs ++ ((5 ∷ [], 6 ∷ []) ∷ [])

repeated_last_entry : merkle_root_sorted digest repeated ≡ merkle_root_sorted digest pairs
unfolding merkle_root_sorted climb next_level hash_leaf hash_node
repeated_last_entry = refl

abbrev store : Store
store = record { entries = pairs; sorted = pairs-IsSorted }

abbrev changes : List KvOp
changes = put last_key last_key ∷ del last_key ∷ put last_key last_value ∷ []

commit_atomic-apply_ops_example :
    let (r, db') = commit_atomic memory changes store in
    ((r ≡ ok tt) × (memory-SledLaws.view db' ≗ apply_ops changes (memory-SledLaws.view store)))
    ⊎ ((r ≡ err db_io)
        × ((memory-SledLaws.view db' ≗ memory-SledLaws.view store)
            ⊎ (memory-SledLaws.view db' ≗ apply_ops changes (memory-SledLaws.view store))))
commit_atomic-apply_ops_example = commit_atomic-apply_ops memory memory-SledLaws changes store

abbrev root : Hash32
root = merkle_root_sorted digest pairs

state_root_exact_example :
    ((memory-SledLaws.view store ≗ memory-SledLaws.view store) → root ≡ root)
    × (root ≡ root → (memory-SledLaws.view store ≗ memory-SledLaws.view store) ⊎ Broken digest)
unfolding state_root collect sort_pairs insert_pair
state_root_exact_example =
    state_root_exact memory memory-SledLaws digest store store root root digest-IsSha256 refl refl

abbrev first_op : List KvOp
first_op = put last_key last_key ∷ []

abbrev other_ops : List KvOp
other_ops = del last_key ∷ put last_key last_value ∷ []

abbrev after_first : Store
after_first = (commit_atomic memory first_op store).1

abbrev by_two : Store
by_two = (commit_atomic memory other_ops after_first).1

abbrev by_one : Store
by_one = (commit_atomic memory changes store).1

in_two_steps : Commits memory memory-SledLaws changes store by_two
unfolding commit_atomic run_ops run_op
in_two_steps = then_commit other_ops (then_commit first_op none_yet refl) refl

in_one_step : Commits memory memory-SledLaws changes store by_one
unfolding commit_atomic run_ops run_op
in_one_step = then_commit changes none_yet refl

replicas_agree_example : root ≡ root
unfolding state_root collect sort_pairs insert_pair commit_atomic run_ops run_op insert without
replicas_agree_example =
    replicas_agree memory memory-SledLaws digest changes store store by_two by_one root root
      (λ k. refl) in_two_steps in_one_step digest-IsSha256 refl refl

prove_key_exact_example :
    ((memory-SledLaws.view store last_key ≡ none)
      × (prove_key memory digest last_key store ≡ ok none))
    ⊎ ((value : Bytes) × (r : Proven) × (memory-SledLaws.view store last_key ≡ some value)
        × (prove_key memory digest last_key store ≡ ok (some r))
        × (r.key ≡ last_key)
        × (r.value ≡ value)
        × (state_root memory digest store ≡ ok r.root)
        × (r.proof.leaf ≡ hash_leaf digest last_key value)
        × (verify_proof digest r.root r.proof ≡ true))
unfolding get collect
prove_key_exact_example =
    prove_key_exact memory memory-SledLaws digest last_key store (some last_value) pairs refl refl

verify_state_proof_sound_example :
    (memory-SledLaws.view store last_key ≡ some last_value) ⊎ Broken digest
unfolding merkle_proof_sorted merkle_root_sorted verify_proof verify_state_proof hash_leaf hash_node
    climb next_level proof_path proof_item fold_path state_root collect sort_pairs insert_pair
verify_state_proof_sound_example =
    verify_state_proof_sound memory memory-SledLaws digest store root last_key last_value honest
      digest-IsSha256 refl (refl, (refl, tt)) refl refl
