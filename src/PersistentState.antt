-- ===== src/PersistentState.antt =====
-- src/core/state/persistent_state.rs: the key-value state with its Merkle root and proofs. The sled
-- database is a parameter: its reads, its iteration and its transactions, where `none` is an error.
pub mod Proofs
pub mod Contents
pub mod Commits
pub mod Root
pub mod Answers
pub mod Light
use Prim.Native.Nat.Ordering.{lt, eq, gt}
use amunchain.Base.{
  ℕ, suc, Bytes, Bool, Option, none, some, List, [], ◌∷◌, Result, ok, err, get_elem?, unwrap_or,
  if◌then◌else◌,
}
use amunchain.Order.{◌=?◌, bytes_cmp, bytes_ord}
use amunchain.Merkle.{Hash32, MerkleProof, merkle_root_sorted, merkle_proof_sorted, verify_proof}

pub data StateError : Type 0 where
  db_open db_io tx_conflict : StateError

pub data KvOp : Type 0 where
  put : (key value : Bytes) → KvOp
  del : (key : Bytes) → KvOp

abbrev pub Pair : Type 0
Pair = Bytes × Bytes

-- `sled::transaction::TransactionError`
pub data TransactionError : Type 0 where
  abort : StateError → TransactionError
  storage : TransactionError

-- What the code calls of the database `Db`, and of a running transaction `Tx`.
pub record Sled (Db Tx : Type 0) : Type 0 where
  pub open_db : Bytes → Option Db
  pub read : Bytes → Db → Option (Option Bytes)
  pub iter : Db → List (Option Pair)
  pub insert_tx : Bytes → Bytes → Tx → Option Tx
  pub remove_tx : Bytes → Tx → Option Tx
  pub transaction : (Tx → Result StateError Tx) → Db → Result TransactionError (Unit {0}) × Db

-- `sort_by` on the keys: stable.
unfoldable pub insert_pair : Pair → List Pair → List Pair
insert_pair p [] = p ∷ []
insert_pair p (q ∷ qs) = elim (bytes_cmp p.0 q.0) [
  | lt ↦ p ∷ q ∷ qs
  | eq ↦ p ∷ q ∷ qs
  | gt ↦ q ∷ insert_pair p qs
]

unfoldable pub sort_pairs : List Pair → List Pair
sort_pairs [] = []
sort_pairs (p ∷ ps) = insert_pair p (sort_pairs ps)

-- `binary_search_by` for a key among sorted pairs with distinct keys: the index of the key.
unfoldable pub position : Bytes → List Pair → Option ℕ
position key [] = none
position key (p ∷ ps) =
    let rest = position key ps in
    if p.0 =? key then some 0 else elim rest [ none ↦ none | some i ↦ some (suc i) ]

-- The loop that reads all pairs and stops at the first error.
unfoldable pub collect : List (Option Pair) → Result StateError (List Pair)
collect [] = ok []
collect (none ∷ items) = err db_io
collect (some p ∷ items) = elim (collect items) [ err e ↦ err e | ok ps ↦ ok (p ∷ ps) ]

-- A key, its value, the root and the proof.
pub record Proven : Type 0 where
  pub key : Bytes
  pub value : Bytes
  pub root : Hash32
  pub proof : MerkleProof

module _ {Db Tx : Type 0} (sled : Sled Db Tx) where
  -- `PersistentState::open`
  unfoldable pub open_state : Bytes → Result StateError Db
  open_state path = elim (sled.open_db path) [ none ↦ err db_open | some db ↦ ok db ]

  -- `PersistentState::get`
  unfoldable pub get_value : Bytes → Db → Result StateError (Option Bytes)
  get_value key db = elim (sled.read key db) [ none ↦ err db_io | some v ↦ ok v ]

  -- The body of the transaction.
  unfoldable pub run_op : KvOp → Tx → Option Tx
  run_op (put key value) t = sled.insert_tx key value t
  run_op (del key) t = sled.remove_tx key t

  unfoldable pub run_ops : List KvOp → Tx → Result StateError Tx
  unfolding run_op
  run_ops [] t = ok t
  run_ops (op ∷ ops) t = elim (run_op op t) [ none ↦ err db_io | some t' ↦ run_ops ops t' ]

  -- `PersistentState::commit_atomic`; the `Conflict` and `Storage` arms of its last match are never
  -- reached, since the errors were mapped to aborts before.
  unfoldable pub commit_atomic : List KvOp → Db → Result StateError (Unit {0}) × Db
  unfolding run_ops
  commit_atomic ops db =
      let (res, db') = sled.transaction (run_ops ops) db in
      (elim res [ ok _ ↦ ok tt | err (abort e) ↦ err e | err storage ↦ err db_io ], db')

  module _ (sha256 : Bytes → Hash32) where
    -- `PersistentState::state_root`
    unfoldable pub state_root : Db → Result StateError Hash32
    unfolding collect sort_pairs
    state_root db = elim (collect (sled.iter db)) [
      | err e ↦ err e
      | ok ps ↦ ok (merkle_root_sorted sha256 (sort_pairs ps))
    ]

    -- The part of `prove_key` after the pairs are read.
    unfoldable pub prove_among : Bytes → List Pair → Option Proven
    unfolding position
    prove_among key pairs = elim (position key pairs) [
      | none ↦ none
      | some i ↦ elim (merkle_proof_sorted sha256 pairs i) [
        | none ↦ none
        | some p ↦
            let entry : Pair = unwrap_or ([], []) (get_elem? pairs i) in
            some (record {
              key = entry.0;
              value = entry.1;
              root = merkle_root_sorted sha256 pairs;
              proof = p;
            })
      ]
    ]

    -- `PersistentState::prove_key`
    unfoldable pub prove_key : Bytes → Db → Result StateError (Option Proven)
    unfolding get_value collect sort_pairs prove_among
    prove_key key db = elim (get_value key db) [
      | err e ↦ err e
      | ok none ↦ ok none
      | ok (some v) ↦ elim (collect (sled.iter db)) [
        | err e ↦ err e
        | ok ps ↦ ok (prove_among key (sort_pairs ps))
      ]
    ]

    -- `PersistentState::verify_proof`
    unfoldable pub verify_state_proof : Hash32 → MerkleProof → Bool
    unfolding verify_proof
    verify_state_proof root proof = verify_proof sha256 root proof
