-- ===== src/PersistentState/Contents.antt =====
-- src/core/state/persistent_state.rs: what a database holds, as a function from keys to values, and
-- what sled's documentation says of its operations in these terms.
use amunchain.Base.{
  ◌≡◌, ◌⊎◌, Bytes, Option, none, some, List, [], ◌∷◌, ◌++◌, Result, ok, err, map, if◌then◌else◌,
  refl, ap,
}
use amunchain.Order.{◌=?◌, bytes_ord}
use amunchain.BtreeMap.{get}
use amunchain.PersistentState.{StateError, KvOp, put, del, Pair, abort, storage, Sled}

abbrev pub Contents : Type 0
Contents = Bytes → Option Bytes

infix 40 ◌≗◌
-- The same values under all keys.
abbrev pub ◌≗◌ : Contents → Contents → Type 0
c ≗ c' = (k : Bytes) → c k ≡ c' k

-- What an operation does to the contents.
abbrev pub apply_op : KvOp → Contents → Contents
apply_op (put key value) c k = if k =? key then some value else c k
apply_op (del key) c k = if k =? key then none else c k

abbrev pub apply_ops : List KvOp → Contents → Contents
apply_ops [] c = c
apply_ops (op ∷ ops) c = apply_ops ops (apply_op op c)

-- Keys of pairs that differ from one another.
abbrev pub HasDistinctKeys : List Pair → Type 0
HasDistinctKeys [] = Unit
HasDistinctKeys ((k, v) ∷ ps) = (get k ps ≡ none) × HasDistinctKeys ps

-- sled, with the contents of a database and of a running transaction. A transaction that commits
-- ran its body on what the database held, and leaves what the body left; one whose body aborts
-- changes nothing; an error of the storage leaves it applied as a whole or not at all.
pub record SledLaws {Db Tx : Type 0} (sled : Sled Db Tx) : Type 1 where
  pub view : Db → Contents
  pub tx_view : Tx → Contents
  pub read_view : (k : Bytes) (db : Db) (v : Option Bytes) → sled.read k db ≡ some v → v ≡ view db k
  pub iter_view :
      (db : Db) (ps : List Pair)
      → sled.iter db ≡ map some ps
      → HasDistinctKeys ps × ((λ k. get k ps) ≗ view db)
  pub insert_view :
      (k v : Bytes) (t t' : Tx)
      → sled.insert_tx k v t ≡ some t'
      → tx_view t' ≗ apply_op (put k v) (tx_view t)
  pub remove_view :
      (k : Bytes) (t t' : Tx)
      → sled.remove_tx k t ≡ some t'
      → tx_view t' ≗ apply_op (del k) (tx_view t)
  pub committed :
      (f : Tx → Result StateError Tx) (db : Db)
      → (sled.transaction f db).0 ≡ ok tt
      → (t t' : Tx) × (tx_view t ≗ view db)
        × (f t ≡ ok t')
        × (view (sled.transaction f db).1 ≗ tx_view t')
  pub aborted :
      (f : Tx → Result StateError Tx) (db : Db) (e : StateError)
      → (sled.transaction f db).0 ≡ err (abort e)
      → ((t : Tx) × (f t ≡ err e)) × (view (sled.transaction f db).1 ≗ view db)
  pub broken_off :
      (f : Tx → Result StateError Tx) (db : Db)
      → (sled.transaction f db).0 ≡ err storage
      → (view (sled.transaction f db).1 ≗ view db)
        ⊎ ((t t' : Tx) × (tx_view t ≗ view db)
            × (f t ≡ ok t')
            × (view (sled.transaction f db).1 ≗ tx_view t'))

-- Operations see nothing of the contents but the values.
pub apply_op_cong : (op : KvOp) (c c' : Contents) → c ≗ c' → apply_op op c ≗ apply_op op c'
apply_op_cong (put key value) c c' h k = ap (λ x. if k =? key then some value else x) (h k)
apply_op_cong (del key) c c' h k = ap (λ x. if k =? key then none else x) (h k)

pub apply_ops_cong :
    (ops : List KvOp) (c c' : Contents) → c ≗ c' → apply_ops ops c ≗ apply_ops ops c'
apply_ops_cong [] c c' h = h
apply_ops_cong (op ∷ ops) c c' h =
    apply_ops_cong ops (apply_op op c) (apply_op op c') (apply_op_cong op c c' h)

pub apply_ops-append :
    (ops more : List KvOp) (c : Contents)
    → apply_ops (ops ++ more) c ≗ apply_ops more (apply_ops ops c)
apply_ops-append [] more c k = refl
apply_ops-append (op ∷ ops) more c k = apply_ops-append ops more (apply_op op c) k
