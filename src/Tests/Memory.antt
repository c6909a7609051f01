-- ===== src/Tests/Memory.antt =====
-- A database in memory that behaves as sled's documentation says: a sorted map; a transaction that
-- fails leaves it as it was.
use amunchain.Base.{
  ◌≡◌, refl, sym, ap, subst, ◌∙◌, Bytes, none, some, List, [], ◌∷◌, ok, err, map, arith,
  if◌then◌else◌, some_inj, Result-cases, inl, inr,
}
use amunchain.Order.{◌=?◌, bytes_ord}
use amunchain.BtreeMap.{
  BtreeMap, get, insert, IsAbove, IsSorted, insert-IsSorted, get-insert, get-IsAbove,
}
use amunchain.PersistentState.{Pair, Sled, abort}
use amunchain.PersistentState.Contents.{HasDistinctKeys, SledLaws}

unfoldable pub without : Bytes → BtreeMap Bytes Bytes → BtreeMap Bytes Bytes
without key [] = []
without key ((j, w) ∷ m) = let rest = without key m in if j =? key then rest else (j, w) ∷ rest

get-without :
    (j key : Bytes) (m : BtreeMap Bytes Bytes)
    → get j (without key m) ≡ (if j =? key then none else get j m)
unfolding without get
get-without j key [] = ground arith
get-without j key ((i, w) ∷ m) = ground (
  arith,
  get-without j key m,
  bytes_ord.antisym i key,
  bytes_ord.antisym j i,
  bytes_ord.antisym j key,
  bytes_ord.same key,
  bytes_ord.same i,
)

without-IsAbove :
    (b key : Bytes) (m : BtreeMap Bytes Bytes) → IsAbove b m → IsAbove b (without key m)
unfolding without
without-IsAbove b key [] a = tt
without-IsAbove b key ((i, w) ∷ m) a = ground (arith, without-IsAbove b key m a.1)

pub without-IsSorted :
    (key : Bytes) (m : BtreeMap Bytes Bytes) → IsSorted m → IsSorted (without key m)
unfolding without
without-IsSorted key [] s = tt
without-IsSorted key ((i, w) ∷ m) s =
    ground (arith, without-IsSorted key m s.1, without-IsAbove i key m s.0)

IsSorted-HasDistinctKeys : (m : BtreeMap Bytes Bytes) → IsSorted m → HasDistinctKeys m
IsSorted-HasDistinctKeys [] s = tt
IsSorted-HasDistinctKeys ((k, v) ∷ m) s = (get-IsAbove k m s.0, IsSorted-HasDistinctKeys m s.1)

pub record Store : Type 0 where
  pub entries : BtreeMap Bytes Bytes
  pub sorted : IsSorted entries

abbrev pub memory : Sled Store Store
memory = record {
  open_db = λ path. some (record { entries = []; sorted = tt });
  read = λ key db. some (get key db.entries);
  iter = λ db. map (λ p. some p) db.entries;
  insert_tx = λ key value t. some (record {
    entries = insert key value t.entries;
    sorted = insert-IsSorted key value t.entries t.sorted;
  });
  remove_tx = λ key t. some (record {
    entries = without key t.entries;
    sorted = without-IsSorted key t.entries t.sorted;
  });
  transaction = λ f db. elim (f db) [ ok t ↦ (ok tt, t) | err e ↦ (err (abort e), db) ];
}

somes_inj : (xs ys : List Pair) → map (λ p. some p) xs ≡ map some ys → xs ≡ ys
somes_inj [] [] h = refl
somes_inj [] (y ∷ ys) h = absurd (cc h)
somes_inj (x ∷ xs) [] h = absurd (cc h)
somes_inj (x ∷ xs) (y ∷ ys) h =
    let e : x ≡ y = cc h in
    let t : map (λ (p : Pair). some p) xs ≡ map some ys = cc h in cc (e, somes_inj xs ys t)

pub memory-SledLaws : SledLaws memory
memory-SledLaws = record {
  view = λ db k. get k db.entries;
  tx_view = λ t k. get k t.entries;
  read_view = λ k db v h. sym (some_inj h);
  iter_view = λ db ps h.
      let e = somes_inj db.entries ps h in
      (
        subst HasDistinctKeys e (IsSorted-HasDistinctKeys db.entries db.sorted),
        λ k. ap (λ x. get k x) (sym e),
      );
  insert_view = λ k v t t' h j.
      ap (λ (x : Store). get j x.entries) (sym (some_inj h)) ∙ get-insert j k v t.entries;
  remove_view = λ k t t' h j.
      ap (λ (x : Store). get j x.entries) (sym (some_inj h)) ∙ get-without j k t.entries;
  committed = λ f db h. elim (Result-cases (f db)) [
    | inl (t, e) ↦ (db, t, λ k. refl, e, λ k. rw e)
    | inr (x, e) ↦ absurd (cc (rw e at h))
  ];
  aborted = λ f db x h. elim (Result-cases (f db)) [
    | inl (t, e) ↦ absurd (cc (rw e at h))
    | inr (y, e) ↦ let same : y ≡ x = cc (rw e at h) in ((db, rw (sym same) e), λ k. rw e)
  ];
  broken_off = λ f db h. elim (Result-cases (f db)) [
    | inl (t, e) ↦ absurd (cc (rw e at h))
    | inr (y, e) ↦ absurd (cc (rw e at h))
  ];
}
