-- ===== src/PersistentState/Commits.antt =====
-- src/core/state/persistent_state.rs: `commit_atomic` against the contents.
use amunchain.Base.{
  ◌≡◌, ◌⊎◌, some, List, [], ◌∷◌, ◌++◌, ok, err, inl, inr, refl, ap, ◌∙◌, sym, Option-cases,
  Result-cases, ok_inj, err≢ok,
}
use amunchain.PersistentState.{
  StateError, db_io, KvOp, put, del, abort, storage, Sled, run_op, run_ops, commit_atomic,
}
use amunchain.PersistentState.Contents.{
  ◌≗◌, apply_op, apply_ops, SledLaws, apply_ops_cong, apply_ops-append,
}

module _ {Db Tx : Type 0} (sled : Sled Db Tx) (laws : SledLaws sled) where
  open laws use {view, tx_view, insert_view, remove_view, committed, aborted, broken_off}

  run_op-apply_op :
      (op : KvOp) (t t' : Tx) → run_op sled op t ≡ some t' → tx_view t' ≗ apply_op op (tx_view t)
  unfolding run_op
  run_op-apply_op (put key value) t t' h = insert_view key value t t' h
  run_op-apply_op (del key) t t' h = remove_view key t t' h

  run_ops-apply_ops :
      (ops : List KvOp) (t t' : Tx)
      → run_ops sled ops t ≡ ok t'
      → tx_view t' ≗ apply_ops ops (tx_view t)
  unfolding run_ops
  run_ops-apply_ops [] t t' h k = ap (λ x. tx_view x k) (sym (ok_inj h))
  run_ops-apply_ops (op ∷ ops) t t' h k = elim (Option-cases (run_op sled op t)) [
    | inl e ↦ absurd (err≢ok (rw (run_ops, e) at h))
    | inr (s, e) ↦
        run_ops-apply_ops ops s t' (rw (run_ops, e) at h) k
        ∙ apply_ops_cong ops (tx_view s) (apply_op op (tx_view t)) (run_op-apply_op op t s e) k
  ]

  run_ops-err : (ops : List KvOp) (t : Tx) (e : StateError) → run_ops sled ops t ≡ err e → e ≡ db_io
  unfolding run_ops
  run_ops-err [] t e h = absurd (cc h)
  run_ops-err (op ∷ ops) t e h = elim (Option-cases (run_op sled op t)) [
    | inl q ↦ cc (rw (run_ops, q) at h)
    | inr (s, q) ↦ run_ops-err ops s e (rw (run_ops, q) at h)
  ]

  -- What a body that ran to its end leaves.
  ran :
      (ops : List KvOp) (db db' : Db)
      → ((t t' : Tx) × (tx_view t ≗ view db)
          × (run_ops sled ops t ≡ ok t')
          × (view db' ≗ tx_view t'))
      → view db' ≗ apply_ops ops (view db)
  ran ops db db' (t, t', before, f, after) k =
      after k ∙ run_ops-apply_ops ops t t' f k ∙ apply_ops_cong ops (tx_view t) (view db) before k

  -- A commit applies all of its operations in their order, the last one on a key winning, or it
  -- answers `DbIo`, no other error, and has applied all of them or none.
  pub commit_atomic-apply_ops :
      (ops : List KvOp) (db : Db)
      → let (r, db') = commit_atomic sled ops db in
        ((r ≡ ok tt) × (view db' ≗ apply_ops ops (view db)))
        ⊎ ((r ≡ err db_io) × ((view db' ≗ view db) ⊎ (view db' ≗ apply_ops ops (view db))))
  unfolding commit_atomic
  commit_atomic-apply_ops ops db =
      let db' = (sled.transaction (run_ops sled ops) db).1 in
      elim (Result-cases (sled.transaction (run_ops sled ops) db).0) [
        | inl (tt, e) ↦ inl (rw e, ran ops db db' (committed (run_ops sled ops) db e))
        | inr (abort x, e) ↦
            let ((t, f), same) = aborted (run_ops sled ops) db x e in
            let io : x ≡ db_io = run_ops-err ops t x f in inr (rw (e, io), inl same)
        | inr (storage, e) ↦ elim (broken_off (run_ops sled ops) db e) [
          | inl same ↦ inr (rw e, inl same)
          | inr done ↦ inr (rw e, inr (ran ops db db' done))
        ]
      ]

  -- A node's history: one successful commit after another.
  pub data Commits : List KvOp → Db → Db → Type 0 where
    none_yet : {db : Db} → Commits [] db db
    then_commit :
        {db db' : Db} {before : List KvOp} (ops : List KvOp)
        → Commits before db db'
        → (commit_atomic sled ops db').0 ≡ ok tt
        → Commits (before ++ ops) db (commit_atomic sled ops db').1

  pub Commits-apply_ops :
      {ops : List KvOp} {db db' : Db} → Commits ops db db' → view db' ≗ apply_ops ops (view db)
  Commits-apply_ops none_yet k = refl
  Commits-apply_ops (then_commit {db} {db'} {before} ops c h) k =
      elim (commit_atomic-apply_ops ops db') [
        | inr (f, _) ↦ absurd (err≢ok (sym f ∙ h))
        | inl (_, f) ↦
            f k
            ∙ apply_ops_cong ops (view db') (apply_ops before (view db)) (Commits-apply_ops c) k
            ∙ sym (apply_ops-append before ops (view db) k)
      ]
