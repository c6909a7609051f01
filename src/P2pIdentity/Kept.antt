-- ===== src/P2pIdentity/Kept.antt =====
-- src/networking/p2p_identity.rs: the identity that a later start finds.
use amunchain.Base.{
  ◌≡◌, ◌∙◌, refl, sym, ap, subst, Bytes, Option, none, some, none≢some, ok_inj, [], ok, ok_or,
  Bool-cases, inl, inr,
}
use amunchain.Order.{bytes_ord}
use amunchain.Paths.{FilePath}
use amunchain.Disk.{
  Disk, ◌>>=◌, lift, must, outcome, exists, create_dir_all, read_file, open_truncated, write_all,
  sync_all, rename, contents, place,
}
use amunchain.Disk.Laws.{
  bind_done, must_done, read_file-files, read_file-contents, open_truncated-empty,
  write_all-contents, sync_all-files, rename-cases, place_same,
}
use amunchain.Results.{ok_or_ok}
use amunchain.P2pIdentity.{
  Libp2pKeys, IdentityError, io, decode, identity_path, identity_tmp, with_id, load_identity,
  write_identity, create_identity, find_identity, load_or_create_identity,
}

write_identity-contents :
    (path tmp : FilePath) (bytes : Bytes) (d : Disk)
    → (write_identity path tmp bytes d).0 ≡ ok tt
    → (write_identity path tmp bytes d).1.files path ≡ some bytes
unfolding write_identity
write_identity-contents path tmp bytes d h =
    let finish = λ (x : Unit {0}). must io (rename tmp path) in
    let sync = λ (x : Unit {0}). must io (sync_all tmp) >>= finish in
    let write = λ (x : Unit {0}). must io (write_all tmp bytes) >>= sync in
    let (u1, h1, r1) = bind_done (must io (open_truncated tmp)) write d h in
    let d1 = (open_truncated tmp d).1 in
    let k1 : (write u1 d1).0 ≡ ok tt = sym (ap (λ x. x.0) r1) ∙ h in
    let (u2, h2, r2) = bind_done (must io (write_all tmp bytes)) sync d1 k1 in
    let d2 = (write_all tmp bytes d1).1 in
    let k2 : (sync u2 d2).0 ≡ ok tt = sym (ap (λ x. x.0) r2) ∙ k1 in
    let (u3, h3, r3) = bind_done (must io (sync_all tmp)) finish d2 k2 in
    let d3 = (sync_all tmp d2).1 in
    let empty = open_truncated-empty tmp d (must_done io (open_truncated tmp) d h1) in
    let full : d2.files tmp ≡ some bytes =
      write_all-contents tmp bytes d1 (must_done io (write_all tmp bytes) d1 h2)
      ∙ rw (contents, empty) in
    let whole : d3.files tmp ≡ some bytes = ap (λ f. f tmp) (sync_all-files tmp d2) ∙ full in
    let done : (rename tmp path d3).0 ≡ some tt =
      must_done io (rename tmp path) d3 (sym (ap (λ x. x.0) r3) ∙ k2) in
    let end' : (write_identity path tmp bytes d).1 ≡ (rename tmp path d3).1 =
      ap (λ x. x.1) r1 ∙ (ap (λ x. x.1) r2 ∙ ap (λ x. x.1) r3) in
    elim (rename-cases tmp path d3) [
      | inl (e, _) ↦ absurd (none≢some (sym e ∙ done))
      | inr (c, s, _, f) ↦
          ap (λ x. x.files path) end'
          ∙ (ap (λ g. g path) f
              ∙ (place_same path (some c) (place tmp none d3.files) ∙ (sym s ∙ whole)))
    ]

module _ {PeerId Keypair : Type 0} (keys : Libp2pKeys PeerId Keypair) where
  -- An encoded key is read back.
  abbrev pub ReadsBack : Type 0
  ReadsBack =
      (kp : Keypair) (bytes : Bytes)
      → keys.to_protobuf kp ≡ some bytes
      → keys.from_protobuf bytes ≡ some kp

  -- The file at `path` holds the identity.
  abbrev pub Stored : FilePath → (FilePath → Option Bytes) → PeerId × Keypair → Type 0
  Stored path files (p, kp) =
      (bytes : Bytes) × (files path ≡ some bytes)
      × (keys.from_protobuf bytes ≡ some kp)
      × (keys.peer_id_of kp ≡ p)

  with_id-Stored :
      (path : FilePath) (files : FilePath → Option Bytes) (bytes : Bytes) (kp : Keypair)
      (found : PeerId × Keypair)
      → files path ≡ some bytes
      → keys.from_protobuf bytes ≡ some kp
      → with_id keys kp ≡ found
      → Stored path files found
  with_id-Stored path files bytes kp found s k e =
      subst (λ x. Stored path files x) e (bytes, s, k, refl)

  load_identity-Stored :
      (path : FilePath) (d : Disk) (found : PeerId × Keypair)
      → (load_identity keys path d).0 ≡ ok found
      → Stored path (load_identity keys path d).1.files found
  unfolding load_identity
  load_identity-Stored path d found h =
      let give = λ (kp : Keypair). lift {E = IdentityError} (ok (with_id keys kp)) in
      let parse = λ (bytes : Bytes). lift (ok_or (keys.from_protobuf bytes) decode) >>= give in
      let (bytes, h1, r1) = bind_done (must io (read_file path)) parse d h in
      let d1 = (read_file path d).1 in
      let stored =
        ap (λ f. f path) (read_file-files path d)
        ∙ read_file-contents path d bytes (must_done io (read_file path) d h1) in
      let k1 : (parse bytes d1).0 ≡ ok found = sym (ap (λ x. x.0) r1) ∙ h in
      let (kp, h2, r2) = bind_done (lift (ok_or (keys.from_protobuf bytes) decode)) give d1 k1 in
      let end' : (load_identity keys path d).1 ≡ d1 = ap (λ x. x.1) r1 ∙ ap (λ x. x.1) r2 in
      with_id-Stored path (load_identity keys path d).1.files bytes kp found
        (ap (λ x. x.files path) end' ∙ stored) (ok_or_ok (keys.from_protobuf bytes) decode h2)
        (ok_inj (sym (ap (λ x. x.0) r2) ∙ k1))

  create_identity-Stored :
      (kp : Keypair) (path tmp : FilePath) (d : Disk) (found : PeerId × Keypair)
      → ReadsBack
      → (create_identity keys kp path tmp d).0 ≡ ok found
      → Stored path (create_identity keys kp path tmp d).1.files found
  unfolding create_identity
  create_identity-Stored kp path tmp d found law h =
      let give = λ (x : Unit {0}). lift {E = IdentityError} (ok (with_id keys kp)) in
      let write = λ (bytes : Bytes). write_identity path tmp bytes >>= give in
      let (bytes, h1, r1) = bind_done (lift (ok_or (keys.to_protobuf kp) decode)) write d h in
      let k1 : (write bytes d).0 ≡ ok found = sym (ap (λ x. x.0) r1) ∙ h in
      let (u, h2, r2) = bind_done (write_identity path tmp bytes) give d k1 in
      let end' : (create_identity keys kp path tmp d).1 ≡ (write_identity path tmp bytes d).1 =
        ap (λ x. x.1) r1 ∙ ap (λ x. x.1) r2 in
      with_id-Stored path (create_identity keys kp path tmp d).1.files bytes kp found
        (ap (λ x. x.files path) end' ∙ write_identity-contents path tmp bytes d h2)
        (law kp bytes (ok_or_ok (keys.to_protobuf kp) decode h1))
        (ok_inj (sym (ap (λ x. x.0) r2) ∙ k1))

  -- Whoever got an identity left it in its file, and whoever starts on that file without an error
  -- gets it.
  pub load_or_create_identity-Stored :
      (new_key : Keypair) (dir : FilePath) (d : Disk) (found : PeerId × Keypair)
      → ReadsBack
      → (load_or_create_identity keys new_key dir d).0 ≡ ok found
      → Stored (identity_path dir) (load_or_create_identity keys new_key dir d).1.files found
  unfolding load_or_create_identity find_identity
  load_or_create_identity-Stored new_key dir d found law h =
      let path = identity_path dir in
      let next = λ (x : Unit {0}). find_identity keys new_key dir in
      let (u, h1, r1) = bind_done (must io (create_dir_all dir)) next d h in
      let d1 = (create_dir_all dir d).1 in
      let k1 : (find_identity keys new_key dir d1).0 ≡ ok found = sym (ap (λ x. x.0) r1) ∙ h in
      let stored : Stored path (find_identity keys new_key dir d1).1.files found =
        elim (Bool-cases (exists path d1)) [
          | inl e ↦
              rw (find_identity, e)
                (load_identity-Stored path d1 found (rw (find_identity, e) at k1))
          | inr e ↦
              rw (find_identity, e)
                (create_identity-Stored new_key path (identity_tmp dir) d1 found law
                  (rw (find_identity, e) at k1))
        ] in
      subst (λ x. Stored path x.files found) (sym (ap (λ x. x.1) r1)) stored

  pub Stored-load_or_create_identity :
      (new_key : Keypair) (dir : FilePath) (files : FilePath → Option Bytes)
      (found : PeerId × Keypair)
      → Stored (identity_path dir) files found
      → (load_or_create_identity keys new_key dir (record { files = files; faults = [] })).0
        ≡ ok found
  unfolding load_or_create_identity find_identity exists create_dir_all read_file outcome
      load_identity
  Stored-load_or_create_identity new_key dir files found (bytes, s, k, e) = rw (s, k, e)
