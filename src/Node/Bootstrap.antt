-- ===== src/Node/Bootstrap.antt =====
-- src/main.rs with src/networking/p2p_identity.rs: the address that a node dials first.
use amunchain.Base.{
  ℕ, ◌≡◌, ◌≢◌, ◌⊎◌, ◌∙◌, refl, Bytes, false, Option, some, [], ◌∷◌, ◌==◌, ==_iff, ok, Bool-cases,
  Result-cases, inl, inr,
}
use amunchain.Strings.{Text}
use amunchain.Paths.{FilePath}
use amunchain.Disk.{Disk}
use amunchain.P2pIdentity.{Libp2pKeys, identity_path, load_or_create_identity}
use amunchain.P2pIdentity.Kept.{
  ReadsBack, load_or_create_identity-Stored, Stored-load_or_create_identity,
}
use amunchain.Node.{node1_data_dir, bootstrap_addr, bootstrap_list}

module _ {PeerId Keypair : Type 0} (keys : Libp2pKeys PeerId Keypair)
    (display : PeerId → Text) where
  -- Whatever fails on the disk, a node other than the first dials nobody at its start, or it dials
  -- the very identity that the first node gets when that one starts later on the identity file that
  -- the other node left and meets no error, if an encoded key is read back.
  pub bootstrap_names_node1 :
      (new_key later_key : Keypair) (node_idx : ℕ) (d : Disk) (files : FilePath → Option Bytes)
      → ReadsBack keys
      → node_idx ≢ 1
      → files (identity_path node1_data_dir)
        ≡ (bootstrap_list keys display new_key node_idx d).1.files (identity_path node1_data_dir)
      → let dialled = (bootstrap_list keys display new_key node_idx d).0 in
        let later =
          load_or_create_identity keys later_key node1_data_dir
            (record { files = files; faults = [] }) in
        (dialled ≡ [])
        ⊎ ((p : PeerId) × (kp : Keypair) × ((dialled ≡ bootstrap_addr display p ∷ [])
              × (later.0 ≡ ok (p, kp))))
  unfolding bootstrap_list
  bootstrap_names_node1 new_key later_key node_idx d files law other same =
      let looked = load_or_create_identity keys new_key node1_data_dir d in
      let away : (node_idx == 1) ≡ false = elim (Bool-cases (node_idx == 1)) [
        | inl e ↦ absurd (other ((==_iff node_idx 1).0 e))
        | inr e ↦ e
      ] in
      elim (Result-cases looked.0) [
        | inr (x, e) ↦ inl (rw (bootstrap_list, away, e))
        | inl (found, e) ↦
            let (bytes, s, k, i) =
              load_or_create_identity-Stored keys new_key node1_data_dir d found law e in
            let kept : files (identity_path node1_data_dir) ≡ some bytes =
              (same ∙ rw (bootstrap_list, away) refl) ∙ s in
            inr (
              found.0,
              found.1,
              (
                rw (bootstrap_list, away, e),
                Stored-load_or_create_identity keys later_key node1_data_dir files found
                    (bytes, kept, k, i),
              ),
            )
      ]
