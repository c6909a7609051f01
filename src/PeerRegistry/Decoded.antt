-- ===== src/PeerRegistry/Decoded.antt =====
-- src/networking/peer_registry.rs: the loop that decodes the listed peers into a set.
use amunchain.Base.{inl, inr, ◌≡◌, Bytes, some, List, [], ◌∷◌, ok, ok_or, Result, Result-cases}
use amunchain.Order.{Ord}
use amunchain.BtreeMap.{BtreeSet, insert}
use amunchain.Strings.{Text}
use amunchain.Results.{◌>>=◌, bind_ok, ok_or_ok}
use amunchain.PeerRegistry.{PeerRegistryError, Loader, parse_peers, invalid_peer}

module _ {PeerId : Type 0} ⦃o : Ord PeerId⦄ (loader : Loader PeerId) where
  -- Every name decodes, in base 58 and then as an identity, to the peer at its place.
  abbrev pub Decodes : List Text → List PeerId → Type 0
  Decodes [] [] = Unit
  Decodes [] (p ∷ ps) = ⊥
  Decodes (s ∷ ss) [] = ⊥
  Decodes (s ∷ ss) (p ∷ ps) =
      ((bytes : Bytes) × (loader.bs58_decode s ≡ some bytes)
        × (loader.peer_from_bytes bytes ≡ some p))
      × Decodes ss ps

  abbrev pub insert_all : List PeerId → BtreeSet PeerId → BtreeSet PeerId
  insert_all [] peers = peers
  insert_all (p ∷ ps) peers = insert_all ps (insert p tt peers)

  abbrev decode_one : Text → Result PeerRegistryError PeerId
  decode_one s = ok_or (loader.bs58_decode s) invalid_peer >>= λ bytes.
      ok_or (loader.peer_from_bytes bytes) invalid_peer

  -- The loop succeeds only when every name decodes, and adds all of the peers.
  pub parse_peers-Decodes :
      (ss : List Text) (start peers : BtreeSet PeerId)
      → parse_peers loader ss start ≡ ok peers
      → (ps : List PeerId) × Decodes ss ps × (peers ≡ insert_all ps start)
  unfolding parse_peers
  parse_peers-Decodes [] start peers h = ([], tt, cc h)
  parse_peers-Decodes (s ∷ ss) start peers h = elim (Result-cases (decode_one s)) [
    | inr (e, f) ↦ absurd (cc (rw (parse_peers, f) at h))
    | inl (p, f) ↦
        let (bytes, d, k) =
          bind_ok (ok_or (loader.bs58_decode s) invalid_peer)
            (λ b. ok_or (loader.peer_from_bytes b) invalid_peer) f in
        let rest : parse_peers loader ss (insert p tt start) ≡ ok peers =
          rw (parse_peers, f) at h in
        let (ps, all, same) = parse_peers-Decodes ss (insert p tt start) peers rest in
        (
          p ∷ ps,
          (
            (
              bytes,
              ok_or_ok (loader.bs58_decode s) invalid_peer d,
              ok_or_ok (loader.peer_from_bytes bytes) invalid_peer k,
            ),
            all,
          ),
          same,
        )
  ]
