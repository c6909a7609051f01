-- ===== src/PeerRegistry/Message.antt =====
-- src/networking/peer_registry.rs: the text that the registry's signature covers, line by line.
use amunchain.Base.{
  ℕ, ◌≡◌, refl, sym, ap, ◌∙◌, not, ◌==◌, Bytes, some, List, [], ◌∷◌, ◌++◌, map, ok, ok_or, ok_inj,
}
use amunchain.Order.{Ord}
use amunchain.BtreeMap.{BtreeSet, keys}
use amunchain.Strings.{Text, ascii, as_bytes, decimal}
use amunchain.Results.{bind_ok, refuse_ok, ok_or_ok}
use amunchain.PeerRegistry.{
  PeerRegistryFile, Loader, peer_lines, canonical_bytes, unsupported_version, missing_field,
}

-- Each line with a newline after it.
abbrev pub unlines : List Bytes → Bytes
unlines [] = []
unlines (l ∷ ls) = l ++ (10 ∷ unlines ls)

-- The specification: a version, the network, the two times, and the identities one a line.
abbrev pub message_lines : Text → ℕ → ℕ → List Text → List Bytes
message_lines net issued expires ids =
    ascii "v1"
    ∷ (ascii "network=" ++ as_bytes net)
    ∷ (ascii "issued_at_ms=" ++ as_bytes (decimal issued))
    ∷ (ascii "expires_at_ms=" ++ as_bytes (decimal expires))
    ∷ ascii "peers"
    ∷ map as_bytes ids

-- The message as the code puts it together.
lines_of :
    (net : Text) (issued expires : ℕ) (ids : List Text) (tail : Bytes)
    → tail ≡ unlines (map as_bytes ids)
    → ascii "v1\n"
        ++ (ascii "network="
            ++ (as_bytes net
                ++ (ascii "\nissued_at_ms="
                    ++ (as_bytes (decimal issued)
                        ++ (ascii "\nexpires_at_ms="
                            ++ (as_bytes (decimal expires) ++ (ascii "\npeers\n" ++ tail)))))))
      ≡ unlines (message_lines net issued expires ids)
lines_of net issued expires ids tail e =
    ap
      (λ t.
        ascii "v1\nnetwork="
        ++ (as_bytes net
            ++ (ascii "\nissued_at_ms="
                ++ (as_bytes (decimal issued)
                    ++ (ascii "\nexpires_at_ms="
                        ++ (as_bytes (decimal expires) ++ (ascii "\npeers\n" ++ t)))))))
      e

-- The file has a network and both times, and these lines with the identities make up the message.
pub record IsMessage (reg : PeerRegistryFile) (ids : List Text) (msg : Bytes) : Type 0 where
  pub net : Text
  pub issued : ℕ
  pub expires : ℕ
  pub has_network : reg.network ≡ some net
  pub has_issued : reg.issued_at_ms ≡ some issued
  pub has_expires : reg.expires_at_ms ≡ some expires
  pub lines : msg ≡ unlines (message_lines net issued expires ids)

module _ {PeerId : Type 0} ⦃o : Ord PeerId⦄ (loader : Loader PeerId) where
  peer_lines-unlines :
      (ps : List PeerId) → peer_lines loader ps ≡ unlines (map as_bytes (map loader.to_base58 ps))
  unfolding peer_lines
  peer_lines-unlines [] = refl
  peer_lines-unlines (p ∷ ps) =
      ap (λ l. as_bytes (loader.to_base58 p) ++ (10 ∷ l)) (peer_lines-unlines ps)

  pub canonical_bytes-IsMessage :
      (reg : PeerRegistryFile) (peers : BtreeSet PeerId) (msg : Bytes)
      → canonical_bytes loader reg peers ≡ ok msg
      → IsMessage reg (map loader.to_base58 (keys peers)) msg
  unfolding canonical_bytes
  canonical_bytes-IsMessage reg peers msg h =
      let (_, h1) = refuse_ok (not (reg.version == 1)) unsupported_version _ h in
      let (net, n, h2) = bind_ok (ok_or reg.network missing_field) _ h1 in
      let (issued, i, h3) = bind_ok (ok_or reg.issued_at_ms missing_field) _ h2 in
      let (expires, e, h4) = bind_ok (ok_or reg.expires_at_ms missing_field) _ h3 in
      record {
        net = net;
        issued = issued;
        expires = expires;
        has_network = ok_or_ok reg.network missing_field n;
        has_issued = ok_or_ok reg.issued_at_ms missing_field i;
        has_expires = ok_or_ok reg.expires_at_ms missing_field e;
        lines =
            sym (ok_inj h4)
            ∙ lines_of net issued expires (map loader.to_base58 (keys peers)) _
                (peer_lines-unlines (keys peers));
      }
