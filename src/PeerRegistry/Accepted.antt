-- ===== src/PeerRegistry/Accepted.antt =====
-- src/networking/peer_registry.rs: what is known of a registry that was accepted.
use amunchain.Base.{
  ◌+◌, ◌≤◌, ◌≡◌, ◌≢◌, ◌⊎◌, refl, sym, ok_inj, Bytes, true, false, Option, none, some, List, [], map,
  ok, ok_or, unwrap_or, length, arith, inl, inr, Bool-cases, subst, not, ◌==◌,
}
use amunchain.Order.{Ord, =?_iff, bytes_ord}
use amunchain.BtreeMap.{BtreeSet, keys}
use amunchain.Keystore.{verify_pubkey_bytes, verify_sig_bytes64}
use amunchain.Strings.{Text, trim}
use amunchain.Results.{bind_ok, refuse_ok, refuse_last, ok_or_ok}
use amunchain.PeerRegistry.Decoded.{Decodes, insert_all, parse_peers-Decodes}
use amunchain.PeerRegistry.Message.{IsMessage, canonical_bytes-IsMessage}
use amunchain.PeerRegistry.{
  PeerRegistryPolicy, PeerRegistryFile, Loader, is_unsupported, is_unstamped, is_early, is_expired,
  is_too_old, is_foreign, check_policy, parse_hex_32, parse_sig_64, canonical_bytes, parse_peers,
  check_signature, load_and_verify_peer_registry, bad_pubkey, bad_signature, read, parse,
}

-- The file satisfies the node's policy at its time.
pub record IsFresh (policy : PeerRegistryPolicy) (reg : PeerRegistryFile) : Type 0 where
  pub version_one : reg.version ≡ 1
  pub version_enough : policy.min_version ≤ reg.version
  pub stamped :
      (policy.require_freshness_fields ≡ false)
      ⊎ ((unwrap_or 0 reg.issued_at_ms ≢ 0) × (unwrap_or 0 reg.expires_at_ms ≢ 0))
  pub issued_le : unwrap_or 0 reg.issued_at_ms ≤ policy.now_ms
  pub not_expired :
      (unwrap_or 0 reg.expires_at_ms ≡ 0)
      ⊎ (policy.now_ms ≤ unwrap_or 0 reg.expires_at_ms + policy.grace_ms)
  pub not_old :
      (policy.max_age_ms ≡ 0)
      ⊎ ((unwrap_or 0 reg.issued_at_ms ≡ 0)
          ⊎ (policy.now_ms ≤ unwrap_or 0 reg.issued_at_ms + policy.max_age_ms))
  pub same_network : (policy.expected_network ≡ none) ⊎ (reg.network ≡ policy.expected_network)

same_network_of :
    (expected network : Option Text)
    → is_foreign expected network ≡ false
    → (expected ≡ none) ⊎ (network ≡ expected)
unfolding is_foreign
same_network_of none network h = inl refl
same_network_of (some m) none h = absurd (cc h)
same_network_of (some m) (some k) h = ground (arith, (=?_iff k m).0)

stamped_of :
    (policy : PeerRegistryPolicy) (reg : PeerRegistryFile)
    → is_unstamped policy reg ≡ false
    → (policy.require_freshness_fields ≡ false)
      ⊎ ((unwrap_or 0 reg.issued_at_ms ≢ 0) × (unwrap_or 0 reg.expires_at_ms ≢ 0))
unfolding is_unstamped
stamped_of policy reg h = elim (Bool-cases policy.require_freshness_fields) [
  | inr e ↦ inl e
  | inl e ↦ inr (λ z. ground (arith, e, z, h), λ z. ground (arith, e, z, h))
]

check_policy-IsFresh :
    (policy : PeerRegistryPolicy) (reg : PeerRegistryFile)
    → check_policy policy reg ≡ ok tt
    → IsFresh policy reg
unfolding check_policy is_unsupported is_unstamped is_early is_expired is_too_old
check_policy-IsFresh policy reg h =
    let (a, h1) = refuse_ok (is_unsupported policy reg) _ _ h in
    let (b, h2) = refuse_ok (is_unstamped policy reg) _ _ h1 in
    let (c, h3) = refuse_ok (is_early policy reg) _ _ h2 in
    let (d, h4) = refuse_ok (is_expired policy reg) _ _ h3 in
    let (e, h5) = refuse_ok (is_too_old policy reg) _ _ h4 in
    let f = refuse_last (is_foreign policy.expected_network reg.network) _ h5 in
    record {
      version_one = ground (arith, a);
      version_enough = ground (arith, a);
      stamped = stamped_of policy reg b;
      issued_le = ground (arith, c);
      not_expired = ground (arith, d);
      not_old = ground (arith, e);
      same_network = same_network_of policy.expected_network reg.network f;
    }

module _ {PeerId : Type 0} ⦃o : Ord PeerId⦄ (loader : Loader PeerId) where
  parse_hex_32-ok :
      (s : Text) (pk : Bytes)
      → parse_hex_32 loader s ≡ ok pk
      → (loader.hex_decode (trim s) ≡ some pk) × (length pk ≡ 32)
  unfolding parse_hex_32
  parse_hex_32-ok s pk h =
      let (bytes, d, k) = bind_ok (ok_or (loader.hex_decode (trim s)) bad_pubkey) _ h in
      let (c, e) = refuse_ok (not (length bytes == 32)) _ _ k in
      let same : bytes ≡ pk = cc e in
      subst (λ x. (loader.hex_decode (trim s) ≡ some x) × (length x ≡ 32)) same
        (ok_or_ok (loader.hex_decode (trim s)) bad_pubkey d, ground (arith, c))

  parse_sig_64-ok :
      (s : Text) (sig : Bytes)
      → parse_sig_64 loader s ≡ ok sig
      → (loader.hex_decode (trim s) ≡ some sig) × (length sig ≡ 64)
  unfolding parse_sig_64
  parse_sig_64-ok s sig h =
      let (bytes, d, k) = bind_ok (ok_or (loader.hex_decode (trim s)) bad_signature) _ h in
      let (c, e) = refuse_ok (not (length bytes == 64)) _ _ k in
      let same : bytes ≡ sig = cc e in
      subst (λ x. (loader.hex_decode (trim s) ≡ some x) × (length x ≡ 64)) same
        (ok_or_ok (loader.hex_decode (trim s)) bad_signature d, ground (arith, c))

  check_signature-verify :
      (pk msg sig : Bytes)
      → check_signature loader pk msg sig ≡ ok tt
      → loader.verify pk msg sig ≡ true
  unfolding check_signature verify_sig_bytes64 verify_pubkey_bytes
  check_signature-verify pk msg sig h = ground arith

  -- What an accepted registry went through: the file that was read and parsed under the policy,
  -- its peers without repetition, and the signature of the pinned key on exactly these.
  pub record Accepted (path pubkey_hex : Text) (policy : PeerRegistryPolicy) (result : List Text)
      : Type 0 where
    pub raw : Text
    pub reg : PeerRegistryFile
    pub peers : BtreeSet PeerId
    pub pk : Bytes
    pub msg : Bytes
    pub sig : Bytes
    pub was_read : loader.read_to_string path ≡ some raw
    pub was_parsed : loader.from_toml raw ≡ some reg
    pub fresh : IsFresh policy reg
    pub decoded : List PeerId
    pub peers_decoded : Decodes loader reg.peers decoded
    pub peers_eq : peers ≡ insert_all loader decoded []
    pub key_parsed : loader.hex_decode (trim pubkey_hex) ≡ some pk
    pub key_length : length pk ≡ 32
    pub signature_parsed : loader.hex_decode (trim reg.signature_hex) ≡ some sig
    pub signature_length : length sig ≡ 64
    pub message : IsMessage reg result msg
    pub verified : loader.verify pk msg sig ≡ true
    pub result_eq : result ≡ map loader.to_base58 (keys peers)

  -- A registry is accepted only when its file has version 1, which is at least the policy's
  -- minimum, has both its times where the policy requires them, is issued, not expired and not too
  -- old at the policy's time, and is of the expected network; when every peer on its list decodes;
  -- and when it carries a 64-byte signature that verifies with the pinned 32-byte key on the lines
  -- of its version, its network, its two times and its peers as a set. These peers are what is
  -- returned.
  pub load-Accepted :
      (path pubkey_hex : Text) (policy : PeerRegistryPolicy) (result : List Text)
      → load_and_verify_peer_registry loader path pubkey_hex policy ≡ ok result
      → Accepted path pubkey_hex policy result
  unfolding load_and_verify_peer_registry
  load-Accepted path pubkey_hex policy result h =
      let (pk, k, h1) = bind_ok (parse_hex_32 loader pubkey_hex) _ h in
      let (raw, r, h2) = bind_ok (ok_or (loader.read_to_string path) read) _ h1 in
      let (reg, t, h3) = bind_ok (ok_or (loader.from_toml raw) parse) _ h2 in
      let (u, p, h4) = bind_ok (check_policy policy reg) _ h3 in
      let (peers, q, h5) = bind_ok (parse_peers loader reg.peers []) _ h4 in
      let (sig, s, h6) = bind_ok (parse_sig_64 loader reg.signature_hex) _ h5 in
      let (msg, m, h7) = bind_ok (canonical_bytes loader reg peers) _ h6 in
      let (w, v, h8) = bind_ok (check_signature loader pk msg sig) _ h7 in
      let (sd, sl) = parse_sig_64-ok reg.signature_hex sig s in
      let (ps, all, set) = parse_peers-Decodes loader reg.peers [] peers q in
      let listed : map loader.to_base58 (keys peers) ≡ result = ok_inj h8 in
      let (kd, kl) = parse_hex_32-ok pubkey_hex pk k in
      record {
        raw = raw;
        reg = reg;
        peers = peers;
        pk = pk;
        msg = msg;
        sig = sig;
        was_read = ok_or_ok (loader.read_to_string path) read r;
        was_parsed = ok_or_ok (loader.from_toml raw) parse t;
        fresh = check_policy-IsFresh policy reg p;
        decoded = ps;
        peers_decoded = all;
        peers_eq = set;
        key_parsed = kd;
        key_length = kl;
        signature_parsed = sd;
        signature_length = sl;
        message =
            subst (λ x. IsMessage reg x msg) listed
              (canonical_bytes-IsMessage loader reg peers msg m);
        verified = check_signature-verify pk msg sig v;
        result_eq = sym listed;
      }
