-- ===== src/PeerRegistry.antt =====
-- src/networking/peer_registry.rs: the signed list of peers, and the policy that a node applies to
-- it before use. The file system, the `toml`, `hex` and `bs58` crates, the peer identities of
-- `libp2p` and the `ring` verifier are parameters.
pub mod Message
pub mod Decoded
pub mod Accepted
use amunchain.Base.{
  ℕ, ◌-◌, Bytes, Bool, true, false, not, ◌&&◌, ◌||◌, Option, none, some, List, [], ◌∷◌, ◌++◌, map,
  length, Result, ok, err, ok_or, unwrap_or, ltb, ◌==◌, if◌then◌else◌, sat_add, u64_max,
}
use amunchain.Order.{Ord, ◌=?◌, bytes_ord}
use amunchain.BtreeMap.{BtreeSet, keys, insert}
use amunchain.Keystore.{Verifier, verify_sig_bytes64}
use amunchain.Results.{◌>>=◌, ◌>>◌, refuse}
use amunchain.Strings.{ascii, Text, trim, as_bytes, decimal}

pub data PeerRegistryError : Type 0 where
  read parse bad_pubkey bad_signature invalid_peer unsupported_version : PeerRegistryError
  not_yet_valid expired too_old network_mismatch missing_field : PeerRegistryError

pub record PeerRegistryPolicy : Type 0 where
  pub now_ms : ℕ
  pub max_age_ms : ℕ
  pub grace_ms : ℕ
  pub min_version : ℕ
  pub expected_network : Option Text
  pub require_freshness_fields : Bool

-- `PeerRegistryPolicy::default_with_now`
unfoldable pub default_with_now : ℕ → PeerRegistryPolicy
default_with_now now_ms = record {
  now_ms = now_ms;
  max_age_ms = 0;
  grace_ms = 0;
  min_version = 0;
  expected_network = none;
  require_freshness_fields = true;
}

pub record PeerRegistryFile : Type 0 where
  pub version : ℕ
  pub network : Option Text
  pub issued_at_ms : Option ℕ
  pub expires_at_ms : Option ℕ
  pub peers : List Text
  pub signature_hex : Text

-- What the code calls in other crates and in the system; `none` is an error.
pub record Loader (PeerId : Type 0) : Type 0 where
  pub read_to_string : Text → Option Text
  pub from_toml : Text → Option PeerRegistryFile
  pub hex_decode : Text → Option Bytes
  pub bs58_decode : Text → Option Bytes
  pub peer_from_bytes : Bytes → Option PeerId
  pub to_base58 : PeerId → Text
  pub verify : Verifier

-- The tests that `load_and_verify_peer_registry` makes of a parsed file, in order.
unfoldable pub is_unsupported : PeerRegistryPolicy → PeerRegistryFile → Bool
is_unsupported policy reg =
    not (reg.version == 1) || (not (policy.min_version == 0) && ltb reg.version policy.min_version)

unfoldable pub is_unstamped : PeerRegistryPolicy → PeerRegistryFile → Bool
is_unstamped policy reg =
    policy.require_freshness_fields
    && (unwrap_or 0 reg.issued_at_ms == 0 || unwrap_or 0 reg.expires_at_ms == 0)

unfoldable pub is_early : PeerRegistryPolicy → PeerRegistryFile → Bool
is_early policy reg =
    let issued = unwrap_or 0 reg.issued_at_ms in not (issued == 0) && ltb policy.now_ms issued

unfoldable pub is_expired : PeerRegistryPolicy → PeerRegistryFile → Bool
is_expired policy reg =
    let expires = unwrap_or 0 reg.expires_at_ms in
    not (expires == 0) && ltb (sat_add u64_max expires policy.grace_ms) policy.now_ms

unfoldable pub is_too_old : PeerRegistryPolicy → PeerRegistryFile → Bool
is_too_old policy reg =
    let issued = unwrap_or 0 reg.issued_at_ms in
    (not (policy.max_age_ms == 0) && not (issued == 0))
    && ltb policy.max_age_ms (policy.now_ms - issued)

unfoldable pub is_foreign : Option Text → Option Text → Bool
is_foreign none network = false
is_foreign (some expected) none = true
is_foreign (some expected) (some n) = not (n =? expected)

unfoldable pub check_policy :
    PeerRegistryPolicy → PeerRegistryFile → Result PeerRegistryError (Unit {0})
unfolding is_unsupported is_unstamped is_early is_expired is_too_old is_foreign
check_policy policy reg = do
  refuse (is_unsupported policy reg) unsupported_version
  refuse (is_unstamped policy reg) missing_field
  refuse (is_early policy reg) not_yet_valid
  refuse (is_expired policy reg) expired
  refuse (is_too_old policy reg) too_old
  refuse (is_foreign policy.expected_network reg.network) network_mismatch

module _ {PeerId : Type 0} ⦃o : Ord PeerId⦄ (loader : Loader PeerId) where
  unfoldable pub parse_hex_32 : Text → Result PeerRegistryError Bytes
  unfolding trim
  parse_hex_32 s = do
    bytes ← ok_or (loader.hex_decode (trim s)) bad_pubkey
    refuse (not (length bytes == 32)) bad_pubkey
    ok bytes

  unfoldable pub parse_sig_64 : Text → Result PeerRegistryError Bytes
  unfolding trim
  parse_sig_64 s = do
    bytes ← ok_or (loader.hex_decode (trim s)) bad_signature
    refuse (not (length bytes == 64)) bad_signature
    ok bytes

  unfoldable pub peer_lines : List PeerId → Bytes
  peer_lines [] = []
  peer_lines (p ∷ ps) = as_bytes (loader.to_base58 p) ++ (10 ∷ peer_lines ps)

  unfoldable pub canonical_bytes :
      PeerRegistryFile → BtreeSet PeerId → Result PeerRegistryError Bytes
  unfolding as_bytes decimal peer_lines
  canonical_bytes reg peers = do
    refuse (not (reg.version == 1)) unsupported_version
    net ← ok_or reg.network missing_field
    issued ← ok_or reg.issued_at_ms missing_field
    expires ← ok_or reg.expires_at_ms missing_field
    ok (
        ascii "v1\n"
        ++ (ascii "network="
            ++ (as_bytes net
                ++ (ascii "\nissued_at_ms="
                    ++ (as_bytes (decimal issued)
                        ++ (ascii "\nexpires_at_ms="
                            ++ (as_bytes (decimal expires)
                                ++ (ascii "\npeers\n" ++ peer_lines (keys peers)))))))))

  -- The loop over the listed peers.
  unfoldable pub parse_peers :
      List Text → BtreeSet PeerId → Result PeerRegistryError (BtreeSet PeerId)
  parse_peers [] peers = ok peers
  parse_peers (s ∷ ss) peers =
      elim (ok_or (loader.bs58_decode s) invalid_peer >>= λ bytes.
      ok_or (loader.peer_from_bytes bytes) invalid_peer) [
        | err e ↦ err e
        | ok p ↦ parse_peers ss (insert p tt peers)
      ]

  unfoldable pub check_signature : Bytes → Bytes → Bytes → Result PeerRegistryError (Unit {0})
  unfolding verify_sig_bytes64
  check_signature pk msg sig = elim (verify_sig_bytes64 loader.verify pk msg sig) [
    | err _ ↦ err bad_signature
    | ok _ ↦ ok tt
  ]

  -- `load_and_verify_peer_registry`
  unfoldable pub load_and_verify_peer_registry :
      Text → Text → PeerRegistryPolicy → Result PeerRegistryError (List Text)
  unfolding parse_hex_32 parse_sig_64 check_policy parse_peers canonical_bytes check_signature
  load_and_verify_peer_registry path pubkey_hex policy = do
    pk ← parse_hex_32 pubkey_hex
    raw ← ok_or (loader.read_to_string path) read
    reg ← ok_or (loader.from_toml raw) parse
    check_policy policy reg
    peers ← parse_peers reg.peers []
    sig ← parse_sig_64 reg.signature_hex
    msg ← canonical_bytes reg peers
    check_signature pk msg sig
    ok (map loader.to_base58 (keys peers))

  -- `parse_peer_registry_toml`
  unfoldable pub parse_peer_registry_toml : Text → Result PeerRegistryError (Unit {0})
  parse_peer_registry_toml raw = do reg ← ok_or (loader.from_toml raw) parse; ok tt

  -- `load_and_verify_peer_registry_now`; `now` is the reading of the clock.
  unfoldable pub load_and_verify_peer_registry_now :
      ℕ → Text → Text → PeerRegistryPolicy → Result PeerRegistryError (List Text)
  unfolding load_and_verify_peer_registry
  load_and_verify_peer_registry_now now path pubkey_hex policy =
      load_and_verify_peer_registry path pubkey_hex
        (record policy { now_ms = if policy.now_ms == 0 then now else policy.now_ms })
