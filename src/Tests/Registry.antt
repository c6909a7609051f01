-- ===== src/Tests/Registry.antt =====
-- The theorems on the peer registry and the slot clock, applied to small inputs.
use amunchain.Base.{
  ◌≡◌, ◌↔◌, ◌<◌, refl, ℕ, Bytes, [], ◌∷◌, Option, none, some, ok, true, arith, zero, suc,
}
use amunchain.Order.{nat_ord}
use amunchain.BtreeMap.{insert}
use amunchain.Types.{H256}
use amunchain.Hydro.{HydroConfig, verify_difficulty}
use amunchain.Hydro.Laws.{from_be_bytes, verify_difficulty_numeric}
use amunchain.Keystore.{verify_sig_bytes64, verify_pubkey_bytes}
use amunchain.PeerRegistry.{
  PeerRegistryFile, PeerRegistryPolicy, Loader, load_and_verify_peer_registry, peer_lines,
}
use amunchain.Strings.{Text, trim, as_bytes, decimal}
use amunchain.PeerRegistry.Accepted.{Accepted, load-Accepted}
use amunchain.Tests.{replicate, starts_with_one}

abbrev slots : HydroConfig
slots = record {
  genesis_time_ms = 1_000;
  slot_ms = 500;
  skew_ms = 20;
  epoch_randomness = replicate 32 9;
}

abbrev low : H256
low = record { bytes = 0 ∷ 255 ∷ [] }

abbrev target : Bytes
target = 1 ∷ 0 ∷ []

verify_difficulty_numeric_example :
    (verify_difficulty low target ≡ ok tt) ↔ (from_be_bytes low.bytes < from_be_bytes target)
verify_difficulty_numeric_example =
    verify_difficulty_numeric low target (omega arith, (omega arith, tt))
      (omega arith, (omega arith, tt)) refl

abbrev seven : ℕ
seven = 7

-- A registry of two peers on network `n`, with the key and the signature as one repeated character.
abbrev file : PeerRegistryFile
file = record {
  version = 1;
  network = some (110 ∷ []);
  issued_at_ms = some 50;
  expires_at_ms = some 90;
  peers = (52 ∷ []) ∷ (51 ∷ []) ∷ (52 ∷ []) ∷ [];
  signature_hex = 1 ∷ [];
}

abbrev head_of : Text → ℕ
head_of [] = 0
head_of (c ∷ cs) = c

-- A peer is a number, written as one character; hexadecimal text is decoded to the key or to the
-- signature by its first character.
abbrev hex : Text → Option Bytes
hex [] = none
hex (zero ∷ cs) = some (replicate 32 1)
hex (suc c ∷ cs) = some (replicate 64 1)

abbrev loader : Loader ℕ
loader = record {
  read_to_string = λ path. some path;
  from_toml = λ raw. some file;
  hex_decode = hex;
  bs58_decode = λ s. some s;
  peer_from_bytes = λ bytes. some (head_of bytes);
  to_base58 = λ p. p ∷ [];
  verify = λ pk msg sig. starts_with_one sig;
}

abbrev policy : PeerRegistryPolicy
policy = record {
  now_ms = 95;
  max_age_ms = 60;
  grace_ms = 10;
  min_version = 1;
  expected_network = some (110 ∷ []);
  require_freshness_fields = true;
}

abbrev pinned : Text
pinned = 0 ∷ []

load-Accepted_example : Accepted loader (112 ∷ []) pinned policy ((51 ∷ []) ∷ (52 ∷ []) ∷ [])
unfolding load_and_verify_peer_registry trim insert as_bytes decimal peer_lines verify_sig_bytes64
    verify_pubkey_bytes
load-Accepted_example =
    load-Accepted loader (112 ∷ []) pinned policy ((51 ∷ []) ∷ (52 ∷ []) ∷ []) refl
