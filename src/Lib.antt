-- ===== src/Lib.antt =====
-- Amunchain: a node of a blockchain with a finality gadget. This library models the parts that hold
-- its logic and proves what makes them correct.
--
-- Parts, with the Rust file that each module models (paths from the repository's root):
--   Types                     src/core/types.rs: identities, votes, commits, capped decoding,
--                             configuration
--   Signing                   src/core/consensus/signing.rs: the bytes that a vote's signature covers
--   Keystore                  src/core/security/keystore.rs: signature verification, rate limiter,
--                             key files, the audit log and signing
--   Tide                      src/core/consensus/tide.rs: votes, replay protection, double votes,
--                             commits and their verification
--   Driver                    src/core/consensus/driver.rs: messages fed to the finalizer
--   Hydro                     src/core/consensus/hydro.rs: slot window, transcript, difficulty
--   Merkle                    src/core/state/merkle.rs: roots and inclusion proofs
--   PersistentState           src/core/state/persistent_state.rs: the state over a database
--   Staking                   src/core/economics/staking.rs: bonding, unbonding, slashing, rewards
--   PeerRegistry              src/networking/peer_registry.rs: the signed allowlist of peers
--   P2p                       src/networking/p2p.rs: the allowlist and the event loop
--   P2pIdentity               src/networking/p2p_identity.rs: the network identity in its file
--   PeerScore                 src/networking/peer_score.rs: scores, decay and bans
--   Node                      src/main.rs: the configuration and the start of the network task
--   Executor                  src/core/runtime/executor.rs: the placeholder of the executor
--   Clock                     the readings of the clocks in tide.rs, peer_registry.rs, peer_score.rs
--   Keygen                    src/bin/keygen.rs: the key generator
--   Metrics                   src/monitoring/metrics.rs: the creation of the metrics
-- Base, Order and BtreeMap hold what they share: words and their saturating arithmetic, Rust's
-- `Ord` with its laws, and `BTreeMap` as a sorted list of entries. Results chains fallible steps,
-- Strings, Paths and Ints stand for Rust's strings, paths and signed integers, and Disk for
-- `std::fs`: a disk is its files and the outcomes of the calls to come, so that a theorem over
-- every disk covers every call that fails. Tests holds concrete inputs.
--
-- The driver passes a vote to Tide's `process_vote_verified`, which checks the voter, the
-- freshness, the replay counter and the signature over Signing's bytes, stores the vote, and
-- returns a commit once a block has a quorum; another node passes that commit to
-- `process_commit_verified`. A call is a function from the state to its result and the new state,
-- so what was written before an error stays written. Where the source takes `&self` with interior
-- state (the slashing hook), the state is a value that is returned. Functions and records keep the
-- source's names; an instance or a helper says which part of a function it is.
--
-- The network task is a loop over events. A run is a sequence of events that the loop handled and
-- of values that others received from its two bounded channels, in any order; while the loop waits
-- for room in a channel it handles nothing. An event from the outbound channel carries the outcome
-- that a call of gossipsub's `publish` has in that turn, and the loop keeps every such call with
-- its outcome. The handle of the task holds the ends of its channels, and the node binary keeps
-- it. The keystore's calls and the identity's are functions on the disk.
--
-- A ledger's history is a list of calls on an empty ledger, with a tally of the amounts that came
-- in and went out. The state's contents are a function from keys to values; a replica's history is
-- a sequence of successful commits.
--
-- Parameters: `ring` (SHA-256, PBKDF2, AES-256-GCM, Ed25519), `bincode`, `toml`, `hex`, `bs58`,
-- `libp2p` (peer identities, keys, addresses), `prometheus`, the `sled` database, the environment
-- and random bytes are arguments. Assumed of them, where a theorem needs it: a digest has 32
-- bytes; what `bincode` serializes within the limit is read back, and so is an encoded network
-- key; the cipher opens what it sealed and appends a tag of 16 bytes; a signature has 64 bytes and
-- verifies under its pair's public key, of 32 bytes; the random generator fills the arrays that it
-- is given; a PKCS#8 key does not start like an encrypted file; a sled transaction that commits
-- ran its body on the contents of the database and leaves what the body left, an aborted one
-- changes nothing, one that an error of the storage breaks off is applied as a whole or not at
-- all, and an iteration without an error shows each key once with its value; new counters are at
-- 0. The clock's reading is an argument of every call that takes it.
--
-- Bounds and fuel: an unsigned machine integer is a natural number; saturating operations stop at
-- the written maximum, and a theorem that needs a field in range says so. The Merkle loops take
-- the number of leaves as fuel, which is enough because every round halves the level, rounded up
-- (Merkle.Tree).
-- Decimal notation has twenty digits, which a 64-bit number does not exceed. An `i32` is an
-- integer; its plain operations wrap, as in a release build. A string of digits is parsed up to
-- the maximum of its type.
--
-- Not modelled: logging, file permissions, directories and the overwriting of sensitive memory. Of
-- the network task, the receivers of its channels are taken to live as long as the loop.
pub mod Base
pub mod Results
pub mod Strings
pub mod Paths
pub mod Ints
pub mod P2pIdentity
pub mod P2p
pub mod Node
pub mod Keygen
pub mod Metrics
pub mod PeerScore
pub mod Disk
pub mod Order
pub mod BtreeMap
pub mod Types
pub mod Keystore
pub mod Signing
pub mod Tide
pub mod Driver
pub mod Executor
pub mod Clock
pub mod Merkle
pub mod Staking
pub mod PersistentState
pub mod Tests
pub mod Hydro
pub mod PeerRegistry
