-- ===== src/Node.antt =====
-- src/main.rs: what the node makes of its environment before it starts the network task. The
-- notation of a peer identity is a parameter.
pub mod Bootstrap
pub mod Main
pub mod Guarded
use amunchain.Base.{
  ℕ, ◌+◌, Bytes, Bool, true, false, ◌&&◌, Option, none, some, List, [], ◌∷◌, ◌++◌, ◌==◌, leb,
  Result, ok, err, if◌then◌else◌, unwrap_or,
}
use amunchain.Strings.{Text, ascii, decimal, parse_unsigned, strip_prefix}
use amunchain.Paths.{Env, FilePath}
use amunchain.Disk.{Disk}
use amunchain.P2p.{P2pConfig}
use amunchain.P2pIdentity.{Libp2pKeys, load_or_create_identity}

-- `env`: a variable or its default.
abbrev pub env_or : Env → Text → Text → Text
env_or env key default = unwrap_or default (env key)

-- `Path::components`, up to the root and empty or dot components, which no index is read from.
unfoldable pub components : Text → List Text
components [] = [] ∷ []
components (c ∷ cs) =
    let rest = components cs in
    if c == 47
    then [] ∷ rest
    else elim rest [ [] ↦ (c ∷ []) ∷ [] | part ∷ parts ↦ (c ∷ part) ∷ parts ]

-- The index that one component holds.
unfoldable pub index_of : Text → Option ℕ
unfolding strip_prefix parse_unsigned
index_of part = elim (strip_prefix (ascii "node") part) [
  | none ↦ none
  | some rest ↦ elim (parse_unsigned 65_535 rest) [
    | none ↦ none
    | some n ↦ if leb 1 n && leb n 99 then some n else none
  ]
]

unfoldable pub first_index : List Text → ℕ
unfolding index_of
first_index [] = 1
first_index (part ∷ parts) =
    let rest = first_index parts in elim (index_of part) [ none ↦ rest | some n ↦ n ]

unfoldable pub node_index_from_data_dir : Text → ℕ
unfolding components first_index
node_index_from_data_dir data_dir = first_index (components data_dir)

abbrev pub data_dir_of : Env → Text
data_dir_of env = env_or env (ascii "AMUN_DATA_DIR") (ascii "./data")

abbrev pub node1_data_dir : FilePath
node1_data_dir = ascii "/srv/amunchain/node1/data"

-- The four peers that the node allows.
abbrev pub fixed_allow_peers : List Text
fixed_allow_peers =
    ascii "12D3KooWLh9S2QyVMgQgHmuzu2tCA6KsL9mpNgnvoiA1SQ9nHnMA"
    ∷ ascii "12D3KooWLCZAkdjaD7FAT65FvUhwHVC5RBvYRTDZ6QXCbks7ZTaJ"
    ∷ ascii "12D3KooWS9xDuptBksMQs7hAvKAJQhW5G9wYYVg7yemgGSZkQxWX"
    ∷ ascii "12D3KooWEdXmay5QGhLnJnuDD9Wt2M3v2ADEjmEHFsN33XkTaTN4"
    ∷ []

abbrev pub p2p_port : ℕ → ℕ
p2p_port node_idx = 4000 + node_idx

abbrev pub bootstrap_addr : {PeerId : Type 0} → (PeerId → Text) → PeerId → Text
bootstrap_addr display p = ascii "/ip4/127.0.0.1/tcp/4001/p2p/" ++ display p

module _ {PeerId Keypair : Type 0} (keys : Libp2pKeys PeerId Keypair)
    (display : PeerId → Text) where
  -- The bootstrap list, with the disk after the look into the first node's directory; `new_key` is
  -- the key that is generated when there is none.
  unfoldable pub bootstrap_list : Keypair → ℕ → Disk → List Text × Disk
  unfolding load_or_create_identity
  bootstrap_list new_key node_idx d =
      let (r, d') = load_or_create_identity keys new_key node1_data_dir d in
      if node_idx == 1
      then ([], d)
      else (elim r [ ok (p, kp) ↦ bootstrap_addr display p ∷ [] | err e ↦ [] ], d')

  -- The configuration that `main` starts the network task with.
  unfoldable pub node_config : Env → Keypair → Disk → P2pConfig × Disk
  unfolding node_index_from_data_dir bootstrap_list decimal
  node_config env new_key d =
      let data_dir = data_dir_of env in
      let node_idx = node_index_from_data_dir data_dir in
      let (bootstrap, d') = bootstrap_list new_key node_idx d in
      (
        record {
          listen_addr = ascii "/ip4/0.0.0.0/tcp/" ++ decimal (p2p_port node_idx);
          consensus_topic = env_or env (ascii "AMUN_P2P_TOPIC") (ascii "amunchain-consensus");
          max_msg_per_sec = 200;
          max_peers_per_ip = 4;
          data_dir = data_dir;
          bootstrap = bootstrap;
          allow_peers = fixed_allow_peers;
        },
        d',
      )
