-- ===== src/Types/Config.antt =====
-- src/core/types.rs: the node's configuration. No code of the repository reads it yet.
use amunchain.Base.{ℕ, Bool, List, Option}
use amunchain.Strings.{Text}

pub record NodeSettings : Type 0 where
  pub name : Text
  pub data_dir : Text

pub record HttpConfig : Type 0 where
  pub listen_addr : Text

pub record NodeP2pConfig : Type 0 where
  pub listen_addr : Text
  pub topic : Text
  pub max_msg_per_sec : ℕ
  pub max_peers_per_ip : ℕ
  pub bootstrap : List Text
  pub allow_peers : List Text
  pub require_allow_peers : Bool
  pub peer_registry_path : Option Text
  pub peer_registry_pubkey_hex : Option Text
  pub peer_registry_min_version : ℕ
  pub peer_registry_max_age_ms : ℕ
  pub peer_registry_grace_ms : ℕ
  pub peer_registry_require_fresh : Bool

pub record ConsensusConfig : Type 0 where
  pub validators_hex : List Text

pub record NodeConfig : Type 0 where
  pub node : NodeSettings
  pub http : HttpConfig
  pub p2p : NodeP2pConfig
  pub consensus : ConsensusConfig
