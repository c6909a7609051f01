-- ===== src/P2p/Spawn.antt =====
-- src/networking/p2p.rs: `spawn_p2p`, from the data directory to the start of the loop.
use amunchain.Base.{ℕ, Bool, Option, none, some, List, ok, err, if◌then◌else◌}
use amunchain.Order.{Ord}
use amunchain.Paths.{FilePath}
use amunchain.Disk.{Io, ◌>>=◌, ◌>>◌, lift, must, create_dir_all}
use amunchain.P2pIdentity.{Libp2pKeys, load_or_create_identity}
use amunchain.P2p.Handle.{P2pNode, new_node}
use amunchain.P2p.{Libp2p, P2pConfig, P2pError, P2pLoop, io, start_task, start_loop}

-- `ensure_dir`; whether the directory exists is an argument.
unfoldable pub ensure_dir : Bool → FilePath → Io P2pError (Unit {0})
unfolding create_dir_all
ensure_dir has_dir path = if has_dir then lift (ok tt) else must io (create_dir_all path)

-- `load_or_create_identity` under the error of this module.
abbrev pub identity_or_io :
    {PeerId Keypair : Type 0}
    → Libp2pKeys PeerId Keypair
    → Keypair
    → FilePath
    → Io P2pError (PeerId × Keypair)
identity_or_io keys new_key dir d =
    let (r, d') = load_or_create_identity keys new_key dir d in
    (elim r [ ok found ↦ ok found | err _ ↦ err io ], d')

module _ {PeerId Addr Keypair : Type 0} ⦃o : Ord PeerId⦄ (keys : Libp2pKeys PeerId Keypair) where
  -- The identity that `spawn_p2p` finds, the handle that it returns, and what it starts: `none` is
  -- a task that returned before its loop, else the loop's first state. `net` depends on the key
  -- pair, which the transport uses.
  unfoldable pub spawn_p2p :
      (Keypair → Libp2p PeerId Addr)
      → Bool
      → Keypair
      → (banned invalid : ℕ) → P2pConfig
      → Io P2pError (PeerId × P2pNode × Option (List Addr × P2pLoop PeerId))
  unfolding ensure_dir load_or_create_identity start_task start_loop
  spawn_p2p net has_dir new_key banned invalid cfg = do
    ensure_dir has_dir cfg.data_dir
    found ← identity_or_io keys new_key cfg.data_dir
    let task : Option (List Addr × P2pLoop PeerId) = elim (start_task (net found.1) cfg) [
      | none ↦ none
      | some addrs ↦ some (addrs, start_loop (net found.1) cfg banned invalid)
    ]
    lift (ok (found.0, new_node, task))
