-- ===== src/Node/Main.antt =====
-- src/main.rs: `main`, from its environment to the network task that it waits for. The `prometheus`
-- crate, libp2p, the disk and the newly generated keys are parameters. New counters are at 0.
use amunchain.Types.{ConsensusMsg}
use amunchain.Base.{ℕ, Bool, Option, some, List, [], ◌∷◌, ◌++◌, ok, err, ◌≡◌}
use amunchain.Order.{Ord}
use amunchain.Strings.{Text}
use amunchain.Paths.{Env}
use amunchain.Disk.{Disk}
use amunchain.Metrics.{Prometheus, new_metrics}
use amunchain.P2pIdentity.{Libp2pKeys}
use amunchain.P2p.{
  Libp2p, P2pEvent, P2pLoop, LoopEvent, IsSwarmEvent, outbound, running, on_event, recv_event,
}
use amunchain.P2p.Spawn.{spawn_p2p}
use amunchain.P2p.Handle.{P2pNode, poll_outbound}
use amunchain.Node.{node_config}

-- `expect` panics, an error of `spawn_p2p` ends the process with a code, else the task has started
-- and `main` keeps the handle, its `_node`, while it waits for the task.
pub data Outcome (PeerId Addr : Type 0) : Type 0 where
  panicked : Outcome PeerId Addr
  exited : (code : ℕ) → Outcome PeerId Addr
  started : PeerId → P2pNode → Option (List Addr × P2pLoop PeerId) → Outcome PeerId Addr

module _ {PeerId Addr Keypair Registry Gauge Counter : Type 0} ⦃o : Ord PeerId⦄
    (prom : Prometheus Registry Gauge Counter) (keys : Libp2pKeys PeerId Keypair)
    (display : PeerId → Text) (net : Libp2p PeerId Addr) where
  -- `has_dir` says whether the data directory exists; `node1_key` and `own_key` are the keys that
  -- are generated where an identity is missing.
  unfoldable pub main :
      Env → (has_dir : Bool) → (node1_key own_key : Keypair) → Disk → Outcome PeerId Addr × Disk
  unfolding node_config new_metrics spawn_p2p
  main env has_dir node1_key own_key d =
      let (cfg, d1) = node_config keys display env node1_key d in
      elim (new_metrics prom) [
        | err _ ↦ (panicked, d1)
        | ok _ ↦
            let (r, d2) = spawn_p2p keys (λ _. net) has_dir own_key 0 0 cfg d1 in
            (elim r [ ok (p, node, task) ↦ started p node task | err _ ↦ exited 1 ], d2)
      ]

module _ {PeerId Addr : Type 0} ⦃o : Ord PeerId⦄ (net : Libp2p PeerId Addr) where
  -- While `main` waits for the task that started in `s0` and keeps the handle `h0`: the loop takes
  -- what the swarm reports and what the outbound channel gives, and the event task takes events and
  -- logs them. `main` itself neither clones, drops nor uses the handle.
  pub data Waiting (s0 : P2pLoop PeerId) (h0 : P2pNode)
      : List (LoopEvent PeerId) → List P2pEvent → P2pLoop PeerId → P2pNode → Type 0 where
    begun : Waiting s0 h0 [] [] s0 h0
    turned :
        {es : List (LoopEvent PeerId)} {vs : List P2pEvent} {s : P2pLoop PeerId} {h : P2pNode}
        (e : LoopEvent PeerId)
        → IsSwarmEvent e
        → Waiting s0 h0 es vs s h
        → s.status ≡ running
        → Waiting s0 h0 (es ++ (e ∷ [])) vs (on_event net e s) h
    taken_out :
        {es : List (LoopEvent PeerId)} {vs : List P2pEvent} {s : P2pLoop PeerId} {h h' : P2pNode}
        {m : Option ConsensusMsg} (taken : Bool)
        → Waiting s0 h0 es vs s h
        → s.status ≡ running
        → poll_outbound h ≡ some (m, h')
        → Waiting s0 h0 (es ++ (outbound taken m ∷ [])) vs (on_event net (outbound taken m) s) h'
    logged :
        {es : List (LoopEvent PeerId)} {vs : List P2pEvent} {s s' : P2pLoop PeerId} {h : P2pNode}
        {v : P2pEvent}
        → Waiting s0 h0 es vs s h
        → recv_event s ≡ some (v, s')
        → Waiting s0 h0 es (vs ++ (v ∷ [])) s' h
