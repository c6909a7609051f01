-- ===== src/Node/Guarded.antt =====
-- src/main.rs with src/networking/p2p.rs: what the running node takes in.
use amunchain.Base.{
  ℕ, Bool, ◌≡◌, ◌≢◌, ◌∙◌, refl, sym, ap, inl, inr, ok, none, some, none≢some, some_inj, ok_inj,
  List, [], ◌∷◌, All, All-append, subst, Option, Option-cases, Bool-cases, Result-cases,
}
use amunchain.Order.{Ord}
use amunchain.Strings.{Text}
use amunchain.Paths.{Env}
use amunchain.Disk.{Disk, Io, lift, ◌>>=◌}
use amunchain.Disk.Laws.{bind_done}
use amunchain.Metrics.{Prometheus, new_metrics}
use amunchain.P2pIdentity.{Libp2pKeys}
use amunchain.P2p.{
  Libp2p, P2pError, P2pConfig, P2pEvent, P2pLoop, LoopEvent, Inbound, outbound, behaviour,
  gossipsub, message, new_listen_addr, connection_established, connection_closed, other_event,
  other_gossip, identify, ping, running, stopped, start_task, start_loop, build_allow_set,
  is_refused,
}
use amunchain.P2p.Run.{Run, start, handled, observed, held, accepted, accepted_one}
use amunchain.P2p.Delivered.{delivered_in_order}
use amunchain.P2p.Broadcast.{swarm_turn, recv_event-kept}
use amunchain.P2p.Allowlist.{Listed, NoneListed, is_refused_exact}
use amunchain.P2p.Spawn.{spawn_p2p, ensure_dir, identity_or_io}
use amunchain.Node.{node_config, fixed_allow_peers}
use amunchain.Node.Main.{started, main, Waiting, begun, turned, taken_out, logged}
use amunchain.P2p.Handle.{P2pNode, new_node, poll_outbound}

module _ {PeerId Addr : Type 0} ⦃o : Ord PeerId⦄ (net : Libp2p PeerId Addr) where
  -- What the node goes through is a run of the network task in which nothing is received.
  Waiting-Run :
      {cfg : P2pConfig} {h0 : P2pNode} {es : List (LoopEvent PeerId)} {vs : List P2pEvent}
      {s : P2pLoop PeerId} {h : P2pNode}
      → Waiting net (start_loop net cfg 0 0) h0 es vs s h
      → Run net cfg es [] vs s
  Waiting-Run begun = start 0 0
  Waiting-Run (turned e _ w r) = handled e (Waiting-Run w) r
  Waiting-Run (taken_out {m} taken w r e) = handled (outbound taken m) (Waiting-Run w) r
  Waiting-Run (logged w h) = observed (Waiting-Run w) h

  -- A message of a peer that the configuration lists.
  abbrev pub FromListed : List Text → Inbound → Type 0
  FromListed xs m = (p : PeerId) × Listed net p xs × (m.0 ≡ net.peer_bytes p)

  accepted_one-FromListed :
      (xs : List Text) (e : LoopEvent PeerId)
      → ¬ NoneListed net xs
      → All (FromListed xs) (accepted_one net (build_allow_set net xs) e)
  accepted_one-FromListed xs (behaviour (gossipsub (message p payload))) some' =
      elim (Bool-cases (is_refused (build_allow_set net xs) p)) [
        | inl e ↦ rw e tt
        | inr e ↦ elim (Option-cases (net.deserialize payload)) [
          | inl d ↦ rw (e, d) tt
          | inr (msg, d) ↦ elim ((is_refused_exact net p xs).0 e) [
            | inl n ↦ absurd (some' n)
            | inr l ↦ rw (e, d) ((p, l, refl), tt)
          ]
        ]
      ]
  accepted_one-FromListed xs (behaviour (gossipsub other_gossip)) some' = tt
  accepted_one-FromListed xs (behaviour identify) some' = tt
  accepted_one-FromListed xs (behaviour ping) some' = tt
  accepted_one-FromListed xs (outbound taken m) some' = tt
  accepted_one-FromListed xs new_listen_addr some' = tt
  accepted_one-FromListed xs (connection_established p) some' = tt
  accepted_one-FromListed xs (connection_closed p) some' = tt
  accepted_one-FromListed xs other_event some' = tt

  accepted-FromListed :
      (xs : List Text) (es : List (LoopEvent PeerId))
      → ¬ NoneListed net xs
      → All (FromListed xs) (accepted net (build_allow_set net xs) es)
  unfolding accepted
  accepted-FromListed xs [] some' = tt
  accepted-FromListed xs (e ∷ es) some' =
      All-append (FromListed xs) (accepted_one net (build_allow_set net xs) e)
        (accepted net (build_allow_set net xs) es) (accepted_one-FromListed xs e some')
        (accepted-FromListed xs es some')

  -- As long as the one sender is kept and not used, the outbound channel gives nothing.
  unused : (h : P2pNode) → h ≡ new_node → poll_outbound h ≡ none
  unused h e = ap poll_outbound e

  Waiting-new_node :
      {s0 : P2pLoop PeerId} {h0 : P2pNode} {es : List (LoopEvent PeerId)} {vs : List P2pEvent}
      {s : P2pLoop PeerId} {h : P2pNode}
      → h0 ≡ new_node
      → Waiting net s0 h0 es vs s h
      → h ≡ new_node
  Waiting-new_node k begun = k
  Waiting-new_node k (turned e u w r) = Waiting-new_node k w
  Waiting-new_node k (taken_out {h} taken w r e) =
      absurd (none≢some (sym (unused h (Waiting-new_node k w)) ∙ e))
  Waiting-new_node k (logged w e) = Waiting-new_node k w

  -- So the loop never finds that channel closed, and does not stop.
  Waiting-running :
      {s0 : P2pLoop PeerId} {h0 : P2pNode} {es : List (LoopEvent PeerId)} {vs : List P2pEvent}
      {s : P2pLoop PeerId} {h : P2pNode}
      → s0.status ≡ running
      → h0 ≡ new_node
      → Waiting net s0 h0 es vs s h
      → s.status ≢ stopped
  Waiting-running z k begun = λ q. cc (z, q)
  Waiting-running z k (turned {s} e u w r) = (swarm_turn net e s r u).1
  Waiting-running z k (taken_out {h} taken w r e) =
      absurd (none≢some (sym (unused h (Waiting-new_node k w)) ∙ e))
  Waiting-running z k (logged {s} {s'} {v} w e) =
      (recv_event-kept s s' v e).1 (Waiting-running z k w)

  module _ {Keypair : Type 0} (keys : Libp2pKeys PeerId Keypair) where
    -- A task that reaches its loop starts it from the configuration.
    spawn_p2p-loop :
        (has_dir : Bool) (key : Keypair) (banned invalid : ℕ) (cfg : P2pConfig) (d : Disk)
        (p : PeerId) (node : P2pNode) (addrs : List Addr) (s0 : P2pLoop PeerId)
        → (spawn_p2p keys (λ _. net) has_dir key banned invalid cfg d).0
          ≡ ok (p, node, some (addrs, s0))
        → (s0 ≡ start_loop net cfg banned invalid) × (node ≡ new_node)
    unfolding spawn_p2p
    spawn_p2p-loop has_dir key banned invalid cfg d p node addrs s0 h =
        let task : Option (List Addr × P2pLoop PeerId) = elim (start_task net cfg) [
          | none ↦ none
          | some a ↦ some (a, start_loop net cfg banned invalid)
        ] in
        let last : PeerId × Keypair
            → Io P2pError (PeerId × P2pNode × Option (List Addr × P2pLoop PeerId)) =
          λ found. lift (ok (found.0, new_node, task)) in
        let found = identity_or_io keys key cfg.data_dir in
        let (_, _, made) = bind_done (ensure_dir has_dir cfg.data_dir) (λ _. found >>= last) d h in
        let h' = sym (ap (λ x. x.0) made) ∙ h in
        let (who, _, known) = bind_done found last (ensure_dir has_dir cfg.data_dir d).1 h' in
        let end : (who.0, new_node, task) ≡ (p, node, some (addrs, s0)) =
          ok_inj (sym (ap (λ x. x.0) known) ∙ h') in
        let same : task ≡ some (addrs, s0) = ap (λ x. x.2) end in
        elim (Option-cases (start_task net cfg)) [
          | inl g ↦ absurd (none≢some (rw g at same))
          | inr (a, g) ↦
              let pair : (a, start_loop net cfg banned invalid) ≡ (addrs, s0) =
                some_inj (rw g at same) in
              (sym (ap (λ x. x.1) pair), sym (ap (λ x. x.1) end))
        ]

    pub main-started :
        {Registry Gauge Counter : Type 0} (prom : Prometheus Registry Gauge Counter)
        (display : PeerId → Text) (env : Env) (has_dir : Bool) (node1_key own_key : Keypair)
        (d : Disk) (p : PeerId) (node : P2pNode) (addrs : List Addr) (s0 : P2pLoop PeerId)
        → (main prom keys display net env has_dir node1_key own_key d).0
          ≡ started p node (some (addrs, s0))
        → (s0 ≡ start_loop net (node_config keys display env node1_key d).0 0 0) × (node ≡ new_node)
    unfolding main
    main-started prom display env has_dir node1_key own_key d p node addrs s0 h =
        let (cfg, d1) = node_config keys display env node1_key d in
        elim (Result-cases (new_metrics prom)) [
          | inr (x, e) ↦ absurd (cc (rw (main, e) at h))
          | inl (m, e) ↦
              elim (Result-cases (spawn_p2p keys (λ _. net) has_dir own_key 0 0 cfg d1).0) [
                | inr (x, f) ↦ absurd (cc (rw (main, e, f) at h))
                | inl ((q, made, task), f) ↦
                    let same : started q made task ≡ started p node (some (addrs, s0)) =
                      rw (main, e, f) at h in
                    let task' : task ≡ some (addrs, s0) = cc same in
                    let who : q ≡ p = cc same in
                    let kept : made ≡ node = cc same in
                    spawn_p2p-loop has_dir own_key 0 0 cfg d1 p node addrs s0
                      (rw (sym task', sym who, sym kept) f)
              ]
        ]

    -- Once the node binary has started its network task and the task has reached its loop, on
    -- whatever environment and disk, and while `main` waits for it: the loop does not stop, because
    -- the handle that `main` keeps holds the outbound channel open, and every consensus message
    -- that the loop has taken in was passed on by one of the four peers named in the source,
    -- provided that some of these four names parses.
    pub main_guarded :
        {Registry Gauge Counter : Type 0} (prom : Prometheus Registry Gauge Counter)
        (display : PeerId → Text) (env : Env) (has_dir : Bool) (node1_key own_key : Keypair)
        (d : Disk) (p : PeerId) (node h : P2pNode) (addrs : List Addr) (s0 s : P2pLoop PeerId)
        (es : List (LoopEvent PeerId)) (vs : List P2pEvent)
        → ¬ NoneListed net fixed_allow_peers
        → (main prom keys display net env has_dir node1_key own_key d).0
          ≡ started p node (some (addrs, s0))
        → Waiting net s0 node es vs s h
        → (s.status ≢ stopped) × All (FromListed fixed_allow_peers) (held s)
    unfolding node_config start_loop
    main_guarded prom display env has_dir node1_key own_key d p node h addrs s0 s es vs some' g w =
        let cfg = (node_config keys display env node1_key d).0 in
        let (e, k) = main-started prom display env has_dir node1_key own_key d p node addrs s0 g in
        let begins : (start_loop net cfg 0 0).status ≡ running = refl in
        let w' : Waiting net (start_loop net cfg 0 0) node es vs s h =
          subst (λ x. Waiting net x node es vs s h) e w in
        let (_, all, _) = delivered_in_order net (Waiting-Run {cfg = cfg} w') in
        (
          Waiting-running {s0 = start_loop net cfg 0 0} begins k w',
          subst (λ l. All (FromListed fixed_allow_peers) l) (sym all)
              (accepted-FromListed fixed_allow_peers es some'),
        )
