-- ===== src/P2p/Broadcast.antt =====
-- src/networking/p2p.rs: the messages that the task hands to gossipsub for its owner.
use amunchain.Base.{
  map, Bool, suc, subst, ◌≡◌, ◌≢◌, ◌⊎◌, ◌≤◌, ◌∙◌, refl, sym, ap, Bytes, Option, none, some, List,
  [], ◌∷◌, ◌++◌, length, inl, inr, append_assoc, Option-cases, Bool-cases, List-cases, none≢some,
  some_inj, arith, ltb, ◌==◌, length-append, ==_iff, ltb→lt,
}
use amunchain.Order.{Ord}
use amunchain.Types.{ConsensusMsg}
use amunchain.P2p.{
  Libp2p, P2pConfig, P2pEvent, P2pLoop, LoopEvent, Inbound, Status, outbound, IsSwarmEvent,
  behaviour, gossipsub, message, other_gossip, identify, ping, new_listen_addr,
  connection_established, connection_closed, other_event, running, stopped, sending_msg,
  sending_event, start_loop, on_event, on_message, recv_inbound, recv_event, refill_inbound,
  refill_events,
}
use amunchain.P2p.Handle.{
  P2pNode, Traffic, launched, cloned, dropped, posted, polled, reported, fetched, noticed,
  node_outbound, node_inbound, send_outbound, poll_outbound, outbound_capacity,
}

-- Receiving lets a waiting loop go on, and publishes nothing.
module _ {PeerId : Type 0} where
  refill_events-kept :
      (rest : List P2pEvent) (s : P2pLoop PeerId) (status : Status)
      → s.status ≡ status
      → ((refill_events rest s).publish_calls ≡ s.publish_calls)
        × (s.status ≢ stopped → (refill_events rest s).status ≢ stopped)
  refill_events-kept rest s running e =
      (rw e refl, λ r q. let z : running ≡ stopped = rw e at q in cc z)
  refill_events-kept rest s stopped e = (rw e refl, λ r q. r e)
  refill_events-kept rest s (sending_msg y) e =
      (rw e refl, λ r q. let z : sending_msg y ≡ stopped = rw e at q in cc z)
  refill_events-kept rest s (sending_event y) e =
      (rw e refl, λ r q. let z : running ≡ stopped = rw e at q in cc z)

  refill_inbound-kept :
      (rest : List Inbound) (s : P2pLoop PeerId) (status : Status)
      → s.status ≡ status
      → ((refill_inbound rest s).publish_calls ≡ s.publish_calls)
        × (s.status ≢ stopped → (refill_inbound rest s).status ≢ stopped)
  refill_inbound-kept rest s running e =
      (rw e refl, λ r q. let z : running ≡ stopped = rw e at q in cc z)
  refill_inbound-kept rest s stopped e = (rw e refl, λ r q. r e)
  refill_inbound-kept rest s (sending_msg y) e =
      (rw e refl, λ r q. let z : running ≡ stopped = rw e at q in cc z)
  refill_inbound-kept rest s (sending_event y) e =
      (rw e refl, λ r q. let z : sending_event y ≡ stopped = rw e at q in cc z)

  pub recv_event-kept :
      (s s' : P2pLoop PeerId) (v : P2pEvent)
      → recv_event s ≡ some (v, s')
      → (s'.publish_calls ≡ s.publish_calls) × (s.status ≢ stopped → s'.status ≢ stopped)
  unfolding recv_event
  recv_event-kept s s' v h = elim (List-cases s.ev_rx) [
    | inl e ↦ absurd (none≢some (rw (recv_event, e) at h))
    | inr (x, rest, e) ↦
        let k : (x, refill_events rest s) ≡ (v, s') = some_inj (rw (recv_event, e) at h) in
        let (p, q) = refill_events-kept rest s s.status refl in
        (sym (ap (λ z. z.1.publish_calls) k) ∙ p, λ r t. q r (ap (λ z. z.1.status) k ∙ t))
  ]

  recv_inbound-kept :
      (s s' : P2pLoop PeerId) (x : Inbound)
      → node_inbound s ≡ some (x, s')
      → (s'.publish_calls ≡ s.publish_calls) × (s.status ≢ stopped → s'.status ≢ stopped)
  unfolding recv_inbound node_inbound
  recv_inbound-kept s s' v h = elim (List-cases s.inbound_rx) [
    | inl e ↦ absurd (none≢some (rw (node_inbound, recv_inbound, e) at h))
    | inr (x, rest, e) ↦
        let k : (x, refill_inbound rest s) ≡ (v, s') =
          some_inj (rw (node_inbound, recv_inbound, e) at h) in
        let (p, q) = refill_inbound-kept rest s s.status refl in
        (sym (ap (λ z. z.1.publish_calls) k) ∙ p, λ r t. q r (ap (λ z. z.1.status) k ∙ t))
  ]

handed_append :
    (calls : List (Bytes × Bool)) (b : Bytes) (taken : Bool)
    → map (λ c. c.0) (calls ++ ((b, taken) ∷ [])) ≡ map (λ c. c.0) calls ++ (b ∷ [])
handed_append [] b taken = refl
handed_append (c ∷ cs) b taken = ap (λ l. c.0 ∷ l) (handed_append cs b taken)

module _ {PeerId : Type 0} where
  -- What was handed to gossipsub, in order, whether it was taken or not.
  abbrev pub handed : P2pLoop PeerId → List Bytes
  handed s = map (λ c. c.0) s.publish_calls

module _ {PeerId Addr : Type 0} ⦃o : Ord PeerId⦄ (net : Libp2p PeerId Addr) where
  -- The specification: what serializes, in order.
  unfoldable pub encoded : List ConsensusMsg → List Bytes
  encoded [] = []
  encoded (m ∷ ms) =
      let rest = encoded ms in elim (net.serialize m) [ none ↦ rest | some bytes ↦ bytes ∷ rest ]

  encoded-append : (ms more : List ConsensusMsg) → encoded (ms ++ more) ≡ encoded ms ++ encoded more
  unfolding encoded
  encoded-append [] more = refl
  encoded-append (m ∷ ms) more = elim (Option-cases (net.serialize m)) [
    | inl e ↦ rw (encoded, e) (encoded-append ms more)
    | inr (b, e) ↦ rw (encoded, e) (ap (λ l. b ∷ l) (encoded-append ms more))
  ]

  -- A turn for the swarm publishes nothing and does not stop the loop.
  pub swarm_turn :
      (e : LoopEvent PeerId) (s : P2pLoop PeerId)
      → s.status ≡ running
      → IsSwarmEvent e
      → ((on_event net e s).publish_calls ≡ s.publish_calls) × ((on_event net e s).status ≢ stopped)
  unfolding on_event on_message
  swarm_turn (behaviour (gossipsub (message p payload))) s r w = ground (arith, r)
  swarm_turn (behaviour (gossipsub other_gossip)) s r w = (refl, λ q. cc (r, q))
  swarm_turn (behaviour identify) s r w = (refl, λ q. cc (r, q))
  swarm_turn (behaviour ping) s r w = (refl, λ q. cc (r, q))
  swarm_turn (outbound taken m) s r w = absurd w
  swarm_turn new_listen_addr s r w = (refl, λ q. cc (r, q))
  swarm_turn (connection_established p) s r w = ground (arith, r)
  swarm_turn (connection_closed p) s r w = ground (arith, r)
  swarm_turn other_event s r w = (refl, λ q. cc (r, q))

  -- Nothing of the handle's promises is lost: what was handed to gossipsub and what waits in the
  -- channel is what was sent, and the loop has stopped only when the channel is empty and closed.
  abbrev pub InStep : List ConsensusMsg → P2pLoop PeerId → P2pNode → Type 0
  InStep sent s h =
      (handed s ++ encoded h.out_rx ≡ encoded sent)
      × (length h.out_rx ≤ outbound_capacity)
      × ((s.status ≢ stopped) ⊎ ((h.senders ≡ 0) × (h.out_rx ≡ [])))

  -- Sending and taking one message.
  posted-InStep :
      (sent : List ConsensusMsg) (s : P2pLoop PeerId) (h h' : P2pNode) (msg : ConsensusMsg)
      → send_outbound msg h ≡ some h'
      → InStep sent s h
      → InStep (sent ++ (msg ∷ [])) s h'
  posted-InStep sent s h h' msg e (same, room, stop) = elim (Bool-cases (h.senders == 0)) [
    | inl z ↦ absurd (none≢some (rw z at e))
    | inr z ↦ elim (Bool-cases (ltb (length h.out_rx) outbound_capacity)) [
      | inr f ↦ absurd (none≢some (rw (z, f) at e))
      | inl f ↦
          let one = msg ∷ [] in
          let new : P2pNode = record h { out_rx = h.out_rx ++ one } in
          let k : new ≡ h' = some_inj (rw (z, f) at e) in
          let lt = ltb→lt (length h.out_rx) outbound_capacity f in
          subst (λ (x : P2pNode). InStep (sent ++ one) s x) k
            (
              ap (λ l. handed s ++ l) (encoded-append h.out_rx one)
                  ∙ sym (append_assoc (handed s) (encoded h.out_rx) (encoded one))
                  ∙ ap (λ l. l ++ encoded one) same
                  ∙ sym (encoded-append sent one),
              omega (arith, lt, length-append h.out_rx one),
              elim stop [ inl r ↦ inl r | inr (q, _) ↦ absurd (ground (arith, q, z)) ],
            )
    ]
  ]

  polled-InStep :
      (sent : List ConsensusMsg) (s : P2pLoop PeerId) (h h' : P2pNode) (m : Option ConsensusMsg)
      (taken : Bool)
      → s.status ≡ running
      → poll_outbound h ≡ some (m, h')
      → InStep sent s h
      → InStep sent (on_event net (outbound taken m) s) h'
  unfolding on_event encoded
  polled-InStep sent s h h' m taken r e (same, room, stop) = elim (List-cases h.out_rx) [
    | inl n ↦ elim (Bool-cases (h.senders == 0)) [
      | inr z ↦ absurd (none≢some (rw (n, z) at e))
      | inl z ↦
          let rest : List ConsensusMsg = [] in
          let empty : P2pNode = record { out_rx = rest; senders = h.senders } in
          let k : (none, empty) ≡ (m, h') = some_inj (rw (n, z) at e) in
          let all : handed s ++ encoded [] ≡ encoded sent = rw n at same in
          subst
            (λ (x : Option ConsensusMsg × P2pNode).
              InStep sent (on_event net (outbound taken x.0) s) x.1)
            k (all, omega arith, inr ((==_iff h.senders 0).0 z, refl))
    ]
    | inr (c, rest, n) ↦
        let less : P2pNode = record h { out_rx = rest } in
        let k : (some c, less) ≡ (m, h') = some_inj (rw n at e) in
        let all : handed s ++ encoded (c ∷ rest) ≡ encoded sent = rw n at same in
        let count : suc (length rest) ≤ outbound_capacity = rw n at room in
        subst
          (λ (x : Option ConsensusMsg × P2pNode).
            InStep sent (on_event net (outbound taken x.0) s) x.1)
          k
          (elim (Option-cases (net.serialize c)) [
            | inl f ↦
                rw (on_event, f)
                  (rw (encoded, f) at all, omega (arith, count), inl (λ q. cc (r, q)))
            | inr (b, f) ↦
                let whole : handed s ++ (b ∷ encoded rest) ≡ encoded sent =
                  rw (encoded, f) at all in
                rw (on_event, f)
                  (
                    ap (λ l. l ++ encoded rest) (handed_append s.publish_calls b taken)
                        ∙ append_assoc (handed s) (b ∷ []) (encoded rest)
                        ∙ whole,
                    omega (arith, count),
                    inl (λ q. cc (r, q)),
                  )
          ])
  ]

  -- Through any use of the task and its handle, what the loop hands to gossipsub is, in order and
  -- each once, the encoding of every message that was sent and has left the channel, whatever the
  -- outcomes of `publish`; messages that do not serialize are left out. The channel holds at most
  -- 1024 messages, and the loop stops only when the channel is empty and has no sender left.
  pub broadcast_in_order :
      {cfg : P2pConfig} {sent : List ConsensusMsg} {s : P2pLoop PeerId} {h : P2pNode}
      → Traffic net cfg sent s h
      → InStep sent s h
  unfolding start_loop encoded node_outbound
  broadcast_in_order (launched banned invalid) = (refl, omega arith, inl (λ q. cc q))
  broadcast_in_order (cloned {h} t live) =
      let (same, room, stop) = broadcast_in_order t in
      (same, room, elim stop [ inl r ↦ inl r | inr (z, _) ↦ absurd (omega (arith, z, live)) ])
  broadcast_in_order (dropped {h} t) =
      let (same, room, stop) = broadcast_in_order t in
      (same, room, elim stop [ inl r ↦ inl r | inr (z, q) ↦ inr (omega (arith, z), q) ])
  broadcast_in_order (posted {sent} {s} {h} {h'} msg t e) =
      posted-InStep sent s h h' msg e (broadcast_in_order t)
  broadcast_in_order (polled {sent} {s} {h} {h'} {m} taken t r e) =
      polled-InStep sent s h h' m taken r e (broadcast_in_order t)
  broadcast_in_order (reported {s} {h} e t r w) =
      let (same, room, _) = broadcast_in_order t in
      let (kept, going) = swarm_turn e s r w in
      (ap (λ l. map (λ c. c.0) l ++ encoded h.out_rx) kept ∙ same, room, inl going)
  broadcast_in_order (fetched {s} {s'} {h} {x} t e) =
      let (same, room, stop) = broadcast_in_order t in
      let (kept, going) = recv_inbound-kept s s' x e in
      (
        ap (λ l. map (λ c. c.0) l ++ encoded h.out_rx) kept ∙ same,
        room,
        elim stop [ inl r ↦ inl (going r) | inr q ↦ inr q ],
      )
  broadcast_in_order (noticed {s} {s'} {h} {v} t e) =
      let (same, room, stop) = broadcast_in_order t in
      let (kept, going) = recv_event-kept s s' v e in
      (
        ap (λ l. map (λ c. c.0) l ++ encoded h.out_rx) kept ∙ same,
        room,
        elim stop [ inl r ↦ inl (going r) | inr q ↦ inr q ],
      )
