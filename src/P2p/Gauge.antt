-- ===== src/P2p/Gauge.antt =====
-- src/networking/p2p.rs: what the gauge of connected peers shows.
use amunchain.Base.{
  ℕ, ◌+◌, ◌≡◌, ◌∙◌, refl, sym, ap, Bytes, none, some, List, [], ◌∷◌, ◌++◌, inl, inr, length, ltb,
  if◌then◌else◌, Bool-cases, Option-cases, arith, List-cases, some_inj, none≢some,
}
use amunchain.Order.{Ord}
use amunchain.BtreeMap.{BtreeSet}
use amunchain.Ints.{pos, diff, ◌+ℤ◌, ◌-ℤ◌}
use amunchain.P2p.{
  Libp2p, P2pConfig, P2pEvent, P2pLoop, LoopEvent, Inbound, Status, running, stopped, sending_msg,
  sending_event, build_allow_set, start_loop, on_event, on_message, is_refused, send_event,
  send_inbound, recv_inbound, recv_event, refill_inbound, refill_events, event_capacity,
  inbound_capacity, outbound, behaviour, gossipsub, message, connection_established,
  connection_closed, new_listen_addr, other_event, other_gossip, identify, ping, peer_connected,
  peer_disconnected,
}
use amunchain.P2p.Run.{Run, start, handled, received, observed}
use amunchain.P2p.Delivered.{delivered_in_order}

module _ {PeerId : Type 0} where
  send_event-gauge : (v : P2pEvent) (s : P2pLoop PeerId) → (send_event v s).p2p_peers ≡ s.p2p_peers
  send_event-gauge v s = elim (Bool-cases (ltb (length s.ev_rx) event_capacity)) [
    | inl e ↦ rw (e)
    | inr e ↦ rw (e)
  ]

  send_inbound-gauge :
      (x : Inbound) (s : P2pLoop PeerId) → (send_inbound x s).p2p_peers ≡ s.p2p_peers
  send_inbound-gauge x s = elim (Bool-cases (ltb (length s.inbound_rx) inbound_capacity)) [
    | inl e ↦ rw (e)
    | inr e ↦ rw (e)
  ]

  refill_inbound-gauge :
      (rest : List Inbound) (s : P2pLoop PeerId) (status : Status)
      → s.status ≡ status
      → (refill_inbound rest s).p2p_peers ≡ s.p2p_peers
  refill_inbound-gauge rest s running e = rw (e) refl
  refill_inbound-gauge rest s stopped e = rw (e) refl
  refill_inbound-gauge rest s (sending_msg x) e = rw (e) refl
  refill_inbound-gauge rest s (sending_event v) e = rw (e) refl

  refill_events-gauge :
      (rest : List P2pEvent) (s : P2pLoop PeerId) (status : Status)
      → s.status ≡ status
      → (refill_events rest s).p2p_peers ≡ s.p2p_peers
  refill_events-gauge rest s running e = rw (e) refl
  refill_events-gauge rest s stopped e = rw (e) refl
  refill_events-gauge rest s (sending_msg x) e = rw (e) refl
  refill_events-gauge rest s (sending_event v) e = rw (e) refl

  recv_inbound-gauge :
      (s s' : P2pLoop PeerId) (m : Inbound)
      → recv_inbound s ≡ some (m, s')
      → s'.p2p_peers ≡ s.p2p_peers
  unfolding recv_inbound
  recv_inbound-gauge s s' m h = elim (List-cases s.inbound_rx) [
    | inl e ↦ absurd (none≢some (rw (recv_inbound, e) at h))
    | inr (x, rest, e) ↦
        sym (ap (λ z. z.1.p2p_peers) (some_inj (rw (recv_inbound, e) at h)))
        ∙ refill_inbound-gauge rest s s.status refl
  ]

  recv_event-gauge :
      (s s' : P2pLoop PeerId) (v : P2pEvent)
      → recv_event s ≡ some (v, s')
      → s'.p2p_peers ≡ s.p2p_peers
  unfolding recv_event
  recv_event-gauge s s' v h = elim (List-cases s.ev_rx) [
    | inl e ↦ absurd (none≢some (rw (recv_event, e) at h))
    | inr (x, rest, e) ↦
        sym (ap (λ z. z.1.p2p_peers) (some_inj (rw (recv_event, e) at h)))
        ∙ refill_events-gauge rest s s.status refl
  ]

module _ {PeerId : Type 0} ⦃o : Ord PeerId⦄ where
  -- Connections that an allowed peer opened, and connections of any peer that closed.
  abbrev opened_one : BtreeSet PeerId → LoopEvent PeerId → ℕ
  opened_one allow (connection_established p) = if is_refused allow p then 0 else 1
  opened_one allow _ = 0

  abbrev closed_one : LoopEvent PeerId → ℕ
  closed_one (connection_closed p) = 1
  closed_one _ = 0

  unfoldable pub opened : BtreeSet PeerId → List (LoopEvent PeerId) → ℕ
  opened allow [] = 0
  opened allow (e ∷ es) = opened_one allow e + opened allow es

  unfoldable pub closed : List (LoopEvent PeerId) → ℕ
  closed [] = 0
  closed (e ∷ es) = closed_one e + closed es

  opened-append :
      (allow : BtreeSet PeerId) (es : List (LoopEvent PeerId)) (e : LoopEvent PeerId)
      → opened allow (es ++ (e ∷ [])) ≡ opened allow es + opened_one allow e
  unfolding opened
  opened-append allow [] e = omega arith
  opened-append allow (f ∷ es) e = omega (arith, opened-append allow es e)

  closed-append :
      (es : List (LoopEvent PeerId)) (e : LoopEvent PeerId)
      → closed (es ++ (e ∷ [])) ≡ closed es + closed_one e
  unfolding closed
  closed-append [] e = omega arith
  closed-append (f ∷ es) e = omega (arith, closed-append es e)

plus_zero : (m n : ℕ) → diff m n ≡ diff (m + 0) (n + 0)
plus_zero m n = ground arith

plus_one : (m n : ℕ) → diff m n +ℤ pos 1 ≡ diff (m + 1) (n + 0)
unfolding ◌+ℤ◌
plus_one m n = ground arith

minus_one : (m n : ℕ) → diff m n -ℤ pos 1 ≡ diff (m + 0) (n + 1)
unfolding ◌-ℤ◌
minus_one m n = ground arith

module _ {PeerId Addr : Type 0} ⦃o : Ord PeerId⦄ (net : Libp2p PeerId Addr) where
  on_message-gauge :
      (p : PeerId) (payload : Bytes) (s : P2pLoop PeerId)
      → (on_message net p payload s).p2p_peers ≡ s.p2p_peers
  unfolding on_message
  on_message-gauge p payload s = elim (Bool-cases (is_refused s.allow_set p)) [
    | inl e ↦ rw (on_message, e)
    | inr e ↦ elim (Option-cases (net.deserialize payload)) [
      | inl d ↦ rw (on_message, e, d)
      | inr (msg, d) ↦ rw (on_message, e, d) (send_inbound-gauge (net.peer_bytes p, msg) s)
    ]
  ]

  on_event-gauge :
      (e : LoopEvent PeerId) (s : P2pLoop PeerId) (m n : ℕ)
      → s.p2p_peers ≡ diff m n
      → (on_event net e s).p2p_peers ≡ diff (m + opened_one s.allow_set e) (n + closed_one e)
  unfolding on_event
  on_event-gauge (outbound taken none) s m n h = h ∙ plus_zero m n
  on_event-gauge (outbound taken (some msg)) s m n h = elim (Option-cases (net.serialize msg)) [
    | inl e ↦ rw (on_event, e) (h ∙ plus_zero m n)
    | inr (bytes, e) ↦ rw (on_event, e) (h ∙ plus_zero m n)
  ]
  on_event-gauge new_listen_addr s m n h = h ∙ plus_zero m n
  on_event-gauge (connection_established p) s m n h = elim (Bool-cases (is_refused s.allow_set p)) [
    | inl e ↦ rw (on_event, e) (h ∙ plus_zero m n)
    | inr e ↦
        rw (on_event, e)
          (send_event-gauge (peer_connected (net.peer_bytes p))
              (record s { p2p_peers = s.p2p_peers +ℤ pos 1 })
            ∙ (ap (λ g. g +ℤ pos 1) h ∙ plus_one m n))
  ]
  on_event-gauge (connection_closed p) s m n h =
      send_event-gauge (peer_disconnected (net.peer_bytes p))
        (record s { p2p_peers = s.p2p_peers -ℤ pos 1 })
      ∙ (ap (λ g. g -ℤ pos 1) h ∙ minus_one m n)
  on_event-gauge (behaviour (gossipsub (message p payload))) s m n h =
      on_message-gauge p payload s ∙ (h ∙ plus_zero m n)
  on_event-gauge (behaviour (gossipsub other_gossip)) s m n h = h ∙ plus_zero m n
  on_event-gauge (behaviour identify) s m n h = h ∙ plus_zero m n
  on_event-gauge (behaviour ping) s m n h = h ∙ plus_zero m n
  on_event-gauge other_event s m n h = h ∙ plus_zero m n

  -- In every run the gauge of connected peers shows the connections that allowed peers opened less
  -- the connections of all peers that closed, so that a refused connection that closes takes one
  -- off, below zero if need be.
  pub p2p_peers_exact :
      {cfg : P2pConfig} {es : List (LoopEvent PeerId)} {ms : List Inbound} {vs : List P2pEvent}
      {s : P2pLoop PeerId}
      → Run net cfg es ms vs s
      → s.p2p_peers ≡ diff (opened (build_allow_set net cfg.allow_peers) es) (closed es)
  unfolding start_loop opened closed
  p2p_peers_exact (start banned invalid) = refl
  p2p_peers_exact {cfg} (handled {es} {ms} {vs} {s} e run r) =
      let (allow, _, _) = delivered_in_order net run in
      let a = build_allow_set net cfg.allow_peers in
      let m = opened a es in
      let n = closed es in
      on_event-gauge e s m n (p2p_peers_exact run)
      ∙ (ap (λ x. diff (m + opened_one x e) (n + closed_one e)) allow
          ∙ (ap (λ x. diff x (n + closed_one e)) (sym (opened-append a es e))
              ∙ ap (λ x. diff (opened a (es ++ (e ∷ []))) x) (sym (closed-append es e))))
  p2p_peers_exact (received {es} {ms} {vs} {s} {s'} {m} run h) =
      recv_inbound-gauge s s' m h ∙ p2p_peers_exact run
  p2p_peers_exact (observed {es} {ms} {vs} {s} {s'} {v} run h) =
      recv_event-gauge s s' v h ∙ p2p_peers_exact run
