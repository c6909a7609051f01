-- ===== src/P2p/Run.antt =====
-- src/networking/p2p.rs: runs of the event loop, and the consensus messages that come out of them.
use amunchain.Base.{
  ℕ, suc, ◌≤◌, ◌≡◌, ◌∙◌, refl, sym, ap, Bytes, none, some, List, [], ◌∷◌, ◌++◌, inl, inr, length,
  length-append, append_nil, List-cases, some_inj, none≢some, ltb, if◌then◌else◌, Bool-cases,
  ltb→lt, Option-cases, arith,
}
use amunchain.Order.{Ord}
use amunchain.BtreeMap.{BtreeSet}
use amunchain.P2p.{
  Libp2p, P2pConfig, P2pEvent, P2pLoop, LoopEvent, Status, Inbound, outbound, behaviour, gossipsub,
  message, connection_established, connection_closed, new_listen_addr, other_event, other_gossip,
  identify, ping, running, stopped, sending_msg, sending_event, start_loop, on_event, on_message,
  is_refused, recv_inbound, recv_event, refill_inbound, refill_events, send_inbound, send_event,
  inbound_capacity, event_capacity, peer_connected, peer_disconnected,
}
use amunchain.Ints.{pos, ◌+ℤ◌, ◌-ℤ◌}

-- What the loop holds back: the queue, and the message that it waits with.
abbrev pub waiting : Status → List Inbound
waiting (sending_msg x) = x ∷ []
waiting _ = []

module _ {PeerId : Type 0} where
  abbrev pub held : P2pLoop PeerId → List Inbound
  held s = s.inbound_rx ++ waiting s.status

  abbrev pub HasRoom : P2pLoop PeerId → Type 0
  HasRoom s = length s.inbound_rx ≤ inbound_capacity

  -- From `s` to `s'` the loop takes in the messages `ms` and keeps its allowlist, within
  -- the capacity.
  abbrev Adds : P2pLoop PeerId → P2pLoop PeerId → List Inbound → Type 0
  Adds s s' ms =
      (s'.allow_set ≡ s.allow_set) × (held s' ≡ s.inbound_rx ++ ms) × (HasRoom s → HasRoom s')

  quiet : (s : P2pLoop PeerId) → s.status ≡ running → Adds s s []
  quiet s r = (refl, rw (r) refl, λ h. h)

  send_inbound-Adds :
      (x : Inbound) (s : P2pLoop PeerId) → s.status ≡ running → Adds s (send_inbound x s) (x ∷ [])
  send_inbound-Adds x s r = elim (Bool-cases (ltb (length s.inbound_rx) inbound_capacity)) [
    | inl e ↦ (
      rw (e),
      rw (e, r) (append_nil (s.inbound_rx ++ (x ∷ []))),
      λ h. rw (e) (
          omega (
            arith,
            length-append s.inbound_rx (x ∷ []),
            ltb→lt (length s.inbound_rx) inbound_capacity e,
          )),
    )
    | inr e ↦ (rw (e), rw (e), λ h. rw (e) h)
  ]

  send_event-Adds :
      (v : P2pEvent) (s : P2pLoop PeerId) → s.status ≡ running → Adds s (send_event v s) []
  send_event-Adds v s r = elim (Bool-cases (ltb (length s.ev_rx) event_capacity)) [
    | inl e ↦ (rw (e), rw (e, r) refl, λ h. rw (e) h)
    | inr e ↦ (rw (e), rw (e), λ h. rw (e) h)
  ]

module _ {PeerId Addr : Type 0} ⦃o : Ord PeerId⦄ (net : Libp2p PeerId Addr) where
  -- A run of the loop from its start: the events that it handled, in order, what was received from
  -- the two channels, and its state. It takes an event only while it does not wait.
  pub data Run (cfg : P2pConfig)
      : List (LoopEvent PeerId) → List Inbound → List P2pEvent → P2pLoop PeerId → Type 0 where
    start : (banned invalid : ℕ) → Run cfg [] [] [] (start_loop net cfg banned invalid)
    handled :
        {es : List (LoopEvent PeerId)} {ms : List Inbound} {vs : List P2pEvent} {s : P2pLoop PeerId}
        (e : LoopEvent PeerId)
        → Run cfg es ms vs s
        → s.status ≡ running
        → Run cfg (es ++ (e ∷ [])) ms vs (on_event net e s)
    received :
        {es : List (LoopEvent PeerId)} {ms : List Inbound} {vs : List P2pEvent}
        {s s' : P2pLoop PeerId} {m : Inbound}
        → Run cfg es ms vs s
        → recv_inbound s ≡ some (m, s')
        → Run cfg es (ms ++ (m ∷ [])) vs s'
    observed :
        {es : List (LoopEvent PeerId)} {ms : List Inbound} {vs : List P2pEvent}
        {s s' : P2pLoop PeerId} {v : P2pEvent}
        → Run cfg es ms vs s
        → recv_event s ≡ some (v, s')
        → Run cfg es ms (vs ++ (v ∷ [])) s'

  -- The specification: the messages among the events that come from an allowed peer and decode.
  abbrev pub accepted_one : BtreeSet PeerId → LoopEvent PeerId → List Inbound
  accepted_one allow (behaviour (gossipsub (message p payload))) =
      if is_refused allow p
      then []
      else elim (net.deserialize payload) [ none ↦ [] | some msg ↦ (net.peer_bytes p, msg) ∷ [] ]
  accepted_one allow _ = []

  unfoldable pub accepted : BtreeSet PeerId → List (LoopEvent PeerId) → List Inbound
  accepted allow [] = []
  accepted allow (e ∷ es) = accepted_one allow e ++ accepted allow es

  -- One turn adds what the specification asks for, and keeps the allowlist.
  on_message-accepted :
      (p : PeerId) (payload : Bytes) (s : P2pLoop PeerId)
      → s.status ≡ running
      → Adds s
          (on_message net p payload s)
          (accepted_one s.allow_set (behaviour (gossipsub (message p payload))))
  unfolding on_message
  on_message-accepted p payload s r = elim (Bool-cases (is_refused s.allow_set p)) [
    | inl e ↦ rw (on_message, e) (quiet s r)
    | inr e ↦ elim (Option-cases (net.deserialize payload)) [
      | inl d ↦ rw (on_message, e, d) (quiet s r)
      | inr (msg, d) ↦ rw (on_message, e, d) (send_inbound-Adds (net.peer_bytes p, msg) s r)
    ]
  ]

  pub on_event-accepted :
      (e : LoopEvent PeerId) (s : P2pLoop PeerId)
      → s.status ≡ running
      → Adds s (on_event net e s) (accepted_one s.allow_set e)
  unfolding on_event
  on_event-accepted (outbound taken none) s r = (refl, refl, λ h. h)
  on_event-accepted (outbound taken (some msg)) s r = elim (Option-cases (net.serialize msg)) [
    | inl e ↦ rw (on_event, e) (quiet s r)
    | inr (bytes, e) ↦ rw (on_event, e) (quiet s r)
  ]
  on_event-accepted new_listen_addr s r = quiet s r
  on_event-accepted (connection_established p) s r = elim (Bool-cases (is_refused s.allow_set p)) [
    | inl e ↦ rw (on_event, e) (quiet s r)
    | inr e ↦
        rw (on_event, e)
          (send_event-Adds (peer_connected (net.peer_bytes p))
            (record s { p2p_peers = s.p2p_peers +ℤ pos 1 }) r)
  ]
  on_event-accepted (connection_closed p) s r =
      send_event-Adds (peer_disconnected (net.peer_bytes p))
        (record s { p2p_peers = s.p2p_peers -ℤ pos 1 }) r
  on_event-accepted (behaviour (gossipsub (message source payload))) s r =
      on_message-accepted source payload s r
  on_event-accepted (behaviour (gossipsub other_gossip)) s r = quiet s r
  on_event-accepted (behaviour identify) s r = quiet s r
  on_event-accepted (behaviour ping) s r = quiet s r
  on_event-accepted other_event s r = quiet s r

-- Receiving takes the first held message, and leaves the rest in place.
module _ {PeerId : Type 0} (s : P2pLoop PeerId) where
  refill_inbound-held :
      (rest : List Inbound) (status : Status)
      → s.status ≡ status
      → let s' = refill_inbound rest s in
        (s'.allow_set ≡ s.allow_set)
        × (held s' ≡ rest ++ waiting s.status)
        × (length s'.inbound_rx ≤ suc (length rest))
  refill_inbound-held rest running e = (rw (e) refl, rw (e) refl, rw (e) (omega arith))
  refill_inbound-held rest stopped e = (rw (e) refl, rw (e) refl, rw (e) (omega arith))
  refill_inbound-held rest (sending_msg y) e = (
    rw (e) refl,
    rw (e) (append_nil (rest ++ (y ∷ []))),
    rw (e) (omega (arith, length-append rest (y ∷ []))),
  )
  refill_inbound-held rest (sending_event v) e = (rw (e) refl, rw (e) refl, rw (e) (omega arith))

  refill_events-held :
      (rest : List P2pEvent) (status : Status)
      → s.status ≡ status
      → let s' = refill_events rest s in
        (s'.allow_set ≡ s.allow_set) × (held s' ≡ held s) × (s'.inbound_rx ≡ s.inbound_rx)
  refill_events-held rest running e = (rw (e) refl, rw (e) refl, rw (e) refl)
  refill_events-held rest stopped e = (rw (e) refl, rw (e) refl, rw (e) refl)
  refill_events-held rest (sending_msg y) e = (rw (e) refl, rw (e) refl, rw (e) refl)
  refill_events-held rest (sending_event v) e = (rw (e) refl, rw (e) refl, rw (e) refl)

  pub recv_inbound-held :
      (s' : P2pLoop PeerId) (m : Inbound)
      → recv_inbound s ≡ some (m, s')
      → (s'.allow_set ≡ s.allow_set) × (m ∷ held s' ≡ held s) × (HasRoom s → HasRoom s')
  unfolding recv_inbound
  recv_inbound-held s' m h = elim (List-cases s.inbound_rx) [
    | inl e ↦ absurd (none≢some (rw (recv_inbound, e) at h))
    | inr (x, rest, e) ↦
        let k = some_inj (rw (recv_inbound, e) at h) in
        let (allow, all, room) = refill_inbound-held rest s.status refl in
        (
          sym (ap (λ z. z.1.allow_set) k) ∙ allow,
          sym (ap (λ z. z.0 ∷ held z.1) k)
              ∙ (ap (λ l. x ∷ l) all ∙ sym (ap (λ l. l ++ waiting s.status) e)),
          λ h. omega (arith, room, ap (λ z. length z.1.inbound_rx) k, ap (λ l. length l) e),
        )
  ]

  pub recv_event-held :
      (s' : P2pLoop PeerId) (v : P2pEvent)
      → recv_event s ≡ some (v, s')
      → (s'.allow_set ≡ s.allow_set) × (held s' ≡ held s) × (HasRoom s → HasRoom s')
  unfolding recv_event
  recv_event-held s' v h = elim (List-cases s.ev_rx) [
    | inl e ↦ absurd (none≢some (rw (recv_event, e) at h))
    | inr (x, rest, e) ↦
        let k = some_inj (rw (recv_event, e) at h) in
        let (allow, all, room) = refill_events-held rest s.status refl in
        (
          sym (ap (λ z. z.1.allow_set) k) ∙ allow,
          sym (ap (λ z. held z.1) k) ∙ all,
          λ h. omega (arith, ap (λ l. length l) room, ap (λ z. length z.1.inbound_rx) k),
        )
  ]
