-- ===== src/P2p.antt =====
-- src/networking/p2p.rs: the configuration, the start and the event loop of the network task.
-- libp2p, the parsers of its peer identities and addresses, and the plain `bincode` functions are
-- parameters. The receivers of the two channels are kept for the life of the loop, as the node
-- binary does.
pub mod Spawn
pub mod Handle
pub mod Broadcast
pub mod Run
pub mod Delivered
pub mod Gauge
pub mod Allowlist
use amunchain.Base.{
  ℕ, ◌+◌, Bytes, Bool, true, false, not, ◌&&◌, Option, none, some, List, [], ◌∷◌, ◌++◌, Result, ok,
  err, length, ltb, if◌then◌else◌,
}
use amunchain.Order.{Ord}
use amunchain.BtreeMap.{BtreeSet, contains, insert}
use amunchain.Ints.{ℤ, pos, ◌+ℤ◌, ◌-ℤ◌}
use amunchain.Strings.{Text, trim}
use amunchain.Types.{ConsensusMsg}

pub data P2pEvent : Type 0 where
  peer_connected peer_disconnected : Bytes → P2pEvent

pub data P2pError : Type 0 where
  io config : P2pError

pub record P2pConfig : Type 0 where
  pub listen_addr : Text
  pub consensus_topic : Text
  pub max_msg_per_sec : ℕ
  pub max_peers_per_ip : ℕ
  pub data_dir : Text
  pub bootstrap : List Text
  pub allow_peers : List Text

-- What the network task calls. The Boolean fields say whether building the Noise keys and the
-- gossipsub behaviour succeeds.
pub record Libp2p (PeerId Addr : Type 0) : Type 0 where
  pub parse_peer : Text → Option PeerId
  pub peer_bytes : PeerId → Bytes
  pub parse_addr : Text → Option Addr
  pub has_noise : Bool
  pub has_gossipsub : Bool
  pub can_listen : Addr → Bool
  pub serialize : ConsensusMsg → Option Bytes
  pub deserialize : Bytes → Option ConsensusMsg

-- A peer identity in bytes with its message.
abbrev pub Inbound : Type 0
Inbound = Bytes × ConsensusMsg

-- What the swarm reports, as far as the loop looks at it.
pub data GossipsubEvent (PeerId : Type 0) : Type 0 where
  message : (propagation_source : PeerId) (payload : Bytes) → GossipsubEvent PeerId
  other_gossip : GossipsubEvent PeerId

pub data BehaviourEvent (PeerId : Type 0) : Type 0 where
  gossipsub : GossipsubEvent PeerId → BehaviourEvent PeerId
  identify ping : BehaviourEvent PeerId

-- One turn of `select!`. An `outbound` turn is what `recv` gives, with the outcome that
-- `gossipsub.publish` has if it is called in that turn: `false` is an error, for lack of peers,
-- say.
pub data LoopEvent (PeerId : Type 0) : Type 0 where
  outbound : (taken : Bool) → Option ConsensusMsg → LoopEvent PeerId
  new_listen_addr : LoopEvent PeerId
  connection_established connection_closed : PeerId → LoopEvent PeerId
  behaviour : BehaviourEvent PeerId → LoopEvent PeerId
  other_event : LoopEvent PeerId

-- The loop runs, waits for room in a channel with the value to send, or has stopped.
pub data Status : Type 0 where
  running stopped : Status
  sending_msg : Inbound → Status
  sending_event : P2pEvent → Status

-- The task with its two channels, its calls of `publish` with their outcomes, and the metrics that
-- it counts in.
pub record P2pLoop (PeerId : Type 0) : Type 0 where
  pub allow_set : BtreeSet PeerId
  pub inbound_rx : List Inbound
  pub ev_rx : List P2pEvent
  pub status : Status
  pub publish_calls : List (Bytes × Bool)
  pub disconnected : List PeerId
  pub p2p_peers : ℤ
  pub p2p_banned_total : ℕ
  pub p2p_invalid_msg_total : ℕ

abbrev pub inbound_capacity : ℕ
inbound_capacity = 1024

abbrev pub event_capacity : ℕ
event_capacity = 128

abbrev pub is_empty {ℓ} : {A : Type ℓ} → List A → Bool
is_empty [] = true
is_empty (x ∷ xs) = false

-- Whether the allowlist is in force and does not have the peer.
abbrev pub is_refused : {PeerId : Type 0} ⦃o : Ord PeerId⦄ → BtreeSet PeerId → PeerId → Bool
is_refused allow_set p = not (is_empty allow_set) && not (contains p allow_set)

-- `send(..).await` on a bounded channel.
abbrev pub send_inbound : {PeerId : Type 0} → Inbound → P2pLoop PeerId → P2pLoop PeerId
send_inbound x s =
    if ltb (length s.inbound_rx) inbound_capacity
    then record s { inbound_rx = s.inbound_rx ++ (x ∷ []) }
    else record s { status = sending_msg x }

abbrev pub send_event : {PeerId : Type 0} → P2pEvent → P2pLoop PeerId → P2pLoop PeerId
send_event x s =
    if ltb (length s.ev_rx) event_capacity
    then record s { ev_rx = s.ev_rx ++ (x ∷ []) }
    else record s { status = sending_event x }

module _ {PeerId Addr : Type 0} ⦃o : Ord PeerId⦄ (net : Libp2p PeerId Addr) where
  -- The loop over the configured peers: an entry that does not parse is skipped.
  unfoldable pub build_allow_set : List Text → BtreeSet PeerId
  unfolding trim
  build_allow_set [] = []
  build_allow_set (x ∷ xs) =
      let rest = build_allow_set xs in
      let s = trim x in
      if is_empty s
      then rest
      else elim (net.parse_peer s) [ none ↦ rest | some p ↦ insert p tt rest ]

  -- The bootstrap addresses that are dialled.
  unfoldable pub dialled : List Text → List Addr
  unfolding trim
  dialled [] = []
  dialled (x ∷ xs) =
      let rest = dialled xs in
      let s = trim x in
      if is_empty s then rest else elim (net.parse_addr s) [ none ↦ rest | some a ↦ a ∷ rest ]

  -- The task up to its loop: `none` when it returns early, else what it dials.
  unfoldable pub start_task : P2pConfig → Option (List Addr)
  unfolding dialled
  start_task cfg =
      if not net.has_noise
      then none
      else if not net.has_gossipsub
      then none
      else elim (net.parse_addr cfg.listen_addr) [
        | none ↦ none
        | some listen ↦ if net.can_listen listen then some (dialled cfg.bootstrap) else none
      ]

  -- The state in which the loop starts, with the counters as they are.
  unfoldable pub start_loop : P2pConfig → ℕ → ℕ → P2pLoop PeerId
  unfolding build_allow_set
  start_loop cfg banned invalid = record {
    allow_set = build_allow_set cfg.allow_peers;
    inbound_rx = [];
    ev_rx = [];
    status = running;
    publish_calls = [];
    disconnected = [];
    p2p_peers = pos 0;
    p2p_banned_total = banned;
    p2p_invalid_msg_total = invalid;
  }

  unfoldable pub on_message : PeerId → Bytes → P2pLoop PeerId → P2pLoop PeerId
  on_message propagation_source payload s =
      if is_refused s.allow_set propagation_source
      then record s { p2p_banned_total = s.p2p_banned_total + 1 }
      else elim (net.deserialize payload) [
        | some msg ↦ send_inbound (net.peer_bytes propagation_source, msg) s
        | none ↦ record s { p2p_invalid_msg_total = s.p2p_invalid_msg_total + 1 }
      ]

  -- One turn of the loop. An error of `publish` is logged, and the message is not tried again.
  unfoldable pub on_event : LoopEvent PeerId → P2pLoop PeerId → P2pLoop PeerId
  unfolding on_message
  on_event (outbound taken none) s = record s { status = stopped }
  on_event (outbound taken (some msg)) s = elim (net.serialize msg) [
    | some bytes ↦ record s { publish_calls = s.publish_calls ++ ((bytes, taken) ∷ []) }
    | none ↦ record s { p2p_invalid_msg_total = s.p2p_invalid_msg_total + 1 }
  ]
  on_event new_listen_addr s = s
  on_event (connection_established p) s =
      if is_refused s.allow_set p
      then record s {
        p2p_banned_total = s.p2p_banned_total + 1;
        disconnected = s.disconnected ++ (p ∷ []);
      }
      else send_event (peer_connected (net.peer_bytes p))
          (record s { p2p_peers = s.p2p_peers +ℤ pos 1 })
  on_event (connection_closed p) s =
      send_event (peer_disconnected (net.peer_bytes p))
        (record s { p2p_peers = s.p2p_peers -ℤ pos 1 })
  on_event (behaviour (gossipsub (message source payload))) s = on_message source payload s
  on_event (behaviour (gossipsub other_gossip)) s = s
  on_event (behaviour identify) s = s
  on_event (behaviour ping) s = s
  on_event other_event s = s

-- `recv` on the channels: it makes room for the value that the loop waits with.
abbrev pub refill_inbound : {PeerId : Type 0} → List Inbound → P2pLoop PeerId → P2pLoop PeerId
refill_inbound rest s = elim s.status [
  | sending_msg y ↦ record s { inbound_rx = rest ++ (y ∷ []); status = running }
  | _ ↦ record s { inbound_rx = rest }
]

abbrev pub refill_events : {PeerId : Type 0} → List P2pEvent → P2pLoop PeerId → P2pLoop PeerId
refill_events rest s = elim s.status [
  | sending_event y ↦ record s { ev_rx = rest ++ (y ∷ []); status = running }
  | _ ↦ record s { ev_rx = rest }
]

unfoldable pub recv_inbound : {PeerId : Type 0} → P2pLoop PeerId → Option (Inbound × P2pLoop PeerId)
recv_inbound s = elim s.inbound_rx [ [] ↦ none | x ∷ rest ↦ some (x, refill_inbound rest s) ]

unfoldable pub recv_event : {PeerId : Type 0} → P2pLoop PeerId → Option (P2pEvent × P2pLoop PeerId)
recv_event s = elim s.ev_rx [ [] ↦ none | x ∷ rest ↦ some (x, refill_events rest s) ]

-- An event of the swarm, not of the outbound channel.
abbrev pub IsSwarmEvent : {PeerId : Type 0} → LoopEvent PeerId → Type 0
IsSwarmEvent (outbound _ _) = ⊥
IsSwarmEvent _ = Unit
