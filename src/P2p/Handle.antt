-- ===== src/P2p/Handle.antt =====
-- src/networking/p2p.rs: `P2pNode`, the handle that `spawn_p2p` returns, with the outbound channel
-- of which it holds the sending end. The inbound channel stands in the loop's state.
use amunchain.Base.{
  ℕ, Bool, ◌+◌, ◌-◌, ◌<◌, ◌≡◌, Option, none, some, List, [], ◌∷◌, ◌++◌, length, ltb, ◌==◌,
  if◌then◌else◌,
}
use amunchain.Order.{Ord}
use amunchain.Types.{ConsensusMsg}
use amunchain.P2p.{
  Libp2p, P2pConfig, P2pEvent, P2pLoop, LoopEvent, Inbound, outbound, IsSwarmEvent, running,
  start_loop, on_event, recv_inbound, recv_event,
}

abbrev pub outbound_capacity : ℕ
outbound_capacity = 1024

-- The messages in the outbound channel and the number of its senders, the node's own among them.
pub record P2pNode : Type 0 where
  pub out_rx : List ConsensusMsg
  pub senders : ℕ

abbrev pub new_node : P2pNode
new_node = record { out_rx = []; senders = 1 }

-- `P2pNode::outbound`: one more sender.
unfoldable pub node_outbound : P2pNode → P2pNode
node_outbound h = record h { senders = h.senders + 1 }

-- `P2pNode::inbound`, and `recv` on it.
unfoldable pub node_inbound : {PeerId : Type 0} → P2pLoop PeerId → Option (Inbound × P2pLoop PeerId)
unfolding recv_inbound
node_inbound s = recv_inbound s

-- A sender is dropped; `send` through one that is left, `none` while the channel is full.
abbrev pub drop_sender : P2pNode → P2pNode
drop_sender h = record h { senders = h.senders - 1 }

abbrev pub send_outbound : ConsensusMsg → P2pNode → Option P2pNode
send_outbound msg h =
    if h.senders == 0
    then none
    else if ltb (length h.out_rx) outbound_capacity
    then some (record h { out_rx = h.out_rx ++ (msg ∷ []) })
    else none

-- `out_rx.recv()` in the loop: `none` waits, and `some (none, _)` is a channel that is empty and
-- that nobody can send to any more.
abbrev pub poll_outbound : P2pNode → Option (Option ConsensusMsg × P2pNode)
poll_outbound h = elim h.out_rx [
  | [] ↦ if h.senders == 0 then some (none, h) else none
  | m ∷ rest ↦ some (some m, record h { out_rx = rest })
]

module _ {PeerId Addr : Type 0} ⦃o : Ord PeerId⦄ (net : Libp2p PeerId Addr) where
  -- The task and its handle in use: the messages that were sent, in order, the loop and the handle.
  pub data Traffic (cfg : P2pConfig) : List ConsensusMsg → P2pLoop PeerId → P2pNode → Type 0 where
    launched : (banned invalid : ℕ) → Traffic cfg [] (start_loop net cfg banned invalid) new_node
    cloned :
        {sent : List ConsensusMsg} {s : P2pLoop PeerId} {h : P2pNode}
        → Traffic cfg sent s h
        → 0 < h.senders
        → Traffic cfg sent s (node_outbound h)
    dropped :
        {sent : List ConsensusMsg} {s : P2pLoop PeerId} {h : P2pNode}
        → Traffic cfg sent s h
        → Traffic cfg sent s (drop_sender h)
    posted :
        {sent : List ConsensusMsg} {s : P2pLoop PeerId} {h h' : P2pNode} (msg : ConsensusMsg)
        → Traffic cfg sent s h
        → send_outbound msg h ≡ some h'
        → Traffic cfg (sent ++ (msg ∷ [])) s h'
    polled :
        {sent : List ConsensusMsg} {s : P2pLoop PeerId} {h h' : P2pNode} {m : Option ConsensusMsg}
        (taken : Bool)
        → Traffic cfg sent s h
        → s.status ≡ running
        → poll_outbound h ≡ some (m, h')
        → Traffic cfg sent (on_event net (outbound taken m) s) h'
    reported :
        {sent : List ConsensusMsg} {s : P2pLoop PeerId} {h : P2pNode} (e : LoopEvent PeerId)
        → Traffic cfg sent s h
        → s.status ≡ running
        → IsSwarmEvent e
        → Traffic cfg sent (on_event net e s) h
    fetched :
        {sent : List ConsensusMsg} {s s' : P2pLoop PeerId} {h : P2pNode} {x : Inbound}
        → Traffic cfg sent s h
        → node_inbound s ≡ some (x, s')
        → Traffic cfg sent s' h
    noticed :
        {sent : List ConsensusMsg} {s s' : P2pLoop PeerId} {h : P2pNode} {v : P2pEvent}
        → Traffic cfg sent s h
        → recv_event s ≡ some (v, s')
        → Traffic cfg sent s' h
