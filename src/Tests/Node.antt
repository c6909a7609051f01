-- ===== src/Tests/Node.antt =====
-- The theorems on the network task and the node binary, applied to small runs.
use amunchain.Base.{
  Result, err, Bool, true, false, ok, subst, some_inj, Option, ℕ, ◌-◌, ◌≤◌, ◌≡◌, ◌↔◌, ◌⊎◌, refl,
  true, false, none, some, List, [], ◌∷◌, ◌++◌, if◌then◌else◌, ltb, length, arith,
}
use amunchain.Order.{◌=?◌, nat_ord, bytes_ord}
use amunchain.BtreeMap.{get, insert}
use amunchain.Ints.{negsuc, diff, ◌-ℤ◌}
use amunchain.Strings.{Text, ascii, trim, decimal, strip_prefix, parse_unsigned, parse_digits}
use amunchain.Types.{vote}
use amunchain.P2p.{
  start_task, dialled, Libp2p, P2pConfig, P2pLoop, LoopEvent, Inbound, connection_established,
  connection_closed, behaviour, gossipsub, message, start_loop, build_allow_set, is_refused,
  on_event, on_message, sending_msg,
}
use amunchain.P2p.Run.{Run, start, handled, accepted, held, HasRoom}
use amunchain.P2p.Delivered.{delivered_in_order, undrained_stalls}
use amunchain.P2p.Gauge.{opened, closed, p2p_peers_exact}
use amunchain.P2p.Allowlist.{Listed, NoneListed, is_refused_exact}
use amunchain.Paths.{push, split_last}
use amunchain.Disk.{
  Disk, outcome, exists, create_dir_all, open_truncated, write_all, sync_all, rename,
}
use amunchain.P2pIdentity.{
  Libp2pKeys, load_or_create_identity, find_identity, create_identity, write_identity,
}
use amunchain.Node.{
  bootstrap_list, bootstrap_addr, node1_data_dir, node_index_from_data_dir, components, first_index,
  index_of,
}
use amunchain.Node.{node_config, fixed_allow_peers}
use amunchain.Node.Main.{Waiting, begun, turned, main, started}
use amunchain.Node.Guarded.{FromListed, main_guarded}
use amunchain.P2p.{stopped}
use amunchain.Paths.{Env}
use amunchain.Base.{All, ◌≢◌, none≢some, sym}
use amunchain.P2p.{outbound}
use amunchain.P2p.Handle.{
  Traffic, launched, cloned, dropped, posted, polled, new_node, node_outbound,
}
use amunchain.P2p.Broadcast.{InStep, broadcast_in_order}
use amunchain.Types.{ConsensusMsg}
use amunchain.Node.Bootstrap.{bootstrap_names_node1}
use amunchain.P2p.Spawn.{spawn_p2p, ensure_dir}
use amunchain.Metrics.{Metrics, MetricsError, Prometheus, new_metrics}
use amunchain.Tests.{ballot}

-- A peer is written as one digit; every message that is not empty decodes to one vote.
abbrev net : Libp2p ℕ Text
net = record {
  parse_peer = λ s. elim s [ [] ↦ none | c ∷ cs ↦ if ltb c 58 then some (c - 48) else none ];
  peer_bytes = λ p. p ∷ [];
  parse_addr = λ s. some s;
  has_noise = true;
  has_gossipsub = true;
  can_listen = λ a. true;
  serialize = λ msg. some [];
  deserialize = λ b. elim b [ [] ↦ none | c ∷ cs ↦ some (vote (ballot 1 1 0 1 1 1)) ];
}

abbrev cfg : P2pConfig
cfg = record {
  listen_addr = ascii "here";
  consensus_topic = ascii "topic";
  max_msg_per_sec = 200;
  max_peers_per_ip = 4;
  data_dir = ascii "data";
  bootstrap = [];
  allow_peers = ascii "1" ∷ ascii " 2 " ∷ ascii "x" ∷ [];
}

-- Peer 9 is refused and its connection closes; peer 2 sends a message.
abbrev events : List (LoopEvent ℕ)
events =
    connection_established 9
    ∷ connection_closed 9
    ∷ behaviour (gossipsub (message 2 (7 ∷ [])))
    ∷ behaviour (gossipsub (message 9 (7 ∷ [])))
    ∷ []

abbrev after : List (LoopEvent ℕ) → P2pLoop ℕ → P2pLoop ℕ
after [] s = s
after (e ∷ es) s = after es (on_event net e s)

abbrev last_state : P2pLoop ℕ
last_state = after events (start_loop net cfg 0 0)

run : Run net cfg events [] [] last_state
unfolding on_event on_message start_loop build_allow_set trim insert get
run =
    handled (behaviour (gossipsub (message 9 (7 ∷ []))))
      (handled (behaviour (gossipsub (message 2 (7 ∷ []))))
        (handled (connection_closed 9) (handled (connection_established 9) (start 0 0) refl) refl)
        refl)
      refl

delivered_in_order_example :
    let allow = build_allow_set net cfg.allow_peers in
    (last_state.allow_set ≡ allow)
    × ([] ++ held last_state ≡ accepted net allow events)
    × HasRoom last_state
delivered_in_order_example = delivered_in_order net run

undrained_stalls_example :
    let taken = length (accepted net (build_allow_set net cfg.allow_peers) events) in
    (taken ≤ 1024) ⊎ ((taken ≤ 1025) × ((x : Inbound) × (last_state.status ≡ sending_msg x)))
undrained_stalls_example = undrained_stalls net run

p2p_peers_exact_example :
    last_state.p2p_peers
    ≡ diff (opened (build_allow_set net cfg.allow_peers) events) (closed events)
p2p_peers_exact_example = p2p_peers_exact net run

below_zero : last_state.p2p_peers ≡ negsuc 0
unfolding on_event on_message start_loop build_allow_set trim insert get ◌-ℤ◌
below_zero = refl

is_refused_exact_example :
    (is_refused (build_allow_set net (ascii "x" ∷ [])) 9 ≡ false)
    ↔ (NoneListed net (ascii "x" ∷ []) ⊎ Listed net 9 (ascii "x" ∷ []))
is_refused_exact_example = is_refused_exact net 9 (ascii "x" ∷ [])

-- A key is one byte, which is also the peer's identity.
abbrev identity_keys : Libp2pKeys ℕ ℕ
identity_keys = record {
  from_protobuf = λ b. elim b [ [] ↦ none | k ∷ ks ↦ some k ];
  to_protobuf = λ k. some (k ∷ []);
  peer_id_of = λ k. k;
}

abbrev blank : Disk
blank = record { files = λ _. none; faults = [] }

-- The disk after the third node looked for the first node's identity.
abbrev looked : Disk
looked = (bootstrap_list identity_keys decimal 7 3 blank).1

bootstrap_names_node1_example :
    let dialled = (bootstrap_list identity_keys decimal 7 3 blank).0 in
    let later =
      load_or_create_identity identity_keys 8 node1_data_dir
        (record { files = looked.files; faults = [] }) in
    (dialled ≡ [])
    ⊎ ((p : ℕ) × (kp : ℕ) × ((dialled ≡ bootstrap_addr decimal p ∷ []) × (later.0 ≡ ok (p, kp))))
bootstrap_names_node1_example =
    bootstrap_names_node1 identity_keys decimal 7 8 3 blank looked.files
      (λ kp bytes h.
        subst (λ b. elim b as (λ _. Option ℕ) [ [] ↦ none | k ∷ ks ↦ some k ] ≡ some kp)
          (some_inj h) refl)
      (λ e. absurd (omega arith)) refl

dials_node1 :
    (bootstrap_list identity_keys decimal 7 3 blank).0 ≡ ascii "/ip4/127.0.0.1/tcp/4001/p2p/7" ∷ []
unfolding bootstrap_list load_or_create_identity find_identity create_identity write_identity
    create_dir_all open_truncated write_all sync_all rename outcome exists push split_last decimal
dials_node1 = refl

third_node : node_index_from_data_dir (ascii "/srv/amunchain/node3/data") ≡ 3
unfolding node_index_from_data_dir components first_index index_of strip_prefix parse_unsigned
    parse_digits
third_node = refl

hundredth_node : node_index_from_data_dir (ascii "/srv/amunchain/node100/data") ≡ 1
unfolding node_index_from_data_dir components first_index index_of strip_prefix parse_unsigned
    parse_digits
hundredth_node = refl

-- The node starts its loop on an empty disk, with the identity that it made.
started_loop :
    (spawn_p2p identity_keys (λ k. net) false 7 0 0 cfg blank).0
    ≡ ok (7, new_node, some ([], start_loop net cfg 0 0))
unfolding spawn_p2p ensure_dir load_or_create_identity find_identity create_identity write_identity
    create_dir_all open_truncated write_all sync_all rename outcome exists push split_last
    start_task dialled
started_loop = refl

-- A registry that knows its names refuses no metric.
abbrev contains_name : Text → List Text → Bool
contains_name name [] = false
contains_name name (x ∷ xs) = if name =? x then true else contains_name name xs

abbrev map_ok : Result MetricsError (Metrics (List Text) Text Text) → Option ℕ
map_ok (ok m) = some (length m.registry)
map_ok (err e) = none

abbrev named : Prometheus (List Text) Text Text
named = record {
  new_registry = [];
  int_gauge = λ name help. some name;
  int_counter = λ name help. some name;
  register_gauge = λ name names. if contains_name name names then none else some (name ∷ names);
  register_counter = λ name names. if contains_name name names then none else some (name ∷ names);
}

eight_metrics : map_ok (new_metrics named) ≡ some 8
unfolding new_metrics
eight_metrics = refl

-- The third node's task, and the state after a message of a listed peer and one of another.
abbrev third_env : Env
third_env key = if key =? ascii "AMUN_DATA_DIR" then some (ascii "/srv/node3") else none

abbrev third_cfg : P2pConfig
third_cfg = (node_config identity_keys decimal third_env 7 blank).0

abbrev third_start : P2pLoop ℕ
third_start = start_loop net third_cfg 0 0

abbrev gossip : ℕ → LoopEvent ℕ
gossip p = behaviour (gossipsub (message p (7 ∷ [])))

abbrev third_later : P2pLoop ℕ
third_later = on_event net (gossip 9) (on_event net (gossip 1) third_start)

some_listed : ¬ NoneListed net fixed_allow_peers
unfolding trim
some_listed h = none≢some (sym h.0)

abbrev dials : List Text
dials = ascii "/ip4/127.0.0.1/tcp/4001/p2p/7" ∷ []

third_main :
    (main named identity_keys decimal net third_env false 7 8 blank).0
    ≡ started 8 new_node (some (dials, third_start))
unfolding main node_config bootstrap_list load_or_create_identity find_identity create_identity
    write_identity create_dir_all open_truncated write_all sync_all rename outcome exists push
    split_last decimal new_metrics spawn_p2p ensure_dir start_task dialled trim
    node_index_from_data_dir components first_index index_of strip_prefix parse_unsigned
    parse_digits
third_main = refl

third_waits : Waiting net third_start new_node (gossip 1 ∷ gossip 9 ∷ []) [] third_later new_node
unfolding on_event on_message start_loop build_allow_set trim insert get node_config
third_waits = turned (gossip 9) tt (turned (gossip 1) tt begun refl) refl

main_guarded_example :
    (third_later.status ≢ stopped) × All (FromListed net fixed_allow_peers) (held third_later)
main_guarded_example =
    main_guarded net identity_keys named decimal third_env false 7 8 blank 8 new_node new_node dials
      third_start third_later (gossip 1 ∷ gossip 9 ∷ []) [] some_listed third_main third_waits

-- A second sender sends a vote and is dropped; the loop publishes the vote, in vain.
abbrev news : ConsensusMsg
news = vote (ballot 1 1 0 1 1 1)

abbrev told : P2pLoop ℕ
told = on_event net (outbound false (some news)) third_start

told-Traffic : Traffic net third_cfg (news ∷ []) told new_node
unfolding node_outbound start_loop
told-Traffic =
    dropped (polled false (posted news (cloned (launched 0 0) (omega arith)) refl) refl refl)

broadcast_in_order_example : InStep net (news ∷ []) told new_node
broadcast_in_order_example = broadcast_in_order net told-Traffic
