-- ===== src/Examples/Strangers.antt =====
-- A peer that connects and does not ask to join, and a node whose inputs are proper.
use rac_kun.Network.Send.Wire.{Remote}
use rac_kun.Network.Answered.{announcement, marker_of}
use rac_kun.Network.Acknowledged.{AtMostTimer, reply_message}
use rac_kun.Cluster.Routing.{Routes}
use rac_kun.Network.Join.{ready_time}
use rac_kun.OrdMap.{find, insert}
use rac_kun.Group.{make_group}
use rac_kun.Peer.{set_state, connected, update}
use rac_kun.Network.{Event, sent, started, ready_timer, id_of, make_channel_marker, listening}
use rac_kun.Text.{lt_bytes, bytes_less}
use rac_kun.Node.Readable.{logs_returns, unreadable_ends_logs}
use rac_kun.Outcome.{ok}
use rac_kun.Network.Unasked.{unnamed_notif_unread, let_in, unasked_ready_notif}
use rac_kun.Examples.Wires.{reaching}
use rac_kun.Network.Handlers.{handle_incoming_message, success}
use rac_kun.Prelude.{
  List, length, ◌≡◌, [], arith, false, none, some, ◌∷◌, true, refl, ◌≢◌, subst, inl, suc, ◌++◌,
}
use rac_kun.Message.{
  Message, ready_notif, serialize, parse_message, join, id_length, key_length, join_notif,
}
use rac_kun.Message.Readable.{Parses}
use rac_kun.Examples.Nodes.{digest}
use rac_kun.Message.RoundTrip.{IsMessage, parse_message-serialize}
use rac_kun.Text.{Bytes, codes}
use rac_kun.Exec.{modify, ◌>>=◌}
use rac_kun.Peer.{init, make_peer, update, Peer, is_known}
use rac_kun.OrdMap.{assign}
use rac_kun.Network.Join.{allocate, add_new_peer}
use rac_kun.Network.Logs.{find_log, find_stamp}
use rac_kun.Network.{make_network, listen, Network}
use rac_kun.Utils.{itos, emit}
use rac_kun.Network.Wide.Incoming.{Proper}
use rac_kun.Node.{run, accepted, received, typed, run_line, handle_accept, Stimulus}

abbrev local : Peer
local = init digest (codes "AAAAA") (make_peer [] 0 true)

-- The peer at reference 1 has connected.
abbrev pub visited : Network
visited =
    (handle_accept false (some (record { address = codes "10.0.0.1"; port = 4000 }))
      (make_network local)).1

pub visited_remote : (visited.store 1).local ≡ false
unfolding handle_accept ◌>>=◌ allocate add_new_peer modify listen make_network make_peer update init
visited_remote = refl

pub visited_unknown : is_known (visited.store 1) ≡ false
unfolding handle_accept ◌>>=◌ allocate add_new_peer modify listen make_network make_peer update init
visited_unknown = refl

-- The node has a group, with a successor in it.
abbrev hosting : Network
hosting = record visited {
  store = update 2 (λ q. make_peer (codes "10.0.0.2") 4000 false) visited.store;
  local_group = some 0;
  group_store = λ g. record (make_group digest) { successors = (codes "successor", 2) ∷ [] };
  groups = (digest, 0) ∷ [];
  channel_markers = (make_channel_marker reaching digest digest, digest) ∷ [];
}

hosting-remote : (hosting.store 1).local ≡ false
unfolding handle_accept ◌>>=◌ allocate add_new_peer modify listen make_network make_peer update init
hosting-remote = refl

hosting-unknown : is_known (hosting.store 1) ≡ false
unfolding handle_accept ◌>>=◌ allocate add_new_peer modify listen make_network make_peer update init
hosting-unknown = refl

hosting-fresh : find_log (record { stamp = digest; body = ready_notif }) hosting.logs ≡ none
unfolding find_log find_stamp handle_accept ◌>>=◌ allocate add_new_peer modify listen make_network
    make_peer update init
hosting-fresh = refl

hosting-waits : hosting.new_peers ≡ (codes "10.0.0.1", (some 1, 0)) ∷ []
unfolding handle_accept ◌>>=◌ allocate add_new_peer modify listen make_network make_peer update init
    assign
hosting-waits = refl

hosting-marked : find (marker_of reaching 1 0 0 hosting) hosting.channel_markers ≡ some digest
unfolding find lt_bytes make_group make_channel_marker
hosting-marked = refl

hosting-grouped : find digest hosting.groups ≡ some 0
unfolding find lt_bytes
hosting-grouped = refl

hosting-successors : Remote hosting (hosting.group_store 0).successors
unfolding make_peer update
hosting-successors = (refl, tt)

-- The marker leads to the group.
abbrev hosting-routes : Routes (marker_of reaching 1 0 0 hosting) hosting
hosting-routes = record {
  id = digest;
  group = 0;
  marked = hosting-marked;
  grouped = hosting-grouped;
  remote = hosting-successors;
}

unasked_ready_notif_example :
    let m : Message = record { stamp = digest; body = ready_notif } in
    let out = handle_incoming_message reaching 0 success (serialize m) 1 hosting in
    let n1 = let_in 1 hosting in
    let ack = reply_message reaching 0 (record n1 { clock = suc hosting.clock }) in
    (timers : List Event) × AtMostTimer 1 timers
    × (out.0 ≡ ok tt)
    × (out.1.events
        ≡ started ready_timer 1 ready_time
          ∷ (timers
              ++ sent 1 (serialize ack)
                ∷ sent 2 (serialize (announcement reaching 1 0 0 n1))
                ∷ listening 1
                ∷ hosting.events))
    × (find (id_of n1 1) out.1.peers ≡ some 1)
    × ((out.1.group_store 0).peers ≡ insert (id_of n1 1) 1 (hosting.group_store 0).peers)
    × (out.1.store ≡ update 1 (set_state connected) hosting.store)
unasked_ready_notif_example =
    unasked_ready_notif reaching 0 digest (codes "10.0.0.1") 1 0 [] 0 hosting hosting-routes refl
      hosting-remote hosting-unknown hosting-fresh hosting-waits refl refl

-- What the node's group is told of that peer.
abbrev unnamed : Bytes
unnamed =
    serialize
      (record { stamp = digest; body = join_notif digest false digest [] [] (codes "10.0.0.1") 0 })

unnamed_notif_unread_example : ¬ Parses unnamed
unfolding itos emit
unnamed_notif_unread_example =
    unnamed_notif_unread digest digest digest (codes "10.0.0.1") false 0 refl refl refl
      (omega arith)

-- A node that has logged it.
abbrev spoilt : Network
spoilt = record (make_network local) { logs = record { message = unnamed; control = [] } ∷ [] }

unreadable_ends_logs_example :
    (run_line reaching (codes "logs") (run reaching (typed (codes "help") ∷ []) spoilt)).0 ≢ ok true
unreadable_ends_logs_example =
    unreadable_ends_logs reaching unnamed (typed (codes "help") ∷ []) spoilt (inl refl)
      unnamed_notif_unread_example

abbrev asking : Message
asking = record { stamp = digest; body = join digest (codes "BBBBB") 4000 }

asking-IsMessage : IsMessage asking
asking-IsMessage = record { stamp_length = refl; body_fits = (refl, refl, omega arith) }

asking-Proper : (m : Message) (p : Peer) → parse_message (serialize asking) ≡ ok m → Proper m.body p
asking-Proper m p e =
    let same : asking ≡ m = cc (e, parse_message-serialize asking asking-IsMessage) in
    subst (λ (x : Message). Proper x.body p) same tt

abbrev visits : List Stimulus
visits =
    accepted false (some (record { address = codes "10.0.0.1"; port = 4000 }))
    ∷ received 0 success (serialize asking) 1
    ∷ typed (codes "broadcast hello")
    ∷ []

local-id : length local.id ≡ id_length
unfolding init make_peer
local-id = refl

local-key : length local.pub_id_key ≡ key_length
unfolding init make_peer
local-key = refl

logs_returns_example :
    (run_line reaching (codes "logs") (run reaching visits (make_network local))).0 ≡ ok true
logs_returns_example =
    logs_returns reaching local visits (λ s. refl) local-id local-key
      (tt, ((λ m e. asking-Proper m _ e), (tt, tt)))
