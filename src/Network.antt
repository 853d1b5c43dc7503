-- ===== src/Network.antt =====
-- src/Network.cpp, include/Network.hpp: the local node's view of the system, as a record that the
-- methods below this module change. `shared_ptr`s are references into the two stores; what leaves the
-- node is the list of events, newest first. The resolver, the sockets' connections and the clock are
-- answers of the environment, numbered by the calls.
pub mod Logs
pub mod Print
pub mod Send
pub mod Join
pub mod Disconnect
pub mod Handlers
pub mod Frame
pub mod Trail
pub mod Housed
pub mod History
pub mod AppendOnly
pub mod Reception
pub mod Duplicates
pub mod AtMostOnce
pub mod Pending
pub mod Token
pub mod Place
pub mod Faults
pub mod Wide
pub mod Retained
pub mod Answered
pub mod Unasked
pub mod Joined
pub mod Acknowledged
pub mod Ready
use rac_kun.Ring.{PeerMap}
use rac_kun.Exec.{Exec, ◌>>=◌, results, modify}
use rac_kun.Outcome.{Result, ok, fault, throw, hang}
use rac_kun.Prelude.{ℕ, if◌then◌else◌, ◌∷◌, Option, ◌==◌, List, Bool, ◌++◌, [], suc, none, true}
use rac_kun.Text.{Bytes, lt_bytes, bytes_less}
use rac_kun.Utils.{make_hash}
use rac_kun.Peer.{Peer, Store, PeerRef, get_id, update}
use rac_kun.OrdMap.{OrdMap, insert}
use rac_kun.Group.{Group, make_group}

abbrev pub GroupRef : Type 0
GroupRef = ℕ

pub record Endpoint : Type 0 where
  pub address : Bytes
  pub port : ℕ

pub record Env : Type 0 where
  pub sha1 : Bytes → Bytes
  -- the n-th `milliseconds_since_epoch()`
  pub time : ℕ → ℕ
  -- the endpoints that the n-th `resolve` returns; `none` where it throws
  pub resolve : ℕ → Bytes → Bytes → Option (List Endpoint)
  -- whether the n-th `connect_peer` gets through to an endpoint
  pub connects : ℕ → Endpoint → Bool
  -- `settings.LISTEN_PORT`
  pub listen_port : ℕ

-- A message as it was sent, and how often each peer sent it to us.
pub record MessageLog : Type 0 where
  pub message : Bytes
  pub control : OrdMap Bytes ℕ

pub data Timer : Type 0 where
  ready_timer join_timer : Timer

pub data Event : Type 0 where
  sent : PeerRef → Bytes → Event
  listening : PeerRef → Event
  started : Timer → PeerRef → ℕ → Event
  shown : PeerRef → Bytes → Event

-- `new_peers` holds a null pointer where `operator[]` made the entry.
pub record Network : Type 0 where
  pub store : Store
  pub next_peer : PeerRef
  pub group_store : GroupRef → Group
  pub next_group : GroupRef
  pub peers : PeerMap
  pub local_peer : PeerRef
  pub groups : OrdMap Bytes GroupRef
  pub local_group : Option GroupRef
  pub channel_markers : OrdMap Bytes Bytes
  pub new_peers : OrdMap Bytes (Option PeerRef × ℕ)
  pub join_token : Bool
  pub logs : List MessageLog
  pub ready_timers : OrdMap Bytes ℕ
  pub join_timers : OrdMap Bytes ℕ
  pub next_timer : ℕ
  pub clock : ℕ
  pub connections : ℕ
  pub events : List Event

-- `Network(io_service, resolver, local_peer)`, with the local peer at reference 0.
unfoldable pub make_network : Peer → Network
make_network local = record {
  store = λ _. local;
  next_peer = 1;
  group_store = λ _. make_group [];
  next_group = 0;
  peers = [];
  local_peer = 0;
  groups = [];
  local_group = none;
  channel_markers = [];
  new_peers = [];
  join_token = true;
  logs = [];
  ready_timers = [];
  join_timers = [];
  next_timer = 0;
  clock = 0;
  connections = 0;
  events = [];
}

abbrev pub Method : Type 0 → Type 0
Method A = Exec Network A

abbrev pub peer_of : Network → PeerRef → Peer
peer_of n p = n.store p

abbrev pub id_of : Network → PeerRef → Bytes
id_of n = get_id n.store

abbrev pub emit_event : Event → Network → Network
emit_event e n = record n { events = e ∷ n.events }

-- A write to a peer, and to a group.
abbrev pub write_peer : PeerRef → (Peer → Peer) → Network → Network
write_peer p f n = record n { store = update p f n.store }

abbrev pub write_group : GroupRef → Group → Network → Network
write_group g v n = record n { group_store = λ h. if g == h then v else n.group_store h }

-- A call of a method of `Group` that may throw.
unfoldable pub on_group : GroupRef → (Network → Group → Result Group) → Method Unit
on_group g f = do v ← results (λ n. f n (n.group_store g)); modify (write_group g v)

-- `socket->async_write_some` through `Peer::send`; the local peer's socket is null.
unfoldable pub peer_send : Bytes → PeerRef → Method Unit
peer_send msg p n = if (n.store p).local then (fault, n) else (ok tt, emit_event (sent p msg) n)

-- `Peer::start_listening` and `Peer::listen`: a read is under way. The source's read ends with what has
-- arrived, at most `message_size` bytes; which bytes its handler gets is an argument of the handler.
unfoldable pub listen : PeerRef → Method Unit
listen p n = if (n.store p).local then (fault, n) else (ok tt, emit_event (listening p) n)

-- `milliseconds_since_epoch()`
unfoldable pub now : Env → Method ℕ
now env n = (ok (env.time n.clock), record n { clock = suc n.clock })

-- `create_group`: the group is not found under its id if another one is.
unfoldable pub create_group : Bytes → Method GroupRef
create_group id n = (
  ok n.next_group,
  record n {
    group_store = (λ h. if n.next_group == h then make_group id else n.group_store h);
    next_group = suc n.next_group;
    groups = insert id n.next_group n.groups;
  },
)

unfoldable pub make_channel_marker : Env → Bytes → Bytes → Bytes
unfolding make_hash
make_channel_marker env id1 id2 =
    if lt_bytes id1 id2 then make_hash env.sha1 (id1 ++ id2) else make_hash env.sha1 (id2 ++ id1)
