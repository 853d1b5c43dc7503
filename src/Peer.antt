-- ===== src/Peer.antt =====
-- src/Peer.cpp, include/Peer.hpp: one node of the system, as the local node sees it. A
-- `shared_ptr<Peer>` is a reference into a store of peers, so that what one holder writes the others
-- see. Sockets are outside: a peer has the remote endpoint of its socket.
use rac_kun.Prelude.{ℕ, [], Bool, true, false, ◌==◌, if◌then◌else◌}
use rac_kun.Text.{Bytes, codes}

pub data PeerState : Type 0 where
  new joining connected : PeerState

pub record Peer : Type 0 where
  pub id : Bytes
  pub pub_id_key : Bytes
  pub state : PeerState
  pub local : Bool
  pub remote_address : Bytes
  pub remote_port : ℕ

-- `Peer(socket, local)`: no identity yet.
unfoldable pub make_peer : Bytes → ℕ → Bool → Peer
make_peer address port local = record {
  id = [];
  pub_id_key = [];
  state = new;
  local = local;
  remote_address = address;
  remote_port = port;
}

unfoldable pub init : Bytes → Bytes → Peer → Peer
init id pub_key p = record p { id = id; pub_id_key = pub_key }

unfoldable pub set_state : PeerState → Peer → Peer
set_state state p = record p { state = state }

abbrev pub is_known : Peer → Bool
is_known p = elim p.state [ new ↦ false | _ ↦ true ]

-- The endpoint of a socket that is, or was, connected. Where the source reads the endpoint of a socket
-- that has lost its connection, `remote_endpoint` raises; `handle_accept` models this for a new connection,
-- and elsewhere a peer keeps the endpoint that it had.
abbrev pub get_address : Peer → Bytes
get_address p = if p.local then codes "localhost" else p.remote_address

abbrev pub get_port : ℕ → Peer → ℕ
get_port listen_port p = if p.local then listen_port else p.remote_port

abbrev pub PeerRef : Type 0
PeerRef = ℕ

abbrev pub Store : Type 0
Store = PeerRef → Peer

-- A write through a reference.
unfoldable pub update : PeerRef → (Peer → Peer) → Store → Store
update r f s q = if r == q then f (s q) else s q

abbrev pub get_id : Store → PeerRef → Bytes
get_id s r = (s r).id
