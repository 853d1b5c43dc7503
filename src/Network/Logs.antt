-- ===== src/Network/Logs.antt =====
-- The history of `Network`: `find_log`, `log_message` and the functor `ack_message`. The container
-- has two indices over one sequence: the order of insertion, and the stamps.
use rac_kun.Exec.{◌>>=◌, modify, pure, ◌>>◌, gets, pointee, option_case}
use rac_kun.OrdMap.{find, assign, same}
use rac_kun.Peer.{PeerRef}
use rac_kun.Text.{Bytes, bytes_less}
use rac_kun.Prelude.{Option, List, some, take, if◌then◌else◌, none, drop, ◌++◌, []}
use rac_kun.Network.{Method, PeerMap, GroupRef, ℕ, MessageLog, OrdMap, none, ◌∷◌, id_of, [], suc}
use rac_kun.Message.{Message, Body, serialize, msg_stamp_length, bcast_marker}

-- The key of the ordered index: `string(message, 1, MSG_STAMP_LENGTH)`. A logged message is never empty.
abbrev pub stamp_of : Bytes → Bytes
stamp_of s = take msg_stamp_length (drop 1 s)

-- `h_logs.find`, by a stamp
unfoldable pub find_stamp : Bytes → List MessageLog → Option MessageLog
find_stamp stamp [] = none
find_stamp stamp (l ∷ ls) = if same (stamp_of l.message) stamp then some l else find_stamp stamp ls

unfoldable pub find_log : Message → List MessageLog → Option MessageLog
find_log m logs = find_stamp (stamp_of (serialize m)) logs

abbrev pub or_zero : Option ℕ → ℕ
or_zero none = 0
or_zero (some n) = n

-- `ack_message`: one more reception from a peer
unfoldable pub ack_message : Bytes → MessageLog → MessageLog
ack_message peer_id l = record l {
  control = assign peer_id (suc (or_zero (find peer_id l.control))) l.control;
}

-- `h_logs.modify(it, ack_message(emitter))`, where the iterator is given by its stamp
unfoldable pub modify_log : Bytes → Bytes → List MessageLog → List MessageLog
modify_log stamp peer_id [] = []
modify_log stamp peer_id (l ∷ ls) =
    if same (stamp_of l.message) stamp
    then ack_message peer_id l ∷ ls
    else l ∷ modify_log stamp peer_id ls

-- The peers that a broadcast is expected from, each with no reception yet.
unfoldable pub expected : (PeerRef → Bytes) → PeerMap → OrdMap Bytes ℕ
expected ids [] = []
expected ids ((k, p) ∷ m) = assign (ids p) 0 (expected ids m)

-- `channel_markers[marker]`, which makes an entry where there is none
unfoldable pub marker_entry : Bytes → Method Bytes
marker_entry marker = do
  it ← gets (λ n. find marker n.channel_markers)
  option_case it
      (do modify (λ n. record n { channel_markers = assign marker [] n.channel_markers }); pure [])
      pure

-- `groups[id]`, as the object of a call: an entry that `operator[]` makes is a null pointer.
unfoldable pub group_entry : Bytes → Method GroupRef
group_entry id = pointee (λ n. find id n.groups)

-- The control map of a new log.
unfoldable pub new_control : Body → Method (OrdMap Bytes ℕ)
new_control b = option_case (bcast_marker b) (pure []) λ marker. do
  id ← marker_entry marker
  g ← group_entry id
  gets (λ n. expected (id_of n) (n.group_store g).predecessors)

unfoldable pub insert_log : Message → Method Unit
insert_log m = do
  control ← new_control m.body
  modify (λ n. record n {
    logs = n.logs ++ (record { message = serialize m; control = control } ∷ []);
  })

-- Only what others sent counts as received.
unfoldable pub acknowledge : Message → PeerRef → Method Unit
acknowledge m emitter = modify (λ n.
    if (n.store emitter).local
    then n
    else record n { logs = modify_log (stamp_of (serialize m)) (id_of n emitter) n.logs })

unfoldable pub log_message : Message → PeerRef → Method Unit
log_message m emitter = do
  it ← gets (λ n. find_log m n.logs)
  option_case it (insert_log m >> acknowledge m emitter) (λ l. acknowledge m emitter)
