-- ===== src/Message.antt =====
-- The messages of the protocol: src/*Message.cpp, and `parse_message` of src/Utils.cpp. The class
-- hierarchy is a data type with a constructor for each class; `stamp` is the field of the base class.
pub mod RoundTrip
pub mod Parsed
pub mod Readable
pub mod Received
pub mod Display
use rac_kun.Text.{Bytes}
use rac_kun.Prelude.{
  Bool, ℕ, Option, ◌∷◌, get_elem?, ◌++◌, true, ◌+◌, some, if◌then◌else◌, none, false, [], leb, ◌==◌,
  length, drop, take, not,
}
use rac_kun.Utils.{make_hash, itos, find_char, before, after, extract_port, uninitialised}
use rac_kun.Outcome.{throw, out_of_range, message_parse, Result, ok, ◌>>=◌}

-- Digests and identifiers, in bytes (src/Config.cpp).
abbrev pub digest_size : ℕ
digest_size = 20

abbrev pub msg_stamp_length : ℕ
msg_stamp_length = digest_size

abbrev pub bcast_marker_length : ℕ
bcast_marker_length = digest_size

abbrev pub id_length : ℕ
id_length = 20

abbrev pub group_id_length : ℕ
group_id_length = digest_size

abbrev pub key_length : ℕ
key_length = 5

-- The most that one read takes from a socket (include/Config.hpp).
abbrev pub message_size : ℕ
message_size = 1024

-- `JoinMessage`, `JoinNotifMessage`, `JoinAckMessage`, `ReadyMessage`, `ReadyNotifMessage` and
-- `DataMessage`; the marker of a `BCastMessage` comes first.
pub data Body : Type 0 where
  join : Bytes → Bytes → ℕ → Body
  join_notif : Bytes → Bool → Bytes → Bytes → Bytes → Bytes → ℕ → Body
  join_ack : Bytes → Bytes → Bytes → Body
  ready : Body
  ready_notif : Body
  payload : Bytes → Bytes → Body

pub record Message : Type 0 where
  pub stamp : Bytes
  pub body : Body

-- The value of the message's `MessageType`.
abbrev pub type_code : Body → ℕ
type_code (join _ _ _) = 1
type_code (join_notif _ _ _ _ _ _ _) = 2
type_code (join_ack _ _ _) = 3
type_code ready = 4
type_code ready_notif = 5
type_code (payload _ _) = 6

abbrev pub is_broadcast : Body → Bool
is_broadcast (join_notif _ _ _ _ _ _ _) = true
is_broadcast (payload _ _) = true
is_broadcast _ = false

-- The marker of a broadcast message.
abbrev pub bcast_marker : Body → Option Bytes
bcast_marker (join_notif marker _ _ _ _ _ _) = some marker
bcast_marker (payload marker _) = some marker
bcast_marker _ = none

module _ (sha1 : Bytes → Bytes) where
  -- `now` is what `milliseconds_since_epoch()` returns.
  unfoldable pub make_stamp : ℕ → Bytes → Message → Message
  unfolding make_hash
  make_stamp now peer_id m = record m {
    stamp = make_hash sha1 ((peer_id ++ itos now) ++ (type_code m.body ∷ []));
  }

-- What the `serialize` of each class appends to the one of the base class.
abbrev serialize_join : Bytes → Bytes → ℕ → Bytes
serialize_join id pub_k port = id ++ (pub_k ++ itos port)

abbrev serialize_join_notif : Bytes → Bool → Bytes → Bytes → Bytes → Bytes → ℕ → Bytes
serialize_join_notif marker channel group_id peer_id pub_k ip port =
    marker
    ++ ((if channel then 1 else 0)
        ∷ (peer_id ++ (pub_k ++ (group_id ++ (ip ++ (b':' ∷ itos port))))))

abbrev serialize_join_ack : Bytes → Bytes → Bytes → Bytes
serialize_join_ack group_id peer_id pub_k = peer_id ++ (pub_k ++ group_id)

abbrev serialize_data : Bytes → Bytes → Bytes
serialize_data marker content = marker ++ content

unfoldable pub serialize_body : Body → Bytes
serialize_body (join id pub_k port) = serialize_join id pub_k port
serialize_body (join_notif marker channel group_id peer_id pub_k ip port) =
    serialize_join_notif marker channel group_id peer_id pub_k ip port
serialize_body (join_ack group_id peer_id pub_k) = serialize_join_ack group_id peer_id pub_k
serialize_body ready = []
serialize_body ready_notif = []
serialize_body (payload marker content) = serialize_data marker content

unfoldable pub serialize : Message → Bytes
serialize m = type_code m.body ∷ (m.stamp ++ serialize_body m.body)

-- `string(msg, pos, n)`: at most `n` bytes from `pos`, which may not lie past the end.
unfoldable pub string_at : Bytes → ℕ → ℕ → Result Bytes
string_at msg pos n =
    if leb pos (length msg) then ok (take n (drop pos msg)) else throw out_of_range

-- `string(msg, pos)`
unfoldable pub string_from : Bytes → ℕ → Result Bytes
string_from msg pos = if leb pos (length msg) then ok (drop pos msg) else throw out_of_range

-- `msg[pos]`. Past the end it reads the null byte; every such read is followed by a `string` that
-- throws, or finds no message type.
unfoldable pub byte_at : Bytes → ℕ → ℕ
byte_at msg pos = elim (get_elem? msg pos) [ none ↦ 0 | some c ↦ c ]

-- The offset of what follows the type and the stamp.
abbrev pub header_length : ℕ
header_length = 1 + msg_stamp_length

unfoldable pub parse_join : Bytes → Result Body
parse_join msg = do
  id ← string_at msg header_length id_length
  pub_k ← string_at msg (header_length + id_length) key_length
  endpoint ← string_from msg (header_length + id_length + key_length)
  ok (join id pub_k (extract_port uninitialised endpoint).port)

unfoldable pub parse_join_notif : Bytes → Result Body
parse_join_notif msg = do
  marker ← string_at msg header_length bcast_marker_length
  let flag = header_length + bcast_marker_length
  let channel = not (byte_at msg flag == 0)
  peer_id ← string_at msg (flag + 1) id_length
  pub_k ← string_at msg (flag + 1 + id_length) key_length
  group_id ← string_at msg (flag + 1 + id_length + key_length) group_id_length
  endpoint ← string_from msg (flag + 1 + id_length + key_length + group_id_length)
  let colon = find_char b':' endpoint
  ok (
      join_notif marker channel group_id peer_id pub_k (before colon endpoint)
        (extract_port uninitialised (after colon endpoint)).port)

unfoldable pub parse_join_ack : Bytes → Result Body
parse_join_ack msg = do
  peer_id ← string_at msg header_length id_length
  pub_k ← string_at msg (header_length + id_length) key_length
  group_id ← string_at msg (header_length + id_length + key_length) group_id_length
  ok (join_ack group_id peer_id pub_k)

unfoldable pub parse_data : Bytes → Result Body
parse_data msg = do
  marker ← string_at msg header_length bcast_marker_length
  content ← string_from msg (header_length + bcast_marker_length)
  ok (payload marker content)

-- The `switch` on the message's type.
unfoldable pub parse_body : ℕ → Bytes → Result Body
parse_body t msg =
    if t == 1
    then parse_join msg
    else if t == 2
    then parse_join_notif msg
    else if t == 3
    then parse_join_ack msg
    else if t == 4
    then ok ready
    else if t == 5
    then ok ready_notif
    else if t == 6
    then parse_data msg
    else throw message_parse

unfoldable pub parse_message : Bytes → Result Message
unfolding parse_body byte_at
parse_message msg = do
  body ← parse_body (byte_at msg 0) msg
  stamp ← string_at msg 1 msg_stamp_length
  ok (record { stamp = stamp; body = body })
