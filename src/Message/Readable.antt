-- ===== src/Message/Readable.antt =====
-- What `parse_message` needs of a message that the program writes to read it back at all: the widths of
-- the fields that are cut by their length. The port and the address may be anything.
use rac_kun.Utils.{uninitialised}
use rac_kun.Prelude.{◌≡◌, ◌≤◌, if◌then◌else◌, ◌∷◌, refl, ◌++◌, ◌+◌, ◌==◌}
use rac_kun.Message.RoundTrip.{
  Reads, Reads-next, parse_join_ack-Reads, parse_data-Reads, Reads-stamp, string_at-Reads,
  string_from-Reads,
}
use rac_kun.Message.{
  Body, Message, Bytes, length, ok, serialize, parse_join, msg_stamp_length, join, serialize_body,
  id_length, header_length, key_length, join_notif, bcast_marker_length, group_id_length, join_ack,
  payload, ready, ready_notif, parse_message, parse_body, parse_join_notif, type_code, byte_at,
  Bool, ℕ, [], extract_port, itos, find_char, not, before, after, uninitialised,
}

-- The bytes are those of some message.
abbrev pub Parses : Bytes → Type 0
Parses s = (m : Message) × (parse_message s ≡ ok m)

-- The fields that are cut by their length have it.
abbrev pub IsFull : Body → Type 0
IsFull (join id pub_k port) = (length id ≡ id_length) × (length pub_k ≡ key_length)
IsFull (join_notif marker channel group_id peer_id pub_k ip port) =
    (length marker ≡ bcast_marker_length)
    × (length group_id ≡ group_id_length)
    × (length peer_id ≡ id_length)
    × (length pub_k ≡ key_length)
IsFull (join_ack group_id peer_id pub_k) =
    (length group_id ≤ group_id_length) × (length peer_id ≡ id_length) × (length pub_k ≡ key_length)
IsFull ready = Unit
IsFull ready_notif = Unit
IsFull (payload marker content) = length marker ≡ bcast_marker_length

-- What is read of a body.
abbrev ParsesBody : Bytes → Body → Type 0
ParsesBody msg b = (b' : Body) × (parse_body (type_code b) msg ≡ ok b')

module _ {msg : Bytes} where
  parses_join :
      (id pub_k : Bytes) (port : ℕ)
      → IsFull (join id pub_k port)
      → Reads msg header_length (serialize_body (join id pub_k port))
      → ParsesBody msg (join id pub_k port)
  unfolding parse_body parse_join serialize_body
  parses_join id pub_k port v r =
      let r1 = Reads-next id_length id _ v.0 r in
      let r2 = Reads-next key_length pub_k _ v.1 r1 in
      (
        join id pub_k (extract_port uninitialised (itos port)).port,
        rw
            (
              string_at-Reads id_length id _ v.0 r,
              string_at-Reads key_length pub_k _ v.1 r1,
              string_from-Reads _ r2,
            )
            refl,
      )

  parses_join_notif :
      (marker : Bytes) (channel : Bool) (group_id peer_id pub_k ip : Bytes) (port : ℕ)
      → IsFull (join_notif marker channel group_id peer_id pub_k ip port)
      → Reads msg header_length
          (serialize_body (join_notif marker channel group_id peer_id pub_k ip port))
      → ParsesBody msg (join_notif marker channel group_id peer_id pub_k ip port)
  unfolding parse_body parse_join_notif serialize_body
  parses_join_notif marker channel group_id peer_id pub_k ip port v r =
      let r1 = Reads-next bcast_marker_length marker _ v.0 r in
      let r2 = Reads-next 1 ((if channel then 1 else 0) ∷ []) _ refl r1 in
      let r3 = Reads-next id_length peer_id _ v.2 r2 in
      let r4 = Reads-next key_length pub_k _ v.3 r3 in
      let r5 = Reads-next group_id_length group_id _ v.1 r4 in
      let endpoint = ip ++ b':' ∷ itos port in
      let colon = find_char b':' endpoint in
      (
        join_notif marker (not (byte_at msg (header_length + bcast_marker_length) == 0)) group_id
            peer_id pub_k (before colon endpoint)
            (extract_port uninitialised (after colon endpoint)).port,
        rw
            (
              string_at-Reads bcast_marker_length marker _ v.0 r,
              string_at-Reads id_length peer_id _ v.2 r2,
              string_at-Reads key_length pub_k _ v.3 r3,
              string_at-Reads group_id_length group_id _ v.1 r4,
              string_from-Reads _ r5,
            )
            refl,
      )

  parses_body :
      (b : Body) → IsFull b → Reads msg header_length (serialize_body b) → ParsesBody msg b
  unfolding parse_body
  parses_body (join id pub_k port) v r = parses_join id pub_k port v r
  parses_body (join_notif marker channel group_id peer_id pub_k ip port) v r =
      parses_join_notif marker channel group_id peer_id pub_k ip port v r
  parses_body (join_ack group_id peer_id pub_k) v r =
      (_, parse_join_ack-Reads group_id peer_id pub_k v r)
  parses_body ready v r = (_, refl)
  parses_body ready_notif v r = (_, refl)
  parses_body (payload marker content) v r = (_, parse_data-Reads marker content v r)

-- A message with its stamp and full fields is read as some message.
pub serialize-Parses :
    (m : Message) → length m.stamp ≡ msg_stamp_length → IsFull m.body → Parses (serialize m)
unfolding parse_message serialize byte_at
serialize-Parses m stamped v =
    let r = Reads-next msg_stamp_length m.stamp _ stamped (Reads-stamp m) in
    let (b, body) = parses_body m.body v r in
    (
      record { stamp = m.stamp; body = b },
      rw (body, string_at-Reads msg_stamp_length m.stamp _ stamped (Reads-stamp m)) refl,
    )
