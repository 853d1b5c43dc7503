-- ===== src/Message/RoundTrip.antt =====
-- `parse_message` reads back what `serialize` wrote.
use rac_kun.Utils.{port_max}
use rac_kun.Prelude.{
  ◌≤◌, ◌∷◌, ◌+◌, ◌≡◌, ◌++◌, arith, refl, [], get_elem?_of_drop, ap, take-append, take_all,
  length-append, length-drop, sym, drop-drop, ◌∙◌, drop-append, if◌then◌else◌, ◌==◌, true, false,
}
use rac_kun.Message.{
  Body, Message, Bytes, ℕ, length, byte_at, string_at, drop, string_from, ok, serialize, parse_join,
  msg_stamp_length, join, serialize_body, id_length, header_length, key_length, join_notif,
  bcast_marker_length, group_id_length, join_ack, payload, ready, ready_notif, Bool, parse_message,
  parse_data, parse_body, parse_join_ack, parse_join_notif, type_code, not, itos, uninitialised,
}
use rac_kun.Utils.Split.{Lacks, split_at}
use rac_kun.Utils.Decimal.{extract_port-itos}

-- From position `pos` on, the message reads `rest`.
pub record Reads (msg : Bytes) (pos : ℕ) (rest : Bytes) : Type 0 where
  pub inside : pos ≤ length msg
  pub reads : drop pos msg ≡ rest

module _ {msg : Bytes} {pos : ℕ} where
  -- A field of `n` bytes, and what is read behind it.
  pub string_at-Reads :
      (n : ℕ) (field rest : Bytes)
      → length field ≡ n
      → Reads msg pos (field ++ rest)
      → string_at msg pos n ≡ ok field
  unfolding string_at
  string_at-Reads n field rest h r =
      rw (r.reads, take-append n field rest h) (ground (arith, r.inside))

  pub Reads-next :
      (n : ℕ) (field rest : Bytes)
      → length field ≡ n
      → Reads msg pos (field ++ rest)
      → Reads msg (pos + n) rest
  Reads-next n field rest h r = record {
    inside = omega (arith, ap length r.reads, length-append field rest, length-drop pos msg);
    reads =
        sym (drop-drop pos n (pos + n) msg refl) ∙ ap (drop n) r.reads ∙ drop-append n field rest h;
  }

  -- The last field may be shorter.
  pub string_at_last :
      (n : ℕ) (field : Bytes)
      → length field ≤ n
      → Reads msg pos field
      → string_at msg pos n ≡ ok field
  unfolding string_at
  string_at_last n field h r = rw (r.reads, take_all n field h) (ground (arith, r.inside))

  pub string_from-Reads : (rest : Bytes) → Reads msg pos rest → string_from msg pos ≡ ok rest
  unfolding string_from
  string_from-Reads rest r = rw (r.reads) (ground (arith, r.inside))

  byte_at-Reads : (c : ℕ) (rest : Bytes) → Reads msg pos (c ∷ rest) → byte_at msg pos ≡ c
  unfolding byte_at
  byte_at-Reads c rest r = rw (get_elem?_of_drop pos msg c rest r.reads, byte_at)

-- The fields have the widths of the wire format, the port is one, and the address has no colon. The
-- last field of a JOIN Acknowledgement may be shorter.
abbrev pub IsBody : Body → Type 0
IsBody (join id pub_k port) =
    (length id ≡ id_length) × (length pub_k ≡ key_length) × (port ≤ port_max)
IsBody (join_notif marker channel group_id peer_id pub_k ip port) =
    (length marker ≡ bcast_marker_length)
    × (length group_id ≡ group_id_length)
    × (length peer_id ≡ id_length)
    × (length pub_k ≡ key_length)
    × Lacks b':' ip
    × (port ≤ port_max)
IsBody (join_ack group_id peer_id pub_k) =
    (length group_id ≤ group_id_length) × (length peer_id ≡ id_length) × (length pub_k ≡ key_length)
IsBody ready = Unit
IsBody ready_notif = Unit
IsBody (payload marker content) = length marker ≡ bcast_marker_length

pub record IsMessage (m : Message) : Type 0 where
  pub stamp_length : length m.stamp ≡ msg_stamp_length
  pub body_fits : IsBody m.body

pub Reads-stamp : (m : Message) → Reads (serialize m) 1 (m.stamp ++ serialize_body m.body)
unfolding serialize
Reads-stamp m = record { inside = omega arith; reads = refl }

-- Behind the stamp the message reads its body.
Reads-body : (m : Message) → IsMessage m → Reads (serialize m) header_length (serialize_body m.body)
unfolding serialize
Reads-body m v = Reads-next msg_stamp_length m.stamp _ v.stamp_length (Reads-stamp m)

flag_lem : (channel : Bool) → not ((if channel then 1 else 0) == 0) ≡ channel
flag_lem true = refl
flag_lem false = refl

module _ {msg : Bytes} where
  parse_join-Reads :
      (id pub_k : Bytes) (port : ℕ)
      → IsBody (join id pub_k port)
      → Reads msg header_length (serialize_body (join id pub_k port))
      → parse_join msg ≡ ok (join id pub_k port)
  unfolding parse_join serialize_body
  parse_join-Reads id pub_k port v r =
      let r1 = Reads-next id_length id _ v.0 r in
      let r2 = Reads-next key_length pub_k _ v.1 r1 in
      rw (
        string_at-Reads id_length id _ v.0 r,
        string_at-Reads key_length pub_k _ v.1 r1,
        string_from-Reads _ r2,
        extract_port-itos uninitialised port v.2,
      )

  pub parse_join_ack-Reads :
      (group_id peer_id pub_k : Bytes)
      → IsBody (join_ack group_id peer_id pub_k)
      → Reads msg header_length (serialize_body (join_ack group_id peer_id pub_k))
      → parse_join_ack msg ≡ ok (join_ack group_id peer_id pub_k)
  unfolding parse_join_ack serialize_body
  parse_join_ack-Reads group_id peer_id pub_k v r =
      let r1 = Reads-next id_length peer_id _ v.1 r in
      let r2 = Reads-next key_length pub_k _ v.2 r1 in
      rw (
        string_at-Reads id_length peer_id _ v.1 r,
        string_at-Reads key_length pub_k _ v.2 r1,
        string_at_last group_id_length group_id v.0 r2,
      )

  pub parse_data-Reads :
      (marker content : Bytes)
      → IsBody (payload marker content)
      → Reads msg header_length (serialize_body (payload marker content))
      → parse_data msg ≡ ok (payload marker content)
  unfolding parse_data serialize_body
  parse_data-Reads marker content v r =
      let r1 = Reads-next bcast_marker_length marker _ v r in
      rw (string_at-Reads bcast_marker_length marker _ v r, string_from-Reads _ r1)

  parse_join_notif-Reads :
      (marker : Bytes) (channel : Bool) (group_id peer_id pub_k ip : Bytes) (port : ℕ)
      → IsBody (join_notif marker channel group_id peer_id pub_k ip port)
      → Reads msg header_length
          (serialize_body (join_notif marker channel group_id peer_id pub_k ip port))
      → parse_join_notif msg ≡ ok (join_notif marker channel group_id peer_id pub_k ip port)
  unfolding parse_join_notif serialize_body
  parse_join_notif-Reads marker channel group_id peer_id pub_k ip port v r =
      let r1 = Reads-next bcast_marker_length marker _ v.0 r in
      let r2 = Reads-next 1 ((if channel then 1 else 0) ∷ []) _ refl r1 in
      let r3 = Reads-next id_length peer_id _ v.2 r2 in
      let r4 = Reads-next key_length pub_k _ v.3 r3 in
      let r5 = Reads-next group_id_length group_id _ v.1 r4 in
      let split = split_at b':' ip (itos port) v.4 in
      rw (
        string_at-Reads bcast_marker_length marker _ v.0 r,
        byte_at-Reads _ _ r1,
        flag_lem channel,
        string_at-Reads id_length peer_id _ v.2 r2,
        string_at-Reads key_length pub_k _ v.3 r3,
        string_at-Reads group_id_length group_id _ v.1 r4,
        string_from-Reads _ r5,
        split.0,
        split.1,
        extract_port-itos uninitialised port v.5,
      )

  parse_body-Reads :
      (b : Body)
      → IsBody b
      → Reads msg header_length (serialize_body b)
      → parse_body (type_code b) msg ≡ ok b
  unfolding parse_body
  parse_body-Reads (join id pub_k port) v r = parse_join-Reads id pub_k port v r
  parse_body-Reads (join_notif marker channel group_id peer_id pub_k ip port) v r =
      parse_join_notif-Reads marker channel group_id peer_id pub_k ip port v r
  parse_body-Reads (join_ack group_id peer_id pub_k) v r =
      parse_join_ack-Reads group_id peer_id pub_k v r
  parse_body-Reads ready v r = refl
  parse_body-Reads ready_notif v r = refl
  parse_body-Reads (payload marker content) v r = parse_data-Reads marker content v r

-- Every message whose fields have their widths is read back as it was written: digests, ids and keys
-- have their lengths (the group id of a JOIN Acknowledgement, its last field, at most its length), an
-- address has no colon, and a port is at most 65535.
pub parse_message-serialize : (m : Message) → IsMessage m → parse_message (serialize m) ≡ ok m
unfolding parse_message serialize byte_at
parse_message-serialize m v = rw (
  parse_body-Reads m.body v.body_fits (Reads-body m v),
  string_at-Reads msg_stamp_length m.stamp _ v.stamp_length (Reads-stamp m),
)
