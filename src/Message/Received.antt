-- ===== src/Message/Received.antt =====
use rac_kun.Message.Parsed.{string_from_ok, parse_message-IsBody}
use rac_kun.Message.RoundTrip.{IsBody}
use rac_kun.Network.Logs.{stamp_of}
use rac_kun.Outcome.{ok, >>=-eq-ok}
use rac_kun.Prelude.{ℕ, Bool-cases, ap, ◌+◌, ◌==◌, ◌≡◌, ◌≤◌, sym, inl, ◌∙◌, ==_iff, inr}
use rac_kun.Message.{
  parse_join_ack, parse_join_notif, parse_join, parse_data, parse_body, parse_message, ready_notif,
  Result, header_length, Bytes, string_at, ready, Body, Message, bcast_marker_length, type_code,
  byte_at, id_length, key_length, string_from, length, group_id_length, msg_stamp_length, take,
  drop, leb,
}

-- What the first bytes of a message say: its class and its stamp.

-- The fields of a JOIN Notification before its endpoint.
abbrev pub notif_head : ℕ
notif_head = header_length + bcast_marker_length + 1 + id_length + key_length + group_id_length

parse_join_notif-long :
    (msg : Bytes) {b : Body} → parse_join_notif msg ≡ ok b → notif_head ≤ length msg
unfolding parse_join_notif
parse_join_notif-long msg e =
    let flag = header_length + bcast_marker_length in
    let id = flag + 1 in
    let key = id + id_length in
    let group = key + key_length in
    let (_, _, rest0) = >>=-eq-ok (string_at msg header_length bcast_marker_length) _ e in
    let (_, _, rest1) = >>=-eq-ok (string_at msg id id_length) _ rest0 in
    let (_, _, rest2) = >>=-eq-ok (string_at msg key key_length) _ rest1 in
    let (_, _, rest3) = >>=-eq-ok (string_at msg group group_id_length) _ rest2 in
    let (endpoint, at4, _) = >>=-eq-ok (string_from msg notif_head) _ rest3 in
    string_from_ok msg notif_head at4

-- A message of the type of a JOIN Notification is not read if it ends before its endpoint.
pub notif-long :
    (msg : Bytes) {m : Message}
    → byte_at msg 0 ≡ 2
    → parse_message msg ≡ ok m
    → notif_head ≤ length msg
unfolding parse_message parse_body
notif-long msg type e =
    let (b, body_at, _) = >>=-eq-ok (parse_body (byte_at msg 0) msg) _ e in
    parse_join_notif-long msg (rw type at body_at)

-- What a parser returns is of its class.
abbrev OfClass : ℕ → Result Body → Type 0
OfClass t r = (b : Body) → r ≡ ok b → type_code b ≡ t

class_kept : {b c : Body} → ◌≡◌ {A = Result Body} (ok b) (ok c) → type_code c ≡ type_code b
class_kept e = cc e

parse_join-OfClass : (msg : Bytes) → OfClass 1 (parse_join msg)
unfolding parse_join
parse_join-OfClass msg b e =
    let (_, _, rest) = >>=-eq-ok (string_at msg header_length id_length) _ e in
    let (_, _, rest') = >>=-eq-ok (string_at msg (header_length + id_length) key_length) _ rest in
    let (_, _, last) =
      >>=-eq-ok (string_from msg (header_length + id_length + key_length)) _ rest' in
    class_kept last

parse_join_notif-OfClass : (msg : Bytes) → OfClass 2 (parse_join_notif msg)
unfolding parse_join_notif
parse_join_notif-OfClass msg b e =
    let id = header_length + bcast_marker_length + 1 in
    let key = id + id_length in
    let group = key + key_length in
    let (_, _, rest0) = >>=-eq-ok (string_at msg header_length bcast_marker_length) _ e in
    let (_, _, rest1) = >>=-eq-ok (string_at msg id id_length) _ rest0 in
    let (_, _, rest2) = >>=-eq-ok (string_at msg key key_length) _ rest1 in
    let (_, _, rest3) = >>=-eq-ok (string_at msg group group_id_length) _ rest2 in
    let (_, _, last) = >>=-eq-ok (string_from msg notif_head) _ rest3 in class_kept last

parse_join_ack-OfClass : (msg : Bytes) → OfClass 3 (parse_join_ack msg)
unfolding parse_join_ack
parse_join_ack-OfClass msg b e =
    let (_, _, rest) = >>=-eq-ok (string_at msg header_length id_length) _ e in
    let (_, _, rest') = >>=-eq-ok (string_at msg (header_length + id_length) key_length) _ rest in
    let (_, _, last) =
      >>=-eq-ok (string_at msg (header_length + id_length + key_length) group_id_length) _ rest' in
    class_kept last

parse_data-OfClass : (msg : Bytes) → OfClass 6 (parse_data msg)
unfolding parse_data
parse_data-OfClass msg b e =
    let (_, _, rest) = >>=-eq-ok (string_at msg header_length bcast_marker_length) _ e in
    let (_, _, last) = >>=-eq-ok (string_from msg (header_length + bcast_marker_length)) _ rest in
    class_kept last

ready-OfClass : OfClass 4 (ok ready)
ready-OfClass b e = class_kept e

ready_notif-OfClass : OfClass 5 (ok ready_notif)
ready_notif-OfClass b e = class_kept e

parse_body-OfClass : (t : ℕ) (msg : Bytes) → OfClass t (parse_body t msg)
unfolding parse_body
parse_body-OfClass t msg b e = elim (Bool-cases (t == 1)) [
  | inl k1 ↦ parse_join-OfClass msg b (rw k1 at e) ∙ sym ((==_iff t 1).0 k1)
  | inr k1 ↦ elim (Bool-cases (t == 2)) [
    | inl k2 ↦ parse_join_notif-OfClass msg b (rw (k1, k2) at e) ∙ sym ((==_iff t 2).0 k2)
    | inr k2 ↦ elim (Bool-cases (t == 3)) [
      | inl k3 ↦ parse_join_ack-OfClass msg b (rw (k1, k2, k3) at e) ∙ sym ((==_iff t 3).0 k3)
      | inr k3 ↦ elim (Bool-cases (t == 4)) [
        | inl k4 ↦ ready-OfClass b (rw (k1, k2, k3, k4) at e) ∙ sym ((==_iff t 4).0 k4)
        | inr k4 ↦ elim (Bool-cases (t == 5)) [
          | inl k5 ↦ ready_notif-OfClass b (rw (k1, k2, k3, k4, k5) at e) ∙ sym ((==_iff t 5).0 k5)
          | inr k5 ↦ elim (Bool-cases (t == 6)) [
            | inl k6 ↦
                parse_data-OfClass msg b (rw (k1, k2, k3, k4, k5, k6) at e)
                ∙ sym ((==_iff t 6).0 k6)
            | inr k6 ↦ cc (rw (k1, k2, k3, k4, k5, k6) at e)
          ]
        ]
      ]
    ]
  ]
]

-- Whatever bytes are parsed: the message is of the class whose code is the first byte, its stamp is what
-- the log takes for the stamp of these bytes, and its fields have the widths of its class.
pub parse_message-class :
    (s : Bytes) (m : Message)
    → parse_message s ≡ ok m
    → (type_code m.body ≡ byte_at s 0) × (m.stamp ≡ stamp_of s) × IsBody m.body
unfolding parse_message string_at
parse_message-class s m e =
    let (b, body_at, rest) = >>=-eq-ok (parse_body (byte_at s 0) s) _ e in
    let (stamp, stamp_at, last) = >>=-eq-ok (string_at s 1 msg_stamp_length) _ rest in
    let m' : Message = record { stamp = stamp; body = b } in
    let same : m' ≡ m = cc last in
    let inside : take msg_stamp_length (drop 1 s) ≡ stamp = elim (Bool-cases (leb 1 (length s))) [
      | inl k ↦ cc (rw k at stamp_at)
      | inr k ↦ cc (rw k at stamp_at)
    ] in
    (
      ap (λ (x : Message). type_code x.body) (sym same)
          ∙ parse_body-OfClass (byte_at s 0) s b body_at,
      ap (λ (x : Message). x.stamp) (sym same) ∙ sym inside,
      parse_message-IsBody s m e,
    )
