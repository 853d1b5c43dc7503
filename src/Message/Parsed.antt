-- ===== src/Message/Parsed.antt =====
-- What a receiver may rely on: the fields of a message that `parse_message` returned.

use rac_kun.Utils.Split.{before-Lacks}
use rac_kun.Utils.Decimal.{extract_port_le}
use rac_kun.Message.{
  ready, ready_notif, join_ack, join_notif, payload, Body, parse_join, parse_join_notif,
  parse_join_ack, parse_data, string_at, string_from, join, header_length, id_length, key_length,
  take, leb, ◌∷◌, drop, group_id_length, bcast_marker_length, find_char, before, after, not,
  byte_at, parse_message, parse_body, serialize, Message, serialize_body, msg_stamp_length,
  uninitialised,
}
use rac_kun.Message.RoundTrip.{IsBody, Reads, parse_message-serialize, string_at_last}
use rac_kun.Outcome.{ok, >>=-eq-ok}
use rac_kun.Utils.{extract_port, uninitialised}
use rac_kun.Text.{Bytes}
use rac_kun.Prelude.{
  ℕ, ◌≡◌, ◌≤◌, length, ◌+◌, arith, suc, Bool-cases, zero, inr, refl, inl, [], ap, length-drop,
  subst, ◌==◌, ◌⊎◌, append-nil, sym,
}

length-take :
    (n : ℕ) (xs : Bytes) → (length (take n xs) ≤ n) × (n ≤ length xs → length (take n xs) ≡ n)
length-take zero xs = (omega arith, λ h. refl)
length-take (suc n) [] = (omega arith, λ h. absurd (omega arith))
length-take (suc n) (x ∷ xs) =
    let (small, full) = length-take n xs in
    (omega (arith, small), λ h. omega (arith, full (omega arith)))

-- A field that is read lies in the text, and has its width if the text is long enough.
string_at_ok :
    (msg : Bytes) (pos n : ℕ) {s : Bytes}
    → string_at msg pos n ≡ ok s
    → (pos ≤ length msg) × (length s ≤ n) × (pos + n ≤ length msg → length s ≡ n)
unfolding string_at
string_at_ok msg pos n {s} e = elim (Bool-cases (leb pos (length msg))) [
  | inr l ↦ cc (rw l at e)
  | inl l ↦
      let inside : pos ≤ length msg = ground (arith, l) in
      let same : take n (drop pos msg) ≡ s = cc (rw l at e) in
      let (small, full) = length-take n (drop pos msg) in
      (
        inside,
        omega (arith, small, ap length same),
        λ h. omega (arith, full (omega (arith, length-drop pos msg)), ap length same),
      )
]

pub string_from_ok :
    (msg : Bytes) (pos : ℕ) {s : Bytes} → string_from msg pos ≡ ok s → pos ≤ length msg
unfolding string_from
string_from_ok msg pos e = ground (arith, e)

parse_join_ok :
    (msg : Bytes) {b : Body} → parse_join msg ≡ ok b → IsBody b × (header_length ≤ length msg)
unfolding parse_join
parse_join_ok msg {b} e =
    let (id, id_at, rest) = >>=-eq-ok (string_at msg header_length id_length) _ e in
    let (pub_k, key_at, rest') =
      >>=-eq-ok (string_at msg (header_length + id_length) key_length) _ rest in
    let (endpoint, end_at, last) =
      >>=-eq-ok (string_from msg (header_length + id_length + key_length)) _ rest' in
    let (inside, _, id_wide) = string_at_ok msg header_length id_length id_at in
    let (_, _, key_wide) = string_at_ok msg (header_length + id_length) key_length key_at in
    let long = string_from_ok msg (header_length + id_length + key_length) end_at in
    let same : join id pub_k (extract_port uninitialised endpoint).port ≡ b = cc last in
    subst (λ x. IsBody x × (header_length ≤ length msg)) same
      (
        (
          id_wide (omega (arith, long)),
          key_wide long,
          extract_port_le uninitialised endpoint (omega arith),
        ),
        inside,
      )

parse_join_ack_ok :
    (msg : Bytes) {b : Body} → parse_join_ack msg ≡ ok b → IsBody b × (header_length ≤ length msg)
unfolding parse_join_ack
parse_join_ack_ok msg {b} e =
    let (id, id_at, rest) = >>=-eq-ok (string_at msg header_length id_length) _ e in
    let (pub_k, key_at, rest') =
      >>=-eq-ok (string_at msg (header_length + id_length) key_length) _ rest in
    let (group_id, end_at, last) =
      >>=-eq-ok (string_at msg (header_length + id_length + key_length) group_id_length) _ rest' in
    let (inside, _, id_wide) = string_at_ok msg header_length id_length id_at in
    let (_, _, key_wide) = string_at_ok msg (header_length + id_length) key_length key_at in
    let (long, short, _) =
      string_at_ok msg (header_length + id_length + key_length) group_id_length end_at in
    let same : join_ack group_id id pub_k ≡ b = cc last in
    subst (λ x. IsBody x × (header_length ≤ length msg)) same
      ((short, id_wide (omega (arith, long)), key_wide long), inside)

parse_data_ok :
    (msg : Bytes) {b : Body} → parse_data msg ≡ ok b → IsBody b × (header_length ≤ length msg)
unfolding parse_data
parse_data_ok msg {b} e =
    let (marker, marker_at, rest) =
      >>=-eq-ok (string_at msg header_length bcast_marker_length) _ e in
    let (content, end_at, last) =
      >>=-eq-ok (string_from msg (header_length + bcast_marker_length)) _ rest in
    let (inside, _, wide) = string_at_ok msg header_length bcast_marker_length marker_at in
    let long = string_from_ok msg (header_length + bcast_marker_length) end_at in
    let same : payload marker content ≡ b = cc last in
    subst (λ x. IsBody x × (header_length ≤ length msg)) same (wide long, inside)

parse_join_notif_ok :
    (msg : Bytes) {b : Body} → parse_join_notif msg ≡ ok b → IsBody b × (header_length ≤ length msg)
unfolding parse_join_notif
parse_join_notif_ok msg {b} e =
    let flag = header_length + bcast_marker_length in
    let id = flag + 1 in
    let key = id + id_length in
    let group = key + key_length in
    let end = group + group_id_length in
    let (marker, at0, rest0) = >>=-eq-ok (string_at msg header_length bcast_marker_length) _ e in
    let (peer_id, at1, rest1) = >>=-eq-ok (string_at msg id id_length) _ rest0 in
    let (pub_k, at2, rest2) = >>=-eq-ok (string_at msg key key_length) _ rest1 in
    let (group_id, at3, rest3) = >>=-eq-ok (string_at msg group group_id_length) _ rest2 in
    let (endpoint, at4, last) = >>=-eq-ok (string_from msg end) _ rest3 in
    let (inside, _, wide0) = string_at_ok msg header_length bcast_marker_length at0 in
    let (_, _, wide1) = string_at_ok msg id id_length at1 in
    let (_, _, wide2) = string_at_ok msg key key_length at2 in
    let (_, _, wide3) = string_at_ok msg group group_id_length at3 in
    let long = string_from_ok msg end at4 in
    let colon = find_char b':' endpoint in
    let ip = before colon endpoint in
    let port = (extract_port uninitialised (after colon endpoint)).port in
    let channel = not (byte_at msg flag == 0) in
    let same : join_notif marker channel group_id peer_id pub_k ip port ≡ b = cc last in
    subst (λ x. IsBody x × (header_length ≤ length msg)) same
      (
        (
          wide0 (omega (arith, long)),
          wide3 long,
          wide1 (omega (arith, long)),
          wide2 (omega (arith, long)),
          before-Lacks b':' endpoint,
          extract_port_le uninitialised (after colon endpoint) (omega arith),
        ),
        inside,
      )

-- The READY messages have no body, and may be cut short in their stamp.
abbrev IsShort : Body → Type 0
IsShort b = (b ≡ ready) ⊎ (b ≡ ready_notif)

parse_body_ok :
    (t : ℕ) (msg : Bytes) {b : Body}
    → parse_body t msg ≡ ok b
    → (IsBody b × (header_length ≤ length msg)) ⊎ IsShort b
unfolding parse_body
parse_body_ok t msg {b} e = elim (Bool-cases (t == 1)) [
  | inl k1 ↦ inl (parse_join_ok msg (rw k1 at e))
  | inr k1 ↦ elim (Bool-cases (t == 2)) [
    | inl k2 ↦ inl (parse_join_notif_ok msg (rw (k1, k2) at e))
    | inr k2 ↦ elim (Bool-cases (t == 3)) [
      | inl k3 ↦ inl (parse_join_ack_ok msg (rw (k1, k2, k3) at e))
      | inr k3 ↦ elim (Bool-cases (t == 4)) [
        | inl k4 ↦ inr (inl (cc (rw (k1, k2, k3, k4) at e)))
        | inr k4 ↦ elim (Bool-cases (t == 5)) [
          | inl k5 ↦ inr (inr (cc (rw (k1, k2, k3, k4, k5) at e)))
          | inr k5 ↦ elim (Bool-cases (t == 6)) [
            | inl k6 ↦ inl (parse_data_ok msg (rw (k1, k2, k3, k4, k5, k6) at e))
            | inr k6 ↦ cc (rw (k1, k2, k3, k4, k5, k6) at e)
          ]
        ]
      ]
    ]
  ]
]

-- What a READY message is read as again.
abbrev ReadAgain : Bytes → Body → Type 0
ReadAgain stamp b =
    let m : Message = record { stamp = stamp; body = b } in parse_message (serialize m) ≡ ok m

ready_again : (stamp : Bytes) → length stamp ≤ msg_stamp_length → ReadAgain stamp ready
unfolding parse_message parse_body byte_at serialize serialize_body
ready_again stamp small =
    let m : Message = record { stamp = stamp; body = ready } in
    let r : Reads (serialize m) 1 stamp = record {
      inside = omega arith;
      reads = append-nil stamp;
    } in
    rw (string_at_last msg_stamp_length stamp small r) refl

ready_notif_again : (stamp : Bytes) → length stamp ≤ msg_stamp_length → ReadAgain stamp ready_notif
unfolding parse_message parse_body byte_at serialize serialize_body
ready_notif_again stamp small =
    let m : Message = record { stamp = stamp; body = ready_notif } in
    let r : Reads (serialize m) 1 stamp = record {
      inside = omega arith;
      reads = append-nil stamp;
    } in
    rw (string_at_last msg_stamp_length stamp small r) refl

short_again :
    (stamp : Bytes) (b : Body) → IsShort b → length stamp ≤ msg_stamp_length → ReadAgain stamp b
short_again stamp b (inl e) small = subst (ReadAgain stamp) (sym e) (ready_again stamp small)
short_again stamp b (inr e) small = subst (ReadAgain stamp) (sym e) (ready_notif_again stamp small)

-- Whatever is received: a message that was parsed, and is serialized again, is parsed as the same
-- message.
pub parse_message_again :
    (s : Bytes) (m : Message) → parse_message s ≡ ok m → parse_message (serialize m) ≡ ok m
unfolding parse_message
parse_message_again s m e =
    let (b, body_at, rest) = >>=-eq-ok (parse_body (byte_at s 0) s) _ e in
    let (stamp, stamp_at, last) = >>=-eq-ok (string_at s 1 msg_stamp_length) _ rest in
    let m' : Message = record { stamp = stamp; body = b } in
    let same : m' ≡ m = cc last in
    let (_, small, wide) = string_at_ok s 1 msg_stamp_length stamp_at in
    subst (λ x. parse_message (serialize x) ≡ ok x) same
      (elim (parse_body_ok (byte_at s 0) s body_at) [
        | inl (fits, long) ↦
            parse_message-serialize m' (record { stamp_length = wide long; body_fits = fits })
        | inr short ↦ short_again stamp b short small
      ])

-- The fields of a message that was parsed have their widths.
pub parse_message-IsBody : (s : Bytes) (m : Message) → parse_message s ≡ ok m → IsBody m.body
unfolding parse_message
parse_message-IsBody s m e =
    let (b, body_at, rest) = >>=-eq-ok (parse_body (byte_at s 0) s) _ e in
    let (stamp, stamp_at, last) = >>=-eq-ok (string_at s 1 msg_stamp_length) _ rest in
    let m' : Message = record { stamp = stamp; body = b } in
    let same : m' ≡ m = cc last in
    subst (λ (x : Message). IsBody x.body) same
      (elim (parse_body_ok (byte_at s 0) s body_at) [
        | inl (fits, long) ↦ fits
        | inr short ↦ elim short [
          | inl e ↦ subst IsBody (sym e) tt
          | inr e ↦ subst IsBody (sym e) tt
        ]
      ])
