-- ===== src/Node/Local/Short.antt =====
-- A node with a short id: nobody can read its JOIN requests.
use rac_kun.Node.Local.{create_local_peer, create_local_peer_short, non_random}
use rac_kun.Message.{
  Body, serialize, serialize_body, parse_message, parse_body, parse_join, string_at, string_from,
  byte_at, header_length, id_length, key_length, msg_stamp_length,
}
use rac_kun.Outcome.{throw, out_of_range}
use rac_kun.Peer.{init}
use rac_kun.Utils.{itos, port_max}
use rac_kun.Utils.Decimal.{length-itos}
use rac_kun.Utils.Split.{Lacks}
use rac_kun.Text.{Bytes}
use rac_kun.Prelude.{ap, ℕ, ◌≡◌, ◌<◌, ◌≤◌, ◌+◌, ◌∷◌, ◌++◌, length, length-append, refl, arith}

parse_join_short :
    (msg : Bytes)
    → length msg < header_length + id_length + key_length
    → parse_join msg ≡ throw out_of_range
unfolding parse_join string_at string_from
parse_join_short msg h = ground (arith, h)

length-request :
    (stamp id pub_k : Bytes) (port : ℕ)
    → length (serialize (record { stamp = stamp; body = Body.join id pub_k port }))
      ≡ 1 + (length stamp + (length id + (length pub_k + length (itos port))))
unfolding serialize serialize_body
length-request stamp id pub_k port = omega (
  arith,
  length-append stamp (id ++ (pub_k ++ itos port)),
  length-append id (pub_k ++ itos port),
  length-append pub_k (itos port),
)

parse_request_short :
    (stamp id pub_k : Bytes) (port : ℕ)
    → length (serialize (record { stamp = stamp; body = Body.join id pub_k port }))
      < header_length + id_length + key_length
    → parse_message (serialize (record { stamp = stamp; body = Body.join id pub_k port }))
      ≡ throw out_of_range
unfolding parse_message parse_body byte_at serialize
parse_request_short stamp id pub_k port h = rw (parse_join_short _ h) refl

length-key :
    (written : Bytes) (rand : ℕ → ℕ)
    → length (create_local_peer written rand).pub_id_key ≡ key_length
unfolding create_local_peer init
length-key written rand = refl

-- If the host's name is shorter than the 13 bytes that it is given, so that a null byte follows it
-- there, then whoever receives a JOIN request with the local peer's id and key, any stamp of 20 bytes
-- and any port up to 65535, cannot read it: the parser reads past the end, and raises.
pub short_host_cannot_join :
    (name junk : Bytes) (rand : ℕ → ℕ) (stamp : Bytes) (port : ℕ)
    → length (name ++ 0 ∷ junk) ≡ non_random
    → Lacks 0 name
    → length stamp ≡ msg_stamp_length
    → port ≤ port_max
    → let p = create_local_peer (name ++ 0 ∷ junk) rand in
      parse_message (serialize (record { stamp = stamp; body = Body.join p.id p.pub_id_key port }))
      ≡ throw out_of_range
short_host_cannot_join name junk rand stamp port wide full stamped fits =
    let p = create_local_peer (name ++ 0 ∷ junk) rand in
    parse_request_short stamp p.id p.pub_id_key port (
      omega (
        arith,
        length-request stamp p.id p.pub_id_key port,
        ap length (create_local_peer_short name junk rand wide full).0,
        length-key (name ++ 0 ∷ junk) rand,
        length-append name (0 ∷ junk),
        length-itos port fits,
        wide,
        stamped,
      ))
