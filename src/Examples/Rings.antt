-- ===== src/Examples/Rings.antt =====
-- A ring of the peers 3 and 7.
use rac_kun.Text.{lt_bytes}
use rac_kun.Outcome.{ok}
use rac_kun.Ring.Updates.{
  add_peer-IsRing, add_peer_comm, remove_peer-IsRing, remove_peer-add_peer, find_peer-remove_peer,
}
use rac_kun.OrdMap.{assign, position}
use rac_kun.Utils.{itos, make_hash}
use rac_kun.Ring.Cycle.{Answers, get_successor-at, get_successor-Answers}
use rac_kun.Examples.{sha, ids, []}
use rac_kun.Ring.Relay.{relay, relay_reaches}
use rac_kun.Prelude.{◌<◌, ◌≡◌, ℕ, some, suc, arith, ◌%◌, refl, ◌∷◌}
use rac_kun.Ring.Order.{IsRing, peer_at, size, make_ring-IsRing}
use rac_kun.Ring
use rac_kun.Ring.{Ring, make_ring, find_peer, get_successor, get_predecessor, PeerMap, create_key}

abbrev one_peer : Ring
one_peer = Ring.add_peer sha ids 3 (make_ring 0)

abbrev pub two_peers : Ring
two_peers = Ring.add_peer sha ids 7 one_peer

one_peer-IsRing : IsRing sha ids one_peer
one_peer-IsRing = Ring.Updates.add_peer-IsRing sha ids 3 (make_ring-IsRing sha ids 0)

pub two_peers-IsRing : IsRing sha ids two_peers
two_peers-IsRing = Ring.Updates.add_peer-IsRing sha ids 7 one_peer-IsRing

pub two_peers-entries :
    two_peers ≡ record { index = 0; ring = (3 ∷ b'0' ∷ [], 3) ∷ (7 ∷ b'0' ∷ [], 7) ∷ [] }
unfolding Ring.add_peer create_key make_ring assign itos make_hash lt_bytes
two_peers-entries = refl

pub many : 1 < size two_peers
many = rw two_peers-entries (omega arith)

pub first : peer_at two_peers 0 ≡ some 3
first = rw two_peers-entries refl

pub second : peer_at two_peers 1 ≡ some 7
second = rw two_peers-entries refl

get_successor-Answers_example :
    Answers sha ids 7 two_peers
      (suc (find_peer sha ids 7 two_peers) % size two_peers)
      (get_successor sha ids 7 two_peers)
get_successor-Answers_example = get_successor-Answers sha ids 7 two_peers

pub succ_first : get_successor sha ids 3 two_peers ≡ ok 7
succ_first = get_successor-at sha ids two_peers-IsRing 0 3 7 many first (rw two_peers-entries refl)

pub succ_second : get_successor sha ids 7 two_peers ≡ ok 3
succ_second =
    get_successor-at sha ids two_peers-IsRing 1 7 3 many second (rw two_peers-entries refl)

relay_reaches_example : (s : ℕ) × (s < size two_peers) × (relay sha ids two_peers s 7 ≡ ok 3)
relay_reaches_example = relay_reaches sha ids two_peers-IsRing 1 0 7 3 many second first

absent : find_peer sha ids 7 one_peer ≡ size one_peer
unfolding find_peer Ring.add_peer create_key make_ring assign itos make_hash lt_bytes position
absent = refl
