-- ===== src/Ring/Relay.antt =====
-- A message that goes on from successor to successor goes once round the ring.
use native.Mathlib.Nat.{mod-eq_of_lt, mod-lt, suc-mod, add-mod_right}
use rac_kun.Prelude.{ℕ, zero, suc, ◌+◌, ◌%◌, ◌<◌, ◌≡◌, sym, ap, ◌∙◌, some, arith, refl}
use rac_kun.Outcome.{Result, ok, ◌>>=◌}
use rac_kun.Text.{Bytes}
use rac_kun.Peer.{PeerRef}
use rac_kun.Ring.{Ring, get_successor}
use rac_kun.Ring.Modulo.{steps, steps_lem, steps_unique}
use rac_kun.Ring.Order.{size, peer_at, peer_at_total, peer_at-lt, IsRing, find_peer-at}
use rac_kun.Ring.Cycle.{get_successor-at}

module _ (sha1 : Bytes → Bytes) (get_id : PeerRef → Bytes) where
  -- Where the message is after a number of hops.
  abbrev pub relay : Ring → ℕ → PeerRef → Result PeerRef
  relay r zero p = ok p
  relay r (suc s) p = relay r s p >>= λ q. get_successor sha1 get_id q r

module _ (sha1 : Bytes → Bytes) (get_id : PeerRef → Bytes) {r : Ring}
    (v : IsRing sha1 get_id r) where
  relay-at :
      (i s : ℕ) (p q : PeerRef)
      → 1 < size r
      → peer_at r i ≡ some p
      → peer_at r ((i + s) % size r) ≡ some q
      → relay sha1 get_id r s p ≡ ok q
  relay-at i zero p q big here there =
      let stay : (i + 0) % size r ≡ i =
        ground (arith, mod-eq_of_lt {n = i} {m = size r}, peer_at-lt r i p here) in
      cc (here, there, stay)
  relay-at i (suc s) p q big here there =
      let n = size r in
      let (m, mid) = peer_at_total r ((i + s) % n) (mod-lt (i + s) (omega arith)) in
      let on : suc ((i + s) % n) % n ≡ (i + suc s) % n =
        sym (suc-mod (i + s) n) ∙ ap (λ k. k % n) (omega arith) in
      rw (relay-at i s p m big here mid)
        (get_successor-at sha1 get_id v ((i + s) % n) m q big mid (rw on there))

  -- On a ring in order that has more than one peer, as many hops as it has peers lead from each of
  -- its peers back to that peer.
  pub relay_returns :
      (i : ℕ) (p : PeerRef)
      → 1 < size r
      → peer_at r i ≡ some p
      → relay sha1 get_id r (size r) p ≡ ok p
  relay_returns i p big here =
      let n = size r in
      let round : (i + n) % n ≡ i =
        ground (arith, add-mod_right i n, mod-eq_of_lt {n = i} {m = n}, peer_at-lt r i p here) in
      relay-at i n p p big here (rw round here)

  -- On a ring in order that has more than one peer, some number of hops below its size leads from any
  -- of its peers to any other.
  pub relay_reaches :
      (i j : ℕ) (p q : PeerRef)
      → 1 < size r
      → peer_at r i ≡ some p
      → peer_at r j ≡ some q
      → (s : ℕ) × (s < size r) × (relay sha1 get_id r s p ≡ ok q)
  relay_reaches i j p q big here there =
      let n = size r in
      let (below, lands) = steps_lem n i j (peer_at-lt r i p here) (peer_at-lt r j q there) in
      (steps n i j, below, relay-at i (steps n i j) p q big here (rw lands there))

  pub relay-seat :
      (i s : ℕ) (p q : PeerRef)
      → 1 < size r
      → peer_at r i ≡ some p
      → relay sha1 get_id r s p ≡ ok q
      → peer_at r ((i + s) % size r) ≡ some q
  relay-seat i s p q big here h =
      let n = size r in
      let (m, mid) = peer_at_total r ((i + s) % n) (mod-lt (i + s) (omega arith)) in
      cc (relay-at i s p m big here mid, h, mid)

  -- On a ring in order that has more than one peer, two numbers of hops below its size that lead from
  -- a peer of the ring to the same peer are equal.
  pub relay_unique :
      (i s t : ℕ) (p q : PeerRef)
      → 1 < size r
      → peer_at r i ≡ some p
      → s < size r
      → t < size r
      → relay sha1 get_id r s p ≡ ok q
      → relay sha1 get_id r t p ≡ ok q
      → s ≡ t
  relay_unique i s t p q big here below_s below_t hs ht =
      let n = size r in
      let there = relay-seat i s p q big here hs in
      let place : (i + t) % n ≡ (i + s) % n =
        sym (find_peer-at sha1 get_id v (relay-seat i t p q big here ht))
        ∙ find_peer-at sha1 get_id v there in
      let inside = peer_at-lt r i p here in
      steps_unique n i ((i + s) % n) s inside below_s refl
      ∙ sym (steps_unique n i ((i + s) % n) t inside below_t place)
