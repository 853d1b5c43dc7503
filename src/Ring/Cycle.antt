-- ===== src/Ring/Cycle.antt =====
-- Successors and predecessors: the ring is one cycle through all its peers.
use native.Mathlib.Nat.{mod-lt}
use rac_kun.OrdMap.Laws.{position-le}
use rac_kun.Prelude.{◌≤◌, inl, inr, ◌⊎◌, ℕ, suc, ◌+◌, ◌-◌, ◌%◌, ◌<◌, ◌≡◌, some, arith}
use rac_kun.Outcome.{Result, throw, peer_not_found, ok, deref}
use rac_kun.Text.{Bytes, bytes_less}
use rac_kun.Peer.{PeerRef}
use rac_kun.Ring.{Ring, get_successor, get_predecessor, find_peer, create_key}
use rac_kun.Ring.Modulo.{mod-suc, mod-pred, forth_back, back_forth}
use rac_kun.Ring.Order.{size, peer_at, peer_at_total, peer_at-lt, IsRing, find_peer-at}

at-peer : (r : Ring) (i : ℕ) (p : PeerRef) → peer_at r i ≡ some p → deref (peer_at r i) ≡ ok p
at-peer r i p h = rw h

module _ (sha1 : Bytes → Bytes) (get_id : PeerRef → Bytes) where
  -- The result is the peer in place `j`, if the ring holds `p` and another; else the exception.
  pub data Answers (p : PeerRef) (r : Ring) (j : ℕ) (res : Result PeerRef) : Type 0 where
    found :
        (q : PeerRef)
        → find_peer sha1 get_id p r < size r
        → 1 < size r
        → peer_at r j ≡ some q
        → res ≡ ok q
        → Answers p r j res
    missing : find_peer sha1 get_id p r ≡ size r → res ≡ throw peer_not_found → Answers p r j res
    alone : size r ≤ 1 → res ≡ throw peer_not_found → Answers p r j res

  place_cases :
      (p : PeerRef) (r : Ring)
      → ((find_peer sha1 get_id p r < size r) × (1 < size r))
        ⊎ ((find_peer sha1 get_id p r ≡ size r) ⊎ (size r ≤ 1))
  unfolding find_peer
  place_cases p r = grind (arith, position-le (create_key sha1 get_id r (get_id p)) r.ring)

  -- For every peer and ring, `get_successor` returns the peer in the place after, modulo the size, if
  -- the peer's key is on the ring and the ring has more than one peer, and else raises
  -- `PeerNotFoundException`.
  pub get_successor-Answers :
      (p : PeerRef) (r : Ring)
      → Answers p r (suc (find_peer sha1 get_id p r) % size r) (get_successor sha1 get_id p r)
  unfolding get_successor
  get_successor-Answers p r = elim (place_cases p r) [
    | inl (inside, big) ↦
        let it = find_peer sha1 get_id p r in
        let (q, there) = peer_at_total r (suc it % size r) (mod-lt (suc it) (omega arith)) in
        found q inside big there
          (ground (arith, mod-suc it (size r), at-peer r (suc it % size r) q there))
    | inr (inl e) ↦ missing e (ground arith)
    | inr (inr e) ↦ alone e (ground arith)
  ]

  -- For every peer and ring, `get_predecessor` returns the peer in the place before, modulo the size,
  -- if the peer's key is on the ring and the ring has more than one peer, and else raises
  -- `PeerNotFoundException`.
  pub get_predecessor-Answers :
      (p : PeerRef) (r : Ring)
      → Answers p r
          ((find_peer sha1 get_id p r + (size r - 1)) % size r)
          (get_predecessor sha1 get_id p r)
  unfolding get_predecessor
  get_predecessor-Answers p r = elim (place_cases p r) [
    | inl (inside, big) ↦
        let it = find_peer sha1 get_id p r in
        let j = (it + (size r - 1)) % size r in
        let (q, there) = peer_at_total r j (mod-lt (it + (size r - 1)) (omega arith)) in
        found q inside big there (ground (arith, mod-pred it (size r), at-peer r j q there))
    | inr (inl e) ↦ missing e (ground arith)
    | inr (inr e) ↦ alone e (ground arith)
  ]

module _ (sha1 : Bytes → Bytes) (get_id : PeerRef → Bytes) {r : Ring}
    (v : IsRing sha1 get_id r) where
  abbrev succ_of : PeerRef → Result PeerRef
  succ_of p = get_successor sha1 get_id p r

  pub get_successor-at :
      (i : ℕ) (p q : PeerRef)
      → 1 < size r
      → peer_at r i ≡ some p
      → peer_at r (suc i % size r) ≡ some q
      → get_successor sha1 get_id p r ≡ ok q
  unfolding get_successor
  get_successor-at i p q big here next = ground (
    arith,
    find_peer-at sha1 get_id v here,
    peer_at-lt r i p here,
    mod-suc i (size r),
    at-peer r (suc i % size r) q next,
  )

  pub get_predecessor-at :
      (i : ℕ) (p q : PeerRef)
      → 1 < size r
      → peer_at r i ≡ some p
      → peer_at r ((i + (size r - 1)) % size r) ≡ some q
      → get_predecessor sha1 get_id p r ≡ ok q
  unfolding get_predecessor
  get_predecessor-at i p q big here next = ground (
    arith,
    find_peer-at sha1 get_id v here,
    peer_at-lt r i p here,
    mod-pred i (size r),
    at-peer r ((i + (size r - 1)) % size r) q next,
  )

  big_of_succ : (p q : PeerRef) → get_successor sha1 get_id p r ≡ ok q → 1 < size r
  unfolding get_successor
  big_of_succ p q h = ground arith

  big_of_pred : (p q : PeerRef) → get_predecessor sha1 get_id p r ≡ ok q → 1 < size r
  unfolding get_predecessor
  big_of_pred p q h = ground arith

  -- The peer that `get_successor` returns sits one place on.
  pub seat_of_succ :
      (i : ℕ) (p q : PeerRef)
      → peer_at r i ≡ some p
      → get_successor sha1 get_id p r ≡ ok q
      → peer_at r (suc i % size r) ≡ some q
  seat_of_succ i p q here h =
      let big = big_of_succ p q h in
      let (q', there) = peer_at_total r (suc i % size r) (mod-lt (suc i) (omega arith)) in
      cc (there, h, get_successor-at i p q' big here there)

  pub seat_of_pred :
      (i : ℕ) (p q : PeerRef)
      → peer_at r i ≡ some p
      → get_predecessor sha1 get_id p r ≡ ok q
      → peer_at r ((i + (size r - 1)) % size r) ≡ some q
  seat_of_pred i p q here h =
      let big = big_of_pred p q h in
      let (q', there) =
        peer_at_total r ((i + (size r - 1)) % size r) (mod-lt (i + (size r - 1)) (omega arith)) in
      cc (there, h, get_predecessor-at i p q' big here there)

  -- On a ring in order, the predecessor of the successor of a peer of the ring, where the ring has a
  -- successor for it, is that peer.
  pub pred-succ :
      (i : ℕ) (p q : PeerRef)
      → peer_at r i ≡ some p
      → get_successor sha1 get_id p r ≡ ok q
      → get_predecessor sha1 get_id q r ≡ ok p
  pred-succ i p q here h =
      let n = size r in
      let back : (suc i % n + (n - 1)) % n ≡ i = forth_back i n (peer_at-lt r i p here) in
      get_predecessor-at (suc i % n) q p (big_of_succ p q h) (seat_of_succ i p q here h)
        (rw back here)

  -- On a ring in order, the successor of the predecessor of a peer of the ring, where the ring has a
  -- predecessor for it, is that peer.
  pub succ-pred :
      (i : ℕ) (p q : PeerRef)
      → peer_at r i ≡ some p
      → get_predecessor sha1 get_id p r ≡ ok q
      → get_successor sha1 get_id q r ≡ ok p
  succ-pred i p q here h =
      let n = size r in
      let back : suc ((i + (n - 1)) % n) % n ≡ i = back_forth i n (peer_at-lt r i p here) in
      get_successor-at ((i + (n - 1)) % n) q p (big_of_pred p q h) (seat_of_pred i p q here h)
        (rw back here)
