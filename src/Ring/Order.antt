-- ===== src/Ring/Order.antt =====
-- The order of a ring: its invariant, and where a peer stands.
use mathlib.Core.Option
use rac_kun.Prelude.{
  ℕ, zero, suc, ◌<◌, ◌≡◌, refl, Option, none, some, [], ◌∷◌, arith, length, get_elem?,
  get_elem?_total, All,
}
use rac_kun.Text.{Bytes, bytes_less}
use rac_kun.OrdMap.Laws.{IsSorted, All-get_elem?, position-get_elem?}
use rac_kun.Peer.{PeerRef}
use rac_kun.Ring.{Ring, PeerMap, make_ring, create_key, find_peer}

abbrev pub size : Ring → ℕ
size r = length r.ring

-- The peer in a place of the ring, counted from the least key.
abbrev pub peer_at : Ring → ℕ → Option PeerRef
peer_at r i = Option.map (λ e. e.1) (get_elem? r.ring i)

pub map-eq-some {ℓ κ} :
    {A : Type ℓ} {B : Type κ} (f : A → B) (o : Option A) {b : B}
    → Option.map f o ≡ some b
    → (a : A) × (o ≡ some a) × (f a ≡ b)
map-eq-some f none h = absurd (cc)
map-eq-some f (some a) h = (a, refl, cc)

pub peer_at_total : (r : Ring) (i : ℕ) → i < size r → (p : PeerRef) × (peer_at r i ≡ some p)
peer_at_total r i h = let (e, here) = get_elem?_total r.ring i h in (e.1, rw here)

pub peer_at-lt : (r : Ring) (i : ℕ) (p : PeerRef) → peer_at r i ≡ some p → i < size r
peer_at-lt r = go r.ring
  where
    go :
        (m : PeerMap) (i : ℕ) (p : PeerRef)
        → Option.map (λ e. e.1) (get_elem? m i) ≡ some p
        → i < length m
    go [] i p h = absurd (cc)
    go (e ∷ m) zero p h = omega arith
    go (e ∷ m) (suc i) p h = omega (arith, go m i p h)

module _ (sha1 : Bytes → Bytes) (get_id : PeerRef → Bytes) where
  abbrev pub key : Ring → PeerRef → Bytes
  key r p = create_key sha1 get_id r (get_id p)

  -- Keys rise, and each is still the key of its peer.
  pub record IsRing (r : Ring) : Type 0 where
    pub sorted : IsSorted r.ring
    pub keyed : All (λ e. key r e.1 ≡ e.0) r.ring

  pub make_ring-IsRing : (index : ℕ) → IsRing (make_ring index)
  unfolding make_ring
  make_ring-IsRing index = record { sorted = tt; keyed = tt }

  pub find_peer-at :
      {r : Ring} {i : ℕ} {p : PeerRef}
      → IsRing r
      → peer_at r i ≡ some p
      → find_peer sha1 get_id p r ≡ i
  unfolding find_peer
  find_peer-at {r} {i} {p} v h =
      let (e, here, is_p) = map-eq-some (λ (e : Bytes × PeerRef). e.1) (get_elem? r.ring i) h in
      let keyed : key r e.1 ≡ e.0 = All-get_elem? (λ e. key r e.1 ≡ e.0) r.ring i e v.keyed here in
      rw (← is_p, keyed) (position-get_elem? r.ring i e.0 e.1 v.sorted here)
