-- ===== src/Network/Pending.antt =====
-- The pending JOIN requests and the join token, as the part of the node that the JOIN procedure's
-- bookkeeping reads: src/Network.cpp, `new_peers` and `join_token`.
use rac_kun.Network.{Network}
use rac_kun.OrdMap.Laws.{All-erase, All-assign, All-erase_ne}
use rac_kun.OrdMap.Laws.{erase-IsSorted, IsSorted, assign-IsSorted}
use rac_kun.OrdMap.{OrdMap, assign, erase}
use rac_kun.Prelude.{
  suc, ◌≡◌, ◌≢◌, ◌<◌, some, false, true, Option, arith, Bool-cases, All, ℕ, All-imp, ◌==◌, Bool,
  none, refl, All-zip, inl, ap, ==_iff, ◌∙◌, inr,
}
use rac_kun.Peer.{Peer, Store, PeerRef, update, is_known, get_address}
use rac_kun.Text.{bytes_less, Bytes}

-- What the bookkeeping depends on.
pub record Queue : Type 0 where
  pub store : Store
  pub next_peer : PeerRef
  pub local_peer : PeerRef
  pub new_peers : OrdMap Bytes (Option PeerRef × ℕ)
  pub join_token : Bool

abbrev pub Pending : Type 0
Pending = Bytes × (Option PeerRef × ℕ)

-- A pending peer is in the store, is not the local one, and is filed under its address.
abbrev pub Sits : Queue → Pending → Type 0
Sits q (addr, (none, port)) = Unit
Sits q (addr, (some p, port)) =
    (p < q.next_peer) × (p ≢ q.local_peer) × (get_address (q.store p) ≡ addr)

-- The entry holds a peer, and the peer has not asked to join.
abbrev pub Idles : Store → Pending → Type 0
Idles s (addr, (none, port)) = ⊥
Idles s (addr, (some p, port)) = is_known (s p) ≡ false

pub record IsFiled (q : Queue) : Type 0 where
  pub fresh : q.local_peer < q.next_peer
  pub sorted : IsSorted q.new_peers
  pub seated : All (Sits q) q.new_peers

-- While the token is free, no entry's peer has asked to join.
abbrev pub NoneWaits : Queue → Type 0
NoneWaits q = q.join_token ≡ true → All (Idles q.store) q.new_peers

abbrev pub write : PeerRef → (Peer → Peer) → Queue → Queue
write p f q = record q { store = update p f q.store }

abbrev pub KeepsAddress : (Peer → Peer) → Type 0
KeepsAddress f = (x : Peer) → get_address (f x) ≡ get_address x

pub write-IsFiled :
    (p : PeerRef) (f : Peer → Peer) (q : Queue) → KeepsAddress f → IsFiled q → IsFiled (write p f q)
unfolding update
write-IsFiled p f q k v = record {
  fresh = v.fresh;
  sorted = v.sorted;
  seated = All-imp (Sits q) (Sits (write p f q)) q.new_peers go v.seated;
}
  where
    go : (e : Pending) → Sits q e → Sits (write p f q) e
    go (addr, (none, port)) h = tt
    go (addr, (some r, port)) h = (h.0, h.1, ground (arith, h.2, k (q.store r)))

-- A write to the local peer wakes nobody.
pub write_local-NoneWaits :
    (f : Peer → Peer) (q : Queue) → IsFiled q → NoneWaits q → NoneWaits (write q.local_peer f q)
unfolding update
write_local-NoneWaits f q v w t =
    All-imp (λ e. Sits q e × Idles q.store e) _ q.new_peers go
      (All-zip (Sits q) (Idles q.store) q.new_peers v.seated (w t))
  where
    go : (e : Pending) → Sits q e × Idles q.store e → Idles (update q.local_peer f q.store) e
    go (addr, (none, port)) h = h.1
    go (addr, (some r, port)) (s, i) = ground (arith, s.1, i)

abbrev pub extend : (Peer → Peer) → Queue → Queue
extend f q = record q { store = update q.next_peer f q.store; next_peer = suc q.next_peer }

pub extend-IsFiled : (f : Peer → Peer) (q : Queue) → IsFiled q → IsFiled (extend f q)
unfolding update
extend-IsFiled f q v = record {
  fresh = omega (arith, v.fresh);
  sorted = v.sorted;
  seated = All-imp (Sits q) (Sits (extend f q)) q.new_peers go v.seated;
}
  where
    go : (e : Pending) → Sits q e → Sits (extend f q) e
    go (addr, (none, port)) h = tt
    go (addr, (some r, port)) h = (omega (arith, h.0), h.1, ground (arith, h.0, h.2))

pub extend-NoneWaits :
    (f : Peer → Peer) (q : Queue) → IsFiled q → NoneWaits q → NoneWaits (extend f q)
unfolding update
extend-NoneWaits f q v w t =
    All-imp (λ e. Sits q e × Idles q.store e) _ q.new_peers go
      (All-zip (Sits q) (Idles q.store) q.new_peers v.seated (w t))
  where
    go : (e : Pending) → Sits q e × Idles q.store e → Idles (update q.next_peer f q.store) e
    go (addr, (none, port)) h = h.1
    go (addr, (some r, port)) (s, i) = ground (arith, s.0, i)

abbrev pub drop_at : Bytes → Queue → Queue
drop_at addr q = record q { new_peers = erase addr q.new_peers }

pub drop_at-IsFiled : (addr : Bytes) (q : Queue) → IsFiled q → IsFiled (drop_at addr q)
drop_at-IsFiled addr q v = record {
  fresh = v.fresh;
  sorted = erase-IsSorted addr q.new_peers v.sorted;
  seated = All-erase (Sits q) addr q.new_peers v.seated;
}

pub drop_at-NoneWaits : (addr : Bytes) (q : Queue) → NoneWaits q → NoneWaits (drop_at addr q)
drop_at-NoneWaits addr q w t = All-erase (Idles q.store) addr q.new_peers (w t)

-- A peer may ask to join if it leaves the pending peers at once.
pub write_drop-NoneWaits :
    (p : PeerRef) (f : Peer → Peer) (q : Queue)
    → IsFiled q
    → NoneWaits q
    → NoneWaits (drop_at (get_address (q.store p)) (write p f q))
unfolding update
write_drop-NoneWaits p f q v w t =
    let addr = get_address (q.store p) in
    let left = erase addr q.new_peers in
    All-imp (λ e. (Sits q e × Idles q.store e) × (addr ≢ e.0)) _ left go
      (All-zip (λ e. Sits q e × Idles q.store e) (λ e. addr ≢ e.0) left
        (All-zip (Sits q) (Idles q.store) left (All-erase (Sits q) addr q.new_peers v.seated)
          (All-erase (Idles q.store) addr q.new_peers (w t)))
        (All-erase_ne addr q.new_peers v.sorted))
  where
    go :
        (e : Pending)
        → (Sits q e × Idles q.store e) × (get_address (q.store p) ≢ e.0)
        → Idles (update p f q.store) e
    go (addr, (none, port)) h = h.0.1
    go (addr, (some r, port)) ((s, i), n) = elim (Bool-cases (p == r)) [
      | inl e ↦ absurd (n (ap (λ x. get_address (q.store x)) ((==_iff p r).0 e) ∙ s.2))
      | inr e ↦ rw e i
    ]

abbrev pub file_new : PeerRef → Queue → Queue
file_new p q = record q { new_peers = assign (get_address (q.store p)) (some p, 0) q.new_peers }

pub file_new-IsFiled :
    (p : PeerRef) (q : Queue)
    → p < q.next_peer
    → p ≢ q.local_peer
    → IsFiled q
    → IsFiled (file_new p q)
file_new-IsFiled p q b n v = record {
  fresh = v.fresh;
  sorted = assign-IsSorted (get_address (q.store p)) (some p, 0) q.new_peers v.sorted;
  seated =
      All-assign (Sits q) (get_address (q.store p)) (some p, 0) q.new_peers (b, n, refl) v.seated;
}

pub file_new-NoneWaits :
    (p : PeerRef) (q : Queue)
    → is_known (q.store p) ≡ false
    → NoneWaits q
    → NoneWaits (file_new p q)
file_new-NoneWaits p q i w t =
    All-assign (Idles q.store) (get_address (q.store p)) (some p, 0) q.new_peers i (w t)

abbrev pub queue_of : Network → Queue
queue_of n = record {
  store = n.store;
  next_peer = n.next_peer;
  local_peer = n.local_peer;
  new_peers = n.new_peers;
  join_token = n.join_token;
}
