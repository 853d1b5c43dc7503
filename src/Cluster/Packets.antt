-- ===== src/Cluster/Packets.antt =====
-- Packets under way, and those that a node sends to the peers of a map.
use rac_kun.Cluster.{Packet}
use rac_kun.Cluster.Relays.{posts}
use rac_kun.Peer.{PeerRef}
use rac_kun.Ring.{PeerMap}
use rac_kun.Text.{Bytes}
use rac_kun.Prelude.{
  ℕ, List, [], ◌∷◌, ◌++◌, ◌≡◌, refl, ◌⊎◌, inl, inr, All, length, ◌+◌, suc, arith, length-append,
}

abbrev pub Among : {A : Type 0} → A → List A → Type 0
Among x [] = ⊥
Among x (y ∷ ys) = (x ≡ y) ⊎ Among x ys

-- A peer of the map.
abbrev pub Has : PeerRef → PeerMap → Type 0
Has p [] = ⊥
Has p ((k, q) ∷ m) = (p ≡ q) ⊎ Has p m

module _ {A : Type 0} where
  pub Among-left : (x : A) (xs ys : List A) → Among x xs → Among x (xs ++ ys)
  Among-left x [] ys h = absurd h
  Among-left x (y ∷ xs) ys (inl e) = inl e
  Among-left x (y ∷ xs) ys (inr h) = inr (Among-left x xs ys h)

  pub Among-right : (x : A) (xs ys : List A) → Among x ys → Among x (xs ++ ys)
  Among-right x [] ys h = h
  Among-right x (y ∷ xs) ys h = inr (Among-right x xs ys h)

  -- One element is taken out.
  pub Among-rest :
      (x k : A) (xs ys : List A) → Among x (xs ++ k ∷ ys) → (x ≡ k) ⊎ Among x (xs ++ ys)
  Among-rest x k [] ys h = h
  Among-rest x k (y ∷ xs) ys (inl e) = inr (inl e)
  Among-rest x k (y ∷ xs) ys (inr h) = elim (Among-rest x k xs ys h) [
    | inl e ↦ inl e
    | inr i ↦ inr (inr i)
  ]

  pub All-append : (P : A → Type 0) (xs ys : List A) → All P xs → All P ys → All P (xs ++ ys)
  All-append P [] ys h k = k
  All-append P (x ∷ xs) ys h k = (h.0, All-append P xs ys h.1 k)

  pub All-rest :
      (P : A → Type 0) (xs ys : List A) (k : A) → All P (xs ++ k ∷ ys) → P k × All P (xs ++ ys)
  All-rest P [] ys k h = h
  All-rest P (x ∷ xs) ys k h = let (at, rest) = All-rest P xs ys k h.1 in (at, (h.0, rest))

abbrev pub packet : ℕ → Bytes → PeerRef → Packet
packet i msg p = record { from = i; to = p; bytes = msg }

pub Among-posts :
    (i : ℕ) (msg : Bytes) (p : PeerRef) (m : PeerMap) (acc : List Packet)
    → Has p m ⊎ Among (packet i msg p) acc
    → Among (packet i msg p) (posts i msg m acc)
Among-posts i msg p [] acc (inl h) = absurd h
Among-posts i msg p [] acc (inr h) = h
Among-posts i msg p ((k, q) ∷ m) acc (inl (inl e)) =
    Among-posts i msg p m _ (inr (inl (λ t. packet i msg (e t))))
Among-posts i msg p ((k, q) ∷ m) acc (inl (inr h)) = Among-posts i msg p m _ (inl h)
Among-posts i msg p ((k, q) ∷ m) acc (inr h) = Among-posts i msg p m _ (inr (inr h))

pub All-posts :
    (P : Packet → Type 0) (i : ℕ) (msg : Bytes) (m : PeerMap) (acc : List Packet)
    → ((p : PeerRef) → Has p m → P (packet i msg p))
    → All P acc
    → All P (posts i msg m acc)
All-posts P i msg [] acc h a = a
All-posts P i msg ((k, q) ∷ m) acc h a =
    All-posts P i msg m _ (λ p g. h p (inr g)) (h q (inl refl), a)

pub length-posts :
    (i : ℕ) (msg : Bytes) (m : PeerMap) (acc : List Packet)
    → length (posts i msg m acc) ≡ length m + length acc
length-posts i msg [] acc = omega arith
length-posts i msg ((k, q) ∷ m) acc = omega (arith, length-posts i msg m (packet i msg q ∷ acc))

pub length-rest :
    (k : Packet) (xs ys : List Packet) → length (xs ++ k ∷ ys) ≡ suc (length (xs ++ ys))
length-rest k xs ys = omega (arith, length-append xs (k ∷ ys), length-append xs ys)
