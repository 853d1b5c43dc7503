-- ===== src/OrdMap/Laws/Positions.antt =====
-- Where a key stands, and what holds of all entries, after each operation.
use rac_kun.OrdMap.Laws.Lookup.{find-assign, position_missing, find-erase}
use rac_kun.OrdMap.Laws.Sorted.{same_refl, IsSorted, Above, ne_of_lt, eq_of_same}
use rac_kun.Prelude.{
  ◌≤◌, ◌≡◌, ◌≢◌, refl, subst, inl, inr, none, some, [], ◌∷◌, arith, length, All, Bool-cases, ◌<◌,
  Option-cases, ◌∙◌,
}
use rac_kun.OrdMap.{Less, OrdMap, same, find, assign, insert, erase, position}

module _ {ℓ κ} {K : Type ℓ} {V : Type κ} ⦃o : Less K⦄ where
  pub All-assign {μ} :
      (P : K × V → Type μ) (k : K) (v : V) (m : OrdMap K V)
      → P (k, v)
      → All P m
      → All P (assign k v m)
  unfolding assign
  All-assign P k v [] p a = (p, tt)
  All-assign P k v ((j, w) ∷ m) p a = elim (Bool-cases (o.lt k j)) [
    | inl e ↦ rw e (p, a)
    | inr e ↦ elim (Bool-cases (o.lt j k)) [
      | inl f ↦ rw (e, f) (a.0, All-assign P k v m p a.1)
      | inr f ↦ rw (e, f) (subst (λ i. P (i, v)) (o.total k j e f) p, a.1)
    ]
  ]

  pub All-insert {μ} :
      (P : K × V → Type μ) (k : K) (v : V) (m : OrdMap K V)
      → P (k, v)
      → All P m
      → All P (insert k v m)
  unfolding insert
  All-insert P k v [] p a = (p, tt)
  All-insert P k v ((j, w) ∷ m) p a = elim (Bool-cases (o.lt k j)) [
    | inl e ↦ rw e (p, a)
    | inr e ↦ elim (Bool-cases (o.lt j k)) [
      | inl f ↦ rw (e, f) (a.0, All-insert P k v m p a.1)
      | inr f ↦ rw (e, f) a
    ]
  ]

  pub All-erase {μ} : (P : K × V → Type μ) (k : K) (m : OrdMap K V) → All P m → All P (erase k m)
  unfolding erase
  All-erase P k [] a = tt
  All-erase P k ((j, w) ∷ m) a = elim (Bool-cases (same j k)) [
    | inl e ↦ rw e a.1
    | inr e ↦ rw e (a.0, All-erase P k m a.1)
  ]

  pub position-le : (k : K) (m : OrdMap K V) → position k m ≤ length m
  unfolding position
  position-le k [] = omega arith
  position-le k ((j, w) ∷ m) = ground (arith, position-le k m)

  -- Erasing a key that is not there changes nothing.
  pub erase_missing : (k : K) (m : OrdMap K V) → position k m ≡ length m → erase k m ≡ m
  unfolding erase position
  erase_missing k [] h = refl
  erase_missing k ((j, w) ∷ m) h = ground (arith, erase_missing k m)

  pub find_missing : (k : K) (m : OrdMap K V) → position k m ≡ length m → find k m ≡ none
  unfolding find position
  find_missing k [] h = refl
  find_missing k ((j, w) ∷ m) h = ground (arith, find_missing k m)

  pub position-lt : (k : K) (m : OrdMap K V) (v : V) → find k m ≡ some v → position k m < length m
  unfolding position find
  position-lt k [] v h = absurd (cc)
  position-lt k ((j, w) ∷ m) v h = ground (arith, position-lt k m v)

  pub find_present :
      (k : K) (m : OrdMap K V) → position k m < length m → (v : V) × (find k m ≡ some v)
  find_present k m h = elim (Option-cases (find k m)) [
    | inl e ↦ absurd (omega (arith, position_missing k m e))
    | inr found ↦ found
  ]

  pub position-assign_self :
      (k : K) (v : V) (m : OrdMap K V) → position k (assign k v m) < length (assign k v m)
  position-assign_self k v m = position-lt k (assign k v m) v (find-assign k k v m ∙ rw same_refl)

  pub position-assign :
      (k q : K) (v : V) (m : OrdMap K V)
      → position q m < length m
      → position q (assign k v m) < length (assign k v m)
  position-assign k q v m h =
      let (w, e) = find_present q m h in
      elim (Bool-cases (same k q)) [
        | inl s ↦ position-lt q (assign k v m) v (find-assign k q v m ∙ rw s)
        | inr s ↦ position-lt q (assign k v m) w (find-assign k q v m ∙ rw s e)
      ]

  pub position-erase :
      (k q : K) (m : OrdMap K V)
      → IsSorted m
      → k ≢ q
      → position q m < length m
      → position q (erase k m) < length (erase k m)
  position-erase k q m s n h =
      let (w, e) = find_present q m h in
      elim (Bool-cases (same k q)) [
        | inl s' ↦ absurd (n (eq_of_same k q s'))
        | inr s' ↦ position-lt q (erase k m) w (find-erase k q m s ∙ rw s' e)
      ]

  pub Above-ne : (j k : K) (m : OrdMap K V) → j ≡ k → Above j m → All (λ e. k ≢ e.0) m
  Above-ne j k [] e a = tt
  Above-ne j k (x ∷ m) e a = ((λ h. ne_of_lt j x.0 a.0 (e ∙ h)), Above-ne j k m e a.1)

  -- What is left after an erasure has other keys.
  pub All-erase_ne : (k : K) (m : OrdMap K V) → IsSorted m → All (λ e. k ≢ e.0) (erase k m)
  unfolding erase
  All-erase_ne k [] s = tt
  All-erase_ne k ((j, w) ∷ m) s = elim (Bool-cases (same j k)) [
    | inl e ↦ rw e (Above-ne j k m (eq_of_same j k e) s.0)
    | inr e ↦ rw e ((λ h. cc (e, same_refl k, h)), All-erase_ne k m s.1)
  ]

  pub position-insert_self :
      (k : K) (v : V) (m : OrdMap K V) → position k (insert k v m) < length (insert k v m)
  unfolding insert position
  position-insert_self k v [] = ground (arith, same_refl k)
  position-insert_self k v ((j, w) ∷ m) =
      ground (arith, position-insert_self k v m, same_refl k, o.irrefl k)

  pub position-insert :
      (k q : K) (v : V) (m : OrdMap K V)
      → position q m < length m
      → position q (insert k v m) < length (insert k v m)
  unfolding insert position
  position-insert k q v [] h = absurd (omega arith)
  position-insert k q v ((j, w) ∷ m) h = ground (arith, position-insert k q v m)

  -- What holds of every entry holds of the one that is found.
  pub All-find {μ} :
      (P : K × V → Type μ) (k : K) (m : OrdMap K V) {v : V} → All P m → find k m ≡ some v → P (k, v)
  unfolding find
  All-find P k [] a h = absurd (cc h)
  All-find P k ((j, w) ∷ m) {v} a h = elim (Bool-cases (same j k)) [
    | inl e ↦
        let at_k : P (k, w) = subst (λ i. P (i, w)) (eq_of_same j k e) a.0 in
        let found : w ≡ v = ground (arith, e) in subst (λ x. P (k, x)) found at_k
    | inr e ↦ All-find P k m {v = v} a.1 (ground (arith, e))
  ]
