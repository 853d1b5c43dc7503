-- ===== src/OrdMap/Laws/Lookup.antt =====
-- What a look-up answers after each operation.
use rac_kun.OrdMap.Laws.Sorted.{
  eq_of_same, IsSorted, Above, same_refl, same_gt, Above-trans, same_lt, lt_asymm, All-get_elem?,
}
use rac_kun.Prelude.{
  ℕ, zero, suc, ◌≡◌, refl, true, none, some, [], ◌∷◌, arith, if◌then◌else◌, length, get_elem?,
}
use rac_kun.OrdMap.{Less, OrdMap, same, find, assign, insert, erase, position}

module _ {ℓ κ} {K : Type ℓ} {V : Type κ} ⦃o : Less K⦄ where
  pub find_below : (k : K) (m : OrdMap K V) → Above k m → find k m ≡ none
  unfolding find
  find_below k [] a = refl
  find_below k ((j, w) ∷ m) a = ground (arith, find_below k m a.1, same_gt j k)

  pub find-assign :
      (k q : K) (v : V) (m : OrdMap K V)
      → find q (assign k v m) ≡ (if same k q then some v else find q m)
  unfolding find assign
  find-assign k q v [] = refl
  find-assign k q v ((j, w) ∷ m) =
      ground (arith, find-assign k q v m, eq_of_same j q, eq_of_same k q, o.total j k, o.irrefl j)

  pub find-insert :
      (k q : K) (v : V) (m : OrdMap K V)
      → IsSorted m
      → find q (insert k v m)
        ≡ (if same k q then elim (find k m) [ none ↦ some v | some w ↦ some w ] else find q m)
  unfolding find insert
  find-insert k q v [] s = refl
  find-insert k q v ((j, w) ∷ m) s = ground (
    arith,
    find-insert k q v m s.1,
    eq_of_same j q,
    eq_of_same k q,
    o.total j k,
    o.irrefl j,
    λ (h : o.lt k j ≡ true). find_below k m (Above-trans k j m h s.0),
    lt_asymm k j,
    lt_asymm j k,
  )

  pub find-erase :
      (k q : K) (m : OrdMap K V)
      → IsSorted m
      → find q (erase k m) ≡ (if same k q then none else find q m)
  unfolding find erase
  find-erase k q [] s = ground arith
  find-erase k q ((j, w) ∷ m) s = ground (
    arith,
    find-erase k q m s.1,
    eq_of_same j q,
    eq_of_same k q,
    eq_of_same j k,
    find_below j m s.0,
    o.irrefl j,
  )

  -- The iterator of an entry's key is the entry's position.
  pub position-get_elem? :
      (m : OrdMap K V) (i : ℕ) (k : K) (v : V)
      → IsSorted m
      → get_elem? m i ≡ some (k, v)
      → position k m ≡ i
  unfolding position
  position-get_elem? [] i k v s h = cc
  position-get_elem? ((j, w) ∷ m) zero k v s h = ground (arith, same_refl j)
  position-get_elem? ((j, w) ∷ m) (suc i) k v s h = ground (
    arith,
    position-get_elem? m i k v s.1 h,
    same_lt j k (All-get_elem? (λ e. o.lt j e.0 ≡ true) m i (k, v) s.0 h),
  )

  pub position-find :
      (k : K) (m : OrdMap K V) (v : V)
      → find k m ≡ some v
      → get_elem? m (position k m) ≡ some (k, v)
  unfolding position find
  position-find k [] v h = cc
  position-find k ((j, w) ∷ m) v h = ground (arith, position-find k m v, eq_of_same j k)

  pub position_missing : (k : K) (m : OrdMap K V) → find k m ≡ none → position k m ≡ length m
  unfolding position find
  position_missing k [] h = refl
  position_missing k ((j, w) ∷ m) h = ground (arith, position_missing k m)

  pub find-get_elem? :
      (m : OrdMap K V) (i : ℕ) (k : K) (v : V)
      → IsSorted m
      → get_elem? m i ≡ some (k, v)
      → find k m ≡ some v
  unfolding find
  find-get_elem? [] i k v s h = cc
  find-get_elem? ((j, w) ∷ m) zero k v s h = ground (arith, same_refl j)
  find-get_elem? ((j, w) ∷ m) (suc i) k v s h = ground (
    arith,
    find-get_elem? m i k v s.1 h,
    same_lt j k (All-get_elem? (λ e. o.lt j e.0 ≡ true) m i (k, v) s.0 h),
  )
