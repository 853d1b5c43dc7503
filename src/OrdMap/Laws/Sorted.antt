-- ===== src/OrdMap/Laws/Sorted.antt =====
-- The order of the keys, and that every operation keeps it.
use rac_kun.Prelude.{
  ℕ, zero, suc, ◌≡◌, ◌≢◌, subst, inl, inr, true, false, some, List, [], ◌∷◌, arith, get_elem?, All,
  Bool-cases,
}
use rac_kun.OrdMap.{Less, OrdMap, same, assign, insert, erase}

module _ {ℓ} {K : Type ℓ} ⦃o : Less K⦄ where
  pub lt_asymm : (a b : K) → o.lt a b ≡ true → o.lt b a ≡ false
  lt_asymm a b h = elim (Bool-cases (o.lt b a)) [
    | inl e ↦ cc (o.trans a b a h e, o.irrefl a)
    | inr e ↦ e
  ]

  pub eq_of_same : (a b : K) → same a b ≡ true → a ≡ b
  eq_of_same a b h = ground (arith, o.total a b)

  pub same_refl : (a : K) → same a a ≡ true
  same_refl a = rw (o.irrefl a)

  pub same_of_eq : {a b : K} → a ≡ b → same a b ≡ true
  same_of_eq {a} e = rw (← e) (same_refl a)

  pub ne_of_lt : (a b : K) → o.lt a b ≡ true → a ≢ b
  ne_of_lt a b h e = cc (o.irrefl a, e)

  pub same_lt : (a b : K) → o.lt a b ≡ true → same a b ≡ false
  same_lt a b h = rw h

  pub same_gt : (a b : K) → o.lt b a ≡ true → same a b ≡ false
  same_gt a b h = ground (arith, lt_asymm b a h)

pub All-get_elem? {ℓ κ} :
    {A : Type ℓ} (P : A → Type κ) (xs : List A) (i : ℕ) (a : A)
    → All P xs
    → get_elem? xs i ≡ some a
    → P a
All-get_elem? P [] i a h e = absurd (cc)
All-get_elem? P (x ∷ xs) zero a h e = let x_is_a : x ≡ a = cc in subst P x_is_a h.0
All-get_elem? P (x ∷ xs) (suc i) a h e = All-get_elem? P xs i a h.1 e

module _ {ℓ κ} {K : Type ℓ} {V : Type κ} ⦃o : Less K⦄ where
  abbrev pub Above : K → OrdMap K V → Type 0
  Above k m = All (λ e. o.lt k e.0 ≡ true) m

  -- The keys rise strictly.
  abbrev pub IsSorted : OrdMap K V → Type 0
  IsSorted [] = Unit
  IsSorted ((k, v) ∷ m) = Above k m × IsSorted m

  pub Above-trans : (j k : K) (m : OrdMap K V) → o.lt j k ≡ true → Above k m → Above j m
  Above-trans j k [] h a = tt
  Above-trans j k ((i, v) ∷ m) h a = (o.trans j k i h a.0, Above-trans j k m h a.1)

  pub Above-assign :
      (j k : K) (v : V) (m : OrdMap K V) → o.lt j k ≡ true → Above j m → Above j (assign k v m)
  unfolding assign
  Above-assign j k v [] h a = (h, tt)
  Above-assign j k v ((i, w) ∷ m) h a = ground (arith, Above-assign j k v m h a.1)

  pub Above-insert :
      (j k : K) (v : V) (m : OrdMap K V) → o.lt j k ≡ true → Above j m → Above j (insert k v m)
  unfolding insert
  Above-insert j k v [] h a = (h, tt)
  Above-insert j k v ((i, w) ∷ m) h a = ground (arith, Above-insert j k v m h a.1)

  pub Above-erase : (j k : K) (m : OrdMap K V) → Above j m → Above j (erase k m)
  unfolding erase
  Above-erase j k [] a = tt
  Above-erase j k ((i, w) ∷ m) a = ground (arith, Above-erase j k m a.1)

  pub assign-IsSorted : (k : K) (v : V) (m : OrdMap K V) → IsSorted m → IsSorted (assign k v m)
  unfolding assign
  assign-IsSorted k v [] s = (tt, tt)
  assign-IsSorted k v ((j, w) ∷ m) s = ground (
    arith,
    assign-IsSorted k v m s.1,
    λ (h : o.lt k j ≡ true). Above-trans k j m h s.0,
    λ (h : o.lt j k ≡ true). Above-assign j k v m h s.0,
  )

  pub insert-IsSorted : (k : K) (v : V) (m : OrdMap K V) → IsSorted m → IsSorted (insert k v m)
  unfolding insert
  insert-IsSorted k v [] s = (tt, tt)
  insert-IsSorted k v ((j, w) ∷ m) s = ground (
    arith,
    insert-IsSorted k v m s.1,
    λ (h : o.lt k j ≡ true). Above-trans k j m h s.0,
    λ (h : o.lt j k ≡ true). Above-insert j k v m h s.0,
  )

  pub erase-IsSorted : (k : K) (m : OrdMap K V) → IsSorted m → IsSorted (erase k m)
  unfolding erase
  erase-IsSorted k [] s = tt
  erase-IsSorted k ((j, w) ∷ m) s = ground (arith, erase-IsSorted k m s.1, Above-erase j k m s.0)
