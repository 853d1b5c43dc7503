-- ===== src/OrdMap/Laws/Writes.antt =====
-- A map is what it answers, and the order of writes to different keys leaves no trace.
use rac_kun.OrdMap.Laws.Lookup.{find_below, find-erase, find-assign}
use rac_kun.OrdMap.Laws.Sorted.{
  same_refl, IsSorted, Above, same_of_eq, assign-IsSorted, erase-IsSorted, eq_of_same, Above-trans,
  same_gt,
}
use rac_kun.Prelude.{◌≡◌, ◌≢◌, refl, sym, inl, inr, false, none, [], ◌∷◌, arith, Bool-cases}
use rac_kun.OrdMap.{Less, OrdMap, find, assign, erase}

module _ {ℓ κ} {K : Type ℓ} {V : Type κ} ⦃o : Less K⦄ where
  pub head_le :
      (j k : K) (v w : V) (m n : OrdMap K V)
      → IsSorted ((k, w) ∷ n)
      → find j ((j, v) ∷ m) ≡ find j ((k, w) ∷ n)
      → o.lt j k ≡ false
  unfolding find
  head_le j k v w m n s e = elim (Bool-cases (o.lt j k)) [
    | inl h ↦ ground (arith, find_below j n (Above-trans j k n h s.0), same_gt k j h, same_refl j)
    | inr h ↦ h
  ]

  pub head_eq :
      (j k : K) (v w : V) (m n : OrdMap K V)
      → j ≡ k
      → find j ((j, v) ∷ m) ≡ find j ((k, w) ∷ n)
      → v ≡ w
  unfolding find
  head_eq j k v w m n e h = ground (arith, same_refl j, same_of_eq {a = k} {b = j} (sym e))

  pub tail_find :
      (j k q : K) (v w : V) (m n : OrdMap K V)
      → j ≡ k
      → Above j m
      → Above k n
      → find q ((j, v) ∷ m) ≡ find q ((k, w) ∷ n)
      → find q m ≡ find q n
  unfolding find
  tail_find j k q v w m n h a b e =
      ground
        (arith, eq_of_same j q, eq_of_same k q, find_below j m a, find_below k n b, same_refl q)

  -- A map is what it answers: the order of the writes that built it leaves no trace.
  pub eq_of_find :
      (m n : OrdMap K V) → IsSorted m → IsSorted n → ((k : K) → find k m ≡ find k n) → m ≡ n
  eq_of_find [] [] s t e = refl
  eq_of_find [] ((k, w) ∷ n) s t e = unfold find in ground (arith, e k, same_refl k)
  eq_of_find ((j, v) ∷ m) [] s t e = unfold find in ground (arith, e j, same_refl j)
  eq_of_find ((j, v) ∷ m) ((k, w) ∷ n) s t e =
      let keys = o.total j k (head_le j k v w m n t (e j)) (head_le k j w v n m s (sym (e k))) in
      let values = head_eq j k v w m n keys (e j) in
      let tails = eq_of_find m n s.1 t.1 (λ q. tail_find j k q v w m n keys s.0 t.0 (e q)) in
      λ i. (keys i, values i) ∷ tails i

  -- Writes to different keys commute.
  pub assign_comm :
      (j k : K) (v w : V) (m : OrdMap K V)
      → IsSorted m
      → j ≢ k
      → assign j v (assign k w m) ≡ assign k w (assign j v m)
  assign_comm j k v w m s h =
      eq_of_find _ _ (assign-IsSorted j v (assign k w m) (assign-IsSorted k w m s))
        (assign-IsSorted k w (assign j v m) (assign-IsSorted j v m s))
        λ q.
          rw
            (
              find-assign j q v (assign k w m),
              find-assign k q w m,
              find-assign k q w (assign j v m),
              find-assign j q v m,
            )
            (ground (arith, eq_of_same j q, eq_of_same k q))

  -- Erasing a key undoes the write that brought it.
  pub erase-assign :
      (k : K) (v : V) (m : OrdMap K V) → IsSorted m → find k m ≡ none → erase k (assign k v m) ≡ m
  erase-assign k v m s h =
      eq_of_find _ _ (erase-IsSorted k (assign k v m) (assign-IsSorted k v m s)) s λ q.
        rw (find-erase k q (assign k v m) (assign-IsSorted k v m s), find-assign k q v m)
          (ground (arith, eq_of_same k q))
