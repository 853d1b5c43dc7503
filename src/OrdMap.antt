-- ===== src/OrdMap.antt =====
-- `std::map`: its entries in the order of their keys. The order is the map's `Compare` argument.
pub mod Laws
use rac_kun.Prelude.{
  ℕ, suc, ◌≡◌, Bool, true, false, not, ◌&&◌, Option, none, some, List, [], ◌∷◌, if◌then◌else◌,
}

-- A strict total order, given by its test.
pub record Less {ℓ} (K : Type ℓ) : Type ℓ where
  pub lt : K → K → Bool
  pub irrefl : (a : K) → lt a a ≡ false
  pub trans : (a b c : K) → lt a b ≡ true → lt b c ≡ true → lt a c ≡ true
  pub total : (a b : K) → lt a b ≡ false → lt b a ≡ false → a ≡ b

abbrev pub OrdMap {ℓ κ} : Type ℓ → Type κ → Type (ℓ ⊔ κ)
OrdMap K V = List (K × V)

module _ {ℓ} {K : Type ℓ} ⦃o : Less K⦄ where
  -- Keys are the same where neither is less.
  abbrev pub same : K → K → Bool
  same a b = not (o.lt a b) && not (o.lt b a)

module _ {ℓ κ} {K : Type ℓ} {V : Type κ} ⦃o : Less K⦄ where
  unfoldable pub find : K → OrdMap K V → Option V
  find k [] = none
  find k ((j, v) ∷ m) = if same j k then some v else find k m

  -- `m[k] = v`
  unfoldable pub assign : K → V → OrdMap K V → OrdMap K V
  assign k v [] = (k, v) ∷ []
  assign k v ((j, w) ∷ m) =
      if o.lt k j
      then (k, v) ∷ (j, w) ∷ m
      else if o.lt j k
      then (j, w) ∷ assign k v m
      else (j, v) ∷ m

  -- `m.insert(pair(k, v))`, which keeps what is there
  unfoldable pub insert : K → V → OrdMap K V → OrdMap K V
  insert k v [] = (k, v) ∷ []
  insert k v ((j, w) ∷ m) =
      if o.lt k j
      then (k, v) ∷ (j, w) ∷ m
      else if o.lt j k
      then (j, w) ∷ insert k v m
      else (j, w) ∷ m

  unfoldable pub erase : K → OrdMap K V → OrdMap K V
  erase k [] = []
  erase k ((j, w) ∷ m) = if same j k then m else (j, w) ∷ erase k m

  -- The iterator that `m.find(k)` returns, as a position; the length stands for `m.end()`.
  unfoldable pub position : K → OrdMap K V → ℕ
  position k [] = 0
  position k ((j, w) ∷ m) = if same j k then 0 else suc (position k m)
