-- ===== src/Outcome.antt =====
-- How a call of the program ends: with a value, with a C++ exception (src/Ring.hpp and
-- src/Message.hpp declare two, the standard library and Boost.Asio raise the others), or with
-- undefined behaviour, such as a call through a null `shared_ptr` or a read past a container's end.
-- `hang` is a loop whose fuel ran out.
use rac_kun.Prelude.{Option, none, some, ◌≡◌, refl}

pub data Exception : Type 0 where
  peer_not_found message_parse out_of_range system_error bad_any_cast : Exception

pub data Result {ℓ} (A : Type ℓ) : Type ℓ where
  ok : A → Result A
  throw : Exception → Result A
  fault hang : Result A

-- What stands behind an iterator; `none` is a position outside the container.
abbrev pub deref {ℓ} : {A : Type ℓ} → Option A → Result A
deref none = fault
deref (some a) = ok a

module _ {ℓ κ} {A : Type ℓ} {B : Type κ} where
  infixl 5 ◌>>=◌
  abbrev pub ◌>>=◌ : Result A → (A → Result B) → Result B
  hang >>= rest = hang
  fault >>= rest = fault
  throw e >>= rest = throw e
  ok a >>= rest = rest a

  -- A chain that returns has a first step that returns.
  pub >>=-eq-ok :
      (r : Result A) (rest : A → Result B) {b : B}
      → (r >>= rest) ≡ ok b
      → (a : A) × (r ≡ ok a) × (rest a ≡ ok b)
  >>=-eq-ok hang rest returns = cc
  >>=-eq-ok fault rest returns = cc
  >>=-eq-ok (throw e) rest returns = cc
  >>=-eq-ok (ok a) rest returns = (a, refl, returns)
