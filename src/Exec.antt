-- ===== src/Exec.antt =====
-- Methods that change an object and may not return: what was written before an exception stays
-- written, so the state comes back beside it.
pub mod Follows
use rac_kun.Prelude.{Option, none, some}
use rac_kun.Outcome.{Result, ok, throw, fault, hang, Exception}

abbrev pub Exec {ℓ} : Type ℓ → Type ℓ → Type ℓ
Exec S A = S → Result A × S

module _ {ℓ} {S A : Type ℓ} where
  unfoldable pub gets : (S → A) → Exec S A
  gets read n = (ok (read n), n)

  unfoldable pub lift : Result A → Exec S A
  lift r n = (r, n)

  unfoldable pub pure : A → Exec S A
  pure a n = (ok a, n)

  unfoldable pub raise : Exception → Exec S A
  raise e n = (throw e, n)

  -- The object behind a pointer that the state holds; a null pointer is a fault.
  unfoldable pub pointee : (S → Option A) → Exec S A
  pointee f s = elim (f s) [ none ↦ (fault, s) | some a ↦ (ok a, s) ]

  -- A result that is computed from the state.
  unfoldable pub results : (S → Result A) → Exec S A
  results f s = (f s, s)

unfoldable pub modify {ℓ} : {S : Type ℓ} → (S → S) → Exec S Unit
modify f s = (ok tt, f s)

-- A case for the null pointer or missing entry, and a case for the other.
unfoldable pub option_case {ℓ κ} : {A : Type ℓ} {B : Type κ} → Option A → B → (A → B) → B
option_case none b f = b
option_case (some a) b f = f a

module _ {ℓ} {S A B : Type ℓ} where
  abbrev pub continue : Result A → (A → Exec S B) → Exec S B
  continue (ok a) f s = f a s
  continue (throw e) f s = (throw e, s)
  continue fault f s = (fault, s)
  continue hang f s = (hang, s)

  infixl 10 ◌>>=◌ ◌>>◌
  -- Opening this opens the actions above too.
  unfoldable pub ◌>>=◌ : Exec S A → (A → Exec S B) → Exec S B
  unfolding pure raise lift gets pointee results modify option_case
  ◌>>=◌ m f s = let (r, s') = m s in continue r f s'

  abbrev pub ◌>>◌ : Exec S A → Exec S B → Exec S B
  m >> n = m >>= λ _. n

-- `try { m } catch (std::exception& e) { }`
abbrev pub caught {ℓ} : {S : Type ℓ} → Result (Unit {ℓ}) → S → Result (Unit {ℓ}) × S
caught (throw e) s = (ok tt, s)
caught r s = (r, s)

unfoldable pub try_catch {ℓ} : {S : Type ℓ} → Exec S Unit → Exec S Unit
try_catch m s = let (r, s') = m s in caught r s'
