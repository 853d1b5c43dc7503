-- ===== src/Exec/Follows.antt =====
-- What an action does to its state on every path, also where it raises or faults: a relation between
-- the state before and the state after, with a rule for each way to build an action.
use rac_kun.Outcome.{fault, hang}
use rac_kun.Prelude.{Bool, if◌then◌else◌, true, none, false, ◌≡◌, refl}
use rac_kun.Exec.{
  Exec, ◌>>=◌, pure, raise, lift, gets, pointee, results, modify, option_case, try_catch, continue,
  caught, Exception, Option, Result, some, ok, throw, fault,
}

pub record IsPreorder {S : Type 0} (R : S → S → Type 0) : Type 0 where
  pub refl_at : (s : S) → R s s
  pub trans : (s t u : S) → R s t → R t u → R s u

pub record Follows {S A : Type 0} (R : S → S → Type 0) (m : Exec S A) : Type 0 where
  pub at : (s : S) → R s (m s).1

module _ {S A : Type 0} {R : S → S → Type 0} ⦃o : IsPreorder R⦄ where
  pub Follows-pure : (a : A) → Follows R (pure a)
  unfolding pure
  Follows-pure a = record { at = o.refl_at }

  pub Follows-raise : (e : Exception) → Follows R (raise {A = A} e)
  unfolding raise
  Follows-raise e = record { at = o.refl_at }

  pub Follows-lift : (r : Result A) → Follows R (lift r)
  unfolding lift
  Follows-lift r = record { at = o.refl_at }

  pub Follows-gets : (f : S → A) → Follows R (gets f)
  unfolding gets
  Follows-gets f = record { at = o.refl_at }

  pub Follows-results : (f : S → Result A) → Follows R (results f)
  unfolding results
  Follows-results f = record { at = o.refl_at }

  pub Follows-pointee : (f : S → Option A) → Follows R (pointee f)
  unfolding pointee
  Follows-pointee f = record { at = λ s. at_case s (f s) }
    where
      at_case :
          (s : S) (x : Option A)
          → R s (elim x as (λ _. Result A × S) [ none ↦ (fault, s) | some a ↦ (ok a, s) ]).1
      at_case s none = o.refl_at s
      at_case s (some a) = o.refl_at s

  pub Follows-if :
      (b : Bool) (m n : Exec S A) → Follows R m → Follows R n → Follows R (if b then m else n)
  Follows-if true m n km kn = km
  Follows-if false m n km kn = kn

module _ {S : Type 0} (R : S → S → Type 0) where
  caught_at : (s : S) (r : Result Unit) (s' : S) → R s s' → R s (caught r s').1
  caught_at s (ok _) s' h = h
  caught_at s (throw _) s' h = h
  caught_at s fault s' h = h
  caught_at s hang s' h = h

  pub try_catch_at : (m : Exec S Unit) (s : S) → R s (m s).1 → R s (try_catch m s).1
  unfolding try_catch
  try_catch_at m s h = let (r, s') = m s in caught_at s r s' h

module _ {S : Type 0} {R : S → S → Type 0} ⦃o : IsPreorder R⦄ where
  pub Follows-modify : (f : S → S) → ((s : S) → R s (f s)) → Follows R (modify f)
  unfolding modify
  Follows-modify f h = record { at = h }

  pub Follows-try_catch : (m : Exec S Unit) → Follows R m → Follows R (try_catch m)
  Follows-try_catch m km = record { at = λ s. try_catch_at R m s (km.at s) }

module _ {S A B : Type 0} {R : S → S → Type 0} ⦃o : IsPreorder R⦄ where
  pub continue_at :
      (f : A → Exec S B)
      → ((a : A) → Follows R (f a))
      → (s : S) (r : Result A) (s' : S) → R s s'
      → R s (continue r f s').1
  continue_at f kf s (ok a) s' h = o.trans s s' (f a s').1 h ((kf a).at s')
  continue_at f kf s (throw e) s' h = h
  continue_at f kf s fault s' h = h
  continue_at f kf s hang s' h = h

  pub Follows-bind :
      (m : Exec S A) (f : A → Exec S B)
      → Follows R m
      → ((a : A) → Follows R (f a))
      → Follows R (m >>= f)
  unfolding ◌>>=◌
  Follows-bind m f km kf = record {
    at = λ s. let (r, s') = m s in continue_at f kf s r s' (km.at s);
  }

  pub Follows-option_case :
      (x : Option A) (m : Exec S B) (f : A → Exec S B)
      → Follows R m
      → ((a : A) → Follows R (f a))
      → Follows R (option_case x m f)
  unfolding option_case
  Follows-option_case none m f km kf = km
  Follows-option_case (some a) m f km kf = kf a

-- What follows a write, a pointer or a result at one state.
module _ {S B : Type 0} (R : S → S → Type 0) ⦃o : IsPreorder R⦄ where
  pub modify_at :
      (f : S → S) (k : Unit → Exec S B) (s : S)
      → R s (f s)
      → R (f s) (k tt (f s)).1
      → R s ((modify f >>= k) s).1
  unfolding ◌>>=◌ modify
  modify_at f k s h rest = o.trans s (f s) (k tt (f s)).1 h rest

module _ {S A B : Type 0} (R : S → S → Type 0) ⦃o : IsPreorder R⦄ where
  pub pointee_at :
      (f : S → Option A) (k : A → Exec S B) (s : S)
      → ((a : A) → f s ≡ some a → R s (k a s).1)
      → R s ((pointee f >>= k) s).1
  unfolding ◌>>=◌ pointee
  pointee_at f k s h = at_case (f s) h
    where
      at_case :
          (x : Option A)
          → ((a : A) → x ≡ some a → R s (k a s).1)
          → let r = elim x as (λ _. Result A × S) [ none ↦ (fault, s) | some a ↦ (ok a, s) ] in
            R s (continue r.0 k r.1).1
      at_case none h = o.refl_at s
      at_case (some a) h = h a refl

  result_at :
      (k : A → Exec S B) (s : S) (r : Result A)
      → ((a : A) → r ≡ ok a → R s (k a s).1)
      → R s (continue r k s).1
  result_at k s (ok a) h = h a refl
  result_at k s (throw e) h = o.refl_at s
  result_at k s fault h = o.refl_at s
  result_at k s hang h = o.refl_at s

  pub results_at :
      (f : S → Result A) (k : A → Exec S B) (s : S)
      → ((a : A) → f s ≡ ok a → R s (k a s).1)
      → R s ((results f >>= k) s).1
  unfolding ◌>>=◌ results
  results_at f k s h = result_at k s (f s) h

  pub lift_at :
      (r : Result A) (k : A → Exec S B) (s : S)
      → ((a : A) → r ≡ ok a → R s (k a s).1)
      → R s ((lift r >>= k) s).1
  unfolding ◌>>=◌ lift
  lift_at r k s h = result_at k s r h

  -- What follows an action that keeps a property of the state.
  pub bind_at :
      (P : S → Type 0) (m : Exec S A) (k : A → Exec S B) (s : S)
      → R s (m s).1
      → P (m s).1
      → ((a : A) (s' : S) → P s' → R s' (k a s').1)
      → R s ((m >>= k) s).1
  unfolding ◌>>=◌
  bind_at P m k s h p rest = let (r, s') = m s in at_case r s' h p
    where
      at_case : (r : Result A) (s' : S) → R s s' → P s' → R s (continue r k s').1
      at_case (ok a) s' h p = o.trans s s' (k a s').1 h (rest a s' p)
      at_case (throw e) s' h p = h
      at_case fault s' h p = h
      at_case hang s' h p = h

pub ruleset follows_rules = (
  Follows-pure, Follows-raise, Follows-lift, Follows-gets, Follows-results, Follows-pointee,
  Follows-if, Follows-modify, Follows-try_catch, Follows-bind, Follows-option_case,
)
