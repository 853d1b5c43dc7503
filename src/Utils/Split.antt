-- ===== src/Utils/Split.antt =====
-- Text split at the first place of a character.
use rac_kun.Prelude.{
  ◌++◌, All, ◌≡◌, ◌∷◌, ◌≢◌, some, arith, take-append, length, refl, drop, [], suc, Bool-cases, ◌==◌,
  inl, inr, Option-cases, subst,
}
use rac_kun.Utils.{find_char, before, after, ℕ, Bytes, parse_input}

-- The character does not occur.
abbrev pub Lacks : ℕ → Bytes → Type 0
Lacks c = All (λ b. b ≢ c)

pub find_char-append :
    (c : ℕ) (s t : Bytes) → Lacks c s → find_char c (s ++ c ∷ t) ≡ some (length s)
unfolding find_char
find_char-append c [] t h = ground arith
find_char-append c (b ∷ s) t h = ground (arith, find_char-append c s t h.1)

drop_behind : (s t : Bytes) (c : ℕ) → drop (suc (length s)) (s ++ c ∷ t) ≡ t
drop_behind [] t c = refl
drop_behind (b ∷ s) t c = drop_behind s t c

-- A string is split at the first separator into what stands before it and behind it.
pub split_at :
    (c : ℕ) (s t : Bytes)
    → Lacks c s
    → (before (find_char c (s ++ c ∷ t)) (s ++ c ∷ t) ≡ s)
      × (after (find_char c (s ++ c ∷ t)) (s ++ c ∷ t) ≡ t)
split_at c s t h =
    let e = find_char-append c s t h in
    (rw e (take-append (length s) s (c ∷ t) refl), rw e (drop_behind s t c))

-- A line of input is split at its first space: if the command holds no space, the command and the
-- argument behind one are read back as they were typed.
pub parse_input-append :
    (command argument : Bytes)
    → Lacks b' ' command
    → parse_input (command ++ b' ' ∷ argument) ≡ record { command = command; argument = argument }
unfolding parse_input
parse_input-append command argument h =
    let (front, back) = split_at b' ' command argument h in rw (front, back)

-- What stands before the first separator does not hold it.
pub before-Lacks : (c : ℕ) (s : Bytes) → Lacks c (before (find_char c s) s)
unfolding find_char
before-Lacks c [] = tt
before-Lacks c (b ∷ s) = elim (Bool-cases (b == c)) [
  | inl e ↦ rw e tt
  | inr e ↦
      let other : b ≢ c = ground (arith, e) in
      elim (Option-cases (find_char c s)) [
        | inl f ↦ rw (e, f) (other, subst (λ x. Lacks c (before x s)) f (before-Lacks c s))
        | inr (i, f) ↦ rw (e, f) (other, subst (λ x. Lacks c (before x s)) f (before-Lacks c s))
      ]
]
