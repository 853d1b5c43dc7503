-- ===== src/Ring/Modulo.antt =====
-- Places on a ring: steps forth and back modulo its size.
use native.Mathlib.Nat.{mod-eq_of_lt, suc-mod, mod-add-mod, add-mod_right, mod-eq-sub-mod}
use rac_kun.Prelude.{
  ℕ, zero, suc, ◌+◌, ◌-◌, ◌%◌, ◌<◌, ◌≡◌, sym, ap, ◌∙◌, arith, ltb, leb, ◌==◌, if◌then◌else◌,
}

pub mod-suc : (i n : ℕ) → i < n → suc i % n ≡ (if suc i == n then 0 else suc i)
mod-suc i n h = grind arith

pub mod-pred : (i n : ℕ) → i < n → (i + (n - 1)) % n ≡ (if i == 0 then n - 1 else i - 1)
mod-pred zero n h = grind arith
mod-pred (suc i) n h =
    let e : suc i + (n - 1) ≡ i + n = omega arith in
    ground (arith, e, add-mod_right i n, mod-eq_of_lt {n = i} {m = n})

-- What `%` does below twice the modulus.
pub mod-once : (a n : ℕ) → a < n + n → a % n ≡ (if ltb a n then a else a - n)
mod-once a n h = ground (
  arith,
  mod-eq_of_lt {n = a} {m = n},
  mod-eq-sub-mod {n = a} {m = n},
  mod-eq_of_lt {n = a - n} {m = n},
)

pub forth_back : (i n : ℕ) → i < n → (suc i % n + (n - 1)) % n ≡ i
forth_back i n h =
    let e : suc i + (n - 1) ≡ i + n = omega arith in
    rw (mod-add-mod (suc i) n (n - 1), e) (add-mod_right i n ∙ mod-eq_of_lt h)

pub back_forth : (i n : ℕ) → i < n → suc ((i + (n - 1)) % n) % n ≡ i
back_forth i n h =
    let e : suc (i + (n - 1)) ≡ i + n = omega arith in
    sym (suc-mod (i + (n - 1)) n) ∙ ap (λ k. k % n) e ∙ add-mod_right i n ∙ mod-eq_of_lt h

-- The steps from place `i` to place `j`.
pub steps : ℕ → ℕ → ℕ → ℕ
steps n i j = if leb i j then j - i else (j + n) - i

pub steps_lem : (n i j : ℕ) → i < n → j < n → (steps n i j < n) × ((i + steps n i j) % n ≡ j)
unfolding steps
steps_lem n i j h k = ground (arith, mod-once (i + (j - i)) n, mod-once (i + (j + n - i)) n)

pub steps_unique : (n i j t : ℕ) → i < n → t < n → (i + t) % n ≡ j → t ≡ steps n i j
unfolding steps
steps_unique n i j t h k e = ground (arith, mod-once (i + t) n)
