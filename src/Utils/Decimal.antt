-- ===== src/Utils/Decimal.antt =====
-- Ports printed by `itos` and read back by `istringstream >> port`.
use rac_kun.Utils.{fits, unsigned, signed, skip_space, is_digit}
use rac_kun.Prelude.{
  Bool-cases, ◌≤◌, ◌≡◌, false, true, arith, ◌==◌, inl, [], suc, inr, ◌/◌, refl, ◌+◌, ◌%◌, zero, ◌<◌,
  length, ◌^◌, Bool, ltb,
}
use rac_kun.Utils.{emit, itos, read_digits, extract_port, fits, is_digit, port_max, Bytes, ℕ, ◌∷◌}

read_digits-emit :
    (f n : ℕ) (out : Bytes) → n ≤ f → read_digits 0 (emit f n out) ≡ read_digits n out
unfolding emit read_digits
read_digits-emit zero n out h = let e : n ≡ 0 = omega arith in rw e
read_digits-emit (suc f) n out h =
    ground (arith, read_digits-emit f (n / 10) ((b'0' + n % 10) ∷ out))

-- The text begins with a digit.
abbrev HasHead : Bytes → Type 0
HasHead [] = ⊥
HasHead (c ∷ s) = is_digit c ≡ true

emit-HasHead : (f n : ℕ) (out : Bytes) → n ≤ f → (n ≡ 0 → HasHead out) → HasHead (emit f n out)
unfolding emit
emit-HasHead zero n out h k = k (omega arith)
emit-HasHead (suc f) n out h k = elim (Bool-cases (n == 0)) [
  | inl e ↦ rw e (k (ground arith))
  | inr e ↦
      rw e (emit-HasHead f (n / 10) ((b'0' + n % 10) ∷ out) (ground arith) (λ _. ground arith))
]

itos-HasHead : (n : ℕ) → HasHead (itos n)
unfolding itos
itos-HasHead n = elim (Bool-cases (n == 0)) [
  | inl e ↦ rw e refl
  | inr e ↦ rw e (emit-HasHead n n [] (omega arith) (λ z. ground arith))
]

read_digits-itos : (n : ℕ) → read_digits 0 (itos n) ≡ n
unfolding itos read_digits
read_digits-itos n = ground (arith, read_digits-emit n n [])

extract_port-digits :
    (held : ℕ) (s : Bytes) → HasHead s → extract_port held s ≡ fits false (read_digits 0 s)
unfolding extract_port
extract_port-digits held [] h = absurd h
extract_port-digits held (c ∷ s) h = ground arith

-- Every port up to 65535 is read back as it was printed, with no failure.
pub extract_port-itos :
    (held n : ℕ) → n ≤ port_max → extract_port held (itos n) ≡ record { port = n; fail = false }
unfolding fits
extract_port-itos held n h =
    rw (extract_port-digits held (itos n) (itos-HasHead n), read_digits-itos n) (ground arith)

length-emit : (k f n : ℕ) (out : Bytes) → n < 10 ^ k → length (emit f n out) ≤ k + length out
unfolding emit
length-emit k zero n out h = omega arith
length-emit zero (suc f) n out h = let e : n ≡ 0 = omega (arith, h) in rw e (omega arith)
length-emit (suc k) (suc f) n out h = elim (Bool-cases (n == 0)) [
  | inl e ↦ rw e (omega arith)
  | inr e ↦
      rw e (omega (arith, length-emit k f (n / 10) ((b'0' + n % 10) ∷ out) (omega (arith, h))))
]

-- A port has at most five digits.
pub length-itos : (n : ℕ) → n ≤ port_max → length (itos n) ≤ 5
unfolding itos
length-itos n h = elim (Bool-cases (n == 0)) [
  | inl e ↦ rw e (omega arith)
  | inr e ↦ rw e (omega (arith, length-emit 5 n n [] (omega (arith, h))))
]

-- A port that is read fits in 16 bits.
fits_le : (negative : Bool) (n : ℕ) → (fits negative n).port ≤ port_max
unfolding fits
fits_le negative n = elim (Bool-cases (ltb port_max n)) [
  | inl e ↦ rw e (omega arith)
  | inr e ↦ elim (Bool-cases negative) [
    | inl k ↦ rw (e, k) (omega arith)
    | inr k ↦ rw (e, k) (ground (arith, e))
  ]
]

unsigned_le : (negative : Bool) (s : Bytes) → (unsigned negative s).port ≤ port_max
unfolding unsigned
unsigned_le negative [] = omega arith
unsigned_le negative (c ∷ s) = elim (Bool-cases (is_digit c)) [
  | inl e ↦ rw e (fits_le negative (read_digits 0 (c ∷ s)))
  | inr e ↦ rw e (omega arith)
]

signed_le : (held : ℕ) (s : Bytes) → held ≤ port_max → (signed held s).port ≤ port_max
unfolding signed
signed_le held [] h = h
signed_le held (c ∷ s) h = elim (Bool-cases (c == b'-')) [
  | inl e ↦ rw e (unsigned_le true s)
  | inr e ↦ elim (Bool-cases (c == b'+')) [
    | inl k ↦ rw (e, k) (unsigned_le false s)
    | inr k ↦ rw (e, k) (unsigned_le false (c ∷ s))
  ]
]

pub extract_port_le :
    (held : ℕ) (s : Bytes) → held ≤ port_max → (extract_port held s).port ≤ port_max
unfolding extract_port
extract_port_le held s h = signed_le held (skip_space s) h
