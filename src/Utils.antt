-- ===== src/Utils.antt =====
-- src/Utils.cpp: numbers printed and read, text split at a character, hashes, and the command line's
-- input. SHA-1 is Crypto++'s, and a parameter. A `find` that fails is `std::string::npos`, here
-- `none`; it is stored in an `int`, so that `npos + 1` is position 0.
pub mod Decimal
pub mod Split
pub mod Display
use rac_kun.Prelude.{
  ℕ, zero, suc, ◌+◌, ◌-◌, ◌*◌, ◌/◌, ◌%◌, ◌^◌, Bool, true, false, ◌&&◌, ◌||◌, Option, none, some, [],
  ◌∷◌, ltb, leb, ◌==◌, if◌then◌else◌, take, drop,
}
use rac_kun.Text.{Bytes}

-- The digits of `n`, in front of `out`. The fuel bounds the rounds; `n` rounds suffice for `n`.
unfoldable pub emit : ℕ → ℕ → Bytes → Bytes
emit zero n out = out
emit (suc f) n out =
    let rest = emit f (n / 10) ((b'0' + n % 10) ∷ out) in if n == 0 then out else rest

-- `itos` at a number that is not negative.
unfoldable pub itos : ℕ → Bytes
unfolding emit
itos n = if n == 0 then b'0' ∷ [] else emit n n []

abbrev pub is_digit : ℕ → Bool
is_digit c = leb b'0' c && leb c b'9'

abbrev is_space : ℕ → Bool
is_space c = (leb 9 c && leb c 13) || c == 32

skip_space : Bytes → Bytes
skip_space [] = []
skip_space (c ∷ s) = let rest = skip_space s in if is_space c then rest else c ∷ s

-- The leading digits, behind a number `n` that is read already.
unfoldable pub read_digits : ℕ → Bytes → ℕ
read_digits n [] = n
read_digits n (c ∷ s) =
    let rest = read_digits (n * 10 + (c - b'0')) s in if is_digit c then rest else n

abbrev pub u16_mod : ℕ
u16_mod = 2 ^ 16

abbrev pub port_max : ℕ
port_max = u16_mod - 1

-- What `istringstream(s) >> port` stores in an `unsigned short`, and whether it fails.
pub record Extracted : Type 0 where
  pub port : ℕ
  pub fail : Bool

fits : Bool → ℕ → Extracted
fits negative n =
    if ltb port_max n
    then record { port = port_max; fail = true }
    else record { port = (if negative then (u16_mod - n) % u16_mod else n); fail = false }

unsigned : Bool → Bytes → Extracted
unfolding fits
unsigned negative [] = record { port = 0; fail = true }
unsigned negative (c ∷ s) =
    if is_digit c then fits negative (read_digits 0 (c ∷ s)) else record { port = 0; fail = true }

-- Where there is no character, the variable keeps the value that it held.
signed : ℕ → Bytes → Extracted
unfolding unsigned
signed held [] = record { port = held; fail = true }
signed held (c ∷ s) =
    if c == b'-'
    then unsigned true s
    else if c == b'+'
    then unsigned false s
    else unsigned false (c ∷ s)

-- `istringstream(s) >> port`, where `held` is the value of `port` before.
unfoldable pub extract_port : ℕ → Bytes → Extracted
unfolding signed skip_space
extract_port held s = signed held (skip_space s)

-- A stand-in for what a variable without an initial value holds: in the source it is any value.
abbrev pub uninitialised : ℕ
uninitialised = 0

-- `s.find(c)`
unfoldable pub find_char : ℕ → Bytes → Option ℕ
find_char c [] = none
find_char c (b ∷ s) =
    if b == c then some 0 else elim (find_char c s) [ none ↦ none | some i ↦ some (suc i) ]

-- `s.substr(0, i)` and `s.substr(i + 1, s.size())` at the `int` of a `find`.
abbrev pub before : Option ℕ → Bytes → Bytes
before none s = s
before (some i) s = take i s

abbrev pub after : Option ℕ → Bytes → Bytes
after none s = s
after (some i) s = drop (suc i) s

pub record Input : Type 0 where
  pub command : Bytes
  pub argument : Bytes

unfoldable pub parse_input : Bytes → Input
unfolding find_char
parse_input input =
    let space = find_char b' ' input in
    record { command = before space input; argument = after space input }

-- Milliseconds of a `timeval`.
unfoldable pub milliseconds : ℕ → ℕ → ℕ
milliseconds tv_sec tv_usec = tv_sec * 1000 + tv_usec / 1000

module _ (sha1 : Bytes → Bytes) where
  unfoldable pub make_hash : Bytes → Bytes
  make_hash input = sha1 input
