-- ===== src/Node/Local.antt =====
-- `create_local_peer` of src/Utils.cpp: the local peer's id, from the host's name and random digits.
pub mod Short
use rac_kun.Utils.Split.{Lacks}
use rac_kun.Peer.{init, Peer, make_peer}
use rac_kun.Text.{Bytes, codes}
use rac_kun.Prelude.{
  ℕ, [], ◌∷◌, length, ◌++◌, suc, ◌≡◌, if◌then◌else◌, ap, ◌+◌, ◌-◌, arith, ◌==◌, ◌<◌, zero, ◌∙◌,
  append_assoc, ◌%◌, refl, true, length-append,
}
use rac_kun.Message.{id_length}

-- `string id(name)`: the bytes before the first null byte.
unfoldable pub c_string : Bytes → Bytes
c_string [] = []
c_string (b ∷ s) = if b == 0 then [] else b ∷ c_string s

abbrev pub non_random : ℕ
non_random = 13

-- `n` random digits, from the i-th number on.
unfoldable pub random_digits : (ℕ → ℕ) → ℕ → ℕ → Bytes
random_digits rand zero i = []
random_digits rand (suc n) i = (b'0' + rand i % 10) ∷ random_digits rand n (suc i)

-- `written` is what `gethostname(name, 13)` leaves in the first 13 bytes.
unfoldable pub create_local_peer : Bytes → (ℕ → ℕ) → Peer
create_local_peer written rand =
    init (c_string (written ++ random_digits rand (id_length - non_random) 0)) (codes "AAAAA")
      (make_peer [] 0 true)

pub create_local_peer_is_local :
    (written : Bytes) (rand : ℕ → ℕ) → (create_local_peer written rand).local ≡ true
unfolding create_local_peer init make_peer
create_local_peer_is_local written rand = refl

c_string-full : (s : Bytes) → Lacks 0 s → c_string s ≡ s
unfolding c_string
c_string-full [] h = refl
c_string-full (b ∷ s) h = ground (arith, c_string-full s h.1)

c_string_cut : (s t : Bytes) → Lacks 0 s → c_string (s ++ 0 ∷ t) ≡ s
unfolding c_string
c_string_cut [] t h = refl
c_string_cut (b ∷ s) t h = ground (arith, c_string_cut s t h.1)

length-random_digits : (rand : ℕ → ℕ) (n i : ℕ) → length (random_digits rand n i) ≡ n
unfolding random_digits
length-random_digits rand zero i = refl
length-random_digits rand (suc n) i = ap suc (length-random_digits rand n (suc i))

random_digits-Lacks : (rand : ℕ → ℕ) (n i : ℕ) → Lacks 0 (random_digits rand n i)
unfolding random_digits
random_digits-Lacks rand zero i = tt
random_digits-Lacks rand (suc n) i = ((λ h. omega arith), random_digits-Lacks rand n (suc i))

Lacks-append : (s t : Bytes) → Lacks 0 s → Lacks 0 t → Lacks 0 (s ++ t)
Lacks-append [] t h k = k
Lacks-append (b ∷ s) t h k = (h.0, Lacks-append s t h.1 k)

-- If the host's name fills the 13 bytes that it is given, the id has the 20 bytes that the messages
-- ask for.
pub create_local_peer_wide :
    (written : Bytes) (rand : ℕ → ℕ)
    → length written ≡ non_random
    → Lacks 0 written
    → length (create_local_peer written rand).id ≡ id_length
unfolding create_local_peer init make_peer
create_local_peer_wide written rand wide full =
    let digits = random_digits rand 7 0 in
    ap length (
      c_string-full (written ++ digits)
        (Lacks-append written digits full (random_digits-Lacks rand 7 0)))
    ∙ omega (arith, length-append written digits, length-random_digits rand 7 0)

-- If the host's name is shorter than the 13 bytes that it is given, so that a null byte follows it
-- there, the id is the name alone, without a random digit, and shorter than the 20 bytes that the
-- messages ask for.
pub create_local_peer_short :
    (name junk : Bytes) (rand : ℕ → ℕ)
    → length (name ++ 0 ∷ junk) ≡ non_random
    → Lacks 0 name
    → ((create_local_peer (name ++ 0 ∷ junk) rand).id ≡ name)
      × (length (create_local_peer (name ++ 0 ∷ junk) rand).id < id_length)
unfolding create_local_peer init make_peer
create_local_peer_short name junk rand wide full =
    let digits = random_digits rand 7 0 in
    let cut : c_string ((name ++ 0 ∷ junk) ++ digits) ≡ name =
      ap c_string (append_assoc name (0 ∷ junk) digits) ∙ c_string_cut name (junk ++ digits) full in
    (cut, rw cut (omega (arith, wide, length-append name (0 ∷ junk))))
