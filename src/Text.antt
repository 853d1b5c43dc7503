-- ===== src/Text.antt =====
-- `std::string` as a list of bytes, and its order (`operator<` compares unsigned bytes).
use Prim.Native.Char.{code}
use Prim.Native.String.{String}
use rac_kun.OrdMap.{Less}
use rac_kun.Prelude.{ℕ, ◌≡◌, refl, Bool, true, false, List, [], ◌∷◌, arith, ltb, if◌then◌else◌}

abbrev pub Bytes : Type 0
Bytes = List ℕ

-- The bytes of an ASCII literal.
abbrev pub codes : String → Bytes
codes String.[] = []
codes (String.◌∷◌ c s) = code c ∷ codes s

unfoldable pub lt_bytes : Bytes → Bytes → Bool
lt_bytes [] [] = false
lt_bytes [] (y ∷ ys) = true
lt_bytes (x ∷ xs) [] = false
lt_bytes (x ∷ xs) (y ∷ ys) = if ltb x y then true else if ltb y x then false else lt_bytes xs ys

pub lt_bytes_irrefl : (s : Bytes) → lt_bytes s s ≡ false
unfolding lt_bytes
lt_bytes_irrefl [] = refl
lt_bytes_irrefl (x ∷ s) = ground (arith, lt_bytes_irrefl s)

pub lt_bytes_trans :
    (r s t : Bytes) → lt_bytes r s ≡ true → lt_bytes s t ≡ true → lt_bytes r t ≡ true
unfolding lt_bytes
lt_bytes_trans [] [] t h k = cc
lt_bytes_trans [] (y ∷ s) [] h k = cc
lt_bytes_trans [] (y ∷ s) (z ∷ t) h k = refl
lt_bytes_trans (x ∷ r) [] t h k = cc
lt_bytes_trans (x ∷ r) (y ∷ s) [] h k = cc
lt_bytes_trans (x ∷ r) (y ∷ s) (z ∷ t) h k = ground (arith, lt_bytes_trans r s t)

pub lt_bytes_total : (s t : Bytes) → lt_bytes s t ≡ false → lt_bytes t s ≡ false → s ≡ t
unfolding lt_bytes
lt_bytes_total [] [] h k = refl
lt_bytes_total [] (y ∷ t) h k = cc
lt_bytes_total (x ∷ s) [] h k = cc
lt_bytes_total (x ∷ s) (y ∷ t) h k = ground (arith, lt_bytes_total s t)

instance abbrev pub bytes_less : Less Bytes
bytes_less = record {
  lt = lt_bytes;
  irrefl = lt_bytes_irrefl;
  trans = lt_bytes_trans;
  total = lt_bytes_total;
}
