-- ===== src/Utils/Display.antt =====
-- src/Utils.cpp: `display_chars`, as the text that it prints.
use rac_kun.Utils.{itos}
use rac_kun.Text.{Bytes, codes}
use rac_kun.Prelude.{ℕ, suc, [], ◌∷◌, ◌++◌, ◌==◌, leb, length, take, if◌then◌else◌}

-- `std::endl`
abbrev pub endl : Bytes
endl = 10 ∷ []

-- The values of bytes from the place `i` on, of the first `n` bytes of a text of the length `size`.
unfoldable pub display_from : ℕ → ℕ → ℕ → Bytes → Bytes
display_from size n i [] = []
display_from size n i (c ∷ s) =
    itos c
    ++ ((if suc i == size then codes "." else if suc i == n then codes "..." else codes "-")
        ++ display_from size n (suc i) s)

unfoldable pub display_chars : Bytes → ℕ → Bytes
display_chars s limit =
    let n = if leb limit (length s) then limit else length s in
    display_from (length s) n 0 (take n s)
