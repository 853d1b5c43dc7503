-- ===== src/Examples/Histories.antt =====
-- Histories of a ring, in which a peer joins and leaves again.
use rac_kun.Ring.Refinement.{Change, joins, leaves, view_of, history, history_view, history-refines}
use rac_kun.Examples.{sha, ids}
use rac_kun.Ring.{make_ring, get_successor}
use rac_kun.Ring.Canonical.{report, reports_ids, named, id_in, history_canonical}
use rac_kun.Text.{Bytes, bytes_less}
use rac_kun.Prelude.{arith, ◌≡◌, ◌∷◌, [], none, List, map, ℕ, ◌==◌, refl, if◌then◌else◌}

abbrev changes : List Change
changes = joins 3 ∷ joins 7 ∷ leaves 3 ∷ []

history-refines_example :
    view_of (history sha ids changes (make_ring 0)) ≡ history_view sha ids 0 changes (λ k. none)
history-refines_example = history-refines sha ids 0 changes

-- Another node has numbered the peers otherwise.
abbrev renumbered : ℕ → Bytes
renumbered p = if p == 1 then ids 7 else ids 3

abbrev here_changes : List Change
here_changes = joins 3 ∷ leaves 3 ∷ joins 7 ∷ joins 3 ∷ []

abbrev there_changes : List Change
there_changes = joins 1 ∷ joins 2 ∷ []

same_reports :
    (k : Bytes)
    → reports_ids sha 0 (map (report ids) here_changes) (λ k. none) k
      ≡ reports_ids sha 0 (map (report renumbered) there_changes) (λ k. none) k
same_reports k = ground arith

history_canonical_example :
    let r = history sha ids here_changes (make_ring 0) in
    let s = history sha renumbered there_changes (make_ring 0) in
    (named ids r.ring ≡ named renumbered s.ring)
    × (id_in ids (get_successor sha ids 7 r) ≡ id_in renumbered (get_successor sha renumbered 1 s))
history_canonical_example =
    history_canonical sha 0 ids renumbered here_changes there_changes 7 1 same_reports refl
