-- ===== src/Ring/Canonical.antt =====
-- The rings of two nodes. Each node numbers its peers as it meets them, so that what the nodes share is
-- told in ids.
use rac_kun.OrdMap.{OrdMap, find, same, position}
use rac_kun.OrdMap.Laws.{eq_of_find, IsSorted, Above}
use rac_kun.Ring.Refinement.{
  Change, joins, leaves, View, history, history_view, place, change_view, history-view,
}
use rac_kun.Ring.Order.{make_ring-IsRing}
use rac_kun.Ring.{Ring, make_ring, PeerRef, Bytes, PeerMap, get_successor, find_peer, create_key}
use rac_kun.Outcome.{Result, ok, throw, fault, hang, peer_not_found, deref}
use rac_kun.Text.{bytes_less}
use rac_kun.Utils.{itos, make_hash}
use rac_kun.Prelude.{
  ℕ, Option, none, some, List, [], ◌∷◌, ◌++◌, map, ◌≡◌, refl, ap, ◌∙◌, sym, if◌then◌else◌, length,
  get_elem?, Bool-cases, inl, inr, suc, not, ◌&&◌, ltb, ◌==◌, zero,
}
use mathlib.Core.Option

-- What a node hears: the peer of an id joins or leaves the ring.
pub data Report : Type 0 where
  came went : Bytes → Report

abbrev pub report : (PeerRef → Bytes) → Change → Report
report get_id (joins p) = came (get_id p)
report get_id (leaves p) = went (get_id p)

-- Which id is filed under which key.
abbrev pub Ids : Type 0
Ids = Bytes → Option Bytes

module _ (sha1 : Bytes → Bytes) (index : ℕ) where
  abbrev pub report_ids : Report → Ids → Ids
  report_ids (came id) v k = if same (sha1 (id ++ itos index)) k then some id else v k
  report_ids (went id) v k = if same (sha1 (id ++ itos index)) k then none else v k

  abbrev pub reports_ids : List Report → Ids → Ids
  reports_ids [] v = v
  reports_ids (c ∷ cs) v = reports_ids cs (report_ids c v)

  change-report :
      (get_id : PeerRef → Bytes) (c : Change) (v : View) (w : Ids)
      → ((k : Bytes) → Option.map get_id (v k) ≡ w k)
      → (k : Bytes)
      → Option.map get_id (change_view sha1 get_id index c v k) ≡ report_ids (report get_id c) w k
  change-report get_id (joins p) v w h k = elim (Bool-cases (same (place sha1 get_id index p) k)) [
    | inl e ↦ rw e refl
    | inr e ↦ rw e (h k)
  ]
  change-report get_id (leaves p) v w h k = elim (Bool-cases (same (place sha1 get_id index p) k)) [
    | inl e ↦ rw e refl
    | inr e ↦ rw e (h k)
  ]

  history-reports :
      (get_id : PeerRef → Bytes) (cs : List Change) (v : View) (w : Ids)
      → ((k : Bytes) → Option.map get_id (v k) ≡ w k)
      → (k : Bytes)
      → Option.map get_id (history_view sha1 get_id index cs v k)
        ≡ reports_ids (map (report get_id) cs) w k
  history-reports get_id [] v w h = h
  history-reports get_id (c ∷ cs) v w h =
      history-reports get_id cs _ _ (change-report get_id c v w h)

-- The entries of a map of peers, with the peers' ids.
abbrev pub named : (PeerRef → Bytes) → PeerMap → OrdMap Bytes Bytes
named get_id [] = []
named get_id ((k, p) ∷ m) = (k, get_id p) ∷ named get_id m

module _ (get_id : PeerRef → Bytes) where
  find-named : (k : Bytes) (m : PeerMap) → find k (named get_id m) ≡ Option.map get_id (find k m)
  unfolding find
  find-named k [] = refl
  find-named k ((j, p) ∷ m) = elim (Bool-cases (same j k)) [
    | inl e ↦ rw e refl
    | inr e ↦ rw e (find-named k m)
  ]

  named-Above : (k : Bytes) (m : PeerMap) → Above k m → Above k (named get_id m)
  named-Above k [] h = tt
  named-Above k ((j, p) ∷ m) h = (h.0, named-Above k m h.1)

  named-IsSorted : (m : PeerMap) → IsSorted m → IsSorted (named get_id m)
  named-IsSorted [] h = tt
  named-IsSorted ((j, p) ∷ m) h = (named-Above j m h.0, named-IsSorted m h.1)

  position-named : (k : Bytes) (m : PeerMap) → position k (named get_id m) ≡ position k m
  unfolding position
  position-named k [] = refl
  position-named k ((j, p) ∷ m) = elim (Bool-cases (same j k)) [
    | inl e ↦ rw e refl
    | inr e ↦ rw e (ap suc (position-named k m))
  ]

  length-named : (m : PeerMap) → length (named get_id m) ≡ length m
  length-named [] = refl
  length-named ((j, p) ∷ m) = ap suc (length-named m)

-- The id of the peer that an operation returns.
abbrev pub id_in : (PeerRef → Bytes) → Result PeerRef → Result Bytes
id_in get_id (ok p) = ok (get_id p)
id_in get_id (throw e) = throw e
id_in get_id fault = fault
id_in get_id hang = hang

-- The id in a place.
abbrev id_at : OrdMap Bytes Bytes → ℕ → Result Bytes
id_at m i = deref (Option.map (λ e. e.1) (get_elem? m i))

id_at-named :
    (get_id : PeerRef → Bytes) (i : ℕ) (m : PeerMap)
    → id_in get_id (deref (Option.map (λ e. e.1) (get_elem? m i))) ≡ id_at (named get_id m) i
id_at-named get_id i [] = refl
id_at-named get_id zero ((j, p) ∷ m) = refl
id_at-named get_id (suc i) ((j, p) ∷ m) = id_at-named get_id i m

-- The successor, as a function of the entries alone.
abbrev id_after : Bytes → OrdMap Bytes Bytes → Result Bytes
id_after k m =
    let it = position k m in
    let size = length m in
    if not (it == size) && ltb 1 size
    then (if not (suc it == size) then id_at m (suc it) else id_at m 0)
    else throw peer_not_found

get_successor-named :
    (sha1 : Bytes → Bytes) (get_id : PeerRef → Bytes) (p : PeerRef) (r : Ring)
    → id_in get_id (get_successor sha1 get_id p r)
      ≡ id_after (sha1 (get_id p ++ itos r.index)) (named get_id r.ring)
unfolding get_successor find_peer create_key make_hash
get_successor-named sha1 get_id p r =
    let it = position (sha1 (get_id p ++ itos r.index)) r.ring in
    let size = length r.ring in
    rw (position-named get_id (sha1 (get_id p ++ itos r.index)) r.ring, length-named get_id r.ring)
      (elim (Bool-cases (not (it == size) && ltb 1 size)) [
        | inr e ↦ rw e refl
        | inl e ↦ elim (Bool-cases (not (suc it == size))) [
          | inl f ↦ rw (e, f) (id_at-named get_id (suc it) r.ring)
          | inr f ↦ rw (e, f) (id_at-named get_id 0 r.ring)
        ]
      ])

module _ (sha1 : Bytes → Bytes) (index : ℕ) (here there : PeerRef → Bytes) where
  same_entries :
      (cs ds : List Change)
      → ((k : Bytes)
          → reports_ids sha1 index (map (report here) cs) (λ k. none) k
            ≡ reports_ids sha1 index (map (report there) ds) (λ k. none) k)
      → named here (history sha1 here cs (make_ring index)).ring
        ≡ named there (history sha1 there ds (make_ring index)).ring
  unfolding make_ring find
  same_entries cs ds h =
      let (one, i, _) =
        history-view sha1 here index cs (make_ring index) refl (make_ring-IsRing sha1 here index) in
      let (two, j, _) =
        history-view sha1 there index ds (make_ring index) refl
          (make_ring-IsRing sha1 there index) in
      let r = history sha1 here cs (make_ring index) in
      let s = history sha1 there ds (make_ring index) in
      eq_of_find (named here r.ring) (named there s.ring) (named-IsSorted here r.ring i.sorted)
        (named-IsSorted there s.ring j.sorted)
        (λ k.
          find-named here k r.ring
          ∙ ap (λ (v : View). Option.map here (v k)) one
          ∙ history-reports sha1 index here cs (λ k. none) (λ k. none) (λ k. refl) k
          ∙ h k
          ∙ sym (history-reports sha1 index there ds (λ k. none) (λ k. none) (λ k. refl) k)
          ∙ sym (ap (λ (v : View). Option.map there (v k)) two)
          ∙ sym (find-named there k s.ring))

  -- Two nodes, each with its own numbering of the peers and its own history of a ring with the same
  -- index, peers joining and leaving in whatever order. If what they have heard comes to the same under
  -- each key, told in ids, then their rings have the same ids under the same keys in the same order, and
  -- a peer with the same id at both has a successor with the same id at both, or at neither.
  pub history_canonical :
      (cs ds : List Change) (p q : PeerRef)
      → ((k : Bytes)
          → reports_ids sha1 index (map (report here) cs) (λ k. none) k
            ≡ reports_ids sha1 index (map (report there) ds) (λ k. none) k)
      → here p ≡ there q
      → let r = history sha1 here cs (make_ring index) in
        let s = history sha1 there ds (make_ring index) in
        (named here r.ring ≡ named there s.ring)
        × (id_in here (get_successor sha1 here p r) ≡ id_in there (get_successor sha1 there q s))
  unfolding make_ring
  history_canonical cs ds p q h same_id =
      let r = history sha1 here cs (make_ring index) in
      let s = history sha1 there ds (make_ring index) in
      let entries = same_entries cs ds h in
      let (_, _, of_r) =
        history-view sha1 here index cs (make_ring index) refl (make_ring-IsRing sha1 here index) in
      let (_, _, of_s) =
        history-view sha1 there index ds (make_ring index) refl
          (make_ring-IsRing sha1 there index) in
      let key : sha1 (here p ++ itos r.index) ≡ sha1 (there q ++ itos s.index) =
        rw (same_id, of_r, of_s) refl in
      (
        entries,
        get_successor-named sha1 here p r
            ∙ (λ t. id_after (key t) (entries t))
            ∙ sym (get_successor-named sha1 there q s),
      )
