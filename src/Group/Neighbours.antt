-- ===== src/Group/Neighbours.antt =====
-- The local peer's neighbours in the rings of a group.
use rac_kun.Ring.{find_peer}
use rac_kun.Ring.Order.{size}
use rac_kun.Outcome.{>>=-eq-ok}
use rac_kun.Ring.Cycle.{get_successor-Answers, get_predecessor-Answers, found, missing, alone}
use rac_kun.OrdMap.Laws.{All-insert, position-insert, position-insert_self}
use rac_kun.OrdMap.{position}
use rac_kun.Text.{bytes_less}
use rac_kun.Prelude.{All, ◌⊎◌, inl, ◌<◌, length, inr, arith, refl, Bool-cases, ltb, ◌&&◌}
use rac_kun.Group.{
  Group, collect, settle, update_neighbours, PeerRef, Ring, List, Bytes, ◌∷◌, Result, PeerMap, [],
  ok, ◌≡◌, ◌>>=◌, insert, throw, get_predecessor, get_successor, peer_not_found,
}
use rac_kun.Group.Members.{OnRing}
use rac_kun.Prelude.{All-imp}

-- A property of some ring.
abbrev pub Any : (Ring → Type 0) → List Ring → Type 0
Any P [] = ⊥
Any P (r ∷ rs) = P r ⊎ Any P rs

module _ (get_id : PeerRef → Bytes) (get : Ring → Result PeerRef) where
  -- One half of `collect`: the peers that `get` finds on the rings, filed under their ids.
  gather : List Ring → PeerMap → Result PeerMap
  gather [] m = ok m
  gather (r ∷ rs) m = get r >>= λ q. gather rs (insert (get_id q) q m)

  -- Every ring answers.
  abbrev pub Answered : List Ring → Type 0
  Answered = All (λ r. (q : PeerRef) × (get r ≡ ok q))

  -- The map holds what the rings answered, and no more.
  pub record Gathered (rs : List Ring) (m : PeerMap) : Type 0 where
    pub complete : All (λ r. (q : PeerRef) × (get r ≡ ok q) × (position (get_id q) m < length m)) rs
    pub sound : All (λ e. (get_id e.1 ≡ e.0) × Any (λ r. get r ≡ ok e.1) rs) m

  gather_lem :
      (Q : Bytes × PeerRef → Type 0) (rs : List Ring) (m : PeerMap)
      → Answered rs
      → All Q m
      → All (λ r. (q : PeerRef) → get r ≡ ok q → Q (get_id q, q)) rs
      → (s : PeerMap) × (gather rs m ≡ ok s)
        × All Q s
        × ((k : Bytes) → position k m < length m → position k s < length s)
        × All (λ r. (q : PeerRef) × (get r ≡ ok q) × (position (get_id q) s < length s)) rs
  unfolding gather
  gather_lem Q [] m a h c = (m, refl, h, (λ k p. p), tt)
  gather_lem Q (r ∷ rs) m ((q, e), rest) h c =
      let k = get_id q in
      let (s, run, held, grows, complete) =
        gather_lem Q rs (insert k q m) rest (All-insert Q k q m (c.0 q e) h) c.1 in
      (
        s,
        rw e run,
        held,
        (λ j p. grows j (position-insert k j q m p)),
        ((q, e, grows k (position-insert_self k q m)), complete),
      )

  gather-Gathered :
      (rs : List Ring) → Answered rs → (s : PeerMap) × (gather rs [] ≡ ok s) × Gathered rs s
  gather-Gathered rs a =
      let (s, run, sound, _, complete) =
        gather_lem (λ e. (get_id e.1 ≡ e.0) × Any (λ r. get r ≡ ok e.1) rs) rs [] a tt (found rs) in
      (s, run, record { complete = complete; sound = sound })
    where
      found :
          (xs : List Ring)
          → All
              (λ r.
                (q : PeerRef) → get r ≡ ok q → (get_id q ≡ get_id q) × Any (λ r'. get r' ≡ ok q) xs)
              xs
      found [] = tt
      found (x ∷ xs) =
          ((λ q e. (refl, inl e)), All-imp _ _ xs (λ y h q e. (refl, inr (h q e).1)) (found xs))

module _ (sha1 : Bytes → Bytes) (get_id : PeerRef → Bytes) where
  abbrev pub preds_on : PeerRef → Ring → Result PeerRef
  preds_on p = get_predecessor sha1 get_id p

  abbrev pub succs_on : PeerRef → Ring → Result PeerRef
  succs_on p = get_successor sha1 get_id p

  -- The peer is on the ring, and not alone.
  abbrev pub HasNeighbours : PeerRef → Ring → Type 0
  HasNeighbours p r = OnRing sha1 get_id p r × (1 < size r)

  pred_found : (p : PeerRef) (r : Ring) → HasNeighbours p r → (q : PeerRef) × (preds_on p r ≡ ok q)
  pred_found p r h = elim (get_predecessor-Answers sha1 get_id p r) [
    | found q _ _ _ e ↦ (q, e)
    | missing e _ ↦ absurd (omega arith)
    | alone e _ ↦ absurd (omega arith)
  ]

  succ_found : (p : PeerRef) (r : Ring) → HasNeighbours p r → (q : PeerRef) × (succs_on p r ≡ ok q)
  succ_found p r h = elim (get_successor-Answers sha1 get_id p r) [
    | found q _ _ _ e ↦ (q, e)
    | missing e _ ↦ absurd (omega arith)
    | alone e _ ↦ absurd (omega arith)
  ]

  pred_missing :
      (p : PeerRef) (r : Ring) → ¬ HasNeighbours p r → preds_on p r ≡ throw peer_not_found
  pred_missing p r h = elim (get_predecessor-Answers sha1 get_id p r) [
    | found q inside big _ _ ↦ absurd (h (inside, big))
    | missing _ e ↦ e
    | alone _ e ↦ e
  ]

  ring_cases : (p : PeerRef) (r : Ring) → HasNeighbours p r ⊎ (¬ HasNeighbours p r)
  ring_cases p r = elim (Bool-cases (ltb (find_peer sha1 get_id p r) (size r) && ltb 1 (size r))) [
    | inl e ↦ inl (ground arith)
    | inr e ↦ inr (λ h. ground arith)
  ]

  -- The loop is its two halves.
  collect-gather :
      (p : PeerRef) (rs : List Ring) (ps ss ps' ss' : PeerMap)
      → gather get_id (preds_on p) rs ps ≡ ok ps'
      → gather get_id (succs_on p) rs ss ≡ ok ss'
      → collect sha1 get_id p rs ps ss ≡ ok (ps', ss')
  unfolding collect gather
  collect-gather p [] ps ss ps' ss' e f = cc
  collect-gather p (r ∷ rs) ps ss ps' ss' e f =
      let (a, ea, fa) = >>=-eq-ok (preds_on p r) _ e in
      let (b, eb, fb) = >>=-eq-ok (succs_on p r) _ f in
      rw (ea, eb)
        (collect-gather p rs (insert (get_id a) a ps) (insert (get_id b) b ss) ps' ss' fa fb)

  -- A ring that does not answer ends the loop.
  collect_throws :
      (p : PeerRef) (rs : List Ring) (ps ss : PeerMap)
      → Any (λ r. ¬ HasNeighbours p r) rs
      → collect sha1 get_id p rs ps ss ≡ throw peer_not_found
  unfolding collect
  collect_throws p [] ps ss h = absurd h
  collect_throws p (r ∷ rs) ps ss h = elim (ring_cases p r) [
    | inl has ↦ elim h [
      | inl lacks ↦ absurd (lacks has)
      | inr later ↦
          let (a, ea) = pred_found p r has in
          let (b, eb) = succ_found p r has in
          rw (ea, eb) (collect_throws p rs (insert (get_id a) a ps) (insert (get_id b) b ss) later)
    ]
    | inr lacks ↦ rw (pred_missing p r lacks)
  ]

  neighbours_cases :
      (p : PeerRef) (rs : List Ring) → All (HasNeighbours p) rs ⊎ Any (λ r. ¬ HasNeighbours p r) rs
  neighbours_cases p [] = inl tt
  neighbours_cases p (r ∷ rs) = elim (ring_cases p r) [
    | inl has ↦ elim (neighbours_cases p rs) [
      | inl all ↦ inl (has, all)
      | inr some_ring ↦ inr (inr some_ring)
    ]
    | inr lacks ↦ inr (inl lacks)
  ]

  -- The two outcomes of `update_neighbours`.
  pub data Updated (p : PeerRef) (g : Group) (res : Result Group) : Type 0 where
    all_rings :
        (preds succs : PeerMap)
        → All (HasNeighbours p) g.rings
        → Gathered get_id (preds_on p) g.rings preds
        → Gathered get_id (succs_on p) g.rings succs
        → res ≡ ok (record g { predecessors = preds; successors = succs })
        → Updated p g res
    no_ring :
        Any (λ r. ¬ HasNeighbours p r) g.rings
        → res ≡ ok (record g { predecessors = []; successors = [] })
        → Updated p g res

  -- For every group and local peer, `update_neighbours` returns: if the local peer has both neighbours
  -- on every ring, the group with exactly these neighbours, filed under their ids; if on some ring it
  -- lacks one, the group with no neighbours. It never raises, and changes nothing else.
  pub update_neighbours-Updated :
      (p : PeerRef) (g : Group) → Updated p g (update_neighbours sha1 get_id p g)
  unfolding update_neighbours settle
  update_neighbours-Updated p g = elim (neighbours_cases p g.rings) [
    | inl h ↦
        let (ps, run_p, gp) =
          gather-Gathered get_id (preds_on p) g.rings (All-imp _ _ g.rings (pred_found p) h) in
        let (ss, run_s, gs) =
          gather-Gathered get_id (succs_on p) g.rings (All-imp _ _ g.rings (succ_found p) h) in
        all_rings ps ss h gp gs (rw (collect-gather p g.rings [] [] ps ss run_p run_s))
    | inr h ↦ no_ring h (rw (collect_throws p g.rings [] [] h))
  ]
