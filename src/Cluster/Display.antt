-- ===== src/Cluster/Display.antt =====
-- What the nodes display of a line that is broadcast, over a whole run.
use rac_kun.Network.{GroupRef}
use rac_kun.Ring.{PeerMap}
use rac_kun.Message.{Message, serialize, message_size}
use rac_kun.Cluster.{
  Wiring, Cluster, deliver, Run, here, next, receiver, advance, Bytes, Network, Packet, broadcasts,
  [],
}
use rac_kun.Cluster.Spread.{Wired, Spread, succs, Sane}
use rac_kun.Cluster.Routing.{knows, datum}
use rac_kun.Cluster.Relays.{lines_shown, Receives, own_marker}
use rac_kun.Cluster.Packets.{All-rest}
use rac_kun.Cluster.Flood.{
  Run-Spread, delivery-Receives, Begins, message, Linked, reached, begun-Spread, origin-Relays,
}
use rac_kun.Message.RoundTrip.{IsMessage}
use rac_kun.Prelude.{
  ℕ, List, ◌++◌, ◌≡◌, Bool, if◌then◌else◌, ◌==◌, subst, All, Bool-cases, ap, inr, inl, sym, ==_iff,
  ◌<◌, refl, ◌∙◌, append_assoc, length, ◌∷◌, ◌≤◌, append-nil,
}

-- The lines that a node displays in a run, the last one first.
abbrev pub displays :
    (w : Wiring) (fuel i : ℕ) {c : Cluster} {s : ℕ} {d : Cluster} → Run w fuel c s d → List Bytes
displays w fuel i here = []
displays w fuel i (next {d = d} run (deliver before after k eq eq')) =
    (if w.far_node k.from k.to == i then lines_shown (receiver w fuel k d).events else [])
    ++ displays w fuel i run

-- What has been displayed, or was broadcast, where the message is known.
abbrev tell : Bytes → Bool → List Bytes
tell content b = if b then content ∷ [] else []

alone : {c : Bytes} (xs : List Bytes) → xs ++ (c ∷ []) ≡ c ∷ [] → xs ≡ []
alone [] e = refl
alone (x ∷ []) e = absurd (cc e)
alone (x ∷ y ∷ xs) e = absurd (cc e)

-- One step: the node that is not told before is told.
step_tells :
    (m : Message) (content : Bytes) (succs_of : PeerMap) (i j : ℕ) (n' : Network)
    (rest : List Packet) (d : Cluster)
    → Receives j m content succs_of (d.node j) n'
    → (if j == i then lines_shown n'.events else []) ++ tell content (knows m (d.node i))
      ≡ tell content (knows m ((advance j n' rest d).node i))
step_tells m content succs_of i j n' rest d r = elim (Bool-cases (j == i)) [
  | inr e ↦ rw e refl
  | inl e ↦
      let same : knows m (d.node i) ≡ knows m (d.node j) =
        ap (λ x. knows m (d.node x)) (sym ((==_iff j i).0 e)) in
      rw (e, same, r.displayed, r.relays.informed)
        (elim (Bool-cases (knows m (d.node j))) [ inl k ↦ rw k refl | inr k ↦ rw k refl ])
]

module _ (w : Wiring) (fuel : ℕ) (stamp marker content : Bytes) (size : ℕ) (c : Cluster)
    (net : Wired w marker size c) (v : IsMessage (datum stamp marker content)) where
  -- A node displays a line when it comes to know the message, and only then.
  run_displays :
      (i : ℕ) {d : Cluster} {s : ℕ} {e : Cluster} (r : Run w fuel d s e)
      → Spread w marker size c net (datum stamp marker content) d
      → displays w fuel i r ++ tell content (knows (datum stamp marker content) (d.node i))
        ≡ tell content (knows (datum stamp marker content) (e.node i))
  run_displays i here s = refl
  run_displays i (next {d = d} {e = e} run (deliver before after k eq eq')) s =
      let m = datum stamp marker content in
      let j = w.far_node k.from k.to in
      let spread = Run-Spread w fuel stamp marker content size c net v run s in
      let (of_k, _) =
        All-rest (Sane w marker size c net m) before after k
          (subst (All (Sane w marker size c net m)) eq spread.sane) in
      let r = delivery-Receives w fuel stamp marker content size c net v k d spread of_k in
      let before_it = run_displays i run s in
      let told =
        step_tells m content (succs w marker size c net m j) i j (receiver w fuel k d)
          (before ++ after) d r in
      let now = ap (λ (x : Cluster). tell content (knows m (x.node i))) eq' in
      let shown = if j == i then lines_shown (receiver w fuel k d).events else [] in
      append_assoc shown (displays w fuel i run) _
      ∙ ap (λ ls. shown ++ ls) before_it
      ∙ told
      ∙ sym now

module _ (w : Wiring) (fuel size : ℕ) (c : Cluster) (content : Bytes) (o : ℕ) (g : GroupRef)
    (net : Wired w (own_marker (w.env o) content g (c.node o)) size c)
    (b : Begins w size c content o g net) where
  told_first :
      (i : ℕ)
      → i < size
      → tell content (knows (message w size c content o g net) ((broadcasts w o content c).node i))
        ≡ (if o == i then content ∷ [] else [])
  told_first i inside = elim (Bool-cases (o == i)) [
    | inl e ↦ rw (e, (origin-Relays w size c content o g net b).informed) refl
    | inr e ↦ rw (e, b.fresh i inside) refl
  ]

  -- In a cluster at rest whose nodes have routes for a marker and whose sockets lead to nodes that know
  -- the sender, a node broadcasts a line that no node has in its log, in a message that fits the buffer
  -- of a read. On the way to a state in which no
  -- packet is under way, each node that a chain of successors leads to displays exactly one line, the
  -- line that was broadcast, but for the node that began, which displays none.
  pub flood_displays :
      (s : ℕ) (d : Cluster) (i : ℕ) (run : Run w fuel (broadcasts w o content c) s d)
      → d.flight ≡ []
      → Linked w (succs w _ size c net (message w size c content o g net)) o i
      → length (serialize (message w size c content o g net)) ≤ message_size
      → displays w fuel i run ≡ (if o == i then [] else content ∷ [])
  flood_displays s d i run idle link fits =
      let (inside, known) = reached w size c content o g net b fuel run idle i link in
      let adds =
        run_displays w fuel _ _ content size c net b.fits i run
          (begun-Spread w size c content o g net b) in
      let first = told_first i inside in
      let all =
        sym (ap (λ ls. displays w fuel i run ++ ls) first) ∙ adds ∙ ap (tell content) known in
      elim (Bool-cases (o == i)) [
        | inl e ↦ rw e (
            alone (displays w fuel i run)
              (ap (λ b. displays w fuel i run ++ (if b then content ∷ [] else [])) (sym e) ∙ all))
        | inr e ↦ rw e (
            sym (append-nil (displays w fuel i run))
            ∙ ap (λ b. displays w fuel i run ++ (if b then content ∷ [] else [])) (sym e)
            ∙ all)
      ]
