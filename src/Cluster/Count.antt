-- ===== src/Cluster/Count.antt =====
-- How many packets a broadcast takes: one for each successor of each node, whatever the order in which
-- they are delivered.
use rac_kun.Cluster.Flood.{Run-Spread, delivery-Relays, Step-Spread}
use rac_kun.Message.RoundTrip.{IsMessage}
use rac_kun.Cluster.Packets.{length-posts, All-rest, length-rest}
use rac_kun.Cluster.Relays.{Relays}
use rac_kun.Cluster.Routing.{knows, datum}
use rac_kun.Message.{Message, serialize}
use rac_kun.Cluster.Spread.{Wired, succs, Spread, Sane}
use rac_kun.Cluster.{
  here, next, deliver, Wiring, Bytes, Cluster, Network, List, packets, Packet, advance, [], Step,
  Run, next, deliver, receiver, ◌∷◌,
}
use native.Mathlib.Decide.{dec_lt}
use rac_kun.Prelude.{
  ℕ, Bool, ◌<◌, suc, ◌≡◌, ◌+◌, true, if◌then◌else◌, arith, zero, refl, subst, ap, length,
  Bool-cases, ==_iff, inl, inr, ◌==◌, length-append, All, ◌++◌, ◌∙◌, sym, ◌≤◌, ◌⊎◌,
}

-- What the first `n` nodes have yet to send, of so many each: those that are not told.
abbrev pub untold : (ℕ → ℕ) → (ℕ → Bool) → ℕ → ℕ
untold sends told zero = 0
untold sends told (suc n) = untold sends told n + (if told n then 0 else sends n)

pub untold_same :
    (sends : ℕ → ℕ) (f g : ℕ → Bool) (n : ℕ)
    → ((i : ℕ) → i < n → g i ≡ f i)
    → untold sends g n ≡ untold sends f n
untold_same sends f g zero same = refl
untold_same sends f g (suc n) same =
    rw (untold_same sends f g n (λ i h. same i (omega arith)), same n (omega arith)) refl

untold_one :
    (sends : ℕ → ℕ) (f g : ℕ → Bool) (j n : ℕ)
    → j < n
    → g j ≡ true
    → ((i : ℕ) → (j ≡ i → ⊥) → g i ≡ f i)
    → untold sends g n + (if f j then 0 else sends j) ≡ untold sends f n
untold_one sends f g j zero h told same = absurd (omega arith)
untold_one sends f g j (suc n) h told same = elim (dec_lt j n) [
  | yes below ↦ rw (same n (omega arith)) (omega (arith, untold_one sends f g j n below told same))
  | no last ↦
      let at : j ≡ n = omega arith in
      let before = untold_same sends f g n (λ i below. same i (omega arith)) in
      let last_told : g n ≡ true = subst (λ x. g x ≡ true) at told in
      let moved : (if f j then 0 else sends j) ≡ (if f n then 0 else sends n) =
        ap (λ x. if f x then 0 else sends x) at in
      rw (last_told, moved) (omega (arith, before))
]

-- What is under way and what is yet to be sent.
module _ (w : Wiring) (marker : Bytes) (size : ℕ) (c : Cluster) (net : Wired w marker size c)
    (m : Message) where
  abbrev pub links : ℕ → ℕ
  links i = length (succs w marker size c net m i)

  abbrev pub owed : Cluster → ℕ
  owed d = untold links (λ i. knows m (d.node i)) size

  sent_links :
      (j : ℕ) (n n' : Network)
      → Relays j m (succs w marker size c net m j) n n'
      → length (packets j n'.events) ≡ (if knows m n then 0 else links j)
  sent_links j n n' r = elim (Bool-cases (knows m n)) [
    | inl e ↦ rw (r.passed_on, e) refl
    | inr e ↦
        rw (r.passed_on, e)
          (omega (arith, length-posts j (serialize m) (succs w marker size c net m j) []))
  ]

  -- A step takes from what is owed what it puts under way.
  pub advance-owed :
      (j : ℕ) (n' : Network) (rest : List Packet) (d : Cluster)
      → j < size
      → Relays j m (succs w marker size c net m j) (d.node j) n'
      → length (advance j n' rest d).flight + owed (advance j n' rest d) ≡ length rest + owed d
  advance-owed j n' rest d h r =
      let told : knows m ((advance j n' rest d).node j) ≡ true =
        rw ((==_iff j j).1 refl) r.informed in
      let others : (i : ℕ)
          → (j ≡ i → ⊥)
          → knows m ((advance j n' rest d).node i) ≡ knows m (d.node i) =
        λ i away. elim (Bool-cases (j == i)) [
          | inl e ↦ absurd (away ((==_iff j i).0 e))
          | inr e ↦ rw e refl
        ] in
      omega (
        arith,
        length-append rest (packets j n'.events),
        sent_links j (d.node j) n' r,
        untold_one links (λ i. knows m (d.node i)) (λ i. knows m ((advance j n' rest d).node i)) j
            size h told others,
      )

length-zero : (xs : List Packet) → length xs ≡ 0 → xs ≡ []
length-zero [] h = refl
length-zero (x ∷ xs) h = absurd (omega (arith, h))

first_packet :
    (xs : List Packet) → (xs ≡ []) ⊎ ((k : Packet) × (rest : List Packet) × (xs ≡ k ∷ rest))
first_packet [] = inl refl
first_packet (x ∷ xs) = inr (x, xs, refl)

module _ (w : Wiring) (fuel : ℕ) where
  pub Run-append :
      {c d : Cluster} {s t : ℕ} {e : Cluster}
      → Run w fuel c s d
      → Run w fuel d t e
      → Run w fuel c (s + t) e
  Run-append {c = c} {d = d} {s = s} run here = subst (λ n. Run w fuel c n d) (omega arith) run
  Run-append {c = c} {s = s} run (next {s = t} {e = e} more step) =
      subst (λ n. Run w fuel c n e) (omega arith) (next (Run-append run more) step)

module _ (w : Wiring) (fuel : ℕ) (stamp marker content : Bytes) (size : ℕ) (c : Cluster)
    (net : Wired w marker size c) (v : IsMessage (datum stamp marker content)) where
  Step-owed :
      (d e : Cluster)
      → Step w fuel d e
      → Spread w marker size c net (datum stamp marker content) d
      → suc (length e.flight + owed w marker size c net (datum stamp marker content) e)
        ≡ length d.flight + owed w marker size c net (datum stamp marker content) d
  Step-owed d e (deliver before after k eq eq') s =
      let m = datum stamp marker content in
      let (of_k, _) =
        All-rest (Sane w marker size c net m) before after k
          (subst (All (Sane w marker size c net m)) eq s.sane) in
      let j = w.far_node k.from k.to in
      let moved =
        advance-owed w marker size c net m j (receiver w fuel k d) (before ++ after) d
          (net.inside k.from k.to of_k.0 of_k.2)
          (delivery-Relays w fuel stamp marker content size c net v k d s of_k) in
      let taken : length d.flight ≡ suc (length (before ++ after)) =
        ap length eq ∙ length-rest k before after in
      subst
        (λ x.
          suc (length x.flight + owed w marker size c net m x)
          ≡ length d.flight + owed w marker size c net m d)
        (sym eq') (omega (arith, moved, taken))

  -- Deliveries, packets under way and packets owed add up to the same number in all states of a run.
  pub Run-owed :
      {d : Cluster} {s : ℕ} {e : Cluster}
      → Run w fuel d s e
      → Spread w marker size c net (datum stamp marker content) d
      → s + (length e.flight + owed w marker size c net (datum stamp marker content) e)
        ≡ length d.flight + owed w marker size c net (datum stamp marker content) d
  Run-owed here s = omega arith
  Run-owed (next {d = d} {e = e} run step) s = omega (
    arith,
    Run-owed run s,
    Step-owed d e step (Run-Spread w fuel stamp marker content size c net v run s),
  )

  -- A run goes on until nothing is under way.
  pub Run-out :
      (n : ℕ) (d : Cluster)
      → length d.flight + owed w marker size c net (datum stamp marker content) d ≤ n
      → Spread w marker size c net (datum stamp marker content) d
      → (t : ℕ) × (e : Cluster) × Run w fuel d t e × (e.flight ≡ [])
  Run-out zero d small s = (0, d, here, length-zero d.flight (omega (arith, small)))
  Run-out (suc n) d small s = elim (first_packet d.flight) [
    | inl idle ↦ (0, d, here, idle)
    | inr (k, rest, first) ↦
        let e = advance (w.far_node k.from k.to) (receiver w fuel k d) rest d in
        let step = deliver [] rest k first refl in
        let (t, end, run, idle) =
          Run-out n e (omega (arith, small, Step-owed d e step s))
            (Step-Spread w fuel stamp marker content size c net v d e step s) in
        (1 + t, end, Run-append w fuel (next here step) run, idle)
  ]
