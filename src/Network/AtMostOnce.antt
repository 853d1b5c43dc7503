-- ===== src/Network/AtMostOnce.antt =====
-- A message that a known peer sent is in the log when its handler has returned.
use rac_kun.Network.Trail.Reception.{Follows-process}
use rac_kun.Network.Reception.{handle_incoming_message-Extends}
use rac_kun.Peer.{is_known}
use rac_kun.Network.AppendOnly.{steps}
use rac_kun.Message.RoundTrip.{IsMessage, parse_message-serialize}
use rac_kun.Exec.Follows.{Follows}
use rac_kun.Network.Handlers.{
  handle_incoming_message, pass_on, process, receive, receive_new, success,
}
use rac_kun.Text.{bytes_less}
use rac_kun.OrdMap.Laws.{eq_of_same, same_of_eq}
use rac_kun.OrdMap.{same, find}
use rac_kun.Prelude.{
  none, ap, ◌≡◌, some, subst, ◌++◌, ◌⊎◌, inl, Bool-cases, sym, inr, refl, arith, Option-cases,
  false,
}
use rac_kun.Network.AppendOnly.{Extends-IsTrail, Extends-IsFrame}
use rac_kun.Network.History.{
  Extends-IsPreorder, IsLogged, Extends, stamps, stamps_snoc, acknowledge-Extends,
}
use rac_kun.Message.{Message, serialize, Body, bcast_marker}
use rac_kun.Network.Logs.{
  find_stamp, insert_log, stamp_of, log_message, group_entry, new_control, marker_entry,
  acknowledge, find_log, expected,
}
use rac_kun.Outcome.{fault}
use rac_kun.Exec.{try_catch, ◌>>◌, ◌>>=◌, try_catch, option_case, pointee}
use rac_kun.Network.{
  ◌>>=◌, Bytes, List, Result, Network, MessageLog, ok, ◌∷◌, [], Option, GroupRef, PeerRef, Env, ℕ,
  id_of, listen, true, emit_event, listening,
}

pub IsLogged-append : (s : Bytes) (ts us : List Bytes) → IsLogged s ts → IsLogged s (ts ++ us)
IsLogged-append s [] us h = absurd h
IsLogged-append s (t ∷ ts) us (inl e) = inl e
IsLogged-append s (t ∷ ts) us (inr h) = inr (IsLogged-append s ts us h)

pub IsLogged-snoc : (s : Bytes) (ts : List Bytes) → IsLogged s (ts ++ s ∷ [])
IsLogged-snoc s [] = inl refl
IsLogged-snoc s (t ∷ ts) = inr (IsLogged-snoc s ts)

-- The log holds a message with the stamp.
abbrev pub Holds : Message → Network → Type 0
Holds m n = IsLogged (stamp_of (serialize m)) (stamps n.logs)

pub Holds-Extends : (m : Message) {n n' : Network} → Extends n n' → Holds m n → Holds m n'
Holds-Extends m {n} e h =
    subst (IsLogged (stamp_of (serialize m))) (sym e.appended)
      (IsLogged-append (stamp_of (serialize m)) (stamps n.logs) e.new_stamps h)

find_stamp-IsLogged :
    (s : Bytes) (ls : List MessageLog)
    → IsLogged s (stamps ls)
    → (l : MessageLog) × (find_stamp s ls ≡ some l)
unfolding find_stamp
find_stamp-IsLogged s [] h = absurd h
find_stamp-IsLogged s (l ∷ ls) h = elim (Bool-cases (same (stamp_of l.message) s)) [
  | inl e ↦ (l, rw e)
  | inr e ↦ elim h [
    | inl q ↦ absurd (cc (e, same_of_eq q))
    | inr k ↦ rw e (find_stamp-IsLogged s ls k)
  ]
]

IsLogged-find_stamp :
    (s : Bytes) (ls : List MessageLog) {l : MessageLog}
    → find_stamp s ls ≡ some l
    → IsLogged s (stamps ls)
unfolding find_stamp
IsLogged-find_stamp s [] h = absurd (cc h)
IsLogged-find_stamp s (k ∷ ls) {l} h = elim (Bool-cases (same (stamp_of k.message) s)) [
  | inl e ↦ inl (eq_of_same (stamp_of k.message) s e)
  | inr e ↦ inr (IsLogged-find_stamp s ls {l = l} (ground (arith, e)))
]

-- An action returns or faults.
abbrev Settles {ℓ} : {A : Type ℓ} → Result A → Type ℓ
Settles r = ((a : _) × (r ≡ ok a)) ⊎ (r ≡ fault)

marker_entry-Settles : (marker : Bytes) (n : Network) → Settles (marker_entry marker n).0
unfolding marker_entry ◌>>=◌
marker_entry-Settles marker n = elim (Option-cases (find marker n.channel_markers)) [
  | inl e ↦ inl ([], rw (e, option_case) refl)
  | inr (id, e) ↦ inl (id, rw (e, option_case) refl)
]

group_entry-Settles : (id : Bytes) (n : Network) → Settles (group_entry id n).0
unfolding group_entry pointee
group_entry-Settles id n = elim (Option-cases (find id n.groups)) [
  | inl e ↦ inr (ap entry e)
  | inr (g, e) ↦ inl (g, ap entry e)
]
  where
    entry : Option GroupRef → Result GroupRef
    entry o =
        (elim o as (λ _. Result GroupRef × Network) [ none ↦ (fault, n) | some g ↦ (ok g, n) ]).0

new_control-Settles : (b : Body) (n : Network) → Settles (new_control b n).0
unfolding new_control ◌>>=◌
new_control-Settles b n = elim (Option-cases (bcast_marker b)) [
  | inl e ↦ inl ([], rw (e, option_case) refl)
  | inr (marker, e) ↦ elim (marker_entry-Settles marker n) [
    | inl (id, em) ↦ elim (group_entry-Settles id (marker_entry marker n).1) [
      | inl (g, eg) ↦
          let n1 = (group_entry id (marker_entry marker n).1).1 in
          inl
            (expected (id_of n1) (n1.group_store g).predecessors, rw (e, option_case, em, eg) refl)
      | inr eg ↦ inr (rw (e, option_case, em, eg) refl)
    ]
    | inr em ↦ inr (rw (e, option_case, em) refl)
  ]
]

pub find_log-Holds :
    (m : Message) (n : Network) → Holds m n → (l : MessageLog) × (find_log m n.logs ≡ some l)
unfolding find_log
find_log-Holds m n = find_stamp-IsLogged (stamp_of (serialize m)) n.logs

Holds-find_log :
    (m : Message) (n : Network) {l : MessageLog} → find_log m n.logs ≡ some l → Holds m n
unfolding find_log
Holds-find_log m n = IsLogged-find_stamp (stamp_of (serialize m)) n.logs

-- What an action leaves if it does not fault.
abbrev pub Leaves : Message → Result (Unit {0}) × Network → Type 0
Leaves m out = ((out.0 ≡ ok tt) × Holds m out.1) ⊎ (out.0 ≡ fault)

insert_log-Leaves : (m : Message) (n : Network) → Leaves m (insert_log m n)
unfolding insert_log ◌>>=◌
insert_log-Leaves m n = elim (new_control-Settles m.body n) [
  | inl (c, e) ↦
      let s = stamp_of (serialize m) in
      let n1 = (new_control m.body n).1 in
      let entry : MessageLog = record { message = serialize m; control = c } in
      rw e (
        inl (
          refl,
          subst (IsLogged s) (sym (stamps_snoc n1.logs entry)) (IsLogged-snoc s (stamps n1.logs)),
        ))
  | inr e ↦ rw e (inr refl)
]

pub log_message-Leaves : (m : Message) (p : PeerRef) (n : Network) → Leaves m (log_message m p n)
unfolding log_message ◌>>=◌ acknowledge
log_message-Leaves m p n = elim (Option-cases (find_log m n.logs)) [
  | inl e ↦ elim (insert_log-Leaves m n) [
    | inl (o, h) ↦
        rw (e, option_case, o)
          (inl (refl, Holds-Extends m ((acknowledge-Extends m p).at (insert_log m n).1) h))
    | inr o ↦ rw (e, option_case, o) (inr refl)
  ]
  | inr (l, e) ↦
      rw (e, option_case)
        (inl (refl, Holds-Extends m ((acknowledge-Extends m p).at n) (Holds-find_log m n e)))
]

module _ (env : Env) where
  rest-Extends :
      (m : Message) (p : PeerRef)
      → Follows Extends (try_catch (pass_on env m >> process env m m.body p))
  rest-Extends m p = search (steps, Follows-process) depth 8

  pub handled-Holds :
      (fuel : ℕ) (m : Message) (p : PeerRef) (n : Network)
      → IsMessage m
      → (n.store p).local ≡ false
      → is_known (n.store p) ≡ true
      → (handle_incoming_message env fuel success (serialize m) p n).0 ≡ ok tt
      → Holds m (handle_incoming_message env fuel success (serialize m) p n).1
  unfolding handle_incoming_message ◌>>=◌ listen receive receive_new try_catch
  handled-Holds fuel m p n v remote known returns = elim (Option-cases (find_log m n.logs)) [
    | inr (l, e) ↦
        Holds-Extends m (handle_incoming_message-Extends env fuel success (serialize m) p n)
          (Holds-find_log m n e)
    | inl e ↦
        let n0 = emit_event (listening p) n in
        elim (log_message-Leaves m p n0) [
          | inl (o, h) ↦
              rw (remote, parse_message-serialize m v, e, option_case, known, o)
                (Holds-Extends m ((rest-Extends m p).at (log_message m p n0).1) h)
          | inr o ↦
              let faults : (handle_incoming_message env fuel success (serialize m) p n).0 ≡ fault =
                rw (remote, parse_message-serialize m v, e, option_case, known, o) refl in
              absurd (cc (faults, returns))
        ]
  ]
