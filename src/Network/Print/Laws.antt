-- ===== src/Network/Print/Laws.antt =====
-- When the console commands that print come to their end.
use rac_kun.Network.Print.{
  print_logs, print_log, display_control, codes, endl, print_groups, print_rings, print_group,
}
use rac_kun.Network.Housed.{IsHoused}
use rac_kun.Network.{MessageLog, List, Bytes, ◌∷◌, Network, OrdMap, GroupRef}
use rac_kun.Message.{parse_message, Message}
use rac_kun.Message.Display.{display}
use rac_kun.Exec.{Exec, ◌>>=◌, lift, modify, continue, pointee, pure}
use rac_kun.Outcome.{Result, ok, throw, fault, hang}
use rac_kun.Prelude.{
  ◌≡◌, ◌++◌, All, append_assoc, refl, [], ◌↔◌, append-nil, ap, Option-cases, inl, some, inr,
}

abbrev pub IsReadable : MessageLog → Type 0
IsReadable l = (m : Message) × (parse_message l.message ≡ ok m)

-- The text of an entry of the log.
abbrev log_text : MessageLog → Message → Bytes
log_text l m =
    display m ++ ((codes "Received from:" ++ endl) ++ (display_control l.control ++ endl))

print_log-ok :
    (l : MessageLog) (m : Message) (out : Bytes)
    → parse_message l.message ≡ ok m
    → print_log l out ≡ (ok tt, out ++ log_text l m)
unfolding print_log ◌>>=◌ lift modify
print_log-ok l m out e = rw (e, append_assoc) refl

-- The texts of all entries, in the order of the log.
abbrev pub log_texts : (logs : List MessageLog) → All IsReadable logs → Bytes
log_texts [] h = []
log_texts (l ∷ logs) h = log_text l h.0.0 ++ log_texts logs h.1

pub print_logs_readable :
    (logs : List MessageLog) (h : All IsReadable logs) (out : Bytes)
    → print_logs logs out ≡ (ok tt, out ++ log_texts logs h)
unfolding print_logs ◌>>=◌
print_logs_readable [] h out = rw append-nil refl
print_logs_readable (l ∷ logs) h out =
    rw
      (
        print_log-ok l h.0.0 out h.0.1,
        print_logs_readable logs h.1 (out ++ log_text l h.0.0),
        append_assoc,
      )
      refl

pub continue_returns :
    {S A B : Type 0} (r : Result A) (f : A → Exec S B) (out : S) {b : B}
    → (continue r f out).0 ≡ ok b
    → (a : A) × (r ≡ ok a)
continue_returns (ok a) f out h = (a, refl)
continue_returns (throw e) f out h = cc
continue_returns fault f out h = cc
continue_returns hang f out h = cc

print_log_returns : (l : MessageLog) (out : Bytes) → (print_log l out).0 ≡ ok tt → IsReadable l
unfolding print_log ◌>>=◌ lift modify
print_log_returns l out h = continue_returns (parse_message l.message) _ out h

-- An entry that cannot be read ends the printing of the log.
print_logs_returns :
    (logs : List MessageLog) (out : Bytes) → (print_logs logs out).0 ≡ ok tt → All IsReadable logs
unfolding print_logs ◌>>=◌
print_logs_returns [] out h = tt
print_logs_returns (l ∷ logs) out h =
    let (_, first) =
      continue_returns (print_log l out).0 (λ _. print_logs logs) (print_log l out).1 h in
    let readable = print_log_returns l out first in
    let rest : (print_logs logs (out ++ log_text l readable.0)).0 ≡ ok tt =
      rw (print_log-ok l readable.0 out readable.1) at h in
    (readable, print_logs_returns logs _ rest)

-- The log is printed to its end exactly if every message in it can be parsed.
pub print_logs_returns_iff :
    (logs : List MessageLog) (out : Bytes) → ((print_logs logs out).0 ≡ ok tt) ↔ All IsReadable logs
print_logs_returns_iff logs out =
    (print_logs_returns logs out, λ h. ap (λ o. o.0) (print_logs_readable logs h out))

print_group_returns :
    (n : Network) (id : Bytes) (g : GroupRef) (out : Bytes) {l : GroupRef}
    → n.local_group ≡ some l
    → (print_group n id g out).0 ≡ ok tt
unfolding print_group ◌>>=◌ modify pointee
print_group_returns n id g out e = rw e refl

print_groups_returns :
    (n : Network) (m : OrdMap Bytes GroupRef) (out : Bytes) {l : GroupRef}
    → n.local_group ≡ some l
    → (print_groups n m out).0 ≡ ok tt
unfolding print_groups ◌>>=◌ pure
print_groups_returns n [] out e = refl
print_groups_returns n ((id, g) ∷ m) out e =
    rw (print_group_returns n id g out e) (print_groups_returns n m (print_group n id g out).1 e)

-- The rings are printed to the end, if a node that has groups has a local group.
pub print_rings_returns : (n : Network) (out : Bytes) → IsHoused n → (print_rings n out).0 ≡ ok tt
unfolding print_rings print_groups ◌>>=◌ modify
print_rings_returns n out h = elim (Option-cases n.local_group) [
  | inl e ↦ rw (h e) refl
  | inr (l, e) ↦ print_groups_returns n n.groups _ e
]
