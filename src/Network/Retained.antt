-- ===== src/Network/Retained.antt =====
-- A logged message stays in the log as it is.
use rac_kun.OrdMap.{same}
use rac_kun.Network.History.{IsLogged}
use rac_kun.Exec.Follows.{IsPreorder, Follows, follows_rules}
use rac_kun.Message.{Message, serialize}
use rac_kun.Network.Frame.{IsFrame}
use rac_kun.Exec.{modify}
use rac_kun.Text.{Bytes, bytes_less}
use rac_kun.Prelude.{
  List, ◌++◌, ap, ◌≡◌, map, refl, subst, sym, Bool-cases, length, inl, inr, ◌==◌, ◌&&◌,
}
use rac_kun.Network.Disconnect.{reset_if_alone}
use rac_kun.Network.Trail.{IsTrail}
use rac_kun.Network.{Network, MessageLog, Env, PeerRef, ◌∷◌, [], id_of}
use rac_kun.Network.Logs.{
  log_message, insert_log, new_control, marker_entry, group_entry, acknowledge, modify_log,
  ack_message, stamp_of,
}

abbrev pub messages : List MessageLog → List Bytes
messages = map (λ l. l.message)

pub record Retains (n n' : Network) : Type 0 where
  pub retained : (s : Bytes) → IsLogged s (messages n.logs) → IsLogged s (messages n'.logs)

pub retains_same : {n n' : Network} → messages n'.logs ≡ messages n.logs → Retains n n'
retains_same e = record { retained = λ s. subst (IsLogged s) (sym e) }

instance pub Retains-IsPreorder : IsPreorder Retains
Retains-IsPreorder = record {
  refl_at = λ n. retains_same refl;
  trans = λ n m k h j. record { retained = λ s l. j.retained s (h.retained s l) };
}

messages-modify_log :
    (stamp id : Bytes) (ls : List MessageLog) → messages (modify_log stamp id ls) ≡ messages ls
unfolding modify_log ack_message
messages-modify_log stamp id [] = refl
messages-modify_log stamp id (l ∷ ls) = elim (Bool-cases (same (stamp_of l.message) stamp)) [
  | inl e ↦ rw e refl
  | inr e ↦ rw e (ap (◌∷◌ l.message) (messages-modify_log stamp id ls))
]

acknowledge-Retains : (m : Message) (p : PeerRef) → Follows Retains (acknowledge m p)
unfolding acknowledge modify
acknowledge-Retains m p = record {
  at = λ n. elim (Bool-cases (n.store p).local) [
    | inl e ↦ rw e (retains_same refl)
    | inr e ↦ rw e (retains_same (messages-modify_log (stamp_of (serialize m)) (id_of n p) n.logs))
  ];
}

retains_entry : (l : MessageLog) (n : Network) → Retains n (record n { logs = n.logs ++ l ∷ [] })
retains_entry l n = record { retained = λ s h. go s n.logs h }
  where
    go :
        (s : Bytes) (ls : List MessageLog)
        → IsLogged s (messages ls)
        → IsLogged s (messages (ls ++ l ∷ []))
    go s [] h = absurd h
    go s (k ∷ ls) (inl e) = inl e
    go s (k ∷ ls) (inr h) = inr (go s ls h)

log_message-Retains : (m : Message) (p : PeerRef) → Follows Retains (log_message m p)
unfolding log_message insert_log new_control marker_entry group_entry
log_message-Retains m p =
    search (follows_rules, acknowledge-Retains, retains_same, retains_entry) depth 24

reset_if_alone-Retains : (env : Env) → Follows Retains (reset_if_alone env)
unfolding reset_if_alone
reset_if_alone-Retains env = record {
  at = λ n. elim (Bool-cases (length n.peers == 0 && length n.new_peers == 0)) [
    | inl e ↦ rw e (retains_same refl)
    | inr e ↦ rw e (retains_same refl)
  ];
}

instance pub Retains-IsFrame : IsFrame Retains
Retains-IsFrame = record {
  of_same = λ e _ _. retains_same (ap messages e);
  of_log = log_message-Retains;
}

instance pub Retains-IsTrail : IsTrail Retains
Retains-IsTrail = record {
  of_kept = λ e _. retains_same (ap messages e);
  of_count = λ stamp id n. retains_same (messages-modify_log stamp id n.logs);
  of_reset = reset_if_alone-Retains;
}
