-- ===== src/Network/Frame.antt =====
-- What most methods leave alone: the log, but for `log_message`, and the bookkeeping of the JOIN
-- procedure. A relation between states that holds where both are left alone, and that `log_message`
-- follows, is followed by all these methods.
pub mod Methods
use rac_kun.Network.Logs.{log_message}
use rac_kun.Network.Join.{start_timer}
use rac_kun.Network.Send.{send_each, stamped}
use rac_kun.Message.{Message}
use rac_kun.Network.Pending.{queue_of}
use rac_kun.Network.Disconnect.{each_group}
use rac_kun.Exec.Follows.{IsPreorder, follows_rules, Follows, Follows-bind}
use rac_kun.Prelude.{◌≡◌, Bool-cases, inl, refl, ◌∷◌, inr, [], some, sym, ◌∙◌}
use rac_kun.Network.{
  Network, now, peer_send, on_group, Env, listen, Timer, GroupRef, Bytes, PeerRef, Group, Method,
  PeerMap, Result, OrdMap, ready_timer, join_timer, Option, none,
}

-- A local group that is there is not lost, and no group comes without one.
pub record Kept (n n' : Network) : Type 0 where
  pub none_before : n'.local_group ≡ none → n.local_group ≡ none
  pub groups_before : n'.local_group ≡ none → n'.groups ≡ n.groups

pub Kept-same : {n n' : Network} → n'.local_group ≡ n.local_group → n'.groups ≡ n.groups → Kept n n'
Kept-same e g = record { none_before = λ z. sym e ∙ z; groups_before = λ z. g }

pub Kept-some : {n n' : Network} {r : GroupRef} → n'.local_group ≡ some r → Kept n n'
Kept-some e = record { none_before = λ z. cc; groups_before = λ z. cc }

pub record IsFrame (R : Network → Network → Type 0) : Type 0 where
  pub of_same : {n n' : Network} → n'.logs ≡ n.logs → queue_of n' ≡ queue_of n → Kept n n' → R n n'
  pub of_log : (m : Message) (p : PeerRef) → Follows R (log_message m p)

module _ {R : Network → Network → Type 0} ⦃o : IsPreorder R⦄ ⦃k : IsFrame R⦄ where
  pub Follows-log_message : (m : Message) (p : PeerRef) → Follows R (log_message m p)
  Follows-log_message = k.of_log

  pub Follows-peer_send : (msg : Bytes) (p : PeerRef) → Follows R (peer_send msg p)
  unfolding peer_send
  Follows-peer_send msg p = record {
    at = λ n. elim (Bool-cases (n.store p).local) [
      | inl e ↦ rw e (k.of_same refl refl (Kept-same refl refl))
      | inr e ↦ rw e (k.of_same refl refl (Kept-same refl refl))
    ];
  }

  pub Follows-listen : (p : PeerRef) → Follows R (listen p)
  unfolding listen
  Follows-listen p = record {
    at = λ n. elim (Bool-cases (n.store p).local) [
      | inl e ↦ rw e (k.of_same refl refl (Kept-same refl refl))
      | inr e ↦ rw e (k.of_same refl refl (Kept-same refl refl))
    ];
  }

  pub Follows-on_group :
      (g : GroupRef) (f : Network → Group → Result Group) → Follows R (on_group g f)
  unfolding on_group
  Follows-on_group g f = search (follows_rules, k.of_same, Kept-same)

  pub Follows-now : (env : Env) → Follows R (now env)
  unfolding now
  Follows-now env = record { at = λ n. k.of_same refl refl (Kept-same refl refl) }

  pub Follows-start_timer : (t : Timer) (p : PeerRef) → Follows R (start_timer t p)
  unfolding start_timer
  Follows-start_timer ready_timer p = record { at = λ n. k.of_same refl refl (Kept-same refl refl) }
  Follows-start_timer join_timer p = record { at = λ n. k.of_same refl refl (Kept-same refl refl) }

pub ruleset frame_rules = (
  follows_rules, Follows-log_message, Follows-peer_send, Follows-listen, Follows-on_group,
  Follows-now, Follows-start_timer,
)

module _ {R : Network → Network → Type 0} ⦃o : IsPreorder R⦄ ⦃k : IsFrame R⦄ where
  pub Follows-send_each : (msg : Bytes) (m : PeerMap) → Follows R (send_each msg m)
  unfolding send_each
  Follows-send_each msg [] = search follows_rules
  Follows-send_each msg ((i, p) ∷ m) =
      Follows-bind _ _ (Follows-peer_send msg p) (λ _. Follows-send_each msg m)

  pub Follows-each_group :
      (body : GroupRef → Method Unit) (m : OrdMap Bytes GroupRef)
      → ((g : GroupRef) → Follows R (body g))
      → Follows R (each_group body m)
  unfolding each_group
  Follows-each_group body [] h = search follows_rules
  Follows-each_group body ((id, g) ∷ m) h =
      Follows-bind _ _ (h g) (λ _. Follows-each_group body m h)
