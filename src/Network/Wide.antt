-- ===== src/Network/Wide.antt =====
-- What makes the log readable: the known peers and the local peer have an id and a key of their widths,
-- the local group has a full id, and every message in the log can be parsed.
pub mod Methods
pub mod Join
pub mod Disconnect
pub mod Founding
pub mod Reception
pub mod Incoming
use rac_kun.Network.History.{All-snoc}
use rac_kun.OrdMap.{same}
use rac_kun.Network.Print.Laws.{IsReadable}
use rac_kun.Message.Readable.{Parses}
use rac_kun.Exec.Follows.{IsPreorder, Follows, follows_rules}
use rac_kun.Text.{Bytes, bytes_less}
use rac_kun.Peer.{set_state, PeerState, Peer, update, init, is_known}
use rac_kun.Network.{
  Network, GroupRef, MessageLog, write_peer, Group, PeerRef, ◌∷◌, write_group, [], true, Store,
  id_of,
}
use rac_kun.Message.{Message, id_length, serialize, key_length, group_id_length}
use rac_kun.Exec.{modify}
use rac_kun.Prelude.{
  List, length, All, ◌<◌, ◌≡◌, ◌++◌, subst, sym, Bool-cases, ◌==◌, some, inl, inr, ◌∙◌, ==_iff, ap,
}
use rac_kun.Network.Logs.{
  log_message, insert_log, new_control, marker_entry, group_entry, acknowledge, modify_log,
  ack_message, stamp_of,
}

-- The peer has the id and the key of a peer that has introduced itself.
abbrev pub Named : Peer → Type 0
Named p = (length p.id ≡ id_length) × (length p.pub_id_key ≡ key_length)

pub record Wide (n : Network) : Type 0 where
  pub fresh : n.local_peer < n.next_peer
  pub own : Named (n.store n.local_peer)
  pub named : (p : PeerRef) → is_known (n.store p) ≡ true → Named (n.store p)
  pub housed :
      {g : GroupRef} → n.local_group ≡ some g → length (n.group_store g).id ≡ group_id_length
  pub readable : All IsReadable n.logs

-- What the methods keep.
abbrev pub Widens : Network → Network → Type 0
Widens n n' = Wide n → Wide n'

instance pub Widens-IsPreorder : IsPreorder Widens
Widens-IsPreorder = record { refl_at = λ n w. w; trans = λ n m k h j w. j (h w) }

-- A step that leaves alone what the invariant reads.
pub widens_same :
    {n n' : Network}
    → n'.store ≡ n.store
    → n'.next_peer ≡ n.next_peer
    → n'.local_peer ≡ n.local_peer
    → n'.local_group ≡ n.local_group
    → n'.group_store ≡ n.group_store
    → n'.logs ≡ n.logs
    → Widens n n'
widens_same s x p l g m w = record {
  fresh = subst (λ y. y) (sym (λ t. p t < x t)) w.fresh;
  own = subst (λ y. y) (sym (λ t. Named (s t (p t)))) w.own;
  named =
      subst (λ (y : Store). (q : PeerRef) → is_known (y q) ≡ true → Named (y q)) (sym s) w.named;
  housed = λ {g = r} e. (λ t. length (g t r).id) ∙ w.housed (sym l ∙ e);
  readable = subst (All IsReadable) (sym m) w.readable;
}

-- A write to a group keeps its id.
pub widens_group :
    (g : GroupRef) (v : Group) (n : Network)
    → v.id ≡ (n.group_store g).id
    → Widens n (write_group g v n)
widens_group g v n e w = record {
  fresh = w.fresh;
  own = w.own;
  named = w.named;
  housed = λ {g = r} l. elim (Bool-cases (g == r)) [
    | inl b ↦ rw b (ap length (e ∙ ap (λ x. (n.group_store x).id) ((==_iff g r).0 b)) ∙ w.housed l)
    | inr b ↦ rw b (w.housed l)
  ];
  readable = w.readable;
}

-- A write to a peer that leaves it with the widths, if it is known then or is the local peer.
pub widens_peer :
    (p : PeerRef) (f : Peer → Peer) (n : Network)
    → (is_known (f (n.store p)) ≡ true → Named (f (n.store p)))
    → (p ≡ n.local_peer → Named (f (n.store p)))
    → Widens n (write_peer p f n)
unfolding update
widens_peer p f n known own w = record {
  fresh = w.fresh;
  own = elim (Bool-cases (p == n.local_peer)) [
    | inl b ↦ rw b (
        subst (λ q. Named (f (n.store q))) ((==_iff p n.local_peer).0 b)
          (own ((==_iff p n.local_peer).0 b)))
    | inr b ↦ rw b w.own
  ];
  named = λ q. elim (Bool-cases (p == q)) [
    | inl b ↦ rw b (
        subst (λ r. is_known (f (n.store r)) ≡ true → Named (f (n.store r))) ((==_iff p q).0 b)
          known)
    | inr b ↦ rw b (w.named q)
  ];
  housed = w.housed;
  readable = w.readable;
}

-- A peer that has its widths keeps them in a change of state.
pub widens_state :
    (p : PeerRef) (s : PeerState) (n : Network)
    → Named (n.store p)
    → Widens n (write_peer p (set_state s) n)
unfolding set_state
widens_state p s n v = widens_peer p (set_state s) n (λ _. v) (λ _. v)

-- The local peer changes its state.
pub widens_own : (s : PeerState) (n : Network) → Widens n (write_peer n.local_peer (set_state s) n)
widens_own s n w = widens_state n.local_peer s n w.own w

-- A peer that introduces itself.
pub widens_init :
    (p : PeerRef) (id pub_k : Bytes) (s : PeerState) (n : Network)
    → length id ≡ id_length
    → length pub_k ≡ key_length
    → Widens n (write_peer p (λ q. set_state s (init id pub_k q)) n)
unfolding set_state init
widens_init p id pub_k s n i k = widens_peer p _ n (λ _. (i, k)) (λ _. (i, k))

IsReadable-modify_log :
    (s id : Bytes) (ls : List MessageLog) → All IsReadable ls → All IsReadable (modify_log s id ls)
unfolding modify_log ack_message
IsReadable-modify_log s id [] h = tt
IsReadable-modify_log s id (l ∷ ls) h = elim (Bool-cases (same (stamp_of l.message) s)) [
  | inl e ↦ rw e h
  | inr e ↦ rw e (h.0, IsReadable-modify_log s id ls h.1)
]

pub widens_logs :
    (f : List MessageLog → List MessageLog) (n : Network)
    → (All IsReadable n.logs → All IsReadable (f n.logs))
    → Widens n (record n { logs = f n.logs })
widens_logs f n k w = record {
  fresh = w.fresh;
  own = w.own;
  named = w.named;
  housed = w.housed;
  readable = k w.readable;
}

pub widens_count :
    (s id : Bytes) (n : Network) → Widens n (record n { logs = modify_log s id n.logs })
widens_count s id n = widens_logs (modify_log s id) n (IsReadable-modify_log s id n.logs)

acknowledge-Widens : (m : Message) (p : PeerRef) → Follows Widens (acknowledge m p)
unfolding acknowledge modify
acknowledge-Widens m p = record {
  at = λ n. elim (Bool-cases (n.store p).local) [
    | inl e ↦ rw e (λ w. w)
    | inr e ↦ rw e (widens_count (stamp_of (serialize m)) (id_of n p) n)
  ];
}

widens_entry :
    (l : MessageLog) (n : Network) → IsReadable l → Widens n (record n { logs = n.logs ++ l ∷ [] })
widens_entry l n r = widens_logs (λ ls. ls ++ l ∷ []) n (λ h. All-snoc IsReadable n.logs l h r)

insert_log-Widens : (m : Message) → Parses (serialize m) → Follows Widens (insert_log m)
unfolding insert_log new_control marker_entry group_entry
insert_log-Widens m r = search (follows_rules, widens_same, widens_entry) depth 24

pub log_message-Widens :
    (m : Message) (p : PeerRef) → Parses (serialize m) → Follows Widens (log_message m p)
unfolding log_message
log_message-Widens m p r = search (follows_rules, insert_log-Widens, acknowledge-Widens) depth 24
