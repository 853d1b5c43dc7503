-- ===== src/Network/Place.antt =====
-- Where the local peer stands: a node that is connected has a local group. Two relations between
-- states, which methods follow: the local group is not lost, and a node stays in place if the peer that
-- the method is about is another one.
pub mod Methods
pub mod Reception
use rac_kun.Network.Join.{allocate}
use rac_kun.Network.{Network, Endpoint, PeerRef, Bytes, write_peer, Bool}
use rac_kun.Network.Frame.{IsFrame, Kept, Kept-same, Kept-some}
use rac_kun.Network.Frame.Methods.{method_rules}
use rac_kun.Network.Pending.{Queue}
use rac_kun.Network.Logs.{
  log_message, insert_log, new_control, marker_entry, group_entry, acknowledge,
}
use rac_kun.Exec.Follows.{IsPreorder, Follows, follows_rules, Follows-modify}
use rac_kun.Exec.{modify}
use rac_kun.Message.{Message}
use rac_kun.Peer.{make_peer, Peer, set_state, init, joining, connected, new, update}
use rac_kun.Prelude.{
  ◌≡◌, ◌≢◌, refl, none, some, Bool-cases, inl, inr, ◌∙◌, ◌==◌, ==_iff, [], true, if◌then◌else◌,
  false,
}
use mathlib.Core.Path.{ap, sym, subst}

pub record Owns (n n' : Network) : Type 0 where
  pub same_local : n'.local_peer ≡ n.local_peer
  pub owned : Kept n n'

abbrev pub InPlace : Network → Type 0
InPlace n = (n.store n.local_peer).state ≡ connected → n.local_group ≢ none

pub record Stays (p : PeerRef) (n n' : Network) : Type 0 where
  pub same_local : n'.local_peer ≡ n.local_peer
  pub in_place : p ≢ n.local_peer → InPlace n → InPlace n'

instance pub Owns-IsPreorder : IsPreorder Owns
Owns-IsPreorder = record {
  refl_at = λ n. record { same_local = refl; owned = Kept-same refl refl };
  trans = λ n m k h j. record {
    same_local = j.same_local ∙ h.same_local;
    owned = record {
      none_before = λ e. h.owned.none_before (j.owned.none_before e);
      groups_before = λ e. j.owned.groups_before e ∙ h.owned.groups_before (j.owned.none_before e);
    };
  };
}

instance pub Stays-IsPreorder : {p : PeerRef} → IsPreorder (Stays p)
Stays-IsPreorder = record {
  refl_at = λ n. record { same_local = refl; in_place = λ other i. i };
  trans = λ n m k h j. record {
    same_local = j.same_local ∙ h.same_local;
    in_place = λ other i. j.in_place (λ e. other (e ∙ h.same_local)) (h.in_place other i);
  };
}

-- A step that leaves the local group and the store alone.
pub owns_same :
    {n n' : Network}
    → n'.local_peer ≡ n.local_peer
    → n'.local_group ≡ n.local_group
    → n'.groups ≡ n.groups
    → Owns n n'
owns_same e g h = record { same_local = e; owned = Kept-same g h }

pub stays_same :
    {p : PeerRef} {n n' : Network}
    → n'.store ≡ n.store
    → n'.local_peer ≡ n.local_peer
    → n'.local_group ≡ n.local_group
    → Stays p n n'
stays_same s e g = record {
  same_local = e;
  in_place = λ other i c z. i (sym (λ t. (s t (e t)).state) ∙ c) (sym g ∙ z);
}

acknowledge-Owns : (m : Message) (p : PeerRef) → Follows Owns (acknowledge m p)
unfolding acknowledge modify
acknowledge-Owns m p = record {
  at = λ n. elim (Bool-cases (n.store p).local) [
    | inl e ↦ rw e (owns_same refl refl refl)
    | inr e ↦ rw e (owns_same refl refl refl)
  ];
}

acknowledge-Stays : {q : PeerRef} (m : Message) (p : PeerRef) → Follows (Stays q) (acknowledge m p)
unfolding acknowledge modify
acknowledge-Stays m p = record {
  at = λ n. elim (Bool-cases (n.store p).local) [
    | inl e ↦ rw e (stays_same refl refl refl)
    | inr e ↦ rw e (stays_same refl refl refl)
  ];
}

log_message-Owns : (m : Message) (p : PeerRef) → Follows Owns (log_message m p)
unfolding log_message insert_log new_control marker_entry group_entry
log_message-Owns m p = search (follows_rules, acknowledge-Owns, owns_same) depth 24

log_message-Stays : {q : PeerRef} (m : Message) (p : PeerRef) → Follows (Stays q) (log_message m p)
unfolding log_message insert_log new_control marker_entry group_entry
log_message-Stays m p = search (follows_rules, acknowledge-Stays, stays_same) depth 24

instance pub Owns-IsFrame : IsFrame Owns
Owns-IsFrame = record {
  of_same = λ l e k. record { same_local = ap (λ (q : Queue). q.local_peer) e; owned = k };
  of_log = log_message-Owns;
}

instance pub Stays-IsFrame : {p : PeerRef} → IsFrame (Stays p)
Stays-IsFrame = record {
  of_same = λ l e k. record {
    same_local = ap (λ (q : Queue). q.local_peer) e;
    in_place = λ other i c z.
        i (sym (ap (λ (q : Queue). (q.store q.local_peer).state) e) ∙ c) (k.none_before z);
  };
  of_log = log_message-Stays;
}

-- The local peer is connected behind a write to a peer, which may be the local one.
abbrev pub Connects : Network → (Peer → Peer) → Bool → Type 0
Connects n f b = (if b then f (n.store n.local_peer) else n.store n.local_peer).state ≡ connected

-- A write that does not connect the peer.
stays_calm :
    {p : PeerRef} (q : PeerRef) (f : Peer → Peer) (n : Network)
    → ((x : Peer) → (f x).state ≢ connected)
    → Stays p n (write_peer q f n)
unfolding update
stays_calm q f n h = record {
  same_local = refl;
  in_place = λ other i. elim (Bool-cases (q == n.local_peer)) [
    | inl e ↦ λ c. absurd (h (n.store n.local_peer) (subst (Connects n f) e c))
    | inr e ↦ λ c. i (subst (Connects n f) e c)
  ];
}

pub joining-Stays :
    {p : PeerRef} (q : PeerRef) → Follows (Stays p) (modify (write_peer q (set_state joining)))
unfolding set_state
joining-Stays q = Follows-modify _ λ n. stays_calm q (set_state joining) n (λ x e. cc)

pub local_joining-Stays :
    {p : PeerRef} → Follows (Stays p) (modify (λ n. write_peer n.local_peer (set_state joining) n))
unfolding set_state
local_joining-Stays =
    Follows-modify _ λ n. stays_calm n.local_peer (set_state joining) n (λ x e. cc)

pub introduced-Stays :
    {p : PeerRef} (q : PeerRef) (id pub_k : Bytes)
    → Follows (Stays p) (modify (write_peer q (λ x. set_state joining (init id pub_k x))))
unfolding set_state
introduced-Stays q id pub_k =
    Follows-modify _ λ n. stays_calm q (λ x. set_state joining (init id pub_k x)) n (λ x e. cc)

-- A write to the peer that the method is about.
pub own-Stays : (p : PeerRef) (f : Peer → Peer) → Follows (Stays p) (modify (write_peer p f))
unfolding update
own-Stays p f = Follows-modify _ λ n. record {
  same_local = refl;
  in_place = λ other i. elim (Bool-cases (p == n.local_peer)) [
    | inl e ↦ absurd (other ((==_iff p n.local_peer).0 e))
    | inr e ↦ λ c. i (subst (Connects n f) e c)
  ];
}

pub allocate-Stays : {p : PeerRef} (e : Endpoint) → Follows (Stays p) (allocate e)
unfolding allocate make_peer
allocate-Stays e = record {
  at = λ n.
      let moved = stays_calm n.next_peer (λ _. make_peer e.address e.port false) n (λ x c. cc) in
      record { same_local = moved.same_local; in_place = moved.in_place };
}

pub ruleset owns_rules = (method_rules, owns_same)

pub ruleset stays_rules = (
  method_rules, stays_same, joining-Stays, local_joining-Stays, introduced-Stays, own-Stays,
  allocate-Stays,
)
