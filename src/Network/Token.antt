-- ===== src/Network/Token.antt =====
-- How the methods treat the pending peers and the join token. A careful action keeps the pending peers
-- filed, and leaves nobody waiting beside a free token; one that holds the token may let peers wait.
pub mod Methods
pub mod Sound
pub mod Reception
use rac_kun.Text.{bytes_less}
use rac_kun.Prelude.{◌∙◌, refl, ◌≡◌, subst, false, Bool-cases, inl, sym, inr}
use rac_kun.Message.{Message}
use rac_kun.OrdMap.{erase}
use rac_kun.Network.Pending.{
  KeepsAddress, IsFiled, queue_of, extend-IsFiled, NoneWaits, drop_at-IsFiled, drop_at-NoneWaits,
  write-IsFiled, extend-NoneWaits, write_local-NoneWaits, Queue,
}
use rac_kun.Network.Frame.{IsFrame}
use rac_kun.Exec.Follows.{IsPreorder, Follows, Follows-modify, follows_rules}
use rac_kun.Network.Frame.Methods.{method_rules}
use rac_kun.Network.{Network, Endpoint, Bytes, write_peer}
use rac_kun.Network.Join.{allocate}
use rac_kun.Network.Logs.{
  acknowledge, log_message, insert_log, new_control, marker_entry, group_entry,
}
use rac_kun.Peer.{set_state, PeerRef, PeerState, init, get_address, make_peer}
use rac_kun.Exec.{◌>>=◌, modify}

pub record Careful (n n' : Network) : Type 0 where
  pub filed : IsFiled (queue_of n) → IsFiled (queue_of n')
  pub waits : IsFiled (queue_of n) → NoneWaits (queue_of n) → NoneWaits (queue_of n')

pub record Held (n n' : Network) : Type 0 where
  pub filed : IsFiled (queue_of n) → IsFiled (queue_of n')
  pub taken : n.join_token ≡ false → n'.join_token ≡ false

instance pub Careful-IsPreorder : IsPreorder Careful
Careful-IsPreorder = record {
  refl_at = λ n. record { filed = λ v. v; waits = λ v w. w };
  trans = λ n m k a b. record {
    filed = λ v. b.filed (a.filed v);
    waits = λ v w. b.waits (a.filed v) (a.waits v w);
  };
}

instance pub Held-IsPreorder : IsPreorder Held
Held-IsPreorder = record {
  refl_at = λ n. record { filed = λ v. v; taken = λ t. t };
  trans =
      λ n m k a b. record { filed = λ v. b.filed (a.filed v); taken = λ t. b.taken (a.taken t) };
}

abbrev Still : Network → Network → Type 0
Still n n' = queue_of n' ≡ queue_of n

instance Still-IsPreorder : IsPreorder Still
Still-IsPreorder = record { refl_at = λ n. refl; trans = λ n m k a b. b ∙ a }

acknowledge-Still : (m : Message) (p : PeerRef) → Follows Still (acknowledge m p)
unfolding acknowledge
acknowledge-Still m p =
    Follows-modify _ λ n. elim (Bool-cases (n.store p).local) [ inl e ↦ rw e | inr e ↦ rw e ]

pub log_message-Still : (m : Message) (p : PeerRef) → Follows Still (log_message m p)
unfolding log_message insert_log new_control marker_entry group_entry
log_message-Still m p = search (follows_rules, acknowledge-Still) depth 20

pub careful_same : {n n' : Network} → queue_of n' ≡ queue_of n → Careful n n'
careful_same e = record { filed = subst IsFiled (sym e); waits = λ v. subst NoneWaits (sym e) }

pub held_same : {n n' : Network} → queue_of n' ≡ queue_of n → Held n n'
held_same e = record {
  filed = subst IsFiled (sym e);
  taken = subst (λ (q : Queue). q.join_token ≡ false) (sym e);
}

instance pub Careful-IsFrame : IsFrame Careful
Careful-IsFrame = record {
  of_same = λ l e _. careful_same e;
  of_log = λ m p. record { at = λ n. careful_same ((log_message-Still m p).at n) };
}

instance pub Held-IsFrame : IsFrame Held
Held-IsFrame = record {
  of_same = λ l e _. held_same e;
  of_log = λ m p. record { at = λ n. held_same ((log_message-Still m p).at n) };
}

pub set_state-KeepsAddress : (s : PeerState) → KeepsAddress (set_state s)
unfolding set_state
set_state-KeepsAddress s x = refl

pub introduced-KeepsAddress :
    (s : PeerState) (id key : Bytes) → KeepsAddress (λ x. set_state s (init id key x))
unfolding set_state init
introduced-KeepsAddress s id key x = refl

-- The local peer's state may change at any time.
pub local_state-Careful :
    (s : PeerState) → Follows Careful (modify (λ n. write_peer n.local_peer (set_state s) n))
local_state-Careful s = Follows-modify _ λ n. record {
  filed = write-IsFiled n.local_peer (set_state s) (queue_of n) (set_state-KeepsAddress s);
  waits = write_local-NoneWaits (set_state s) (queue_of n);
}

pub allocate-Careful : (e : Endpoint) → Follows Careful (allocate e)
unfolding allocate
allocate-Careful e = record {
  at = λ n. record {
    filed = extend-IsFiled (λ _. make_peer e.address e.port false) (queue_of n);
    waits = extend-NoneWaits (λ _. make_peer e.address e.port false) (queue_of n);
  };
}

pub allocate-Held : (e : Endpoint) → Follows Held (allocate e)
unfolding allocate
allocate-Held e = record {
  at = λ n. record {
    filed = extend-IsFiled (λ _. make_peer e.address e.port false) (queue_of n);
    taken = λ t. t;
  };
}

-- `new_peers.erase(peer->get_address())`
abbrev pub forget : PeerRef → Network → Network
forget p n = record n { new_peers = erase (get_address (n.store p)) n.new_peers }

pub forget-Careful : (p : PeerRef) → Follows Careful (modify (forget p))
forget-Careful p = Follows-modify _ λ n. record {
  filed = drop_at-IsFiled (get_address (n.store p)) (queue_of n);
  waits = λ v. drop_at-NoneWaits (get_address (n.store p)) (queue_of n);
}

pub forget-Held : (p : PeerRef) → Follows Held (modify (forget p))
forget-Held p =
    Follows-modify _
      λ n. record { filed = drop_at-IsFiled (get_address (n.store p)) (queue_of n); taken = λ t. t }

pub introduced-Held :
    (p : PeerRef) (s : PeerState) (id key : Bytes)
    → Follows Held (modify (write_peer p (λ x. set_state s (init id key x))))
introduced-Held p s id key = Follows-modify _ λ n. record {
  filed =
      write-IsFiled p (λ x. set_state s (init id key x)) (queue_of n)
        (introduced-KeepsAddress s id key);
  taken = λ t. t;
}

pub ruleset careful_rules =
    (method_rules, careful_same, local_state-Careful, allocate-Careful, forget-Careful)

pub ruleset held_rules = (method_rules, held_same, allocate-Held, forget-Held, introduced-Held)
