-- ===== src/Network/Token/Sound.antt =====
-- Actions after which no filed peer has asked to join beside a free token, and how they are built from
-- others.
use rac_kun.Peer.{connected}
use rac_kun.Network.AtMostOnce.{log_message-Leaves}
use rac_kun.Text.{bytes_less}
use rac_kun.OrdMap.Laws.{All-find, assign-IsSorted, All-assign}
use rac_kun.Network.Pending.{Sits}
use rac_kun.Network.Token.Methods.{Unless, Unless-intro}
use rac_kun.OrdMap.{assign, find}
use rac_kun.Outcome.{Result, fault, hang}
use rac_kun.Network.{Method, ℕ, ok, throw, write_peer, Option}
use rac_kun.Prelude.{Bool, if◌then◌else◌, true, false, ◌≡◌, some, none, refl}
use rac_kun.Exec.{◌>>=◌, try_catch, caught, continue, modify, option_case}
use rac_kun.Network.Token.{
  Careful-IsPreorder, Careful-IsFrame, PeerRef, Message, Network, Bytes, Follows, IsFiled,
  PeerState, log_message, Careful, Queue, subst, queue_of, NoneWaits, sym, set_state,
  log_message-Still, init, write-IsFiled, introduced-KeepsAddress, inl, inr, set_state-KeepsAddress,
}
use rac_kun.Network.Handlers.{set_port}

abbrev pub Calms : {A : Type 0} → Result A × Network → Type 0
Calms out = IsFiled (queue_of out.1) × Unless out.0 (NoneWaits (queue_of out.1))

-- An action that keeps the calm, and one that brings it.
pub record Sound {A : Type 0} (m : Method A) : Type 0 where
  pub at : (n : Network) → IsFiled (queue_of n) → NoneWaits (queue_of n) → Calms (m n)

pub record Restores {A : Type 0} (m : Method A) : Type 0 where
  pub at : (n : Network) → IsFiled (queue_of n) → Calms (m n)

module _ {A : Type 0} where
  pub Sound-careful : {m : Method A} → Follows Careful m → Sound m
  Sound-careful {m} c = record {
    at = λ n v w. ((c.at n).filed v, Unless-intro (m n).0 ((c.at n).waits v w));
  }

  pub Sound-Restores : {m : Method A} → Restores m → Sound m
  Sound-Restores c = record { at = λ n v w. c.at n v }

  pub Sound-if : (b : Bool) {m k : Method A} → Sound m → Sound k → Sound (if b then m else k)
  Sound-if true c d = c
  Sound-if false c d = d

module _ {A B : Type 0} where
  pub Sound-bind :
      {m : Method A} {f : A → Method B} → Sound m → ((a : A) → Sound (f a)) → Sound (m >>= f)
  unfolding ◌>>=◌
  Sound-bind {m} {f} c d = record { at = λ n v w. let (r, n') = m n in go r n' (c.at n v w) }
    where
      go : (r : Result A) (n' : Network) → Calms (r, n') → Calms (continue r f n')
      go (ok a) n' (v, w) = (d a).at n' v w
      go (throw e) n' (v, w) = (v, w)
      go fault n' (v, w) = (v, tt)
      go hang n' (v, w) = (v, tt)

pub Sound-option_case :
    {A B : Type 0} (x : Option A) {m : Method B} {f : A → Method B}
    → Sound m
    → ((a : A) → Sound (f a))
    → Sound (option_case x m f)
unfolding option_case
Sound-option_case none c d = c
Sound-option_case (some a) c d = d a

pub Sound-try_catch : {m : Method Unit} → Sound m → Sound (try_catch m)
unfolding try_catch
Sound-try_catch {m} c = record { at = λ n v w. let (r, n') = m n in go r n' (c.at n v w) }
  where
    go : (r : Result Unit) (n' : Network) → Calms (r, n') → Calms (caught r n')
    go (ok a) n' h = h
    go (throw e) n' h = h
    go fault n' h = h
    go hang n' h = h

pub Restores-modify :
    (f : Network → Network) {rest : Method Unit}
    → ((n : Network) → IsFiled (queue_of n) → IsFiled (queue_of (f n)))
    → Restores rest
    → Restores (modify f >>= λ _. rest)
unfolding ◌>>=◌
Restores-modify f h c = record { at = λ n v. c.at (f n) (h n v) }

pub Restores-log_message :
    (m : Message) (p : PeerRef) {rest : Method Unit}
    → Restores rest
    → Restores (log_message m p >>= λ _. rest)
unfolding ◌>>=◌
Restores-log_message m p c = record {
  at = λ n v.
      let filed = subst IsFiled (sym ((log_message-Still m p).at n)) v in
      elim (log_message-Leaves m p n) [
        | inl (o, h) ↦ rw o (c.at (log_message m p n).1 filed)
        | inr o ↦ rw o (filed, tt)
      ];
}

pub introduce-IsFiled :
    (p : PeerRef) (s : PeerState) (id key : Bytes) (n : Network)
    → IsFiled (queue_of n)
    → IsFiled (queue_of (write_peer p (λ x. set_state s (init id key x)) n))
introduce-IsFiled p s id key n =
    write-IsFiled p (λ x. set_state s (init id key x)) (queue_of n)
      (introduced-KeepsAddress s id key)

pub connect-IsFiled :
    (p : PeerRef) (n : Network)
    → IsFiled (queue_of n)
    → IsFiled (queue_of (write_peer p (set_state connected) n))
connect-IsFiled p n =
    write-IsFiled p (set_state connected) (queue_of n) (set_state-KeepsAddress connected)

-- `new_peers[address].second = port` keeps the pending peers filed.
pub set_port-IsFiled :
    (addr : Bytes) (port : ℕ) (q : Queue)
    → IsFiled q
    → IsFiled
        (record q { new_peers = assign addr (set_port port (find addr q.new_peers)) q.new_peers })
set_port-IsFiled addr port q v = record {
  fresh = v.fresh;
  sorted = assign-IsSorted addr (set_port port (find addr q.new_peers)) q.new_peers v.sorted;
  seated =
      All-assign (Sits q) addr (set_port port (find addr q.new_peers)) q.new_peers
        (go (find addr q.new_peers) refl) v.seated;
}
  where
    go :
        (x : Option (Option PeerRef × ℕ))
        → find addr q.new_peers ≡ x
        → Sits q (addr, set_port port x)
    go none e = tt
    go (some (none, old)) e = tt
    go (some (some p, old)) e = All-find (Sits q) addr q.new_peers {v = (some p, old)} v.seated e

pub ruleset sound_rules =
    (Sound-if, Sound-bind, Sound-option_case, Sound-try_catch, Sound-careful, Sound-Restores)
