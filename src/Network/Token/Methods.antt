-- ===== src/Network/Token/Methods.antt =====
-- The methods of the JOIN procedure, and who waits for the token after them.
use rac_kun.Peer.{is_known}
use rac_kun.Network.Pending.{Idles}
use rac_kun.Prelude.{◌⊎◌, refl, ◌∷◌, All, some, [], arith}
use rac_kun.Network.Handlers.{handle_join_notif, accept_notif}
use rac_kun.Network.Join.{connect_peer, answer_join_request, first_known, check_for_new_peers}
use rac_kun.Outcome.{Result, fault, hang}
use rac_kun.Network.{
  Method, Env, ok, Bool, Store, PeerRef, Bytes, throw, GroupRef, ℕ, OrdMap, Option, none,
}
use rac_kun.Exec.{◌>>=◌, modify, option_case}
use rac_kun.Network.Token.{
  Careful-IsPreorder, Held-IsPreorder, Careful-IsFrame, Held-IsFrame, Network, IsFiled, Follows,
  Held, queue_of, held_rules, Careful, NoneWaits, ◌≡◌, inr, careful_rules, false, inl, Bool-cases,
}

-- The token is taken.
abbrev pub IsTaken : Network → Type 0
IsTaken n = IsFiled (queue_of n) × (n.join_token ≡ false)

-- No filed peer has asked to join while the token is free.
abbrev pub IsCalm : Network → Type 0
IsCalm n = IsFiled (queue_of n) × NoneWaits (queue_of n)

pub IsTaken-IsCalm : (n : Network) → IsTaken n → IsCalm n
IsTaken-IsCalm n (v, t) = (v, λ h. absurd (cc (t, h)))

-- What a fault leaves does not count.
abbrev pub Unless : {A : Type 0} → Result A → Type 0 → Type 0
Unless (ok _) P = P
Unless (throw _) P = P
Unless fault P = Unit
Unless hang P = Unit

pub Unless-intro : {A : Type 0} (r : Result A) {P : Type 0} → P → Unless r P
Unless-intro (ok _) p = p
Unless-intro (throw _) p = p
Unless-intro fault p = tt
Unless-intro hang p = tt

-- Taking the token, and then only actions that hold it.
take_lem :
    {A : Type 0} (rest : Method A)
    → Follows Held rest
    → (n : Network) → IsFiled (queue_of n)
    → IsTaken ((modify (λ n'. record n' { join_token = false }) >>= λ _. rest) n).1
unfolding ◌>>=◌
take_lem rest h n v =
    let kept = h.at (record n { join_token = false }) in
    (kept.filed (record { fresh = v.fresh; sorted = v.sorted; seated = v.seated }), kept.taken refl)

module _ (env : Env) where
  pub connect_peer-Careful : (ip port : Bytes) → Follows Careful (connect_peer env ip port)
  unfolding connect_peer
  connect_peer-Careful ip port = search careful_rules depth 12

  connect_peer-Held : (ip port : Bytes) → Follows Held (connect_peer env ip port)
  unfolding connect_peer
  connect_peer-Held ip port = search held_rules depth 12

  -- An answer takes the token, whatever it comes to.
  pub answer_join_request-IsTaken :
      (p : PeerRef) (port : ℕ) (n : Network)
      → IsFiled (queue_of n)
      → IsTaken (answer_join_request env p port n).1
  unfolding answer_join_request
  answer_join_request-IsTaken p port = take_lem _ (search held_rules depth 28)

  accept_notif-Careful :
      (g : GroupRef) (peer_id pub_k ip : Bytes) (port : ℕ)
      → Follows Careful (accept_notif env g peer_id pub_k ip port)
  unfolding accept_notif
  accept_notif-Careful g peer_id pub_k ip port =
      let taken = take_lem _ (search (held_rules, connect_peer-Held) depth 16) in
      record {
        at = λ n. record {
          filed = λ v. (taken n v).0;
          waits =
              λ v w. (IsTaken-IsCalm (accept_notif env g peer_id pub_k ip port n).1 (taken n v)).1;
        };
      }

  pub handle_join_notif-Careful :
      (channel : Bool) (group_id peer_id pub_k ip : Bytes) (port : ℕ)
      → Follows Careful (handle_join_notif env channel group_id peer_id pub_k ip port)
  unfolding handle_join_notif
  handle_join_notif-Careful channel group_id peer_id pub_k ip port =
      search (careful_rules, accept_notif-Careful) depth 12

  first_known-none :
      (s : Store) (m : OrdMap Bytes (Option PeerRef × ℕ))
      → first_known env s m ≡ ok none
      → All (Idles s) m
  unfolding first_known
  first_known-none s [] h = tt
  first_known-none s ((addr, (none, port)) ∷ m) h = absurd (cc h)
  first_known-none s ((addr, (some p, port)) ∷ m) h = elim (Bool-cases (is_known (s p))) [
    | inl e ↦ absurd (ground (arith, e))
    | inr e ↦ (e, first_known-none s m (ground (arith, e)))
  ]

  -- The search for a waiting peer does not raise.
  first_known_cases :
      (s : Store) (m : OrdMap Bytes (Option PeerRef × ℕ))
      → ((x : Option (PeerRef × ℕ)) × (first_known env s m ≡ ok x)) ⊎ (first_known env s m ≡ fault)
  unfolding first_known
  first_known_cases s [] = inl (none, refl)
  first_known_cases s ((addr, (none, port)) ∷ m) = inr refl
  first_known_cases s ((addr, (some p, port)) ∷ m) = elim (Bool-cases (is_known (s p))) [
    | inl e ↦ inl (some (p, port), rw e)
    | inr e ↦ rw e (first_known_cases s m)
  ]

  -- The token is released only when no filed peer has asked to join.
  pub check_for_new_peers-IsCalm :
      (n : Network)
      → IsFiled (queue_of n)
      → let (r, n') = check_for_new_peers env n in
        IsFiled (queue_of n') × Unless r (NoneWaits (queue_of n'))
  unfolding check_for_new_peers ◌>>=◌
  check_for_new_peers-IsCalm n v = elim (first_known_cases n.store n.new_peers) [
    | inr e ↦ rw e (v, tt)
    | inl (none, e) ↦
        rw (e, option_case)
          (
            record { fresh = v.fresh; sorted = v.sorted; seated = v.seated },
            λ t. first_known-none n.store n.new_peers e,
          )
    | inl (some (p, port), e) ↦
        let out = answer_join_request env p port n in
        let calm = IsTaken-IsCalm out.1 (answer_join_request-IsTaken p port n v) in
        rw (e, option_case) (calm.0, Unless-intro out.0 calm.1)
  ]
