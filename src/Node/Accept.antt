-- ===== src/Node/Accept.antt =====
-- src/Listener.cpp: the listener, which accepts one connection after the other. What a handler does with
-- the accept that it ends is taken from those under way before it runs. A connection that is lost before
-- its remote endpoint is read makes the handler raise, before it starts the next accept.
use rac_kun.Node.{handle_accept, ok, some, throw, none, ◌∷◌}
use rac_kun.Prelude.{
  ℕ, Option, List, suc, ◌≡◌, Bool, refl, ==_iff, [], true, zero, false, ◌||◌, ◌⊎◌, ap, inl, inr,
  ◌∙◌,
}
use rac_kun.Outcome.{Result, fault, hang}
use rac_kun.Exec.{Exec, ◌>>=◌, ◌>>◌, modify, pure, raise}
use rac_kun.Network.Join.{allocate, add_new_peer}
use rac_kun.Network.{listen, Network, Method, Endpoint}
use rac_kun.Peer.{update, make_peer}

-- The network, and how many calls of `async_accept` wait for their connection.
pub record Listener : Type 0 where
  pub network : Network
  pub accepting : ℕ

unfoldable pub start_accept : Exec Listener Unit
start_accept = modify (λ l. record l { accepting = suc l.accepting })

-- A method of the network.
unfoldable pub on_network : Method Unit → Exec Listener Unit
on_network m l = let (r, n) = m l.network in (r, record l { network = n })

-- The whole of `handle_accept`.
unfoldable pub end_accept : Bool → Option Endpoint → Exec Listener Unit
end_accept error e = on_network (handle_accept error e) >> start_accept

-- The body of the constructor, once the acceptor is open.
unfoldable pub open_accept : Network → Listener
unfolding start_accept modify
open_accept n = (start_accept (record { network = n; accepting = 0 })).1

-- What happens to the listener: the network changes elsewhere, or an accept ends.
pub data Visit : Type 0 where
  elsewhere : Network → Visit
  ended : Bool → Option Endpoint → Visit

-- The listener behind code that returns; an exception ends the thread that runs the handlers.
abbrev returned : Result (Unit {0}) × Listener → Option Listener
returned (ok a, l) = some l
returned (throw e, l) = none
returned (fault, l) = none
returned (hang, l) = none

-- An accept ends only if one is under way.
unfoldable pub end_one : ℕ → Bool → Option Endpoint → Listener → Option Listener
end_one zero error e l = none
end_one (suc k) error e l = returned (end_accept error e (record l { accepting = k }))

unfoldable pub visit : Visit → Listener → Option Listener
visit (elsewhere n) l = some (record l { network = n })
visit (ended error e) l = end_one l.accepting error e l

unfoldable pub visit_all : List Visit → Listener → Option Listener
visit_all [] l = some l
visit_all (v ∷ visits) l = elim (visit v l) [ none ↦ none | some l' ↦ visit_all visits l' ]

-- Whether an accept ended without an error, but its connection was lost.
abbrev pub lost : Visit → Bool
lost (elsewhere n) = false
lost (ended true e) = false
lost (ended false (some e)) = false
lost (ended false none) = true

abbrev pub any_lost : List Visit → Bool
any_lost [] = false
any_lost (v ∷ visits) = lost v || any_lost visits

accepted_returns : (e : Endpoint) (n : Network) → (handle_accept false (some e) n).0 ≡ ok tt
unfolding handle_accept ◌>>=◌ allocate add_new_peer modify listen update make_peer
accepted_returns e n = rw ((==_iff n.next_peer n.next_peer).1 refl) refl

refused_returns : (e : Option Endpoint) (n : Network) → handle_accept true e n ≡ (ok tt, n)
unfolding handle_accept pure
refused_returns none n = refl
refused_returns (some e) n = refl

visit_keeps :
    (v : Visit) (l : Listener)
    → l.accepting ≡ 1
    → ((lost v ≡ false) × (l' : Listener) × (visit v l ≡ some l') × (l'.accepting ≡ 1))
      ⊎ ((lost v ≡ true) × (visit v l ≡ none))
unfolding visit end_one end_accept on_network start_accept ◌>>=◌ modify handle_accept raise
visit_keeps (elsewhere n) l h = inl (refl, record l { network = n }, refl, h)
visit_keeps (ended true e) l h = inl (
  refl,
  record { network = l.network; accepting = 1 },
  rw (h, refused_returns e l.network) refl,
  refl,
)
visit_keeps (ended false (some e)) l h = inl (
  refl,
  record { network = (handle_accept false (some e) l.network).1; accepting = 1 },
  rw (h, accepted_returns e l.network) refl,
  refl,
)
visit_keeps (ended false none) l h = inr (refl, rw h refl)

-- The rest of the visits meets what the first one leaves.
rest_of :
    (visits : List Visit) (o : Option Listener) {r : Option Listener}
    → r ≡ o
    → elim r as (λ _. Option Listener) [ none ↦ none | some l ↦ visit_all visits l ]
      ≡ elim o as (λ _. Option Listener) [ none ↦ none | some l ↦ visit_all visits l ]
rest_of visits o e =
    ap (λ r. elim r as (λ _. Option Listener) [ none ↦ none | some l ↦ visit_all visits l ]) e

visit_all_keep :
    (visits : List Visit) (l : Listener)
    → l.accepting ≡ 1
    → ((any_lost visits ≡ false)
        × (l' : Listener) × (visit_all visits l ≡ some l')
        × (l'.accepting ≡ 1))
      ⊎ ((any_lost visits ≡ true) × (visit_all visits l ≡ none))
unfolding visit_all
visit_all_keep [] l h = inl (refl, l, refl, h)
visit_all_keep (v ∷ visits) l h = elim (visit_keeps v l h) [
  | inr (is_lost, ends) ↦ inr (rw is_lost refl, rest_of visits none ends)
  | inl (not_lost, l1, first, one) ↦
      let onward = rest_of visits (some l1) first in
      elim (visit_all_keep visits l1 one) [
        | inl (kept, l2, rest, last) ↦ inl (rw not_lost kept, l2, onward ∙ rest, last)
        | inr (is_lost, rest) ↦ inr (rw not_lost is_lost, onward ∙ rest)
      ]
]

-- From the constructor on, whatever accepts end and however the network changes in between, one of two
-- things holds. Either no accept without an error has met a connection lost before its remote endpoint
-- was read; then every handler has returned, and exactly one accept is under way. Or there was such an
-- accept; then an exception has ended the thread that runs the handlers.
pub listener_accepts_until_lost :
    (visits : List Visit) (n : Network)
    → ((any_lost visits ≡ false)
        × (l : Listener) × (visit_all visits (open_accept n) ≡ some l)
        × (l.accepting ≡ 1))
      ⊎ ((any_lost visits ≡ true) × (visit_all visits (open_accept n) ≡ none))
unfolding open_accept start_accept modify
listener_accepts_until_lost visits n = visit_all_keep visits (open_accept n) refl
