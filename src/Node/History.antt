-- ===== src/Node/History.antt =====
-- What holds in every run of a node, whatever comes from outside and in whatever order.
use rac_kun.Network.AtMostOnce.{find_log-Holds, Holds-Extends, handled-Holds}
use rac_kun.Network.Duplicates.{recounted, duplicate_ignored}
use rac_kun.Network.Handlers.{success}
use rac_kun.Message.RoundTrip.{IsMessage}
use rac_kun.Message.{Message, serialize}
use rac_kun.Prelude.{◌≡◌, false}
use rac_kun.Node.{
  run, react, List, Stimulus, received, ◌∷◌, ok, is_known, ℕ, PeerRef, true,
  handle_incoming_message,
}
use rac_kun.Network.{Env, make_network, Network}
use rac_kun.Network.AppendOnly.{Extends-IsFrame, Extends-IsTrail}
use rac_kun.Node.Trail.{run_steps}
use rac_kun.Network.History.{Extends, Extends-IsPreorder, AllDistinct, stamps}
use rac_kun.Peer.{Peer}

module _ (env : Env) where
  pub run-Extends : (inputs : List Stimulus) (n : Network) → Extends n (run env inputs n)
  run-Extends inputs n = run_steps Extends env inputs n

  -- In every run of a node from its start, whatever comes from outside and in whatever order, no two
  -- messages in the log have the same stamp.
  pub run-AllDistinct :
      (local : Peer) (inputs : List Stimulus)
      → AllDistinct (stamps (run env inputs (make_network local)).logs)
  unfolding make_network
  run-AllDistinct local inputs = (run-Extends inputs (make_network local)).distinct tt

  -- After a node has handled a message, whose fields have their widths, from a known remote peer, and
  -- the handler has returned, then whatever comes from outside next and in whatever order, the same
  -- message from any peer that is remote then is only counted for that peer: it is not processed, not
  -- passed on, and nothing is sent.
  pub handled_once_in_run :
      (fuel again : ℕ) (m : Message) (p q : PeerRef) (n : Network) (inputs : List Stimulus)
      → IsMessage m
      → (n.store p).local ≡ false
      → is_known (n.store p) ≡ true
      → (handle_incoming_message env fuel success (serialize m) p n).0 ≡ ok tt
      → ((run env (received fuel success (serialize m) p ∷ inputs) n).store q).local ≡ false
      → let later = run env (received fuel success (serialize m) p ∷ inputs) n in
        handle_incoming_message env again success (serialize m) q later
        ≡ (ok tt, recounted env m q later)
  unfolding run react
  handled_once_in_run fuel again m p q n inputs v remote known returns remote' =
      let after = (handle_incoming_message env fuel success (serialize m) p n).1 in
      let later = run env inputs after in
      let (l, logged) = find_log-Holds m later (
        Holds-Extends m (run-Extends inputs after)
          (handled-Holds env fuel m p n v remote known returns)) in
      duplicate_ignored env again m q later v remote' logged
