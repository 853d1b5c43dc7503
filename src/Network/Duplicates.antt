-- ===== src/Network/Duplicates.antt =====
-- A message that comes again is counted, and goes nowhere.
use rac_kun.Prelude.{◌≡◌, false, some, refl}
use rac_kun.Network.Logs.{modify_log, stamp_of, find_log}
use rac_kun.Exec.{◌>>=◌, try_catch}
use rac_kun.Network.Handlers.{handle_incoming_message, receive, success}
use rac_kun.Message.{Message, serialize}
use rac_kun.Message.RoundTrip.{IsMessage, parse_message-serialize}
use rac_kun.Network.{Network, Env, ◌>>=◌, PeerRef, listen, listening, ◌∷◌, ℕ, MessageLog, id_of, ok}

module _ (env : Env) where
  -- What a reception leaves of a message that is in the log: one more count for its sender.
  abbrev pub recounted : Message → PeerRef → Network → Network
  recounted m p n = record n {
    events = listening p ∷ n.events;
    logs = modify_log (stamp_of (serialize m)) (id_of n p) n.logs;
  }

  -- If a message whose fields have their widths comes from a remote peer and its stamp is in the log
  -- already, the reception starts the next read and counts the message for that peer, and has no other
  -- effect: the message is not processed, not passed on, and nothing is sent.
  pub duplicate_ignored :
      (fuel : ℕ) (m : Message) (p : PeerRef) (n : Network) {l : MessageLog}
      → IsMessage m
      → (n.store p).local ≡ false
      → find_log m n.logs ≡ some l
      → handle_incoming_message env fuel success (serialize m) p n ≡ (ok tt, recounted m p n)
  unfolding handle_incoming_message ◌>>=◌ listen receive try_catch
  duplicate_ignored fuel m p n v remote logged =
      rw (remote, parse_message-serialize m v, logged) refl
