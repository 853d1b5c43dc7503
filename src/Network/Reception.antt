-- ===== src/Network/Reception.antt =====
-- Whatever the node receives, its log only grows, and no stamp is in it twice.
use rac_kun.Network.AppendOnly.{Extends-IsFrame, Extends-IsTrail}
use rac_kun.Network.Trail.Reception.{Follows-handle_incoming_message}
use rac_kun.Network.History.{Extends-IsPreorder, Extends}
use rac_kun.Network.Handlers.{handle_incoming_message, ReadError}
use rac_kun.Network.{Env, ℕ, Bytes, PeerRef, Network}

module _ (env : Env) where
  -- Whatever a peer sends and however the handler ends, the log keeps what it has in its order, and
  -- stamps that are distinct stay distinct.
  pub handle_incoming_message-Extends :
      (fuel : ℕ) (error : ReadError) (received : Bytes) (emitter : PeerRef) (n : Network)
      → Extends n (handle_incoming_message env fuel error received emitter n).1
  handle_incoming_message-Extends fuel error received emitter =
      (Follows-handle_incoming_message {R = Extends} env fuel error received emitter).at
