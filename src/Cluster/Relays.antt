-- ===== src/Cluster/Relays.antt =====
-- What a node does with a broadcast, as far as the other nodes are concerned.
use rac_kun.Network.{sent, started, shown}
use rac_kun.Cluster.{Packet, packets, quiet, listening, suc}
use rac_kun.Cluster.Routing.{
  Routes, datum, knows, knows-Holds, rerouted, fresh-Routes, forward-Routes,
}
use rac_kun.Network.AtMostOnce.{handled-Holds}
use rac_kun.Network.Duplicates.{duplicate_ignored}
use rac_kun.Network.Send.Wire.{sends, stamp_now}
use rac_kun.Network.Send.{broadcast_data, broadcast, stamped, local_group_id, forward}
use rac_kun.Network.Handlers.{handle_incoming_message, success}
use rac_kun.Network.Logs.{find_log}
use rac_kun.Network.{Network, Env, Event, GroupRef, now, make_channel_marker}
use rac_kun.Group.{Group}
use rac_kun.Ring.{PeerMap}
use rac_kun.Message.{Message, serialize, make_stamp}
use rac_kun.Message.RoundTrip.{IsMessage}
use rac_kun.Exec.{◌>>=◌, gets, pointee}
use rac_kun.OrdMap.{OrdMap}
use rac_kun.Peer.{Store, PeerRef, is_known}
use rac_kun.Text.{Bytes}
use rac_kun.Prelude.{
  ◌≡◌, refl, some, ◌∷◌, [], ℕ, List, true, false, Option-cases, inl, inr, ap, if◌then◌else◌, sym,
  ◌∙◌,
}

-- The part of a node that routes depend on.
pub record View : Type 0 where
  pub store : Store
  pub group_store : GroupRef → Group
  pub groups : OrdMap Bytes GroupRef
  pub channel_markers : OrdMap Bytes Bytes

abbrev pub view : Network → View
view n = record {
  store = n.store;
  group_store = n.group_store;
  groups = n.groups;
  channel_markers = n.channel_markers;
}

-- A packet to each peer of a map, the last one first.
abbrev pub posts : ℕ → Bytes → PeerMap → List Packet → List Packet
posts i msg [] acc = acc
posts i msg ((k, p) ∷ m) acc = posts i msg m (record { from = i; to = p; bytes = msg } ∷ acc)

packets-sends :
    (i : ℕ) (msg : Bytes) (m : PeerMap) (es : List Event)
    → packets i (sends msg m es) ≡ posts i msg m (packets i es)
packets-sends i msg [] es = refl
packets-sends i msg ((k, p) ∷ m) es = packets-sends i msg m (Event.sent p msg ∷ es)

-- The node `i`, whose events have begun anew, knows the message afterwards, and has passed it on if it
-- did not know it before.
pub record Relays (i : ℕ) (m : Message) (succs : PeerMap) (n n' : Network) : Type 0 where
  pub same_view : view n' ≡ view n
  pub informed : knows m n' ≡ true
  pub passed_on : packets i n'.events ≡ (if knows m n then [] else posts i (serialize m) succs [])

-- The lines a node displays, the last one first.
abbrev pub lines_shown : List Event → List Bytes
lines_shown [] = []
lines_shown (sent p msg ∷ events) = lines_shown events
lines_shown (listening p ∷ events) = lines_shown events
lines_shown (started t p time ∷ events) = lines_shown events
lines_shown (shown p content ∷ events) = content ∷ lines_shown events

lines_shown-sends :
    (msg : Bytes) (m : PeerMap) (es : List Event) → lines_shown (sends msg m es) ≡ lines_shown es
lines_shown-sends msg [] es = refl
lines_shown-sends msg ((k, p) ∷ m) es = lines_shown-sends msg m (Event.sent p msg ∷ es)

-- The node that receives the message displays its content, if it did not know it before.
pub record Receives (i : ℕ) (m : Message) (content : Bytes) (succs : PeerMap) (n n' : Network)
    : Type 0 where
  pub relays : Relays i m succs n n'
  pub displayed : lines_shown n'.events ≡ (if knows m n then [] else content ∷ [])

module _ (env : Env) (stamp marker content : Bytes) (i : ℕ) where
  pub reception-Receives :
      (fuel : ℕ) (p : PeerRef) (n : Network) (r : Routes marker n)
      → IsMessage (datum stamp marker content)
      → (n.store p).local ≡ false
      → is_known (n.store p) ≡ true
      → Receives i
          (datum stamp marker content)
          content
          (n.group_store r.group).successors
          n
          (handle_incoming_message env fuel success
            (serialize (datum stamp marker content))
            p
            (quiet n)).1
  reception-Receives fuel p n r v remote known =
      let m = datum stamp marker content in
      let r' = rerouted r n.logs [] in
      let n' = (handle_incoming_message env fuel success (serialize m) p (quiet n)).1 in
      elim (Option-cases (find_log m n.logs)) [
        | inr (l, e) ↦
            let done = duplicate_ignored env fuel m p (quiet n) v remote e in
            let holds = handled-Holds env fuel m p (quiet n) v remote known (ap (λ o. o.0) done) in
            record {
              relays = record {
                same_view = ap (λ o. view o.1) done;
                informed = knows-Holds m n' holds;
                passed_on = ap (λ o. packets i o.1.events) done ∙ rw e refl;
              };
              displayed = ap (λ o. lines_shown o.1.events) done ∙ rw e refl;
            }
        | inl e ↦
            let (ls, done) =
              fresh-Routes stamp marker content env fuel p (quiet n) r' v remote known e in
            let holds = handled-Holds env fuel m p (quiet n) v remote known (ap (λ o. o.0) done) in
            record {
              relays = record {
                same_view = ap (λ o. view o.1) done;
                informed = knows-Holds m n' holds;
                passed_on =
                    ap (λ o. packets i o.1.events) done
                    ∙ packets-sends i (serialize m) (n.group_store r.group).successors
                        (listening p ∷ [])
                    ∙ rw e refl;
              };
              displayed =
                  ap (λ o. lines_shown o.1.events) done
                  ∙ ap (λ ls. content ∷ ls)
                      (lines_shown-sends (serialize m) (n.group_store r.group).successors
                        (listening p ∷ []))
                  ∙ rw e refl;
            }
      ]

-- The node's own broadcast, under the marker of its local group, as it is stamped.
module _ (env : Env) (content : Bytes) where
  abbrev pub own_marker : GroupRef → Network → Bytes
  own_marker g n = make_channel_marker env (n.group_store g).id (n.group_store g).id

  abbrev pub own_stamp : GroupRef → Network → Bytes
  own_stamp g n = (stamp_now env (datum [] (own_marker g n) content) n).stamp

  abbrev pub own_datum : GroupRef → Network → Message
  own_datum g n = datum (own_stamp g n) (own_marker g n) content

  -- The node in which the message is forwarded.
  abbrev ticked : Network → Network
  ticked n = record n { clock = suc n.clock; events = [] }

  broadcast_data-forward :
      (g : GroupRef) (n : Network)
      → n.local_group ≡ some g
      → broadcast_data env content (quiet n) ≡ forward env g (own_datum g n) (ticked n)
  unfolding broadcast_data ◌>>=◌ gets pointee local_group_id broadcast stamped now make_stamp
  broadcast_data-forward g n ours = rw ours refl

  pub broadcast_data-Relays :
      (i : ℕ) (g : GroupRef) (n : Network) (r : Routes (own_marker g n) n)
      → n.local_group ≡ some g
      → r.group ≡ g
      → knows (own_datum g n) n ≡ false
      → Relays i
          (own_datum g n)
          (n.group_store r.group).successors
          n
          (broadcast_data env content (quiet n)).1
  broadcast_data-Relays i g n r ours here fresh =
      let m = own_datum g n in
      let r0 : Routes (own_marker g n) (ticked n) = record {
        id = r.id;
        group = r.group;
        marked = r.marked;
        grouped = r.grouped;
        remote = r.remote;
      } in
      let (ls, on_wire, holds) = forward-Routes m (own_marker g n) refl env (ticked n) r0 in
      let done =
        broadcast_data-forward g n ours
        ∙ ap (λ h. forward env h m (ticked n)) (sym here)
        ∙ on_wire in
      record {
        same_view = ap (λ o. view o.1) done;
        informed = ap (λ o. knows m o.1) done ∙ holds;
        passed_on =
            ap (λ o. packets i o.1.events) done
            ∙ packets-sends i (serialize m) (n.group_store r.group).successors []
            ∙ rw fresh refl;
      }
