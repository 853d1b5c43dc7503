-- ===== src/Network/Print.antt =====
-- What the console commands `rings` and `logs` do: `print_rings` and `print_logs` of src/Network.cpp,
-- with `display_rings` of src/Group.cpp and `display` of src/Ring.cpp. The state is the text printed.
pub mod Laws
use rac_kun.Message.{parse_message}
use rac_kun.Message.Display.{display}
use rac_kun.Network.{Network, MessageLog, GroupRef, id_of}
use rac_kun.Group.{Group}
use rac_kun.Ring.{Ring, PeerMap}
use rac_kun.OrdMap.{OrdMap, same}
use rac_kun.Peer.{Store, PeerState, new, joining, connected}
use rac_kun.Utils.Display.{display_chars, endl}
use rac_kun.Utils.{itos}
use rac_kun.Text.{Bytes, codes, bytes_less}
use rac_kun.Exec.{Exec, ◌>>=◌, ◌>>◌, pure, lift, modify, pointee}
use rac_kun.Prelude.{ℕ, List, [], ◌∷◌, ◌++◌, if◌then◌else◌}

-- `PeerStateNames`
abbrev pub peer_state_name : PeerState → Bytes
peer_state_name new = codes "New"
peer_state_name joining = codes "Joining"
peer_state_name connected = codes "Connected"

-- `Ring::display`
unfoldable pub display_peers : Store → PeerMap → Bytes
display_peers store [] = []
display_peers store ((k, p) ∷ m) =
    ((store p).id ++ (codes " " ++ (peer_state_name (store p).state ++ endl)))
    ++ display_peers store m

abbrev pub display_ring : Store → Ring → Bytes
display_ring store r =
    (codes "Ring index: " ++ (itos r.index ++ endl)) ++ display_peers store r.ring

-- `Group::display_rings`
unfoldable pub display_keys : PeerMap → Bytes
display_keys [] = []
display_keys ((k, p) ∷ m) = (k ++ codes " ; ") ++ display_keys m

unfoldable pub display_each_ring : Store → List Ring → Bytes
display_each_ring store [] = []
display_each_ring store (r ∷ rings) =
    (display_ring store r ++ endl) ++ display_each_ring store rings

abbrev pub display_rings : Store → Group → Bytes
display_rings store g =
    (codes "Peers: " ++ (display_keys g.peers ++ endl)) ++ display_each_ring store g.rings

abbrev pub Printer : Type 0
Printer = Exec Bytes Unit

abbrev pub print : Bytes → Printer
print text = modify (λ out. out ++ text)

unfoldable pub display_neighbours : Store → PeerMap → Bytes
display_neighbours store [] = []
display_neighbours store ((k, p) ∷ m) =
    (codes "- " ++ ((store p).id ++ endl)) ++ display_neighbours store m

-- A round of the loop over the groups.
unfoldable pub print_group : Network → Bytes → GroupRef → Printer
print_group n id g = do
  print (9 ∷ (codes "In group " ++ display_chars id 10))
  ours ← pointee (λ _. n.local_group)
  print (
      (if same (n.group_store g).id (n.group_store ours).id then codes " (LOCAL): " else codes ": ")
      ++ endl)
  print (display_rings n.store (n.group_store g))
  print (
      (codes "My predecessors are:" ++ endl)
      ++ display_neighbours n.store (n.group_store g).predecessors)
  print (
      (codes "My successors are:" ++ endl)
      ++ display_neighbours n.store (n.group_store g).successors)
  print endl

unfoldable pub print_groups : Network → OrdMap Bytes GroupRef → Printer
print_groups n [] = pure tt
print_groups n ((id, g) ∷ m) = do print_group n id g; print_groups n m

unfoldable pub print_rings : Network → Printer
print_rings n = do
  print (codes "This peer: " ++ (id_of n n.local_peer ++ endl))
  print_groups n n.groups

unfoldable pub display_control : OrdMap Bytes ℕ → Bytes
display_control [] = []
display_control ((id, times) ∷ m) =
    (codes "- " ++ (id ++ (codes ": " ++ (itos times ++ endl)))) ++ display_control m

-- A round of the loop over the log. The message is parsed outside any `try`.
unfoldable pub print_log : MessageLog → Printer
print_log l = do
  m ← lift (parse_message l.message)
  print (display m)
  print ((codes "Received from:" ++ endl) ++ (display_control l.control ++ endl))

unfoldable pub print_logs : List MessageLog → Printer
print_logs [] = pure tt
print_logs (l ∷ logs) = do print_log l; print_logs logs
