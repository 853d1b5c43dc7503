-- ===== src/Lib.antt =====
-- rac-kun: a node of a peer-to-peer protocol in which groups of peers are arranged on hash rings.
--
-- A node keeps its view of the system in one object, `Network`: the peers it is connected to, the
-- groups it knows, the pending JOIN requests, a token that lets one peer join at a time, the
-- markers of its channels and a log of messages. A group has five rings (`Group`, `Ring`), in each
-- of which its peers stand in the order of hash(peer id ‖ ring index); a node sends a broadcast to
-- its successors on the rings. Messages arrive as bytes (`parse_message`), and one handler for
-- each message class changes the node, sends answers and starts timers.
--
-- The files, and the code that each is about:
-- - Prelude: tests and conditionals on numbers, and lemmas on lists. Outcome: results of code that
--   may raise, dereference a null pointer, or not end. Text: `std::string` as a list of bytes, and
--   its order. OrdMap: `std::map` as its entries in order; OrdMap.Laws has its laws.
-- - Utils: include/Utils.hpp and src/Utils.cpp, with `itos`, the port reader, `parse_input` and
--   `make_hash`. Utils.Decimal and Utils.Split are about ports and lines of input.
-- - Peer: src/Peer.cpp. A `shared_ptr<Peer>` is a number that names a record in a store, so that a
--   write through one pointer is seen through every other.
-- - Ring: src/Ring.cpp. Ring.Order says when a ring is in order, Ring.Modulo has arithmetic of
--   places, Ring.Cycle and Ring.Relay are about successors and predecessors, Ring.Updates about
--   members, and Ring.Refinement about histories of a ring, whose specification is a map from keys
--   to peers, and Ring.Canonical about the rings of two nodes.
-- - Group: src/Group.cpp. Group.Members is about the rings' members, Group.Neighbours about
--   `update_neighbours`.
-- - Message: src/*Message.cpp and `parse_message` of src/Utils.cpp; Message.RoundTrip,
--   Message.Parsed, Message.Received and Message.Readable relate the two.
-- - Exec: methods that change an object and may not return. What was written before an exception
--   stays written. Exec.Follows lifts a relation on states that is a preorder to whole methods.
-- - Network: src/Network.cpp, include/Network.hpp. The methods are in Network.Logs (`log_message`,
--   `find_log`), Network.Send (`send`, `broadcast`, `send_ready`), Network.Join (`join`,
--   `connect_peer`, `answer_join_request`, `acknowledge_join`), Network.Disconnect
--   (`handle_disconnect`) and Network.Handlers (`handle_incoming_message`, with a definition for
--   each case of its switch). Network.Print has `print_rings` and `print_logs` as the text that
--   they print (with `display_rings` and `display` of src/Group.cpp and src/Ring.cpp;
--   Message.Display and Utils.Display have the rest). Network.Frame and Network.Trail have the
--   rules for relations between states that most methods keep. Network.Housed is about the list of
--   groups. Network.History, Network.AppendOnly, Network.Reception, Network.Duplicates and
--   Network.AtMostOnce are about the log; Network.Pending and Network.Token about the pending
--   peers and the join token, Network.Place about the local peer's state and group;
--   Network.Send.Wire and Network.Join.Request about what is sent, Network.Disconnect.Ends,
--   Network.Disconnect.Renamed and Network.Faults about how methods end, Network.Unasked about a
--   READY Notification of a stranger, Network.Answered about the answer to a JOIN request,
--   Network.Acknowledged and Network.Joined about the two sides of a JOIN Acknowledgement,
--   Network.Ready about the READY signal. Network.Wide and the modules below it are about the
--   widths of ids, keys and group ids, which make the log readable; Network.Retained about logged
--   messages that stay.
-- - Settings: src/Config.cpp. `init_settings` gets what the parsers of Boost.Program_options leave
--   in their maps. Settings.Sources says which map a setting comes from.
-- - Node: src/Listener.cpp (`handle_accept`) and src/Main.cpp (a round of the console's loop), and
--   runs of a node over a list of what happens to it: messages, lines, connections and timers.
--   Node.History, Node.Token and Node.Place are about all runs; a run that goes on only while the
--   program does is `run_live`. Node.Trail lifts a relation to all runs; Node.Console is about the
--   commands that print, and Node.Readable about `logs` in a run. Node.Accept is the listener of
--   src/Listener.cpp, which counts its calls of `async_accept`. Node.Local is `create_local_peer`
--   of src/Utils.cpp; Node.Local.Short is about its JOIN requests. Node.Start is `main` up to its
--   loop, with the constructor of src/Listener.cpp, and the loop; Node.Start.Laws is about them.
-- - Cluster: several nodes and the packets under way between them; a step delivers any one of them
--   to `handle_incoming_message` of its node. Cluster.Routing and Cluster.Relays say what one node
--   does with a broadcast, Cluster.Spread, Cluster.Flood and Cluster.Count carry this over to
--   runs, and Cluster.Display, Cluster.Broadcast and Cluster.RoundRing say what it comes to.
--   Cluster.Founding is about where the routes come from, and Cluster.Handshake about two nodes of
--   which one lets the other in.
-- - Examples: the theorems at concrete inputs.
--
-- SHA-1, the clock, the host's name, random numbers, the resolver, whether a connection comes
-- about, the port that an acceptor gets and the values of the options are parameters (`sha1`, the
-- records `Env` and `Machine`, and arguments); the theorems hold for all of them. No theorem
-- assumes that hashes differ: where two keys must, it is a premise. What leaves the node is a list
-- of events: messages sent, reads and timers started, data shown. A handler, or a line typed at
-- the console, runs to its end before the next one starts; that the console's thread may run
-- beside the one of the io_service is not modelled.
--
-- A read of the source ends with at most MESSAGE_SIZE = 1024 bytes (include/Config.hpp); the model
-- hands a packet of any length to its handler in one piece, and has no partial reads or writes, so
-- that where a text has to arrive whole, the theorem asks that its message fits.
-- `Peer::get_address` and `Peer::get_port` read the remote endpoint of a socket, which raises once
-- the connection is lost: this is modelled where a connection has just been accepted, while
-- elsewhere a peer keeps the endpoint that it had. The port of a JOIN request without one is not
-- initialised in the source, and 0 in the model.
--
-- Loops over maps are recursions over their entries. The one loop that may not end, the search for
-- a lost peer's group in `handle_disconnect`, runs on fuel, and out of fuel it is `hang`; no
-- theorem assumes more fuel than one round.
--
-- Not modelled: what is printed besides the rings and the log (debug output, the help of the
-- options), the start of the threads in src/Main.cpp and Boost and Crypto++ themselves.
pub mod Prelude
pub mod Outcome
pub mod Text
pub mod OrdMap
pub mod Utils
pub mod Peer
pub mod Ring
pub mod Settings
pub mod Group
pub mod Message
pub mod Exec
pub mod Network
pub mod Node
pub mod Cluster
pub mod Examples
