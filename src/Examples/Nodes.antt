-- ===== src/Examples/Nodes.antt =====
-- Nodes that receive a message, lose a peer, or cannot reach one. The hash is its own input, and no
-- address resolves.
use rac_kun.Node.Token.{token_free_none_waits}
use rac_kun.Network.Join.{allocate, add_new_peer}
use rac_kun.Network.Pending.{Idles}
use rac_kun.Network.Disconnect.Ends.{search_group_ends}
use rac_kun.Message.{Body}
use rac_kun.Network.Send.{send_all, send_each}
use rac_kun.Utils.{parse_input, find_char}
use rac_kun.Node.History.{handled_once_in_run, run-AllDistinct}
use rac_kun.Node.{run, received, react, typed, run_line, accepted, run_live, handle_accept, live}
use rac_kun.Network.Faults.{unknown_marker_faults, search_group_hangs}
use rac_kun.Network.Duplicates.{recounted}
use rac_kun.Outcome.{hang, fault, ok, Result}
use rac_kun.Network.Disconnect.{search_group, each_group}
use rac_kun.Exec.{◌>>=◌, try_catch, modify}
use rac_kun.Prelude.{◌∷◌, none, refl, ◌≡◌, false, some, true, ap, subst, sym, All}
use rac_kun.Group.{make_group}
use rac_kun.Network.Logs.{
  find_log, find_stamp, log_message, insert_log, new_control, acknowledge, modify_log, ack_message,
}
use rac_kun.Message.RoundTrip.{IsMessage}
use rac_kun.Text.{Bytes, codes, bytes_less, lt_bytes}
use rac_kun.Network.History.{AllDistinct, stamps}
use rac_kun.Message.{Message, payload, serialize, serialize_body, ready, parse_message, string_at}
use rac_kun.Network.Handlers.{
  handle_incoming_message, success, receive, receive_new, pass_on, process, handle_ready,
}
use rac_kun.Peer.{Peer, set_state, connected, init, make_peer, is_known, update}
use rac_kun.Examples.{sha, []}
use rac_kun.OrdMap.{find, assign}
use rac_kun.Network.{Env, Network, make_network, MessageLog, listen, listening, id_of, write_group}

abbrev pub env : Env
env = record {
  sha1 = sha;
  time = λ i. i;
  resolve = λ i ip port. none;
  connects = λ i e. false;
  listen_port = 5000;
}

abbrev pub digest : Bytes
digest = codes "0123456789abcdefghij"

abbrev pub data_message : Message
data_message = record { stamp = digest; body = payload digest (codes "hello") }

pub data_message-IsMessage : IsMessage data_message
data_message-IsMessage = record { stamp_length = refl; body_fits = refl }

-- A connected peer behind every reference.
abbrev pub remote : Peer
remote = set_state connected (init digest [] (make_peer (codes "10.0.0.1") 4000 false))

abbrev pub start : Network
start = make_network remote

-- The message is in the log.
abbrev logged : MessageLog
logged = record { message = serialize data_message; control = [] }

abbrev pub informed : Network
informed = record start { logs = logged ∷ [] }

informed-logged : find_log data_message informed.logs ≡ some logged
unfolding find_log find_stamp serialize serialize_body lt_bytes
informed-logged = refl

pub start-remote : (start.store 1).local ≡ false
unfolding make_network set_state init make_peer
start-remote = refl

start-known : is_known (start.store 1) ≡ true
unfolding make_network set_state init make_peer
start-known = refl

start-fresh : find_log data_message start.logs ≡ none
unfolding find_log find_stamp make_network
start-fresh = refl

start-no_marker : find digest start.channel_markers ≡ none
unfolding find make_network
start-no_marker = refl

start-no_group : find [] start.groups ≡ none
unfolding find make_network
start-no_group = refl

unknown_marker_faults_example :
    (handle_incoming_message env 0 success (serialize data_message) 1 start).0 ≡ fault
unknown_marker_faults_example =
    unknown_marker_faults env 0 data_message 1 start data_message-IsMessage refl start-remote
      start-known start-fresh start-no_marker start-no_group

search_group_hangs_example : (search_group env 9 1 ((digest, 0) ∷ []) start).0 ≡ hang
unfolding make_network make_group find
search_group_hangs_example = search_group_hangs env 9 1 digest 0 [] start refl

abbrev pub ready_message : Message
ready_message = record { stamp = digest; body = ready }

ready_message-IsMessage : IsMessage ready_message
ready_message-IsMessage = record { stamp_length = refl; body_fits = tt }

abbrev handled : Result (Unit {0}) × Network
handled = handle_incoming_message env 0 success (serialize ready_message) 1 start

-- The run: the message is logged, and counted for its sender.
handled_lem : handled ≡ (
  ok tt,
  record start {
    events = listening 1 ∷ [];
    logs = record { message = serialize ready_message; control = (digest, 1) ∷ [] } ∷ [];
  },
)
unfolding handle_incoming_message make_network ◌>>=◌ listen set_state init make_peer try_catch
    parse_message serialize string_at serialize_body receive find_log find_stamp receive_new
    log_message insert_log new_control acknowledge modify_log pass_on process handle_ready
    each_group ack_message find assign lt_bytes
handled_lem = refl

-- Then a line is typed at the console.
abbrev later : Network
later =
    run env (received 0 success (serialize ready_message) 1 ∷ typed (codes "send hello") ∷ []) start

later_remote : (later.store 2).local ≡ false
unfolding run react run_line parse_input send_all send_each lt_bytes make_network ◌>>=◌ set_state
    init make_peer find_char
later_remote =
    subst (λ o. ((run env (typed (codes "send hello") ∷ []) o.1).store 2).local ≡ false)
      (sym handled_lem) refl

handled_once_in_run_example :
    handle_incoming_message env 0 success (serialize ready_message) 2 later
    ≡ (ok tt, recounted env ready_message 2 later)
handled_once_in_run_example =
    handled_once_in_run env 0 0 ready_message 1 2 start (typed (codes "send hello") ∷ [])
      ready_message-IsMessage start-remote start-known (ap (λ o. o.0) handled_lem) later_remote

run-AllDistinct_example : AllDistinct (
    stamps
      (run env
        (accepted false (some (record { address = []; port = 1 })) ∷ typed (codes "quit") ∷ [])
        (make_network remote)).logs)
run-AllDistinct_example =
    run-AllDistinct env remote
      (accepted false (some (record { address = []; port = 1 })) ∷ typed (codes "quit") ∷ [])

-- A connection is accepted: its peer waits, without an identity.
abbrev accepts : Network
accepts = (handle_accept false (some (record { address = []; port = 1 })) start).1

accepts-live :
    run_live env (accepted false (some (record { address = []; port = 1 })) ∷ []) start
    ≡ some accepts
unfolding run_live live handle_accept ◌>>=◌ allocate add_new_peer modify listen make_network
    make_peer update init set_state
accepts-live = refl

accepts-token : accepts.join_token ≡ true
unfolding handle_accept ◌>>=◌ allocate add_new_peer modify listen make_network make_peer update init
    set_state
accepts-token = refl

token_free_none_waits_example : All (Idles accepts.store) accepts.new_peers
token_free_none_waits_example =
    token_free_none_waits env remote
      (accepted false (some (record { address = []; port = 1 })) ∷ []) accepts-live accepts-token

-- A group that holds the peer.
abbrev joined : Network
joined = write_group 0 (record (make_group []) { peers = (digest, 1) ∷ [] }) start

joined-peer : find (id_of joined 1) (joined.group_store 0).peers ≡ some 1
unfolding find make_network set_state init make_peer lt_bytes
joined-peer = refl

search_group_ends_example : (search_group env 1 1 ((digest, 0) ∷ []) joined).0 ≡ ok tt
search_group_ends_example = search_group_ends env 0 1 1 digest 0 [] joined joined-peer

-- The peer is among the peers under its id, and another peer has the join token.
abbrev known_peer : Network
known_peer = record joined { peers = (digest, 1) ∷ []; join_token = false }

abbrev another : Bytes
another = codes "jihgfedcba9876543210"

abbrev second_request : Message
second_request = record { stamp = digest; body = Body.join another (codes "BBBBB") 4000 }
