-- ===== src/Message/Display.antt =====
-- The `display` of the message classes (src/*Message.cpp), as the text that it prints.
use rac_kun.Message.{Message, Body, join, join_notif, join_ack, ready, ready_notif, payload}
use rac_kun.Utils.Display.{display_chars, endl}
use rac_kun.Utils.{itos}
use rac_kun.Text.{Bytes, codes}
use rac_kun.Prelude.{ℕ, [], ◌∷◌, ◌++◌}

-- `MessageTypeNames`, at the type of a message
abbrev pub message_type_name : Body → Bytes
message_type_name (join _ _ _) = codes "Join Request"
message_type_name (join_notif _ _ _ _ _ _ _) = codes "Join Notification"
message_type_name (join_ack _ _ _) = codes "Join Acknowledgement"
message_type_name ready = codes "Ready Signal"
message_type_name ready_notif = codes "Ready Notification"
message_type_name (payload _ _) = codes "Data"

-- A line behind a tab.
abbrev pub field : Bytes → Bytes → Bytes
field name value = 9 ∷ (name ++ (value ++ endl))

-- What the `display` of each class adds to the one of the base class.
abbrev display_join : Bytes → Bytes → ℕ → Bytes
display_join id pub_k port =
    field (codes "Peer ID: ") id
    ++ (field (codes "Public key: ") pub_k ++ field (codes "Port: ") (itos port))

abbrev display_join_notif : Bytes → Bytes → Bytes → Bytes → ℕ → Bytes
display_join_notif group_id peer_id pub_k ip port =
    field (codes "Group ID: ") (display_chars group_id 10)
    ++ (field (codes "Peer ID: ") peer_id
        ++ (field (codes "Public key: ") pub_k
            ++ (field (codes "IP: ") ip ++ field (codes "Port: ") (itos port))))

abbrev display_join_ack : Bytes → Bytes → Bytes → Bytes
display_join_ack group_id peer_id pub_k =
    field (codes "Group ID: ") (display_chars group_id 10)
    ++ (field (codes "Peer ID: ") peer_id ++ field (codes "Public key: ") pub_k)

abbrev display_data : Bytes → Bytes
display_data content = field (codes "Data: ") content

abbrev pub display_body : Body → Bytes
display_body (join id pub_k port) = display_join id pub_k port
display_body (join_notif marker channel group_id peer_id pub_k ip port) =
    display_join_notif group_id peer_id pub_k ip port
display_body (join_ack group_id peer_id pub_k) = display_join_ack group_id peer_id pub_k
display_body ready = []
display_body ready_notif = []
display_body (payload marker content) = display_data content

unfoldable pub display : Message → Bytes
display m =
    (message_type_name m.body ++ endl)
    ++ ((display_chars m.stamp 10 ++ endl) ++ display_body m.body)
