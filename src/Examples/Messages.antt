-- ===== src/Examples/Messages.antt =====
-- Messages with fields of their widths, ports, and a line of input.
use rac_kun.Message.Parsed.{parse_message_again}
use rac_kun.Message.{parse_body, byte_at, string_at, ready}
use rac_kun.Outcome.{ok}
use rac_kun.Prelude.{◌≡◌, arith, true, refl, ◌∷◌}
use rac_kun.Text.{Bytes, codes}
use rac_kun.Message.RoundTrip.{IsMessage, parse_message-serialize}
use rac_kun.Message.{Message, parse_message, serialize, join_notif}

abbrev digest : Bytes
digest = codes "0123456789abcdefghij"

abbrev notification : Message
notification = record {
  stamp = digest;
  body = join_notif digest true digest digest (codes "abcde") (codes "10.0.0.1") 5000;
}

notification-IsMessage : IsMessage notification
notification-IsMessage = record {
  stamp_length = refl;
  body_fits = (refl, refl, refl, refl, ground arith, omega arith);
}

parse_message-serialize_example : parse_message (serialize notification) ≡ ok notification
parse_message-serialize_example = parse_message-serialize notification notification-IsMessage

-- A READY message whose stamp is cut short.
abbrev cut_short : Message
cut_short = record { stamp = codes "abc"; body = ready }

cut_short-parses : parse_message (4 ∷ codes "abc") ≡ ok cut_short
unfolding parse_message parse_body byte_at string_at
cut_short-parses = refl

parse_message_again_example : parse_message (serialize cut_short) ≡ ok cut_short
parse_message_again_example = parse_message_again (4 ∷ codes "abc") cut_short cut_short-parses
