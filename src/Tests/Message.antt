-- ===== src/Tests/Message.antt =====
-- A message, a connection that is a queue of bytes, and uses of the theorems on messages.
use krproject.Base.{◌≡◌, refl, [], ◌∷◌, ◌++◌, length, arith}
use krproject.Base.Int.{pos}
use krproject.Message.{
  Bytes, KrMessage, Net, take, drop, message_head_dump, message_head_parse, message_read,
  message_write,
}
use krproject.Message.RoundTrip.{Fits, padded, message_head_parse-message_head_dump}
use krproject.Message.Channel.{Lossless, Received, message_read-message_write}

-- an event to detect, from a client without a name
abbrev event : KrMessage
event = record {
  msgtype = pos 60;
  msgid = b'7' ∷ [];
  serverid = b'k' ∷ b'r' ∷ [];
  clientid = [];
  datasrc = pos 1;
  msglen = pos 2;
  msgbuf = b'h' ∷ b'i' ∷ [];
}

event-Fits : Fits event
event-Fits = record {
  msgtype = omega arith;
  msgid = omega arith;
  serverid = omega arith;
  clientid = omega arith;
  datasrc = omega arith;
  msglen = omega arith;
  no_zero = (refl, refl, refl);
}

abbrev pipe : Net Bytes
pipe = record {
  write = λ xs s. (pos (length xs), s ++ xs);
  read = λ n s. (pos n, take n s, drop n s);
}

pipe-Lossless : Lossless pipe
pipe-Lossless = record {
  pending = λ s. s;
  written = λ xs s. refl;
  write = λ xs s. refl;
  got = λ n s h. refl;
  bytes = λ n s h. refl;
  read = λ n s h. refl;
}

message_head_parse-message_head_dump_example :
    message_head_parse (message_head_dump event).1 ≡ record (padded event) { msgbuf = [] }
message_head_parse-message_head_dump_example = message_head_parse-message_head_dump event event-Fits

message_read-message_write_example :
    Received pipe pipe-Lossless (padded event) (message_read pipe (message_write pipe event []).2)
unfolding pipe-Lossless
message_read-message_write_example =
    message_read-message_write pipe pipe-Lossless event [] event-Fits refl refl
