-- ===== src/Message.antt =====
-- krcoordi/kr_message.c: the messages between processes, with what it uses of `snprintf` and `atoi`.
-- Bytes are numbers; a C string is its bytes before the terminating zero.
pub mod Decimal
pub mod Channel
pub mod RoundTrip
use krproject.Base.{
  ℕ, zero, suc, ◌+◌, ◌-◌, ◌*◌, ◌/◌, ◌%◌, Bool, ◌&&◌, Option, none, some, List, [], ◌∷◌, ◌++◌, ◌==◌,
  ltb, leb, if◌then◌else◌, length,
}
use krproject.Base.Int.{ℤ, pos, negsuc, ltb_ℤ, eqb_ℤ}

abbrev pub Bytes : Type 0
Bytes = List ℕ

-- `T_KRMessage`
pub record KrMessage : Type 0 where
  pub msgtype : ℤ
  pub msgid : Bytes
  pub serverid : Bytes
  pub clientid : Bytes
  pub datasrc : ℤ
  pub msglen : ℤ
  pub msgbuf : Bytes

unfoldable pub take : ℕ → Bytes → Bytes
take zero xs = []
take (suc n) [] = []
take (suc n) (x ∷ xs) = x ∷ take n xs

unfoldable pub drop : ℕ → Bytes → Bytes
drop zero xs = xs
drop (suc n) [] = []
drop (suc n) (x ∷ xs) = drop n xs

abbrev pub blanks : ℕ → Bytes
blanks zero = []
blanks (suc n) = b' ' ∷ blanks n

-- what `%4d` and `%16s` print: blanks up to the width, then the text
abbrev pub pad : ℕ → Bytes → Bytes
pad width text = blanks (width - length text) ++ text

-- the decimal digits of a number below 10 ^ fuel, before `acc`
abbrev pub digits_loop : ℕ → ℕ → Bytes → Bytes
digits_loop zero n acc = acc
digits_loop (suc fuel) n acc =
    let rest = digits_loop fuel (n / 10) ((b'0' + n % 10) ∷ acc) in
    if ltb n 10 then (b'0' + n) ∷ acc else rest

-- `%d` of an `int`, which has at most ten digits
unfoldable pub print_int : ℤ → Bytes
print_int (pos n) = digits_loop 10 n []
print_int (negsuc n) = b'-' ∷ digits_loop 10 (suc n) []

abbrev pub is_digit : ℕ → Bool
is_digit c' = leb b'0' c' && leb c' b'9'

abbrev pub read_digits : ℕ → Bytes → ℕ
read_digits v [] = v
read_digits v (x ∷ xs) = if is_digit x then read_digits (v * 10 + (x - b'0')) xs else v

abbrev pub negated : ℕ → ℤ
negated zero = pos 0
negated (suc n) = negsuc n

-- `atoi`: blanks, a sign, digits
unfoldable pub atoi : Bytes → ℤ
atoi [] = pos 0
atoi (x ∷ xs) =
    let rest = atoi xs in
    if x == b' '
    then rest
    else if x == b'-'
    then negated (read_digits 0 xs)
    else if x == b'+'
    then pos (read_digits 0 xs)
    else pos (read_digits 0 (x ∷ xs))

-- the C string in a buffer
abbrev pub c_string : Bytes → Bytes
c_string [] = []
c_string (x ∷ xs) = if x == 0 then [] else x ∷ c_string xs

-- an empty identifier becomes "-"
abbrev pub or_dash : Bytes → Bytes
or_dash [] = b'-' ∷ []
or_dash (x ∷ xs) = x ∷ xs

abbrev pub with_dashes : KrMessage → KrMessage
with_dashes m = record m {
  msgid = or_dash m.msgid;
  serverid = or_dash m.serverid;
  clientid = or_dash m.clientid;
}

-- the six fields of a header
abbrev pub joined : (t v w x d l : Bytes) → Bytes
joined t v w x d l = t ++ (v ++ (w ++ (x ++ (d ++ l))))

-- `snprintf` of `KR_MSGHEADER_FMT`, without the terminating zero: at most KR_MSGHEADER_LEN bytes
unfoldable pub print_head : KrMessage → Bytes
print_head m = take 80 (
    joined (pad 4 (print_int m.msgtype)) (pad 16 m.msgid) (pad 26 m.serverid) (pad 26 m.clientid)
      (pad 4 (print_int m.datasrc)) (pad 4 (print_int m.msglen)))

-- `kr_message_head_dump`: the message, which it changes, and the header
unfoldable pub message_head_dump : KrMessage → KrMessage × Bytes
message_head_dump m = let m' = with_dashes m in (m', print_head m')

-- `kr_message_head_parse` into a message that is all zero
unfoldable pub message_head_parse : Bytes → KrMessage
message_head_parse head =
    let p₁ = drop 4 head in
    let p₂ = drop 16 p₁ in
    let p₃ = drop 26 p₂ in
    let p₄ = drop 26 p₃ in
    let p₅ = drop 4 p₄ in
    record {
      msgtype = atoi (take 4 head);
      msgid = c_string (take 16 p₁);
      serverid = c_string (take 26 p₂);
      clientid = c_string (take 26 p₃);
      datasrc = atoi (take 4 p₄);
      msglen = atoi (take 4 p₅);
      msgbuf = [];
    }

-- What `kr_net_write` and `kr_net_read` of krutils/kr_net.c do with a connection: the number of bytes
-- or an error, and for a read the bytes.
pub record Net (S : Type 0) : Type 0 where
  pub write : Bytes → S → ℤ × S
  pub read : ℕ → S → ℤ × Bytes × S

abbrev pub size_of : ℤ → ℕ
size_of (pos n) = n
size_of (negsuc n) = 0

module _ {S : Type 0} where
  abbrev pub body_written : KrMessage → ℤ × S → ℤ × S
  body_written m (n, s) = (if eqb_ℤ n m.msglen then n else negsuc 0, s)

  abbrev pub body_read : KrMessage → ℤ × Bytes × S → Option KrMessage × S
  body_read m (n, body, s) =
      (if eqb_ℤ n m.msglen then some (record m { msgbuf = body }) else none, s)

module _ {S : Type 0} (net : Net S) where
  -- the body of `kr_message_write`, after the header
  abbrev pub write_body : KrMessage → ℤ → S → ℤ × S
  write_body m written s =
      if eqb_ℤ written (pos 80) && ltb_ℤ (pos 0) m.msglen
      then body_written m (net.write (take (size_of m.msglen) m.msgbuf) s)
      else (written, s)

  abbrev pub after_head : KrMessage → ℤ × S → ℤ × KrMessage × S
  after_head m (written, s) =
      if ltb_ℤ written (pos 0)
      then (negsuc 0, m, s)
      else if eqb_ℤ written (pos 0)
      then (pos 0, m, s)
      else let (n, s') = write_body m written s in (n, m, s')

  -- `kr_message_write`: the result, the message with its identifiers changed, and the connection
  unfoldable pub message_write : KrMessage → S → ℤ × KrMessage × S
  message_write m s = let (m', head) = message_head_dump m in after_head m' (net.write head s)

  abbrev pub read_body : KrMessage → ℤ → S → Option KrMessage × S
  read_body m got s =
      if eqb_ℤ got (pos 80) && ltb_ℤ (pos 0) m.msglen
      then body_read m (net.read (size_of m.msglen) s)
      else (some m, s)

  abbrev pub after_read : ℤ × Bytes × S → Option KrMessage × S
  after_read (got, head, s) =
      if ltb_ℤ (pos 0) got then read_body (message_head_parse head) got s else (none, s)

  -- `kr_message_read`, when the memory was granted: `none` for `NULL`
  unfoldable pub message_read : S → Option KrMessage × S
  message_read s = after_read (net.read 80 s)
