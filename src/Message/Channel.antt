-- ===== src/Message/Channel.antt =====
-- Messages over a connection that loses nothing: `kr_message_write` and then `kr_message_read`.
use krproject.Base.{
  ℕ, zero, suc, ◌≤◌, ◌≡◌, refl, sym, ap, ◌∙◌, true, ◌&&◌, Option, some, [], ◌∷◌, ◌++◌, length,
  length-append, arith,
}
use mathlib.Core.Path.{subst}
use mathlib.Core.List.{append-nil}
use krproject.Base.Int.{ℤ, pos, ltb_ℤ, eqb_ℤ, eqb_ℤ_refl}
use krproject.Message.{
  Bytes, KrMessage, take, drop, with_dashes, message_head_dump, message_head_parse, Net, write_body,
  message_write, read_body, message_read, after_head, after_read,
}
use krproject.Message.RoundTrip.{
  Fits, padded, take-append, drop-append, take-whole, length-message_head_dump,
  message_head_parse-message_head_dump,
}

-- A connection that delivers all bytes in order: what was written and is not read yet.
pub record Lossless {S : Type 0} (net : Net S) : Type 0 where
  pub pending : S → Bytes
  pub written : (xs : Bytes) (s : S) → (net.write xs s).0 ≡ pos (length xs)
  pub write : (xs : Bytes) (s : S) → pending (net.write xs s).1 ≡ pending s ++ xs
  pub got : (n : ℕ) (s : S) → n ≤ length (pending s) → (net.read n s).0 ≡ pos n
  pub bytes : (n : ℕ) (s : S) → n ≤ length (pending s) → (net.read n s).1 ≡ take n (pending s)
  pub read :
      (n : ℕ) (s : S) → n ≤ length (pending s) → pending (net.read n s).2 ≡ drop n (pending s)

nil_of_length : (xs : Bytes) → length xs ≡ 0 → xs ≡ []
nil_of_length [] e = refl
nil_of_length (x ∷ xs) e = absurd (omega (arith, e))

module _ {S : Type 0} (net : Net S) (lossless : Lossless net) where
  write_body-pending :
      (m : KrMessage) (s : S) (n : ℕ)
      → m.msglen ≡ pos n
      → length m.msgbuf ≡ n
      → lossless.pending (write_body net m (pos 80) s).1 ≡ lossless.pending s ++ m.msgbuf
  write_body-pending m s zero e l =
      let none_left = nil_of_length m.msgbuf l in
      rw (e, none_left) (sym (append-nil (lossless.pending s)))
  write_body-pending m s (suc n) e l =
      let more : (eqb_ℤ (pos 80) (pos 80) && ltb_ℤ (pos 0) (pos (suc n))) ≡ true = ground arith in
      rw (e, more, lossless.write (take (suc n) m.msgbuf) s, take-whole (suc n) m.msgbuf l) refl

  message_write-pending :
      (m : KrMessage) (s : S)
      → Fits m
      → m.msglen ≡ pos (length m.msgbuf)
      → lossless.pending (message_write net m s).2
        ≡ (lossless.pending s ++ (message_head_dump m).1) ++ m.msgbuf
  unfolding message_write message_head_dump
  message_write-pending m s fits e =
      let head = (message_head_dump m).1 in
      let sent : (net.write head s).0 ≡ pos 80 =
        lossless.written head s ∙ ap pos (length-message_head_dump m fits) in
      ap (λ n. lossless.pending (after_head net (with_dashes m) (n, (net.write head s).1)).2) sent
      ∙ write_body-pending (with_dashes m) (net.write head s).1 (length m.msgbuf) e refl
      ∙ ap (λ xs. xs ++ m.msgbuf) (lossless.write head s)

  -- The message is there, and nothing is left on the connection.
  pub record Received (m : KrMessage) (r : Option KrMessage × S) : Type 0 where
    pub message : r.0 ≡ some m
    pub pending : lossless.pending r.1 ≡ []

  abbrev sized : KrMessage → ℕ → Bytes → KrMessage
  sized m n body = record m { msglen = pos n; msgbuf = body }

  read_body-Received :
      (m : KrMessage) (body : Bytes) (s : S) (n : ℕ)
      → length body ≡ n
      → lossless.pending s ≡ body
      → Received (sized m n body) (read_body net (sized m n []) (pos 80) s)
  read_body-Received m body s zero l p =
      let none_left = nil_of_length body l in
      record { message = ap (λ xs. some (sized m 0 xs)) (sym none_left); pending = p ∙ none_left }
  read_body-Received m body s (suc n) l p =
      let more : (eqb_ℤ (pos 80) (pos 80) && ltb_ℤ (pos 0) (pos (suc n))) ≡ true = ground arith in
      let k : length (lossless.pending s) ≡ length body = ap length p in
      let enough : suc n ≤ length (lossless.pending s) = omega (arith, k, l) in
      let read : (net.read (suc n) s).1 ≡ body =
        lossless.bytes (suc n) s enough ∙ ap (take (suc n)) p ∙ take-whole (suc n) body l in
      rw (more, lossless.got (suc n) s enough, eqb_ℤ_refl (pos (suc n)), read)
        record {
          message = refl;
          pending =
              lossless.read (suc n) s enough
              ∙ ap (drop (suc n)) p
              ∙ ap (drop (suc n)) (sym (append-nil body))
              ∙ drop-append (suc n) body [] l;
        }

  after_read-Received :
      (m : KrMessage) (head : Bytes) (r : ℤ × Bytes × S)
      → m.msglen ≡ pos (length m.msgbuf)
      → message_head_parse head ≡ record (padded m) { msgbuf = [] }
      → r.0 ≡ pos 80
      → r.1 ≡ head
      → lossless.pending r.2 ≡ m.msgbuf
      → Received (padded m) (after_read net r)
  after_read-Received m head r e parsed got bytes p =
      let n = length m.msgbuf in
      let same : message_head_parse r.1 ≡ sized (padded m) n [] =
        ap message_head_parse bytes
        ∙ parsed
        ∙ ap (λ z. record (padded m) { msglen = z; msgbuf = [] }) e in
      let whole : sized (padded m) n m.msgbuf ≡ padded m =
        ap (λ z. record (padded m) { msglen = z }) (sym e) in
      subst (λ q. Received q (after_read net r)) whole
        (subst (λ z. Received (sized (padded m) n m.msgbuf) (after_read net (z, r.1, r.2)))
          (sym got)
          (subst (λ q. Received (sized (padded m) n m.msgbuf) (read_body net q (pos 80) r.2))
            (sym same) (read_body-Received (padded m) m.msgbuf r.2 n refl p)))

  -- A message that fits, written to an empty connection that loses nothing, is read from it whole,
  -- with its identifiers at full width, and nothing is left on the connection.
  pub message_read-message_write :
      (m : KrMessage) (s : S)
      → Fits m
      → m.msglen ≡ pos (length m.msgbuf)
      → lossless.pending s ≡ []
      → Received (padded m) (message_read net (message_write net m s).2)
  unfolding message_read
  message_read-message_write m s fits e empty =
      let head = (message_head_dump m).1 in
      let s' = (message_write net m s).2 in
      let l = length-message_head_dump m fits in
      let sent : lossless.pending s' ≡ head ++ m.msgbuf =
        message_write-pending m s fits e ∙ ap (λ xs. (xs ++ head) ++ m.msgbuf) empty in
      let total : length (lossless.pending s') ≡ length (head ++ m.msgbuf) = ap length sent in
      let k = length-append head m.msgbuf in
      let enough : 80 ≤ length (lossless.pending s') = omega (arith, total, k, l) in
      after_read-Received m head (net.read 80 s') e (message_head_parse-message_head_dump m fits)
        (lossless.got 80 s' enough)
        (lossless.bytes 80 s' enough ∙ ap (take 80) sent ∙ take-append 80 head m.msgbuf l)
        (lossless.read 80 s' enough ∙ ap (drop 80) sent ∙ drop-append 80 head m.msgbuf l)
