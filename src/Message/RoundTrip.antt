-- ===== src/Message/RoundTrip.antt =====
-- A message that is dumped or written, and parsed or read again.
use krproject.Base.{
  ℕ, zero, suc, ◌-◌, ◌≤◌, ◌≡◌, refl, sym, ap, ◌∙◌, true, false, not, [], ◌∷◌, ◌++◌, ◌==◌, length,
  length-append, all, arith, ∷-eq,
}
use mathlib.Core.List.{append-nil}
use krproject.Message.{
  Bytes, KrMessage, blanks, pad, print_int, atoi, take, drop, c_string, or_dash, joined, print_head,
  message_head_dump, message_head_parse,
}
use krproject.Message.Decimal.{FitsFour, atoi-print_int, length-print_int}

pub take-append : (n : ℕ) (xs ys : Bytes) → length xs ≡ n → take n (xs ++ ys) ≡ xs
unfolding take
take-append zero [] ys e = refl
take-append zero (x ∷ xs) ys e = absurd (omega (arith, e))
take-append (suc n) [] ys e = absurd (omega (arith, e))
take-append (suc n) (x ∷ xs) ys e = ∷-eq refl (take-append n xs ys (omega (arith, e)))

pub drop-append : (n : ℕ) (xs ys : Bytes) → length xs ≡ n → drop n (xs ++ ys) ≡ ys
unfolding drop
drop-append zero [] ys e = refl
drop-append zero (x ∷ xs) ys e = absurd (omega (arith, e))
drop-append (suc n) [] ys e = absurd (omega (arith, e))
drop-append (suc n) (x ∷ xs) ys e = drop-append n xs ys (omega (arith, e))

pub take-whole : (n : ℕ) (xs : Bytes) → length xs ≡ n → take n xs ≡ xs
take-whole n xs e = ap (take n) (sym (append-nil xs)) ∙ take-append n xs [] e

length-blanks : (n : ℕ) → length (blanks n) ≡ n
length-blanks zero = refl
length-blanks (suc n) = ap suc (length-blanks n)

length-pad : (width : ℕ) (text : Bytes) → length text ≤ width → length (pad width text) ≡ width
length-pad width text h =
    let m = length-append (blanks (width - length text)) text in
    let l = length-blanks (width - length text) in omega (arith, m, l, h)

-- a C string: no byte of it is zero
abbrev pub NoZero : Bytes → Type 0
NoZero xs = all (λ x. not (x == 0)) xs ≡ true

pub c_string-NoZero : (xs : Bytes) → NoZero xs → c_string xs ≡ xs
c_string-NoZero [] h = refl
c_string-NoZero (x ∷ xs) h =
    let e : (x == 0) ≡ false = ground (arith, h) in
    rw e (∷-eq refl (c_string-NoZero xs (ground (arith, h))))

blanks-NoZero : (n : ℕ) (xs : Bytes) → NoZero xs → NoZero (blanks n ++ xs)
blanks-NoZero zero xs h = h
blanks-NoZero (suc n) xs h = blanks-NoZero n xs h

or_dash-NoZero : (xs : Bytes) → NoZero xs → NoZero (or_dash xs)
or_dash-NoZero [] h = refl
or_dash-NoZero (x ∷ xs) h = h

length-or_dash : (n : ℕ) (xs : Bytes) → 1 ≤ n → length xs ≤ n → length (or_dash xs) ≤ n
length-or_dash n [] h m = h
length-or_dash n (x ∷ xs) h m = m

c_string-pad :
    (width : ℕ) (xs : Bytes)
    → NoZero xs
    → c_string (pad width (or_dash xs)) ≡ pad width (or_dash xs)
c_string-pad width xs h =
    c_string-NoZero _
      (blanks-NoZero (width - length (or_dash xs)) (or_dash xs) (or_dash-NoZero xs h))

-- The members of a message fit into the fields of the header.
pub record Fits (m : KrMessage) : Type 0 where
  pub msgtype : FitsFour m.msgtype
  pub msgid : length m.msgid ≤ 16
  pub serverid : length m.serverid ≤ 26
  pub clientid : length m.clientid ≤ 26
  pub datasrc : FitsFour m.datasrc
  pub msglen : FitsFour m.msglen
  pub no_zero : NoZero m.msgid × NoZero m.serverid × NoZero m.clientid

-- The message with identifiers of full width: "-" for an empty one, and blanks before it.
abbrev pub padded : KrMessage → KrMessage
padded m = record m {
  msgid = pad 16 (or_dash m.msgid);
  serverid = pad 26 (or_dash m.serverid);
  clientid = pad 26 (or_dash m.clientid);
}

module _ (t v w x d l : Bytes) (et : length t ≡ 4) (ev : length v ≡ 16) (ew : length w ≡ 26)
    (ex : length x ≡ 26) (ed : length d ≡ 4) (el : length l ≡ 4) where
  length-six : length (joined t v w x d l) ≡ 80
  length-six =
      let m₁ = length-append t (v ++ (w ++ (x ++ (d ++ l)))) in
      let m₂ = length-append v (w ++ (x ++ (d ++ l))) in
      let m₃ = length-append w (x ++ (d ++ l)) in
      let m₄ = length-append x (d ++ l) in
      let m₅ = length-append d l in omega (arith, m₁, m₂, m₃, m₄, m₅, et, ev, ew, ex, ed, el)

  -- reading the six fields of a header
  parse-six : message_head_parse (joined t v w x d l) ≡ record {
    msgtype = atoi t;
    msgid = c_string v;
    serverid = c_string w;
    clientid = c_string x;
    datasrc = atoi d;
    msglen = atoi l;
    msgbuf = [];
  }
  unfolding message_head_parse
  parse-six =
      rw
        (
          take-append 4 t (v ++ (w ++ (x ++ (d ++ l)))) et,
          drop-append 4 t (v ++ (w ++ (x ++ (d ++ l)))) et,
          take-append 16 v (w ++ (x ++ (d ++ l))) ev,
          drop-append 16 v (w ++ (x ++ (d ++ l))) ev,
          take-append 26 w (x ++ (d ++ l)) ew,
          drop-append 26 w (x ++ (d ++ l)) ew,
          take-append 26 x (d ++ l) ex,
          drop-append 26 x (d ++ l) ex,
          take-append 4 d l ed,
          drop-append 4 d l ed,
          take-whole 4 l el,
        )
        refl

-- A header that is dumped and parsed gives back its numbers, and its identifiers at full width: the
-- blanks that `%16s` and `%26s` put before them stay. The body is no part of it.
pub message_head_parse-message_head_dump :
    (m : KrMessage)
    → Fits m
    → message_head_parse (message_head_dump m).1 ≡ record (padded m) { msgbuf = [] }
unfolding message_head_dump print_head
message_head_parse-message_head_dump m fits =
    let et = length-pad 4 (print_int m.msgtype) (length-print_int m.msgtype fits.msgtype) in
    let ev = length-pad 16 (or_dash m.msgid) (length-or_dash 16 m.msgid (omega arith) fits.msgid) in
    let ew =
      length-pad 26 (or_dash m.serverid)
        (length-or_dash 26 m.serverid (omega arith) fits.serverid) in
    let ex =
      length-pad 26 (or_dash m.clientid)
        (length-or_dash 26 m.clientid (omega arith) fits.clientid) in
    let ed = length-pad 4 (print_int m.datasrc) (length-print_int m.datasrc fits.datasrc) in
    let el = length-pad 4 (print_int m.msglen) (length-print_int m.msglen fits.msglen) in
    ap message_head_parse (take-whole 80 _ (length-six _ _ _ _ _ _ et ev ew ex ed el))
    ∙ parse-six _ _ _ _ _ _ et ev ew ex ed el
    ∙ rw
        (
          atoi-print_int m.msgtype fits.msgtype,
          atoi-print_int m.datasrc fits.datasrc,
          atoi-print_int m.msglen fits.msglen,
          c_string-pad 16 m.msgid fits.no_zero.0,
          c_string-pad 26 m.serverid fits.no_zero.1,
          c_string-pad 26 m.clientid fits.no_zero.2,
        )
        refl

pub length-message_head_dump : (m : KrMessage) → Fits m → length (message_head_dump m).1 ≡ 80
unfolding message_head_dump print_head
length-message_head_dump m fits =
    let et = length-pad 4 (print_int m.msgtype) (length-print_int m.msgtype fits.msgtype) in
    let ev = length-pad 16 (or_dash m.msgid) (length-or_dash 16 m.msgid (omega arith) fits.msgid) in
    let ew =
      length-pad 26 (or_dash m.serverid)
        (length-or_dash 26 m.serverid (omega arith) fits.serverid) in
    let ex =
      length-pad 26 (or_dash m.clientid)
        (length-or_dash 26 m.clientid (omega arith) fits.clientid) in
    let ed = length-pad 4 (print_int m.datasrc) (length-print_int m.datasrc fits.datasrc) in
    let el = length-pad 4 (print_int m.msglen) (length-print_int m.msglen fits.msglen) in
    let whole = length-six _ _ _ _ _ _ et ev ew ex ed el in
    ap length (take-whole 80 _ whole) ∙ whole
