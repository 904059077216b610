-- ===== src/Calc/Flex.antt =====
-- krcalc/kr_calc_dumper_flex.c: an expression as text, as the scanner reads it.
use krproject.Base.{
  ℕ, Bool, true, false, List, ◌≡◌, Option, none, some, [], ◌∷◌, ◌++◌, leb, length, if◌then◌else◌,
  null_read,
}
use krproject.Base.Int.{ℤ}
use krproject.Platform.{Platform, HashSet}
use krproject.Calc.{
  Op, no_op, plus, sub, mut, div, mod', lt, le, gt, ge, eq, neq, bl, nbl, match, not', and, or,
  Kind, rel, arith', logic, int, float, string, mint, mfloat, mstring, regex, set, cid, fid, sid,
  did, hid, Node, Tree, Forest, node, nil, cons,
}
use krproject.Calc.Outcome.{Exec, value, crash, ◌>>=◌}
use krproject.Calc.Members.{as_int, as_s, as_d, as_set, as_regex}
use krproject.Message.{Bytes}

-- What `sprintf` prints for `%d`, `%g` and `%s`, and the texts that a set and a regular expression
-- keep.
pub record Printer (p : Platform) : Type 0 where
  pub show_int : ℤ → Bytes
  pub show_double : p.Double → Bytes
  pub show_string : p.Str → Bytes
  pub set_name : HashSet p.Table → Bytes
  pub pattern : p.Regex → Bytes

-- `_kr_calc_dump_op`
abbrev pub dump_op : Op → Option Bytes
dump_op and = some (b' ' ∷ b'&' ∷ b'&' ∷ b' ' ∷ [])
dump_op or = some (b' ' ∷ b'|' ∷ b'|' ∷ b' ' ∷ [])
dump_op not' = some (b' ' ∷ b'!' ∷ b' ' ∷ [])
dump_op plus = some (b' ' ∷ b'+' ∷ b' ' ∷ [])
dump_op sub = some (b' ' ∷ b'-' ∷ b' ' ∷ [])
dump_op mut = some (b' ' ∷ b'*' ∷ b' ' ∷ [])
dump_op div = some (b' ' ∷ b'/' ∷ b' ' ∷ [])
dump_op mod' = some (b' ' ∷ b'%' ∷ b' ' ∷ [])
dump_op lt = some (b' ' ∷ b'<' ∷ b' ' ∷ [])
dump_op le = some (b' ' ∷ b'<' ∷ b'=' ∷ b' ' ∷ [])
dump_op gt = some (b' ' ∷ b'>' ∷ b' ' ∷ [])
dump_op ge = some (b' ' ∷ b'>' ∷ b'=' ∷ b' ' ∷ [])
dump_op eq = some (b' ' ∷ b'=' ∷ b'=' ∷ b' ' ∷ [])
dump_op neq = some (b' ' ∷ b'!' ∷ b'=' ∷ b' ' ∷ [])
dump_op bl = some (b' ' ∷ b'@' ∷ b'@' ∷ b' ' ∷ [])
dump_op nbl = some (b' ' ∷ b'!' ∷ b'@' ∷ b' ' ∷ [])
dump_op match = some (b' ' ∷ b'#' ∷ b'#' ∷ b' ' ∷ [])
dump_op no_op = none

-- what is printed after the operator; without one, to a null pointer
abbrev pub after_op : Option Bytes → Bytes → Exec Bytes
after_op none text = crash null_read
after_op (some o) text = value (o ++ text)

-- text between two brackets
abbrev pub bracket : ℕ → Bytes → ℕ → Bytes
bracket open_with text close_with = open_with ∷ (text ++ close_with ∷ [])

-- the letter that stands for the kind of an identifier
abbrev pub tagged : ℕ → Bytes → Exec Bytes
tagged letter text = value (letter ∷ b'_' ∷ text)

module _ {p : Platform} (printer : Printer p) where
  open printer use {show_int, show_double, show_string, set_name, pattern}

  abbrev pub flex_set : Node p → Exec Bytes
  flex_set n = do h ← as_set n.value; value (bracket b'{' (set_name h) b'}')

  -- a node with the text of its children
  unfoldable pub flex_node : Kind → Node p → Exec Bytes → Exec Bytes
  flex_node rel n inside = do xs ← inside; value (bracket b'(' xs b')')
  flex_node arith' n inside = do xs ← inside; value (bracket b'(' xs b')')
  flex_node logic n inside = do xs ← inside; value (bracket b'(' xs b')')
  flex_node int n inside = do i ← as_int n.value; value (show_int i)
  flex_node float n inside = do d ← as_d p n.value; value (show_double d)
  flex_node string n inside = do s ← as_s n.value; value (show_string s)
  flex_node mint n inside = flex_set n
  flex_node mfloat n inside = flex_set n
  flex_node mstring n inside = flex_set n
  flex_node regex n inside = do r ← as_regex n.value; value (bracket b'[' (pattern r) b']')
  flex_node set n inside = tagged b'A' (show_int n.id)
  flex_node cid n inside = tagged b'C' (show_int n.id)
  flex_node fid n inside = tagged b'F' (show_int n.id)
  flex_node sid n inside = tagged b'S' (show_int n.id)
  flex_node did n inside = tagged b'D' (show_int n.id)
  flex_node hid n inside = tagged b'H' (show_int n.id)

  unfoldable mutual
    -- `_kr_calc_dump_flex`
    pub flex_tree : Tree p → Exec Bytes
    flex_tree (node n cs) = flex_node n.kind n (flex_children n.op cs)

    -- The loop, whose variable the code declares and does not set; it is taken to start at 0. The
    -- operator stands between two children.
    pub flex_children : Op → Forest p → Exec Bytes
    flex_children o nil = value []
    flex_children o (cons t nil) = flex_tree t
    flex_children o (cons t (cons u us)) = flex_tree t >>= λ xs.
        flex_children o (cons u us) >>= λ ys. after_op (dump_op o) ys >>= λ zs. value (xs ++ zs)

  -- `kr_calc_dump_flex`: the buffer has 4096 bytes, of which one ends the text
  unfoldable pub calc_dump_flex : Tree p → Exec Bytes
  calc_dump_flex tree = flex_tree tree >>= λ xs.
      if leb 4096 (length (xs ++ b';' ∷ [])) then crash null_read else value (xs ++ b';' ∷ [])

-- texts with a separator between any two
abbrev pub separated : Bytes → List Bytes → Bytes
separated o [] = []
separated o (xs ∷ []) = xs
separated o (xs ∷ ys ∷ yss) = xs ++ (o ++ separated o (ys ∷ yss))

abbrev pub is_expression : Kind → Bool
is_expression rel = true
is_expression arith' = true
is_expression logic = true
is_expression _ = false

module _ {p : Platform} (printer : Printer p) where
  -- the texts of the trees, each for itself
  abbrev pub Texts : Forest p → List Bytes → Type 0
  Texts nil [] = Unit
  Texts (cons t ts) (xs ∷ xss) = (flex_tree printer t ≡ value xs) × Texts ts xss
  Texts _ _ = ⊥
