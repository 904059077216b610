-- ===== src/Calc/Json/OnlyReads.antt =====
-- What krcalc/kr_calc_parser_json.c gives is what a JSON value means.
use mathlib.Core.Path.{subst}
use krproject.Base.{
  ℕ, zero, suc, ◌+◌, ◌≡◌, ◌↔◌, refl, sym, ap, ◌∙◌, Option, none, some, List, [], ◌∷◌, ok, fault,
  ◌>>=◌,
}
use krproject.Base.Int.{ℤ}
use krproject.Platform.{Platform}
use krproject.Calc.{
  Op, Kind, rel, arith', logic, int, float, string, mint, mfloat, mstring, regex, set, cid, fid,
  sid, did, hid, Node, Tree, Forest, node, nil, cons,
}
use krproject.Calc.Json.{CJson, m_op, m_child, m_kind, m_value, op_of, kind_of}
use krproject.Calc.Json.Parser.{
  Status, Parsed, exp_node, get_int, ele_node, ele_result, ele_of, parse_ele, text, after_child,
  parse_children, with_children, exp_of, parse_exp, as_element, as_expression, parse_json,
  parse_value, parsed_tree, calc_parse_json,
}
use krproject.Calc.Json.Fresh.{join, join-nil, join_assoc, tree_append-join}
use krproject.Calc.Json.Reads.{
  OfText, IsElement, AllRead, IsExpression, IsLeaf, ReadsAs, Reads, parse_json-Reads,
}

module _ {p : Platform} (cjson : CJson p) where
  open cjson use {Json, items, get_object_item, valuestring}

  -- A parse gave nothing, or a tree that the value means, and left the status.
  abbrev OnlyReads : (Tree p → Type 0) → Status p → Parsed p → Type 0
  OnlyReads P s (ok (some t, s')) = P t × (s' ≡ s)
  OnlyReads P s _ = Unit

  text_only :
      (kind : ℤ) (v : Json) (f : p.Str → Node p) (s : Status p) (o : Option p.Str)
      → valuestring v ≡ o
      → OnlyReads
          (λ t. (m : Node p) × OfText cjson v f m × (t ≡ node m nil))
          s
          (text o >>= (λ x. ok (some (f x))) >>= (λ n. ok (ele_result cjson kind s n)))
  text_only kind v f s none e = tt
  text_only kind v f s (some x) e = ((f x, (x, e, refl), refl), refl)

  IsElement-only :
      (kind : ℤ) (k : Kind) (v : Json) (s : Status p)
      → OnlyReads
          (λ t. (m : Node p) × IsElement cjson k v m × (t ≡ node m nil))
          s
          (ele_of cjson kind v s (some k))
  unfolding IsElement ele_node
  IsElement-only kind int v s = ((_, refl, refl), refl)
  IsElement-only kind float v s = ((_, refl, refl), refl)
  IsElement-only kind string v s = text_only kind v _ s (valuestring v) refl
  IsElement-only kind mint v s = text_only kind v _ s (valuestring v) refl
  IsElement-only kind mfloat v s = text_only kind v _ s (valuestring v) refl
  IsElement-only kind mstring v s = text_only kind v _ s (valuestring v) refl
  IsElement-only kind regex v s = text_only kind v _ s (valuestring v) refl
  IsElement-only kind set v s = ((_, refl, refl), refl)
  IsElement-only kind cid v s = ((_, refl, refl), refl)
  IsElement-only kind fid v s = ((_, refl, refl), refl)
  IsElement-only kind sid v s = ((_, refl, refl), refl)
  IsElement-only kind did v s = ((_, refl, refl), refl)
  IsElement-only kind hid v s = ((_, refl, refl), refl)
  IsElement-only kind rel v s = tt
  IsElement-only kind arith' v s = tt
  IsElement-only kind logic v s = tt

  OnlyReads-mono :
      (P Q : Tree p → Type 0) (s : Status p) (r : Parsed p)
      → ((t : Tree p) → P t → Q t)
      → OnlyReads P s r
      → OnlyReads Q s r
  OnlyReads-mono P Q s (ok (some t, s')) f h = (f t h.0, h.1)
  OnlyReads-mono P Q s (ok (none, s')) f h = tt
  OnlyReads-mono P Q s (fault e) f h = tt

  -- a tree with these nodes before and those that are read after them
  abbrev Appends : (Json → Tree p → Type 0) → List Json → Node p → Forest p → Tree p → Type 0
  Appends R js m us t = (ts : Forest p) × AllRead cjson R js ts × (t ≡ node m (join us ts))

  module _ (child : Json → Status p → Parsed p) (R : Json → Tree p → Type 0)
      (step : (j : Json) (s : Status p) → OnlyReads (R j) s (child j s)) where
    after_only :
        (i : ℕ) (j : Json) (js : List Json) (m : Node p) (us : Forest p) (s : Status p)
        (r : Parsed p) (later : Tree p → Status p → Parsed p)
        → OnlyReads (R j) s r
        → ((vs : Forest p) → OnlyReads (Appends R js m vs) s (later (node m vs) s))
        → OnlyReads (Appends R (j ∷ js) m us) s (r >>= after_child i (node m us) later)
    unfolding AllRead join
    after_only i j js m us s (fault e) later h next = tt
    after_only i j js m us s (ok (none, s')) later h next = tt
    after_only i j js m us s (ok (some t, s')) later (read, same) next =
        rw (tree_append-join, same)
          (OnlyReads-mono (Appends R js m (join us (cons t nil))) (Appends R (j ∷ js) m us) s
            (later (node m (join us (cons t nil))) s)
            (λ u (ts, all, is).
              (cons t ts, (read, all), is ∙ ap (node m) (join_assoc us (cons t nil) ts)))
            (next (join us (cons t nil))))

    children_only :
        (i : ℕ) (js : List Json) (m : Node p) (us : Forest p) (s : Status p)
        → OnlyReads (Appends R js m us) s (parse_children cjson child i js (node m us) s)
    unfolding parse_children AllRead
    children_only i [] m us s = ((nil, tt, ap (node m) (sym (join-nil us))), refl)
    children_only i (j ∷ js) m us s =
        after_only i j js m us s (child j s) (parse_children cjson child (i + 1) js) (step j s)
          (λ vs. children_only (i + 1) js m vs s)

    -- the expression, with what the value has as operation and as children
    IsExpression-only :
        (op : Json) (j : Json) (s : Status p) (o : Option Op)
        → op_of (get_int cjson op) ≡ o
        → OnlyReads (IsExpression cjson R op j) s (exp_of cjson child (get_int cjson op) j s o)
    unfolding join
    IsExpression-only op j s none e = tt
    IsExpression-only op j s (some o) e = with_only (get_object_item m_child j) refl
      where
        with_only :
            (a : Option Json)
            → get_object_item m_child j ≡ a
            → OnlyReads
                (IsExpression cjson R op j)
                s
                (with_children cjson child a (node (exp_node o) nil) s)
        with_only none h = tt
        with_only (some a) h =
            OnlyReads-mono (Appends R (items a) (exp_node o) nil) (IsExpression cjson R op j) s
              (parse_children cjson child 0 (items a) (node (exp_node o) nil) s)
              (λ t (ts, all, is).
                subst (IsExpression cjson R op j) (sym is) (o, a, e, h, refl, all))
              (children_only 0 (items a) (exp_node o) nil s)

    IsLeaf-only :
        (j : Json) (s : Status p) (kind v : Option Json)
        → get_object_item m_kind j ≡ kind
        → get_object_item m_value j ≡ v
        → OnlyReads (IsLeaf cjson j) s (as_element cjson child kind j s)
    unfolding parse_ele
    IsLeaf-only j s none v e h = tt
    IsLeaf-only j s (some kind) none e h = rw h tt
    IsLeaf-only j s (some kind) (some v) e h =
        subst (λ o. OnlyReads (IsLeaf cjson j) s (parse_ele cjson (get_int cjson kind) o s)) (sym h)
          (known (kind_of (get_int cjson kind)) refl)
      where
        known :
            (k : Option Kind)
            → kind_of (get_int cjson kind) ≡ k
            → OnlyReads (IsLeaf cjson j) s (ele_of cjson (get_int cjson kind) v s k)
        known none q = tt
        known (some k) q =
            OnlyReads-mono (λ t. (m : Node p) × IsElement cjson k v m × (t ≡ node m nil))
              (IsLeaf cjson j) s (ele_of cjson (get_int cjson kind) v s (some k))
              (λ t (m, is, same). subst (IsLeaf cjson j) (sym same) (kind, v, k, e, h, q, is, refl))
              (IsElement-only (get_int cjson kind) k v s)

    body_only :
        (op : Option Json) (j : Json) (s : Status p)
        → OnlyReads (ReadsAs cjson R op j) s (as_expression cjson child op j s)
    unfolding parse_exp
    body_only none j s =
        IsLeaf-only j s (get_object_item m_kind j) (get_object_item m_value j) refl refl
    body_only (some op) j s = IsExpression-only op j s (op_of (get_int cjson op)) refl

  parse_json_only :
      (fuel : ℕ) (j : Json) (s : Status p)
      → OnlyReads (Reads cjson fuel j) s (parse_json cjson fuel j s)
  unfolding parse_json Reads
  parse_json_only zero j s = tt
  parse_json_only (suc fuel) j s =
      body_only (parse_json cjson fuel) (Reads cjson fuel) (parse_json_only fuel)
        (get_object_item m_op j) j s

  -- what a text means: the tree of its JSON value
  abbrev pub TextReads : ℕ → Option Json → Tree p → Type 0
  TextReads fuel o t = (j : Json) × (o ≡ some j) × Reads cjson fuel j t

  finished :
      (P : Tree p → Type 0) (s : Status p) (r : Parsed p)
      → OnlyReads P s r
      → OnlyReads P s (r >>= (λ q. ok (parsed_tree cjson q)))
  finished P s (ok (some t, s')) h = h
  finished P s (ok (none, s')) h = tt
  finished P s (fault e) h = tt

  value_only :
      (fuel : ℕ) (calc_string : p.Str) (s : Status p) (o : Option Json)
      → OnlyReads (TextReads fuel o) s (parse_value cjson fuel calc_string o s)
  value_only fuel calc_string s none = tt
  value_only fuel calc_string s (some j) =
      OnlyReads-mono (Reads cjson fuel j) (TextReads fuel (some j)) s
        (parse_json cjson fuel j s >>= (λ q. ok (parsed_tree cjson q))) (λ t read. (j, refl, read))
        (finished (Reads cjson fuel j) s (parse_json cjson fuel j s) (parse_json_only fuel j s))

  pub calc_parse_json-Reads :
      (fuel : ℕ) (calc_string : p.Str) (s s' : Status p) (t : Tree p)
      → (calc_parse_json cjson fuel calc_string s ≡ ok (some t, s'))
        ↔ (TextReads fuel (cjson.parse calc_string) t × (s' ≡ s))
  unfolding calc_parse_json
  calc_parse_json-Reads fuel calc_string s s' t = (
    λ run.
        subst (OnlyReads (TextReads fuel (cjson.parse calc_string)) s) run
          (value_only fuel calc_string s (cjson.parse calc_string)),
    λ ((j, text, read), same).
        ap (λ o. parse_value cjson fuel calc_string o s) text
        ∙ ap (λ r. r >>= (λ q. ok (parsed_tree cjson q))) (parse_json-Reads cjson fuel j t s read)
        ∙ ap (λ k. ok (some t, k)) (sym same),
  )
