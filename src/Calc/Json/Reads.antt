-- ===== src/Calc/Json/Reads.antt =====
-- Which trees krcalc/kr_calc_parser_json.c reads from which JSON values.
use krproject.Base.{
  ℕ, zero, suc, ◌+◌, ◌≡◌, refl, sym, ap, ◌∙◌, Option, none, some, List, [], ◌∷◌, ok, ◌>>=◌,
}
use krproject.Platform.{Platform, KrType, Value}
use krproject.Calc.{
  Op, Kind, rel, arith', logic, int, float, string, mint, mfloat, mstring, regex, set, cid, fid,
  sid, did, hid, Node, Tree, Forest, node, nil, cons,
}
use krproject.Calc.Json.{CJson, m_op, m_child, m_kind, m_value, op_of, kind_of}
use krproject.Calc.Json.Parser.{
  Status, Parsed, exp_node, constant, identifier, compiled, get_int, ele_node, ele_result, ele_of,
  parse_ele, text, after_child, parse_children, with_children, exp_of, parse_exp, as_element,
  as_expression, parse_json,
}
use krproject.Calc.Json.Fresh.{join, join-nil, join_assoc, tree_append-join}

module _ {p : Platform} (cjson : CJson p) where
  open cjson use {
    Json, items, get_object_item, valuedouble, valuestring, hashset_make, regex_compile,
  }

  -- the text of a value, of which the node is made
  abbrev pub OfText : Json → (p.Str → Node p) → Node p → Type 0
  OfText v f m = (x : p.Str) × (valuestring v ≡ some x) × (m ≡ f x)

  -- the node of an element of this kind with the value `v`
  unfoldable pub IsElement : Kind → Json → Node p → Type 0
  IsElement int v m = m ≡ constant int KrType.int (Value.i (p.to_int (valuedouble v)))
  IsElement float v m = m ≡ constant float KrType.double (Value.d (valuedouble v))
  IsElement string v m = OfText v (λ x. constant string KrType.string (Value.s x)) m
  IsElement mint v m =
      OfText v (λ x. constant mint KrType.pointer (Value.set (hashset_make KrType.int x))) m
  IsElement mfloat v m =
      OfText v (λ x. constant mfloat KrType.pointer (Value.set (hashset_make KrType.double x))) m
  IsElement mstring v m =
      OfText v (λ x. constant mstring KrType.pointer (Value.set (hashset_make KrType.string x))) m
  IsElement regex v m = OfText v (λ x. constant regex KrType.pointer (compiled (regex_compile x))) m
  IsElement rel v m = ⊥
  IsElement arith' v m = ⊥
  IsElement logic v m = ⊥
  IsElement k v m = m ≡ identifier k (p.to_int (valuedouble v))

  unfoldable pub AllRead : (Json → Tree p → Type 0) → List Json → Forest p → Type 0
  AllRead R [] nil = Unit
  AllRead R (j ∷ js) (cons t ts) = R j t × AllRead R js ts
  AllRead R _ _ = ⊥

  -- an object with an operation: its children are read in their order
  abbrev pub IsExpression : (Json → Tree p → Type 0) → Json → Json → Tree p → Type 0
  IsExpression R op j (node m cs) =
      (o : Op) × (a : Json) × (op_of (get_int cjson op) ≡ some o)
      × (get_object_item m_child j ≡ some a)
      × (m ≡ exp_node o)
      × AllRead R (items a) cs

  -- an object without one: an element
  abbrev pub IsLeaf : Json → Tree p → Type 0
  IsLeaf j (node m cs) =
      (kind : Json) × (v : Json) × (k : Kind) × (get_object_item m_kind j ≡ some kind)
      × (get_object_item m_value j ≡ some v)
      × (kind_of (get_int cjson kind) ≡ some k)
      × IsElement k v m
      × (cs ≡ nil)

  abbrev pub ReadsAs : (Json → Tree p → Type 0) → Option Json → Json → Tree p → Type 0
  ReadsAs R none j t = IsLeaf j t
  ReadsAs R (some op) j t = IsExpression R op j t

  -- the tree is what a JSON value means, followed to this depth
  unfoldable pub Reads : ℕ → Json → Tree p → Type 0
  Reads zero j t = ⊥
  Reads (suc n) j t = ReadsAs (Reads n) (get_object_item m_op j) j t

  of_text :
      (o : Option p.Str) (f : p.Str → Node p) (m : Node p)
      → (x : p.Str) × (o ≡ some x) × (m ≡ f x)
      → (text o >>= (λ x. ok (some (f x)))) ≡ ok (some m)
  of_text o f m (x, e, q) = rw (e, q) refl

  ele_node-IsElement :
      (k : Kind) (v : Json) (m : Node p) → IsElement k v m → ele_node cjson k v ≡ ok (some m)
  unfolding IsElement ele_node
  ele_node-IsElement int v m h = ap (λ n. ok (some n)) (sym h)
  ele_node-IsElement float v m h = ap (λ n. ok (some n)) (sym h)
  ele_node-IsElement string v m h = of_text (valuestring v) _ m h
  ele_node-IsElement mint v m h = of_text (valuestring v) _ m h
  ele_node-IsElement mfloat v m h = of_text (valuestring v) _ m h
  ele_node-IsElement mstring v m h = of_text (valuestring v) _ m h
  ele_node-IsElement regex v m h = of_text (valuestring v) _ m h
  ele_node-IsElement set v m h = ap (λ n. ok (some n)) (sym h)
  ele_node-IsElement cid v m h = ap (λ n. ok (some n)) (sym h)
  ele_node-IsElement fid v m h = ap (λ n. ok (some n)) (sym h)
  ele_node-IsElement sid v m h = ap (λ n. ok (some n)) (sym h)
  ele_node-IsElement did v m h = ap (λ n. ok (some n)) (sym h)
  ele_node-IsElement hid v m h = ap (λ n. ok (some n)) (sym h)
  ele_node-IsElement rel v m h = absurd h
  ele_node-IsElement arith' v m h = absurd h
  ele_node-IsElement logic v m h = absurd h

  module _ (child : Json → Status p → Parsed p) (R : Json → Tree p → Type 0)
      (step : (j : Json) (t : Tree p) (s : Status p) → R j t → child j s ≡ ok (some t, s)) where
    children-AllRead :
        (i : ℕ) (js : List Json) (m : Node p) (us ts : Forest p) (s : Status p)
        → AllRead R js ts
        → parse_children cjson child i js (node m us) s ≡ ok (some (node m (join us ts)), s)
    unfolding parse_children AllRead join
    children-AllRead i [] m us nil s h = ap (λ vs. ok (some (node m vs), s)) (sym (join-nil us))
    children-AllRead i [] m us (cons t ts) s h = absurd h
    children-AllRead i (j ∷ js) m us nil s h = absurd h
    children-AllRead i (j ∷ js) m us (cons t ts) s h =
        ap (λ r. r >>= after_child i (node m us) (parse_children cjson child (i + 1) js))
          (step j t s h.0)
        ∙ ap (λ u. parse_children cjson child (i + 1) js u s) (tree_append-join m us t)
        ∙ children-AllRead (i + 1) js m (join us (cons t nil)) ts s h.1
        ∙ ap (λ vs. ok (some (node m vs), s)) (join_assoc us (cons t nil) ts)

    body-ReadsAs :
        (op : Option Json) (j : Json) (t : Tree p) (s : Status p)
        → ReadsAs R op j t
        → as_expression cjson child op j s ≡ ok (some t, s)
    unfolding parse_exp parse_ele join
    body-ReadsAs (some op) j (node m cs) s (o, a, known, has, is, all) =
        ap (exp_of cjson child (get_int cjson op) j s) known
        ∙ ap (λ q. with_children cjson child q (node (exp_node o) nil) s) has
        ∙ children-AllRead 0 (items a) (exp_node o) nil cs s all
        ∙ ap (λ n. ok (some (node n cs), s)) (sym is)
    body-ReadsAs none j (node m cs) s (kind, v, k, has, valued, known, is, leaf) =
        ap (λ q. as_element cjson child q j s) has
        ∙ ap (λ q. parse_ele cjson (get_int cjson kind) q s) valued
        ∙ ap (ele_of cjson (get_int cjson kind) v s) known
        ∙ ap (λ r. r >>= (λ n. ok (ele_result cjson (get_int cjson kind) s n)))
            (ele_node-IsElement k v m is)
        ∙ ap (λ us. ok (some (node m us), s)) (sym leaf)

  pub parse_json-Reads :
      (fuel : ℕ) (j : Json) (t : Tree p) (s : Status p)
      → Reads fuel j t
      → parse_json cjson fuel j s ≡ ok (some t, s)
  unfolding parse_json Reads
  parse_json-Reads zero j t s h = absurd h
  parse_json-Reads (suc fuel) j t s h =
      body-ReadsAs (parse_json cjson fuel) (Reads fuel) (parse_json-Reads fuel)
        (get_object_item m_op j) j t s h
