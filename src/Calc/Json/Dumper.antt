-- ===== src/Calc/Json/Dumper.antt =====
-- krcalc/kr_calc_dumper_json.c
use krproject.Base.{ℕ, zero, suc}
use krproject.Base.Int.{ℤ, pos}
use krproject.Platform.{Platform}
use krproject.Calc.{
  Op, Kind, rel, arith', logic, int, float, string, mint, mfloat, mstring, regex, Node, Tree,
  Forest, node, nil, cons,
}
use krproject.Calc.Outcome.{Exec, value, ◌>>=◌}
use krproject.Calc.Members.{as_int, as_s, as_d, as_set, as_regex}
use krproject.Calc.Json.{CJson, m_op, m_child, m_kind, m_value, op_code, kind_code}

module _ {p : Platform} (cjson : CJson p) where
  open cjson use {
    Json, create_object, create_array, create_number, create_string, add_item_to_object,
    add_item_to_array, hashset_name, regex_pattern,
  }

  -- `cJSON_AddNumberToObject` of an int
  abbrev pub number_of : ℤ → Json
  number_of n = create_number (p.of_int n)

  -- "kind" and "value" of an element
  abbrev pub element_of : Kind → Json → Json
  element_of k v =
      add_item_to_object (add_item_to_object create_object m_kind (number_of (pos (kind_code k))))
        m_value v

  -- what an element has as its value
  unfoldable pub dump_value : Kind → Node p → Exec Json
  dump_value int n = do i ← as_int n.value; value (number_of i)
  dump_value float n = do d ← as_d p n.value; value (create_number d)
  dump_value string n = do s ← as_s n.value; value (create_string s)
  dump_value mint n = do h ← as_set n.value; value (create_string (hashset_name h))
  dump_value mfloat n = do h ← as_set n.value; value (create_string (hashset_name h))
  dump_value mstring n = do h ← as_set n.value; value (create_string (hashset_name h))
  dump_value regex n = do r ← as_regex n.value; value (create_string (regex_pattern r))
  dump_value _ n = value (number_of n.id)

  abbrev pub expression_of : Op → Json → Json
  expression_of op childs =
      add_item_to_object (add_item_to_object create_object m_op (number_of (pos (op_code op))))
        m_child childs

  abbrev pub dump_element : Kind → Node p → Exec Json
  dump_element k n = do v ← dump_value k n; value (element_of k v)

  -- a node with its dumped children, which only expressions have
  unfoldable pub dump_node : Kind → Node p → Exec Json → Exec Json
  dump_node rel n childs = do a ← childs; value (expression_of n.op a)
  dump_node arith' n childs = do a ← childs; value (expression_of n.op a)
  dump_node logic n childs = do a ← childs; value (expression_of n.op a)
  dump_node k n childs = dump_element k n

  -- The loop over the children declares `int i` and does not set it; `start` is what `i` is then.
  module _ (start : ℕ) where
    unfoldable mutual
      -- `_kr_calc_dump_json`
      pub dump_json : Tree p → Exec Json
      dump_json (node n cs) = dump_node n.kind n (dump_children start cs create_array)

      -- the loop: `i` children are not looked at
      pub dump_children : ℕ → Forest p → Json → Exec Json
      dump_children i nil childs = value childs
      dump_children zero (cons t ts) childs =
          dump_json t >>= λ j. dump_children zero ts (add_item_to_array childs j)
      dump_children (suc i) (cons t ts) childs = dump_children i ts childs
