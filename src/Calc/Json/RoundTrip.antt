-- ===== src/Calc/Json/RoundTrip.antt =====
-- A tree that is dumped as JSON and parsed again, with the loops of the dumper started at 0.
use krproject.Base.{
  ℕ, zero, suc, ◌+◌, ◌≤◌, ◌≡◌, ◌≢◌, refl, sym, ap, ◌∙◌, true, some, List, [], ◌∷◌, ◌++◌, arith, ok,
}
use mathlib.Core.List.{append-nil, append_assoc}
use krproject.Base.Int.{ℤ, fits_int}
use krproject.Platform.{Platform, KrType, HashSet, Value, Val}
use krproject.Calc.{
  no_op, Kind, rel, arith', logic, int, float, string, mint, mfloat, mstring, regex, set, cid, fid,
  sid, did, hid, Node, Tree, Forest, node, nil, cons,
}
use mathlib.Core.Path.{subst}
use krproject.Base.{◌>>=◌ as bind}
use krproject.Calc.Members.{as_int, as_s, as_d, as_set, as_regex}
use krproject.Calc.Outcome.{Exec, value, ◌>>=◌}
use krproject.Calc.Json.{CJson}
use krproject.Calc.Json.Parser.{
  Status, kind_of_op, exp_node, constant, identifier, ele_node, parse_children, parse_json, get_int,
  text,
}
use krproject.Calc.Json.Dumper.{
  number_of, element_of, dump_value, expression_of, dump_element, dump_node, dump_json,
  dump_children,
}
use krproject.Calc.Json.Fresh.{
  fresh_tree, fresh, all_fresh, depth, depth_children, join, join-nil, join_assoc, tree_append-join,
}
use krproject.Calc.Json.Members.{Laws, get_int-number, parse-element, parse-expression}

module _ {p : Platform} (cjson : CJson p) where
  open cjson use {hashset_make, hashset_name, regex_compile, regex_pattern}

  -- What a node holds, as far as it is dumped.
  abbrev pub Holds : Kind → Node p → Type 0
  Holds int n = (i : ℤ) × (n.value ≡ Value.i i) × (fits_int i ≡ true)
  Holds float n = (d : p.Double) × (n.value ≡ Value.d d)
  Holds string n = (s : p.Str) × (n.value ≡ Value.s s)
  Holds mint n =
      (h : HashSet p.Table) × (n.value ≡ Value.set h)
      × (hashset_make KrType.int (hashset_name h) ≡ h)
  Holds mfloat n =
      (h : HashSet p.Table) × (n.value ≡ Value.set h)
      × (hashset_make KrType.double (hashset_name h) ≡ h)
  Holds mstring n =
      (h : HashSet p.Table) × (n.value ≡ Value.set h)
      × (hashset_make KrType.string (hashset_name h) ≡ h)
  Holds regex n =
      (r : p.Regex) × (n.value ≡ Value.regex r) × (regex_compile (regex_pattern r) ≡ some r)
  Holds rel n = (kind_of_op n.op ≡ rel) × (n.op ≢ no_op)
  Holds arith' n = (kind_of_op n.op ≡ arith') × (n.op ≢ no_op)
  Holds logic n = (kind_of_op n.op ≡ logic) × (n.op ≢ no_op)
  Holds _ n = fits_int n.id ≡ true

  unfoldable mutual
    pub Dumpable : Tree p → Type 0
    Dumpable (node n cs) = Holds n.kind n × AllDumpable cs

    pub AllDumpable : Forest p → Type 0
    AllDumpable nil = Unit
    AllDumpable (cons t ts) = Dumpable t × AllDumpable ts

module _ {p : Platform} {cjson : CJson p} (laws : Laws cjson) where
  -- A dump succeeds, and what it gives is parsed to the tree.
  Trip : ℕ → Exec cjson.Json → Tree p → Type 0
  Trip fuel dumped t =
      (j : cjson.Json) × (dumped ≡ value j)
      × ((s : Status p) → parse_json cjson fuel j s ≡ ok (some t, s))

  -- The children are dumped to elements of the array, and parsed from these in their order.
  ChildrenTrip : ℕ → Exec cjson.Json → Forest p → Type 0
  ChildrenTrip fuel dumped ts =
      (a : cjson.Json) × (dumped ≡ value a)
      × ((m : Node p) (s : Status p)
          → parse_children cjson (parse_json cjson fuel) 0 (cjson.items a) (node m nil) s
            ≡ ok (some (node m ts), s))

  element-Trip :
      (fuel : ℕ) (k : Kind) (n m : Node p) (v : cjson.Json)
      → dump_value cjson k n ≡ value v
      → ele_node cjson k v ≡ ok (some m)
      → Trip (suc fuel) (dump_element cjson k n) (node m nil)
  unfolding Trip
  element-Trip fuel k n m v e h =
      (element_of cjson k v, rw e refl, λ s. parse-element laws fuel k v s ∙ rw h refl)

  expression-Trip :
      (fuel : ℕ) (n : Node p) (dumped : Exec cjson.Json) (ts : Forest p)
      → n.op ≢ no_op
      → ChildrenTrip fuel dumped ts
      → Trip
          (suc fuel)
          (dumped >>= λ a. value (expression_of cjson n.op a))
          (node (exp_node n.op) ts)
  unfolding Trip ChildrenTrip
  expression-Trip fuel n dumped ts h (a, e, parsed) = (
    expression_of cjson n.op a,
    rw e refl,
    λ s. parse-expression laws fuel n.op a s h ∙ parsed (exp_node n.op) s,
  )

  constant-Trip :
      (fuel : ℕ) (k : Kind) (t : KrType) (n : Node p) (w : Val p) (v : cjson.Json)
      → n.value ≡ w
      → dump_value cjson k n ≡ value v
      → ele_node cjson k v ≡ ok (some (constant k t w))
      → Trip (suc fuel) (dump_element cjson k n) (node (constant k t n.value) nil)
  constant-Trip fuel k t n w v e d h =
      subst (λ u. Trip (suc fuel) (dump_element cjson k n) (node (constant k t u) nil)) (sym e)
        (element-Trip fuel k n (constant k t w) v d h)

  set-Trip :
      (fuel : ℕ) (k : Kind) (t : KrType) (n : Node p) (h : HashSet p.Table)
      → n.value ≡ Value.set h
      → cjson.hashset_make t (cjson.hashset_name h) ≡ h
      → dump_value cjson k n
        ≡ (as_set n.value >>= λ m. value (cjson.create_string (cjson.hashset_name m)))
      → ((j : cjson.Json)
          → ele_node cjson k j
            ≡ bind
                (text (cjson.valuestring j))
                (λ x. ok (some (constant k KrType.pointer (Value.set (cjson.hashset_make t x))))))
      → Trip (suc fuel) (dump_element cjson k n) (node (constant k KrType.pointer n.value) nil)
  set-Trip fuel k t n h e same dumped parsed =
      let x = cjson.hashset_name h in
      constant-Trip fuel k KrType.pointer n (Value.set h) (cjson.create_string x) e
        (dumped ∙ ap (λ u. as_set u >>= λ m. value (cjson.create_string (cjson.hashset_name m))) e)
        (parsed (cjson.create_string x)
          ∙ ap
              (λ o.
                bind (text o)
                  (λ y. ok (some (constant k KrType.pointer (Value.set (cjson.hashset_make t y))))))
              (laws.text x)
          ∙ ap (λ g. ok (some (constant k KrType.pointer (Value.set g)))) same)

  identifier-Trip :
      (fuel : ℕ) (k : Kind) (n : Node p)
      → fits_int n.id ≡ true
      → dump_value cjson k n ≡ value (number_of cjson n.id)
      → ((j : cjson.Json) → ele_node cjson k j ≡ ok (some (identifier k (get_int cjson j))))
      → Trip (suc fuel) (dump_element cjson k n) (node (identifier k n.id) nil)
  identifier-Trip fuel k n fits e h =
      element-Trip fuel k n (identifier k n.id) (number_of cjson n.id) e (
        h (number_of cjson n.id)
        ∙ ap (λ i. ok (some (identifier k i))) (get_int-number laws n.id fits))

  node-Trip :
      (fuel : ℕ) (k : Kind) (n : Node p) (dumped : Exec cjson.Json) (ts : Forest p)
      → Holds cjson k n
      → ChildrenTrip fuel dumped ts
      → Trip (suc fuel) (dump_node cjson k n dumped) (fresh_tree k n ts)
  unfolding dump_node dump_value ele_node
  node-Trip fuel rel n dumped ts h c = expression-Trip fuel n dumped ts h.1 c
  node-Trip fuel arith' n dumped ts h c = expression-Trip fuel n dumped ts h.1 c
  node-Trip fuel logic n dumped ts h c = expression-Trip fuel n dumped ts h.1 c
  node-Trip fuel int n dumped ts (i, e, fits) c =
      constant-Trip fuel int KrType.int n (Value.i i) (number_of cjson i) e
        (ap (λ u. as_int u >>= λ m. value (number_of cjson m)) e)
        (ap (λ m. ok (some (constant int KrType.int (Value.i m)))) (get_int-number laws i fits))
  node-Trip fuel float n dumped ts (d, e) c =
      constant-Trip fuel float KrType.double n (Value.d d) (cjson.create_number d) e
        (ap (λ u. as_d p u >>= λ m. value (cjson.create_number m)) e)
        (ap (λ m. ok (some (constant float KrType.double (Value.d m)))) (laws.number d))
  node-Trip fuel string n dumped ts (t, e) c =
      constant-Trip fuel string KrType.string n (Value.s t) (cjson.create_string t) e
        (ap (λ u. as_s u >>= λ m. value (cjson.create_string m)) e) (rw laws.text refl)
  node-Trip fuel mint n dumped ts (t, e, same) c =
      set-Trip fuel mint KrType.int n t e same refl (λ j. refl)
  node-Trip fuel mfloat n dumped ts (t, e, same) c =
      set-Trip fuel mfloat KrType.double n t e same refl (λ j. refl)
  node-Trip fuel mstring n dumped ts (t, e, same) c =
      set-Trip fuel mstring KrType.string n t e same refl (λ j. refl)
  node-Trip fuel regex n dumped ts (t, e, same) c =
      constant-Trip fuel regex KrType.pointer n (Value.regex t)
        (cjson.create_string (cjson.regex_pattern t)) e
        (ap (λ u. as_regex u >>= λ m. value (cjson.create_string (cjson.regex_pattern m))) e)
        (rw (laws.text, same) refl)
  node-Trip fuel set n dumped ts h c = identifier-Trip fuel set n h refl (λ j. refl)
  node-Trip fuel cid n dumped ts h c = identifier-Trip fuel cid n h refl (λ j. refl)
  node-Trip fuel fid n dumped ts h c = identifier-Trip fuel fid n h refl (λ j. refl)
  node-Trip fuel sid n dumped ts h c = identifier-Trip fuel sid n h refl (λ j. refl)
  node-Trip fuel did n dumped ts h c = identifier-Trip fuel did n h refl (λ j. refl)
  node-Trip fuel hid n dumped ts h c = identifier-Trip fuel hid n h refl (λ j. refl)

  add_all : cjson.Json → List cjson.Json → cjson.Json
  add_all a [] = a
  add_all a (j ∷ js) = add_all (cjson.add_item_to_array a j) js

  items-add_all :
      (a : cjson.Json) (js : List cjson.Json) → cjson.items (add_all a js) ≡ cjson.items a ++ js
  unfolding add_all
  items-add_all a [] = sym (append-nil (cjson.items a))
  items-add_all a (j ∷ js) =
      items-add_all (cjson.add_item_to_array a j) js ∙ rw (laws.added_item, append_assoc) refl

  -- the trip of some children, whatever stands before them
  ForestTrip : ℕ → Forest p → Type 0
  ForestTrip fuel ts =
      (js : List cjson.Json) × ((a : cjson.Json)
        → dump_children cjson 0 zero ts a ≡ value (add_all a js))
      × ((i : ℕ) (m : Node p) (us : Forest p) (s : Status p)
          → parse_children cjson (parse_json cjson fuel) i js (node m us) s
            ≡ ok (some (node m (join us (all_fresh ts))), s))

  nil-ForestTrip : (fuel : ℕ) → ForestTrip fuel nil
  unfolding ForestTrip dump_children add_all parse_children all_fresh
  nil-ForestTrip fuel =
      ([], λ a. refl, λ i m us s. ap (λ u. ok (some (node m u), s)) (sym (join-nil us)))

  cons-ForestTrip :
      (fuel : ℕ) (t : Tree p) (ts : Forest p)
      → Trip fuel (dump_json cjson 0 t) (fresh t)
      → ForestTrip fuel ts
      → ForestTrip fuel (cons t ts)
  unfolding Trip ForestTrip dump_children add_all parse_children all_fresh join
  cons-ForestTrip fuel t ts (j, e, parsed) (js, es, later) = (
    j ∷ js,
    λ a. rw e (es (cjson.add_item_to_array a j)),
    λ i m us s.
        rw (parsed s, tree_append-join)
          (later (i + 1) m (join us (cons (fresh t) nil)) s
            ∙ ap (λ u. ok (some (node m u), s))
                (join_assoc us (cons (fresh t) nil) (all_fresh ts))),
  )

  ForestTrip-ChildrenTrip :
      (fuel : ℕ) (ts : Forest p)
      → ForestTrip fuel ts
      → ChildrenTrip fuel (dump_children cjson 0 zero ts cjson.create_array) (all_fresh ts)
  unfolding ForestTrip ChildrenTrip join
  ForestTrip-ChildrenTrip fuel ts (js, es, parsed) = (
    add_all cjson.create_array js,
    es cjson.create_array,
    λ m s. rw (items-add_all, laws.new_array) (parsed 0 m nil s),
  )

  mutual
    unfolding Dumpable dump_json fresh depth

    tree-Trip :
        (t : Tree p) (fuel : ℕ)
        → Dumpable cjson t
        → depth t ≤ fuel
        → Trip fuel (dump_json cjson 0 t) (fresh t)
    tree-Trip (node n cs) zero h d = absurd (omega arith)
    tree-Trip (node n cs) (suc fuel) h d =
        node-Trip fuel n.kind n (dump_children cjson 0 zero cs cjson.create_array) (all_fresh cs)
          h.0 (ForestTrip-ChildrenTrip fuel cs (forest-Trip cs fuel h.1 (omega (arith, d))))

    forest-Trip :
        (ts : Forest p) (fuel : ℕ)
        → AllDumpable cjson ts
        → depth_children ts ≤ fuel
        → ForestTrip fuel ts
    forest-Trip nil fuel h d = nil-ForestTrip fuel
    forest-Trip (cons t ts) fuel h d =
        cons-ForestTrip fuel t ts (tree-Trip t fuel h.0 (ground (arith, d)))
          (forest-Trip ts fuel h.1 (ground (arith, d)))

  -- A tree whose nodes hold what their kinds promise is dumped as JSON, where the loops of the dumper
  -- start at 0, and parsing gives the tree back, as the parser makes it: constants, sets and regular
  -- expressions with their values, and everything else without one. The status is not changed.
  pub parse_json-dump_json :
      (t : Tree p) (fuel : ℕ)
      → Dumpable cjson t
      → depth t ≤ fuel
      → (j : cjson.Json) × (dump_json cjson 0 t ≡ value j)
        × ((s : Status p) → parse_json cjson fuel j s ≡ ok (some (fresh t), s))
  unfolding Trip
  parse_json-dump_json t fuel h d = tree-Trip t fuel h d
