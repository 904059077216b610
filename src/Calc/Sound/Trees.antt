-- ===== src/Calc/Sound/Trees.antt =====
-- The evaluation of a tree.
use krproject.Base.{
  ◌≡◌, refl, Bool, true, false, inl, inr, Option, none, some, Run, ok, fault, bad_division, arith,
  Bool-cases, sym,
}
use krproject.Base.Int.{ℤ}
use krproject.Platform.{Platform, KrType, Val}
use krproject.Calc.{Kind, rel, set, cid, fid, sid, did, hid, Node, Calc, CalcError, set_error}
use krproject.Calc.Check.{is_unknown}
use krproject.Calc.Outcome.{Exec, value, missing, error, crash}
use krproject.Calc.Eval.{settle, fetch, store_extern, store_value, known_type, eval_extern}
use krproject.Calc.Sound.{fits, suits, TypeOk, NodeOk, Serves, Safe}
use mathlib.Core.Path.{subst}
use krproject.Calc.Sound.Nodes.{Safe-mono}

fetch-Safe :
    (p : Platform) (t : KrType) (v : Val p)
    → fits t v ≡ true
    → Safe (λ w. fits t w ≡ true) (fetch p t v)
unfolding fetch
fetch-Safe p t v h = ground arith

-- the node after the visit: its kind stays
abbrev pub Visited : {p : Platform} → (Kind → ℤ → KrType) → Kind → Node p → Type 0
Visited declared a n = NodeOk declared n × (n.kind ≡ a)

-- the kinds of the data items, sets left aside
abbrev IsItem : Kind → Type 0
IsItem cid = Unit
IsItem fid = Unit
IsItem sid = Unit
IsItem did = Unit
IsItem hid = Unit
IsItem _ = ⊥

TypeOk-item :
    (declared : Kind → ℤ → KrType) (a : Kind) (id : ℤ) (t : KrType)
    → IsItem a
    → t ≡ declared a id
    → TypeOk declared a id t
TypeOk-item declared rel id t i e = absurd i
TypeOk-item declared _ id t i e = ground arith

suits-item : (p : Platform) (a : Kind) (v : Val p) → IsItem a → suits a v ≡ true
suits-item p rel v i = absurd i
suits-item p _ v i = ground arith

-- a node that is not set, with a type that suits its kind
unset-Visited :
    {p : Platform} (declared : Kind → ℤ → KrType) (n : Node p)
    → n.ind ≡ false
    → TypeOk declared n.kind n.id n.type
    → Visited declared n.kind n
unset-Visited declared n e t = (record { held = λ q. cc; suited = λ q. cc; typed = t }, refl)

module _ {p : Platform} (declared : Kind → ℤ → KrType) {C : Type 0} where
  -- The run ends with a result that has the property, and with callbacks that still serve, or it
  -- stops at a bad division.
  abbrev pub Ends : {A : Type 0} → (A → Type 0) → Run (A × Calc p C × Bool) → Type 0
  Ends P (ok r) = P r.0 × Serves declared r.1
  Ends P (fault bad_division) = Unit
  Ends P (fault _) = ⊥

  -- the callbacks serve on when the other fields change
  pub Serves-param :
      (k : Calc p C) (c : C) → Serves declared k → Serves declared (record k { calc_param = c })
  Serves-param k c s = record { types = s.types; reads = s.reads; values = s.values }

  Serves-error :
      (k : Calc p C) (e : CalcError) → Serves declared k → Serves declared (set_error e k)
  Serves-error k e s = record { types = s.types; reads = s.reads; values = s.values }

  pub settle-Ends :
      (m : Exec (Val p)) (n : Node p) (k : Calc p C)
      → Safe (λ v. (fits n.type v ≡ true) × (suits n.kind v ≡ true)) m
      → TypeOk declared n.kind n.id n.type
      → Serves declared k
      → Ends (Visited declared n.kind) (settle m n k)
  unfolding settle
  settle-Ends (value v) n k h t s =
      ((record { held = λ e. h.0; suited = λ e. h.1; typed = t }, refl), s)
  settle-Ends missing n k h t s = (unset-Visited declared _ refl t, s)
  settle-Ends (error e) n k h t s = (unset-Visited declared _ refl t, Serves-error k e s)
  settle-Ends (crash bad_division) n k h t s = tt
  settle-Ends (crash _) n k h t s = h

  -- the node with the type that evaluation gives it
  abbrev typed_node : Node p → Calc p C → Node p
  typed_node n k = record n { type = known_type n k }

  known_type-item :
      (a : Kind) (n : Node p) (k : Calc p C)
      → IsItem a
      → n.kind ≡ a
      → TypeOk declared n.kind n.id n.type
      → Serves declared k
      → known_type n k ≡ declared n.kind n.id
  unfolding known_type
  known_type-item rel n k i e t s = absurd i
  known_type-item _ n k i e t s = ground (arith, s.types n.kind n.id k.calc_param)

  -- a value of the kind and type of the node is stored in it
  pub settle-suited :
      (m : Exec (Val p)) (n : Node p) (k : Calc p C)
      → Safe (λ v. fits n.type v ≡ true) m
      → ((v : Val p) → suits n.kind v ≡ true)
      → TypeOk declared n.kind n.id n.type
      → Serves declared k
      → Ends (Visited declared n.kind) (settle m n k)
  settle-suited m n k h fit = settle-Ends m n k (Safe-mono _ _ m h (λ v f. (f, fit v)))

  store_item-Ends :
      (a : Kind) (n : Node p) (v : Val p) (k : Calc p C)
      → IsItem a
      → n.kind ≡ a
      → n.type ≡ declared n.kind n.id
      → Serves declared k
      → fits n.type v ≡ true
      → Ends (Visited declared n.kind) (store_value a n v k)
  unfolding store_value
  store_item-Ends rel n v k i e t s h = absurd i
  store_item-Ends set n v k i e t s h = absurd i
  store_item-Ends _ n v k i e t s h =
      let item = subst IsItem (sym e) i in
      settle-suited (fetch p n.type v) n k (fetch-Safe p n.type v h)
        (λ w. suits-item p n.kind w item) (TypeOk-item declared n.kind n.id n.type item t) s

  store_set-Ends :
      (n : Node p) (v : Val p) (k : Calc p C)
      → n.kind ≡ set
      → Serves declared k
      → suits set v ≡ true
      → Ends (Visited declared n.kind) (store_value set n v k)
  unfolding store_value
  store_set-Ends n v k e s h =
      settle-Ends (value v) (record n { type = KrType.pointer }) k
        (ground arith, subst (λ a. suits a v ≡ true) (sym e) h)
        (subst (λ a. TypeOk declared a n.id KrType.pointer) (sym e) tt) s

  module _ (n : Node p) (k : Calc p C) (s : Serves declared k) where
    -- the run after the callback has answered
    answered :
        (o : Option (Val p)) (c : C)
        → TypeOk declared n.kind n.id (known_type n k)
        → ((v : Val p)
            → o ≡ some v
            → Ends
                (Visited declared n.kind)
                (store_value n.kind (typed_node n k) v (record k { calc_param = c })))
        → Ends
            (Visited declared n.kind)
            (store_extern (typed_node n k) o (record k { calc_param = c }))
    unfolding store_extern
    answered none c t h = (unset-Visited declared _ refl t, Serves-param k c s)
    answered (some v) c t h = h v refl

    -- what is left once the stored value is dealt with
    eval_extern-Ends :
        TypeOk declared n.kind n.id (known_type n k)
        → ((v : Val p) (c : C)
            → fits (declared n.kind n.id) v ≡ true
            → suits n.kind v ≡ true
            → Ends
                (Visited declared n.kind)
                (store_value n.kind (typed_node n k) v (record k { calc_param = c })))
        → Ends (Visited declared n.kind) (eval_extern n k)
    unfolding eval_extern settle
    eval_extern-Ends t h = elim (Bool-cases (is_unknown (known_type n k))) [
      | inl none' ↦ rw none' (unset-Visited declared _ refl t, Serves-error k _ s)
      | inr known ↦
          let (r, run) = s.reads n.kind n.id k.calc_param in
          rw (known, run)
            (answered r.0 r.1 t λ v e.
              let good = s.values n.kind n.id k.calc_param r.1 v (rw run (cc)) in
              h v r.1 good.0 good.1)
    ]

    pub eval_item-Ends :
        (a : Kind)
        → IsItem a
        → n.kind ≡ a
        → NodeOk declared n
        → Ends (Visited declared n.kind) (eval_extern n k)
    eval_item-Ends a i e h =
        let item = subst IsItem (sym e) i in
        let typed = known_type-item n.kind n k item refl h.typed s in
        eval_extern-Ends (TypeOk-item declared n.kind n.id _ item typed) λ v c f g.
          store_item-Ends n.kind (typed_node n k) v (record k { calc_param = c }) item refl typed
            (Serves-param k c s) (rw typed f)

    pub eval_set-Ends : n.kind ≡ set → Ends (Visited declared n.kind) (eval_extern n k)
    eval_set-Ends e =
        eval_extern-Ends (subst (λ a. TypeOk declared a n.id (known_type n k)) (sym e) tt)
          λ v c f g.
            subst
              (λ a.
                Ends (Visited declared n.kind)
                  (store_value a (typed_node n k) v (record k { calc_param = c })))
              (sym e)
              (store_set-Ends (typed_node n k) v (record k { calc_param = c }) e
                (Serves-param k c s) (subst (λ a. suits a v ≡ true) e g))
