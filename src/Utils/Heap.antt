-- ===== src/Utils/Heap.antt =====
-- The nodes of krutils/kr_list.h at their addresses, and commands that read and write them.
use krproject.Base.{ℕ, ◌≡◌, ◌≢◌, false, Option, none, some, List, ◌==◌, if◌then◌else◌, arith}
use krproject.Base.{Run, ok, fault, null_read, freed_read}

-- An address; a value of a list is a `void *`, which is one as well.
abbrev pub Ptr : Type 0
Ptr = ℕ

abbrev pub null : Ptr
null = 0

-- `T_KRListNode`
pub record Node : Type 0 where
  pub prev : Ptr
  pub next : Ptr
  pub value : Ptr

abbrev pub node : Ptr → Ptr → Ptr → Node
node q r v = record { prev = q; next = r; value = v }

-- The nodes that are allocated, and the values that were handed to a `free` callback, the last
-- one first.
pub record Heap : Type 0 where
  pub cell : Ptr → Option Node
  pub released : List Ptr

abbrev pub update : (Ptr → Option Node) → Ptr → Option Node → Ptr → Option Node
update f p c a = if a == p then c else f a

-- A command changes the heap and gives a result, or stops in a fault.
abbrev pub Cmd : Type 0 → Type 0
Cmd A = Heap → Run (A × Heap)

abbrev pub and_then : {A B : Type 0} → Run (A × Heap) → (A → Cmd B) → Run (B × Heap)
and_then (fault e) later = fault e
and_then (ok (a, h)) later = later a h

infixl 5 ◌>>◌ ◌>>=◌
abbrev pub ◌>>=◌ : {A B : Type 0} → Cmd A → (A → Cmd B) → Cmd B
first >>= later = λ heap. and_then (first heap) later

abbrev pub ◌>>◌ : {A B : Type 0} → Cmd A → Cmd B → Cmd B
first >> later = λ heap. and_then (first heap) λ _. later

abbrev pub pure : {A : Type 0} → A → Cmd A
pure result heap = ok (result, heap)

-- The contents of an address are replaced; `none` gives the memory back.
abbrev pub store : Ptr → Option Node → Cmd (Unit {0})
store p contents heap = ok (tt, record heap { cell = update heap.cell p contents })

-- the node at `p`; `NULL` and an address without a node are faults
unfoldable pub load : Ptr → Cmd Node
load p heap =
    if p == null
    then fault null_read
    else elim (heap.cell p) [ none ↦ fault freed_read | some contents ↦ pure contents heap ]

-- `p->prev = q` and `p->next = q`
unfoldable pub set_prev : Ptr → Ptr → Cmd (Unit {0})
set_prev p q = load p >>= λ n. store p (some (node q n.next n.value))

unfoldable pub set_next : Ptr → Ptr → Cmd (Unit {0})
set_next p q = load p >>= λ n. store p (some (node n.prev q n.value))

-- `kr_free(p)` of a node
unfoldable pub free_node : Ptr → Cmd (Unit {0})
free_node p = load p >>= λ _. store p none

-- `p` is the address of a node with these members.
pub record Points (c : Ptr → Option Node) (p q r v : Ptr) : Type 0 where
  pub ne_null : p ≢ null
  pub holds : c p ≡ some (node q r v)

pub not_null : {c : Ptr → Option Node} {p q r v : Ptr} → Points c p q r v → (p == null) ≡ false
not_null e = ground (arith, e.ne_null)

module _ (h : Heap) {p q r v : Ptr} (e : Points h.cell p q r v) where
  pub load-ok : load p h ≡ ok (node q r v, h)
  unfolding load
  load-ok = rw (not_null e, e.holds)

  pub free_node-ok : free_node p h ≡ ok (tt, record h { cell = update h.cell p none })
  unfolding free_node
  free_node-ok = rw load-ok

  module _ (s : Ptr) where
    pub set_prev-ok :
        set_prev p s h ≡ ok (tt, record h { cell = update h.cell p (some (node s r v)) })
    unfolding set_prev
    set_prev-ok = rw load-ok

    pub set_next-ok :
        set_next p s h ≡ ok (tt, record h { cell = update h.cell p (some (node q s v)) })
    unfolding set_next
    set_next-ok = rw load-ok
