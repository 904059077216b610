-- ===== src/Utils/KrList/Copy.antt =====
-- The copy that `kr_list_dup` of krutils/kr_list.c makes beside a list: how it grows, and how it is
-- given up.
use krproject.Base.{
  ◌≡◌, refl, sym, ap, ◌∙◌, true, false, Option, none, some, List, [], ◌∷◌, ◌++◌, ∷-eq, ◌≢◌, ◌⊎◌,
  inl, inr, arith, Bool-cases, if◌then◌else◌,
}
use mathlib.Core.Path.{subst}
use mathlib.Core.List.{append-nil}
use krproject.Utils.Heap.{Ptr, null, Node, Heap, pure, ◌>>◌}
use krproject.Utils.KrList.{KrList, Callbacks, dup_value, list_destroy}
use krproject.Utils.KrList.Chain.{Cells, has, has-append}
use krproject.Utils.KrList.Link.{Returns, returns, Returns-bind, IsList}
use krproject.Utils.KrList.Insert.{Inserted, unused-has}
use krproject.Utils.KrList.Release.{handed, list_destroy-Freed}

-- What `malloc` gives is `NULL` or the address of unused memory.
abbrev pub Allocates : (Heap → Ptr) → Type 0
Allocates malloc = (h : Heap) → (malloc h ≡ null) ⊎ ((malloc h ≢ null) × (h.cell (malloc h) ≡ none))

-- the values of the copy, or `none` if a `dup` fails
abbrev pub join_values : Option Ptr → Option (List Ptr) → Option (List Ptr)
join_values (some w) (some ws) = some (w ∷ ws)
join_values _ _ = none

abbrev pub dup_values : Callbacks → Cells → Option (List Ptr)
dup_values k [] = some []
dup_values k ((p, v) ∷ xs) = join_values (dup_value k v) (dup_values k xs)

abbrev pub values : Cells → List Ptr
values [] = []
values ((p, v) ∷ xs) = v ∷ values xs

-- the list `zs` lies in memory that `h` did not use, and nothing else of `h` changed
pub record Beside (h : Heap) (copy : KrList) (zs : Cells) (g : Heap) : Type 0 where
  pub list : IsList g copy zs
  pub same : (q : Ptr) → has q zs ≡ false → g.cell q ≡ h.cell q
  pub fresh : (q : Ptr) → has q zs ≡ true → h.cell q ≡ none
  pub released : g.released ≡ h.released

-- A copy has the values of the original, duplicated, and lies beside what was there.
pub record Copied (h : Heap) (copy : KrList) (zs : Cells) (xs : Cells) (copy' : KrList) (g : Heap)
    : Type 0 where
  pub cells : Cells
  pub added : List Ptr
  pub beside : Beside h copy' cells g
  pub duplicated : dup_values copy.calls xs ≡ some added
  pub values : values cells ≡ values zs ++ added
  pub calls : copy'.calls ≡ copy.calls

-- Without a copy: the nodes are those of before. The copying stopped at a node of the original whose
-- value cannot be duplicated, or where `malloc` gave `NULL`; the values that were copied till then were
-- handed to `free`, where it is set.
pub record Undone (malloc : Heap → Ptr) (h : Heap) (copy : KrList) (zs xs : Cells) (g : Heap)
    : Type 0 where
  pub same : (q : Ptr) → g.cell q ≡ h.cell q
  pub before : Cells
  pub at : Ptr
  pub value : Ptr
  pub after : Cells
  pub split : xs ≡ before ++ (at, value) ∷ after
  pub added : List Ptr
  pub duplicated : dup_values copy.calls before ≡ some added
  pub made : Cells
  pub values : values made ≡ values zs ++ added
  pub released : g.released ≡ handed copy made h.released
  pub cause : (dup_value copy.calls value ≡ none) ⊎ ((g' : Heap) × (malloc g' ≡ null))

-- what `kr_list_dup` promises
abbrev pub Outcome : (Heap → Ptr) → Heap → KrList → Cells → Cells → Option KrList → Heap → Type 0
Outcome malloc h copy zs xs none g = Undone malloc h copy zs xs g
Outcome malloc h copy zs xs (some copy') g = Copied h copy zs xs copy' g

handed-calls :
    (l l' : KrList) (xs : Cells) (rs : List Ptr)
    → l'.calls ≡ l.calls
    → handed l' xs rs ≡ handed l xs rs
handed-calls l l' [] rs e = refl
handed-calls l l' ((p, v) ∷ xs) rs e =
    handed-calls l l' xs _ e ∙ ap (λ k. handed l xs (if k.free then v ∷ rs else rs)) e

values-append :
    (zs : Cells) (p w : Ptr) (ws : List Ptr)
    → (values (zs ++ (p, w) ∷ []) ++ ws) ≡ values zs ++ w ∷ ws
values-append [] p w ws = refl
values-append ((q, v) ∷ zs) p w ws = ∷-eq refl (values-append zs p w ws)

module _ (malloc : Heap → Ptr) (h : Heap) where
  -- the copy is given up
  pub undo-Outcome :
      (copy : KrList) (zs xs : Cells) (p v : Ptr) (g : Heap)
      → Beside h copy zs g
      → (dup_value copy.calls v ≡ none) ⊎ ((g' : Heap) × (malloc g' ≡ null))
      → Returns (Outcome malloc h copy zs ((p, v) ∷ xs)) ((list_destroy copy >> pure none) g)
  undo-Outcome copy zs xs p v g b cause = Returns-bind (list_destroy-Freed zs b.list) λ _ g' f.
      returns record {
        same = λ q.
            let e = f.cells q in
            elim (Bool-cases (has q zs)) [
              | inl i ↦ let s = b.fresh q i in ground (arith, e, i, s)
              | inr o ↦ let s = b.same q o in ground (arith, e, o, s)
            ];
        before = [];
        at = p;
        value = v;
        after = xs;
        split = refl;
        added = [];
        duplicated = refl;
        made = zs;
        values = sym (append-nil (values zs));
        released = f.released ∙ ap (handed copy zs) b.released;
        cause = cause;
      }

  pub unused-Beside :
      (copy : KrList) (zs : Cells) (g : Heap) (p : Ptr) (n : Node)
      → Beside h copy zs g
      → h.cell p ≡ some n
      → g.cell p ≡ some n
  unused-Beside copy zs g p n b e = elim (Bool-cases (has p zs)) [
    | inl i ↦ let s = b.fresh p i in ground (arith, s, e)
    | inr o ↦ b.same p o ∙ e
  ]

  pub grow-Beside :
      (copy : KrList) (zs : Cells) (g : Heap) (p w : Ptr) (copy' : KrList) (g' : Heap)
      → Beside h copy zs g
      → g.cell p ≡ none
      → Inserted g copy zs p w [] copy' g'
      → Beside h copy' (zs ++ (p, w) ∷ []) g'
  grow-Beside copy zs g p w copy' g' b unused i =
      let out : has p zs ≡ false = unused-has g.cell null zs null p unused b.list.chain in
      record {
        list = i.list;
        released = i.released ∙ b.released;
        same = λ q o.
            let m = has-append q zs ((p, w) ∷ []) in
            i.outside q (ground (arith, m, o)) refl (ground (arith, m, o))
            ∙ b.same q (ground (arith, m, o));
        fresh = λ q j.
            let m = has-append q zs ((p, w) ∷ []) in
            elim (Bool-cases (has q zs)) [
              | inl k ↦ b.fresh q k
              | inr o ↦
                  let e : q ≡ p = ground (arith, m, o, j) in
                  subst (λ r. h.cell r ≡ none) (sym e) (sym (b.same p out) ∙ unused)
            ];
      }

  pub grow-Outcome :
      (copy : KrList) (zs xs : Cells) (p q v w : Ptr) (copy' : KrList) (o : Option KrList)
      (g : Heap)
      → dup_value copy.calls v ≡ some w
      → copy'.calls ≡ copy.calls
      → Outcome malloc h copy' (zs ++ (p, w) ∷ []) xs o g
      → Outcome malloc h copy zs ((q, v) ∷ xs) o g
  grow-Outcome copy zs xs p q v w copy' none g e k out = record {
    same = out.same;
    before = (q, v) ∷ out.before;
    at = out.at;
    value = out.value;
    after = out.after;
    split = ∷-eq refl out.split;
    added = w ∷ out.added;
    duplicated =
        let d = subst (λ c. dup_values c out.before ≡ some out.added) k out.duplicated in
        ap (λ o. join_values o (dup_values copy.calls out.before)) e ∙ ap (join_values (some w)) d;
    made = out.made;
    values = out.values ∙ values-append zs p w out.added;
    released = out.released ∙ handed-calls copy copy' out.made h.released k;
    cause =
        subst (λ c. (dup_value c out.value ≡ none) ⊎ ((g' : Heap) × (malloc g' ≡ null))) k
          out.cause;
  }
  grow-Outcome copy zs xs p q v w copy' (some copy'') g e k out = record {
    cells = out.cells;
    added = w ∷ out.added;
    beside = out.beside;
    duplicated =
        let d = subst (λ c. dup_values c xs ≡ some out.added) k out.duplicated in
        ap (λ o. join_values o (dup_values copy.calls xs)) e ∙ ap (join_values (some w)) d;
    values = out.values ∙ values-append zs p w out.added;
    calls = out.calls ∙ k;
  }
