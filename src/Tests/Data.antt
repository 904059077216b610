-- ===== src/Tests/Data.antt =====
-- Data items over four sample records.
use krproject.Base.{
  ℕ, ◌≡◌, refl, sym, ap, Bool, true, false, Option, none, some, List, [], ◌∷◌, map, Run, ok,
  if◌then◌else◌,
}
use mathlib.Core.Path.{subst}
use krproject.Base.Int.{ℤ, pos, eqb_ℤ, ◌+ℤ◌, ◌-ℤ◌}
use krproject.Platform.{KrType, Value, Val}
use krproject.Calc.{Kind, fid, no_op, node, nil, CalcError, no_error, traverse}
use krproject.Calc.Members.{is_true}
use krproject.Calc.Eval.{
  tree_eval, eval_visit, eval_kind, eval_extern, known_type, store_extern, store_value, settle,
  fetch,
}
use krproject.Calc.Object.{Calculator, calc_eval, holds}
use krproject.Data.{Record, Scope}
use krproject.Data.Aggregate.{min, sum, Method}
use krproject.Data.Dynamic.{DdiDef, Ddi, DdiRun, ddi_init, ddi_aggr_func}
use krproject.Data.Window.{Decider, within, Near, window}
use krproject.Data.Totals.{AreInts}
use krproject.Data.Methods.{Computed, ddi_aggr_func-Computed}
use krproject.Data.Access.{RecordLists, get_value, ddi_compute, ddi_get_value}
use krproject.Data.Cached.{ddi_get_value_stale}
use krproject.Data.Static.{Sdi, relative, sdi_init, sdi_aggr_func}
use krproject.Data.Place.{sought}
use krproject.Data.Locate.{Located, sdi_aggr_func-sought}
use krproject.Tests.Sample.{small}

-- Field 2 is an amount, and field 3 says whether the record counts.
abbrev sale : ℕ → ℤ → ℤ → ℤ → Record small
sale address time amount flag = record {
  address = address;
  table_id = pos 1;
  transtime = time;
  field_type = λ f. KrType.int;
  field_value = λ f. if eqb_ℤ f (pos 2) then Value.i amount else Value.i flag;
}

abbrev flag : Val small → ℤ
flag (Value.i n) = n
flag _ = pos 0

abbrev decide : Record small → Bool
decide r = is_true (flag (r.field_value (pos 3)))

abbrev read_flag : Kind → ℤ → Scope small ℕ → Run (Option (Val small) × Scope small ℕ)
read_flag a id x = elim x.pt_record [
  | none ↦ ok (none, x)
  | some r ↦ ok (some (Value.b (flag (r.field_value id))), x)
]

-- the filter F_3, before and after evaluations
abbrev filter : Bool → Val small → ℤ → CalcError → Scope small ℕ → Calculator small (Scope small ℕ)
filter ind v status message x = record {
  calc_tree =
      node (record { kind = fid; op = no_op; id = pos 3; type = KrType.bool; ind = ind; value = v })
        nil;
  state = record {
    get_type_cb = λ a id x. KrType.bool;
    get_value_cb = read_flag;
    calc_param = x;
    calc_status = status;
    calc_errmsg = message;
  };
}

abbrev IsFilter : Calculator small (Scope small ℕ) → Type 0
IsFilter krcalc =
    (ind : Bool) × (v : Val small) × (status : ℤ) × (message : CalcError) × (x : Scope small ℕ)
    × (krcalc ≡ filter ind v status message x)

calc_eval-filter :
    (ind : Bool) (v : Val small) (status : ℤ) (message : CalcError) (x₀ x : Scope small ℕ)
    (r : Record small)
    → x.pt_record ≡ some r
    → calc_eval (filter ind v status message x₀) x
      ≡ ok (filter true (Value.b (flag (r.field_value (pos 3)))) status message x, x, true)
unfolding calc_eval tree_eval traverse eval_visit eval_kind eval_extern known_type store_extern
    store_value settle fetch
calc_eval-filter ind v status message x₀ x r h =
    subst
      (λ y.
        calc_eval (filter ind v status message x₀) y
        ≡ ok (filter true (Value.b (flag (r.field_value (pos 3)))) status message y, y, true))
      (sym (ap (λ q. record x { pt_record = q }) h)) refl

IsFilter-Decider : Decider (sale 4 (pos 100) (pos 8) (pos 1)) decide IsFilter
unfolding holds
IsFilter-Decider = record {
  steady = λ krcalc x r k c e.
      let (ind, v, status, message, x₀, same) = k in
      (
        filter true (Value.b (flag (r.field_value (pos 3)))) status message x,
        x,
        subst
            (λ q.
              calc_eval q x
              ≡ ok (filter true (Value.b (flag (r.field_value (pos 3)))) status message x, x, true))
            (sym same) (calc_eval-filter ind v status message x₀ x r e),
        (true, Value.b (flag (r.field_value (pos 3))), status, message, x, refl),
        c,
        e,
        refl,
        refl,
      );
}

-- The last one is too old, and the second is not accepted.
abbrev sales : List (Record small)
sales =
    sale 4 (pos 100) (pos 8) (pos 1)
    ∷ sale 3 (pos 90) (pos 2) (pos 0)
    ∷ sale 2 (pos 60) (pos 5) (pos 1)
    ∷ sale 1 (pos 10) (pos 4) (pos 1)
    ∷ []

abbrev scope : Scope small ℕ
scope = record {
  pt_curr_rec = some (sale 4 (pos 100) (pos 8) (pos 1));
  pt_record = none;
  pt_rec_list = sales;
  rest = 0;
}

abbrev fresh : Calculator small (Scope small ℕ)
fresh = filter false Value.zeroed (pos 0) no_error scope

fresh-IsFilter : IsFilter fresh
fresh-IsFilter = (false, Value.zeroed, pos 0, no_error, scope, refl)

abbrev window_def : Method → DdiDef
window_def m = record {
  excludes = false;
  statistics_datasrc = pos 1;
  statistics_index = pos 0;
  statistics_value = pos 50;
  statistics_field = pos 2;
  method = m;
}

abbrev total : Method → Ddi small ℕ
total m = record {
  def = window_def m;
  e_value_type = KrType.int;
  calc = fresh;
  pt_curr_rec = none;
  e_value_ind = true;
  u_value = Value.i (pos 77);
  related = [];
}

abbrev previous : Sdi small ℕ
previous = record {
  def = record {
    location_property = relative;
    statistics_location = pos 1;
    statistics_datasrc = pos 1;
    statistics_index = pos 0;
    statistics_field = pos 2;
  };
  e_value_type = KrType.int;
  calc = fresh;
  pt_curr_rec = none;
  e_value_ind = true;
  u_value = Value.i (pos 77);
  related = [];
}

abbrev current : Record small
current = sale 4 (pos 100) (pos 8) (pos 1)

abbrev amount : Record small → ℤ
amount r = flag (r.field_value (pos 2))

near : Near current sales
unfolding ◌-ℤ◌
near = (refl, (refl, (refl, (refl, tt))))

accepted :
    window (window_def min) current decide sales ≡ current ∷ sale 2 (pos 60) (pos 5) (pos 1) ∷ []
unfolding within ◌+ℤ◌
accepted = refl

-- The smallest of 8 and 5 comes out as 0.
ddi_aggr_func-Computed_example :
    Computed min
      (map amount (window (window_def min) current decide sales))
      (ddi_aggr_func (ddi_init (total min)) scope)
ddi_aggr_func-Computed_example =
    ddi_aggr_func-Computed current decide IsFilter IsFilter-Decider (total min) scope amount
      fresh-IsFilter refl refl near
      (subst (AreInts (window_def min) amount) (sym accepted) (refl, refl, (refl, refl, tt))) tt

sdi_aggr_func-sought_example :
    Located previous.def KrType.int
      (sought relative previous.def decide sales)
      (sdi_aggr_func (sdi_init previous) scope)
sdi_aggr_func-sought_example =
    sdi_aggr_func-sought (sale 4 (pos 100) (pos 8) (pos 1)) decide IsFilter IsFilter-Decider
      previous scope fresh-IsFilter refl

-- an item with a function of its own
abbrev own : Option (Ddi small ℕ → Scope small ℕ → DdiRun small ℕ)
own = some (λ krddi x. ok (record krddi { u_value = Value.i (pos 9); e_value_ind = true }, x, true))

abbrev lists : RecordLists small
lists r i = some sales

abbrev found : Ddi small ℕ
found = record (ddi_init (total sum)) {
  u_value = Value.i (pos 9);
  e_value_ind = true;
  pt_curr_rec = some 4;
}

look_up :
    ddi_get_value lists own (some (total sum)) scope
    ≡ ok (some found, scope, some (Value.i (pos 9)))
unfolding ddi_get_value ddi_compute get_value
look_up = refl

-- The next record in the same place of the buffer.
abbrev next_scope : Scope small ℕ
next_scope = record scope { pt_curr_rec = some (sale 4 (pos 120) (pos 6) (pos 1)) }

ddi_get_value_stale_example :
    ddi_get_value lists own (some (ddi_init found)) next_scope
    ≡ ok (some (ddi_init found), next_scope, none)
ddi_get_value_stale_example =
    ddi_get_value_stale lists own (total sum) found scope scope next_scope (Value.i (pos 9)) look_up
      refl
