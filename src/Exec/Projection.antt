-- ===== src/Exec/Projection.antt =====
-- src/include/execution/expression/projection.hpp and src/execution/projection_operator.cpp.
use babydb_private.Prelude.{
  ℕ, ◌+◌, ◌≡◌, String, Bool, true, false, Option, none, some, List, [], ◌∷◌, ◌++◌, length, set,
  get_elem?, arith, length-append,
}
use babydb_private.Outcome.{
  Outcome, ok, throws, undefined, duplicate_projection, deref, ◌>>=◌, >>=-eq-ok,
}
use babydb_private.Schema.{Tuple, Schema, keys_from_tuple, get_key_attr, get_key_attrs}
use babydb_private.Exec.Operator.{Chunk, Next}

-- The two classes. A user's function may end in any way.
pub data Calculation : Type 0 where
  unit_projection : Calculation
  ud_projection : (Tuple → Outcome ℕ) → Calculation

pub record Projection : Type 0 where
  pub keys_schema : Schema
  pub output_name : String
  pub key_attrs : List ℕ
  pub calculation : Calculation

unfoldable pub make_unit : String → Projection
make_unit column_name = record {
  keys_schema = column_name ∷ [];
  output_name = column_name;
  key_attrs = [];
  calculation = unit_projection;
}

unfoldable pub calc_internal : Calculation → Tuple → Outcome ℕ
calc_internal unit_projection keys = deref (get_elem? keys 0)
calc_internal (ud_projection udf) keys = udf keys

unfoldable pub calc : Projection → Tuple → Outcome ℕ
unfolding calc_internal keys_from_tuple
calc p t = do keys ← keys_from_tuple t p.key_attrs; calc_internal p.calculation keys

unfoldable pub init : Projection → Schema → Outcome Projection
unfolding get_key_attrs
init p input_schema = do
  attrs ← get_key_attrs input_schema p.keys_schema
  ok (record p { key_attrs = attrs })

pub record ProjectionOperator (S : Type 0) : Type 0 where
  pub output_schema : Schema
  pub projections : List Projection
  pub child_schema : Schema
  pub child : S

unfoldable pub repeat_none : Schema → List (Option Projection)
repeat_none [] = []
repeat_none (column ∷ columns) = none ∷ repeat_none columns

-- Each given projection goes to the place of its output column; a null one is dereferenced.
unfoldable pub place :
    Schema
    → List (Option Projection)
    → List (Option Projection)
    → Outcome (List (Option Projection))
place schema [] slots = ok slots
place schema (none ∷ rest) slots = undefined
place schema (some p ∷ rest) slots = do
  key_attr ← get_key_attr schema p.output_name
  slot ← deref (get_elem? slots key_attr)
  elim slot [
    | some _ ↦ throws duplicate_projection
    | none ↦ place schema rest (set slots key_attr (some p))
  ]

-- The other columns are passed on as they are.
unfoldable pub fill_units : Schema → List (Option Projection) → List Projection
unfolding make_unit
fill_units (column ∷ columns) (some p ∷ slots) = p ∷ fill_units columns slots
fill_units (column ∷ columns) (none ∷ slots) = make_unit column ∷ fill_units columns slots
fill_units _ _ = []

unfoldable pub output_names : List (Option Projection) → Outcome Schema
output_names [] = ok []
output_names (none ∷ rest) = undefined
output_names (some p ∷ rest) = do names ← output_names rest; ok (p.output_name ∷ names)

unfoldable pub present : List (Option Projection) → List Projection
present [] = []
present (none ∷ rest) = present rest
present (some p ∷ rest) = p ∷ present rest

-- The base class's constructor has put the child's schema into `output_schema_`. The test for null
-- pointers runs over the member, which is still empty, so it finds none.
unfoldable pub make_projection :
    {S : Type 0} → S → Schema → List (Option Projection) → Bool → Outcome (ProjectionOperator S)
unfolding repeat_none place fill_units output_names present
make_projection child child_schema given true =
    place child_schema given (repeat_none child_schema) >>= λ slots. ok (record {
      output_schema = child_schema;
      projections = fill_units child_schema slots;
      child_schema = child_schema;
      child = child;
    })
make_projection child child_schema given false = output_names given >>= λ names. ok (record {
  output_schema = child_schema ++ names;
  projections = present given;
  child_schema = child_schema;
  child = child;
})

-- The constructor that is given one projection.
unfoldable pub make_single_projection :
    {S : Type 0} → S → Schema → Option Projection → Bool → Outcome (ProjectionOperator S)
unfolding make_projection
make_single_projection child child_schema projection update_in_place =
    make_projection child child_schema (projection ∷ []) update_in_place

unfoldable pub init_projections : Schema → List Projection → Outcome (List Projection)
unfolding init
init_projections schema [] = ok []
init_projections schema (p ∷ ps) = do
  p' ← init p schema
  ps' ← init_projections schema ps
  ok (p' ∷ ps')

unfoldable pub self_init : {S : Type 0} → ProjectionOperator S → Outcome (ProjectionOperator S)
unfolding init_projections
self_init o = do
  ps ← init_projections o.child_schema o.projections
  ok (record o { projections = ps })

unfoldable pub project : List Projection → Tuple → Outcome Tuple
unfolding calc
project [] t = ok []
project (p ∷ ps) t = do value ← calc p t; rest ← project ps t; ok (value ∷ rest)

unfoldable pub project_rows : List Projection → Chunk → Outcome Chunk
unfolding project
project_rows ps [] = ok []
project_rows ps ((t, id) ∷ rows) = do
  t' ← project ps t
  rest ← project_rows ps rows
  ok ((t', id) ∷ rest)

module _ {S : Type 0} (child_next : Next S) where
  unfoldable pub next : Next (ProjectionOperator S)
  unfolding project_rows
  next o = child_next o.child >>= λ b. project_rows o.projections b.chunk >>= λ rows.
      ok (record { chunk = rows; answer = b.answer; rest = record o { child = b.rest } })

length-output_names :
    (given : List (Option Projection)) (names : Schema)
    → output_names given ≡ ok names
    → length names ≡ length (present given)
unfolding output_names present
length-output_names [] names h = ground arith
length-output_names (none ∷ rest) names h = ground arith
length-output_names (some p ∷ rest) names h =
    let (tail, e, h') = >>=-eq-ok (output_names rest) _ {b = names} h in
    ground (arith, length-output_names rest tail e)

pub length-project :
    (ps : List Projection) (t t' : Tuple) → project ps t ≡ ok t' → length t' ≡ length ps
unfolding project
length-project [] t t' h = ground arith
length-project (p ∷ ps) t t' h =
    let (value, _, h1) = >>=-eq-ok (calc p t) _ {b = t'} h in
    let (rest, e, h2) = >>=-eq-ok (project ps t) _ {b = t'} h1 in
    ground (arith, length-project ps t rest e)

-- Without update in place, the output schema of a projection has the child's columns before its
-- own: it is longer than every tuple that the operator makes by the number of the child's columns.
pub projection_widths :
    {S : Type 0} (child : S) (child_schema : Schema) (given : List (Option Projection))
    (o : ProjectionOperator S) (t t' : Tuple)
    → make_projection child child_schema given false ≡ ok o
    → project o.projections t ≡ ok t'
    → length o.output_schema ≡ length child_schema + length t'
unfolding make_projection
projection_widths child child_schema given o t t' made h =
    let (names, e, h') = >>=-eq-ok (output_names given) _ {b = o} made in
    ground (
      arith,
      length-output_names given names e,
      length-project o.projections t t' h,
      length-append child_schema names,
    )
