-- ===== src/Exec/Widths/Rows.antt =====
-- src/execution: the widths of the rows of the value, filter and projection operators.
use babydb_private.Prelude.{
  ℕ, zero, suc, ◌≡◌, refl, ap, ◌∙◌, subst, true, Option, none, some, List, [], ◌∷◌, length,
  length-set, get_elem?, set, nat_eq, arith, Bool-cases, Option-cases, inl, inr, All-get_elem?,
}
use babydb_private.Outcome.{Outcome, ok, deref, >>=-eq-ok}
use babydb_private.Schema.{Schema, get_key_attr}
use babydb_private.Filter.{Filter}
use babydb_private.Exec.Operator.{ChunkRow, Chunk, have_more_output, exhausted, Batch, Next, emit}
use babydb_private.Exec.Value
use babydb_private.Exec.Value.{ValueOperator, value_step}
use babydb_private.Exec.Filter as Selection
use babydb_private.Exec.Filter.{FilterOperator, filter_rows, passes}
use babydb_private.Exec.Projection
use babydb_private.Exec.Projection.{
  Projection, ProjectionOperator, project, project_rows, length-project, make_projection, place,
  fill_units, repeat_none,
}
use babydb_private.Exec.Widths.{RowsFit, TuplesFit, Fits}

module _ {S : Type 0} (step : S → Outcome (Option (ChunkRow × S))) (Typed : S → Type 0) (width : ℕ)
    (kept : (s : S) (row : ChunkRow) (s' : S)
      → Typed s
      → step s ≡ ok (some (row, s'))
      → (length row.0 ≡ width) × Typed s') where
  same_batch :
      (b b' : Batch S)
      → RowsFit width b.chunk × Typed b.rest
      → ok b ≡ ok b'
      → RowsFit width b'.chunk × Typed b'.rest
  same_batch b b' h e =
      let same : b ≡ b' = ground (arith, e) in
      subst (λ (b : Batch S). RowsFit width b.chunk × Typed b.rest) same h

  pub emit-Fits : (room : ℕ) → Fits (emit step room) Typed width
  unfolding emit
  emit-Fits zero s b typed e =
      same_batch (record { chunk = []; answer = have_more_output; rest = s }) b (tt, typed) e
  emit-Fits (suc room) s b typed e =
      let (at, found, e') = >>=-eq-ok (step s) _ {b = b} e in
      elim (Option-cases at) [
        | inl none_left ↦
            same_batch (record { chunk = []; answer = exhausted; rest = s }) b (tt, typed)
              (rw none_left at e')
        | inr ((row, s'), here) ↦
            let (b', run, e'') = >>=-eq-ok (emit step room s') _ {b = b} (rw here at e') in
            let (fits, typed') = kept s row s' typed (rw here at found) in
            let (later, typed'') = emit-Fits room s' b' typed' run in
            same_batch (record b' { chunk = row ∷ b'.chunk }) b ((fits, later), typed'') e''
      ]

abbrev pub ValueTyped : ℕ → ValueOperator → Type 0
ValueTyped width o = TuplesFit width o.tuples

value_step-TuplesFit :
    (width : ℕ) (o : ValueOperator) (row : ChunkRow) (o' : ValueOperator)
    → ValueTyped width o
    → value_step o ≡ ok (some (row, o'))
    → (length row.0 ≡ width) × ValueTyped width o'
unfolding value_step
value_step-TuplesFit width o row o' typed h =
    elim (Bool-cases (nat_eq o.next_tuple_id (length o.tuples))) [
      | inl e ↦ absurd (ground (arith, rw e at h))
      | inr e ↦
          let (t, found, h') =
            >>=-eq-ok (deref (get_elem? o.tuples o.next_tuple_id)) _ {b = some (row, o')}
              (rw e at h) in
          let here : get_elem? o.tuples o.next_tuple_id ≡ some t = ground (arith, found) in
          let fits = All-get_elem? (λ t. length t ≡ width) o.tuples o.next_tuple_id t typed here in
          (ground (arith, fits, h'), subst (TuplesFit width) (ground (arith, h')) typed)
    ]

pub value-Fits : (width room : ℕ) → Fits (Value.next room) (ValueTyped width) width
unfolding Value.next
value-Fits width room =
    emit-Fits value_step (ValueTyped width) width (value_step-TuplesFit width) room

filter_rows-RowsFit :
    (width : ℕ) (fs : List Filter) (rows rows' : Chunk)
    → RowsFit width rows
    → filter_rows fs rows ≡ ok rows'
    → RowsFit width rows'
unfolding filter_rows
filter_rows-RowsFit width fs [] rows' fits h = subst (RowsFit width) {x = []} (ground (arith, h)) tt
filter_rows-RowsFit width fs ((t, id) ∷ rows) rows' fits h =
    let (pass, _, h1) = >>=-eq-ok (passes fs t) _ {b = rows'} h in
    let (kept, run, h2) = >>=-eq-ok (filter_rows fs rows) _ {b = rows'} h1 in
    let later = filter_rows-RowsFit width fs rows kept fits.1 run in
    elim (Bool-cases pass) [
      | inl e ↦
          let same : (t, id) ∷ kept ≡ rows' = ground (arith, e, h2) in
          subst (RowsFit width) same (fits.0, later)
      | inr e ↦ let same : kept ≡ rows' = ground (arith, e, h2) in subst (RowsFit width) same later
    ]

module _ {S : Type 0} {child_next : Next S} {Typed : S → Type 0} {width : ℕ}
    (child : Fits child_next Typed width) where
  abbrev pub FilterTyped : FilterOperator S → Type 0
  FilterTyped o = Typed o.child

  -- A filter keeps the width of its child's rows.
  pub filter-Fits : Fits (Selection.next child_next) FilterTyped width
  unfolding Selection.next
  filter-Fits s b typed h =
      let (below, run, h1) = >>=-eq-ok (child_next s.child) _ {b = b} h in
      let (rows, made, h2) = >>=-eq-ok (filter_rows s.filters below.chunk) _ {b = b} h1 in
      let (fits, typed') = child s.child below typed run in
      (
        subst (RowsFit width) (ground (arith, h2))
            (filter_rows-RowsFit width s.filters below.chunk rows fits made),
        subst Typed (ground (arith, h2)) typed',
      )

  project_rows-RowsFit :
      (ps : List Projection) (rows rows' : Chunk)
      → project_rows ps rows ≡ ok rows'
      → RowsFit (length ps) rows'
  unfolding project_rows
  project_rows-RowsFit ps [] rows' h = subst (RowsFit (length ps)) {x = []} (ground (arith, h)) tt
  project_rows-RowsFit ps ((t, id) ∷ rows) rows' h =
      let (t', made, h1) = >>=-eq-ok (project ps t) _ {b = rows'} h in
      let (rest, run, h2) = >>=-eq-ok (project_rows ps rows) _ {b = rows'} h1 in
      let same : (t', id) ∷ rest ≡ rows' = ground (arith, h2) in
      subst (RowsFit (length ps)) same
        (length-project ps t t' made, project_rows-RowsFit ps rows rest run)

  abbrev pub ProjectionTyped : ℕ → ProjectionOperator S → Type 0
  ProjectionTyped columns o = (length o.projections ≡ columns) × Typed o.child

  -- A projection has one value for each of its functions.
  pub projection-Fits :
      (columns : ℕ) → Fits (Projection.next child_next) (ProjectionTyped columns) columns
  unfolding Projection.next
  projection-Fits columns s b typed h =
      let (below, run, h1) = >>=-eq-ok (child_next s.child) _ {b = b} h in
      let (rows, made, h2) = >>=-eq-ok (project_rows s.projections below.chunk) _ {b = b} h1 in
      let (_, typed') = child s.child below typed.1 run in
      let fits =
        subst (λ n. RowsFit n rows) typed.0
          (project_rows-RowsFit s.projections below.chunk rows made) in
      (
        subst (RowsFit columns) (ground (arith, h2)) fits,
        (ground (arith, h2, typed.0), subst Typed (ground (arith, h2)) typed'),
      )

length-place :
    (schema : Schema) (given slots slots' : List (Option Projection))
    → place schema given slots ≡ ok slots'
    → length slots' ≡ length slots
unfolding place
length-place schema [] slots slots' h = ground (arith, h)
length-place schema (none ∷ rest) slots slots' h = absurd (ground (arith, h))
length-place schema (some p ∷ rest) slots slots' h =
    let (attr, _, h1) = >>=-eq-ok (get_key_attr schema p.output_name) _ {b = slots'} h in
    let (slot, _, h2) = >>=-eq-ok (deref (get_elem? slots attr)) _ {b = slots'} h1 in
    elim (Option-cases slot) [
      | inl e ↦
          length-place schema rest (set slots attr (some p)) slots' (rw e at h2)
          ∙ length-set slots attr (some p)
      | inr (q, e) ↦ absurd (ground (arith, rw e at h2))
    ]

length-repeat_none : (columns : Schema) → length (repeat_none columns) ≡ length columns
unfolding repeat_none
length-repeat_none [] = refl
length-repeat_none (column ∷ columns) = ap suc (length-repeat_none columns)

length-fill_units :
    (columns : Schema) (slots : List (Option Projection))
    → length slots ≡ length columns
    → length (fill_units columns slots) ≡ length columns
unfolding fill_units
length-fill_units [] slots h = refl
length-fill_units (column ∷ columns) [] h = absurd (omega (arith, h))
length-fill_units (column ∷ columns) (some p ∷ slots) h =
    ap suc (length-fill_units columns slots (omega (arith, h)))
length-fill_units (column ∷ columns) (none ∷ slots) h =
    ap suc (length-fill_units columns slots (omega (arith, h)))

-- Updating in place, a projection has as many functions as its output schema has columns.
pub make_projection-in_place :
    {S : Type 0} (child : S) (child_schema : Schema) (given : List (Option Projection))
    (o : ProjectionOperator S)
    → make_projection child child_schema given true ≡ ok o
    → (length o.projections ≡ length child_schema)
      × (o.output_schema ≡ child_schema)
      × (o.child ≡ child)
unfolding make_projection
make_projection-in_place child child_schema given o h =
    let (slots, placed, h1) =
      >>=-eq-ok (place child_schema given (repeat_none child_schema)) _ {b = o} h in
    let count =
      length-place child_schema given (repeat_none child_schema) slots placed
      ∙ length-repeat_none child_schema in
    let filled = length-fill_units child_schema slots count in
    (ground (arith, h1, filled), ground (arith, h1), ground (arith, h1))
