-- ===== src/Exec/Value.antt =====
-- src/execution/value_operator.cpp: the rows stored in the operator.
use native.Mathlib.Numerals.{add-one}
use babydb_private.Prelude.{
  ℕ, ◌+◌, ◌<◌, ◌≤◌, ◌∙◌, ◌≡◌, refl, ap, Option, none, some, List, [], ◌∷◌, length, get_elem?, map,
  nat_eq, if◌then◌else◌, drop, arith, not, length-map, length-drop, drop-get_elem?, All, Bool-cases,
  inl, inr,
}
use babydb_private.Outcome.{Outcome, ok, schema_mismatch, deref, throw_if, ◌>>=◌, ◌>>◌}
use babydb_private.Schema.{Tuple, Schema, invalid_id}
use babydb_private.Exec.Operator.{ChunkRow, Chunk, Next, emit}
use babydb_private.Exec.Drain.{Produces, rows_of, emit-Produces}

pub record ValueOperator : Type 0 where
  pub output_schema : Schema
  pub tuples : List Tuple
  pub next_tuple_id : ℕ

unfoldable pub self_init : ValueOperator → ValueOperator
self_init o = record o { next_tuple_id = 0 }

-- Every stored tuple has a value for each column.
check_widths : ℕ → List Tuple → Outcome (Unit {0})
check_widths width [] = ok tt
check_widths width (t ∷ ts) = do
  throw_if (not (nat_eq width (length t))) schema_mismatch
  check_widths width ts

unfoldable pub self_check : ValueOperator → Outcome (Unit {0})
unfolding check_widths
self_check o = check_widths (length o.output_schema) o.tuples

check_widths-All :
    (width : ℕ) (ts : List Tuple) → check_widths width ts ≡ ok tt → All (λ t. length t ≡ width) ts
unfolding check_widths
check_widths-All width [] h = tt
check_widths-All width (t ∷ ts) h = elim (Bool-cases (nat_eq width (length t))) [
  | inl e ↦ (ground (arith, e), check_widths-All width ts (rw e at h))
  | inr e ↦ absurd (ground (arith, rw e at h))
]

pub self_check-All :
    (o : ValueOperator)
    → self_check o ≡ ok tt
    → All (λ t. length t ≡ length o.output_schema) o.tuples
unfolding self_check
self_check-All o h = check_widths-All (length o.output_schema) o.tuples h

-- One round of the loop of `Next`.
unfoldable pub value_step : ValueOperator → Outcome (Option (ChunkRow × ValueOperator))
value_step o =
    if nat_eq o.next_tuple_id (length o.tuples)
    then ok none
    else (deref (get_elem? o.tuples o.next_tuple_id) >>= λ t.
        ok (some ((t, invalid_id), record o { next_tuple_id = o.next_tuple_id + 1 })))

unfoldable pub next : ℕ → Next ValueOperator
unfolding value_step emit
next chunk_size = emit value_step chunk_size

unfoldable pub with_ids : List Tuple → List ChunkRow
with_ids = map λ t. (t, invalid_id)

-- The rows from the cursor on.
abbrev Holds : ValueOperator → List ChunkRow → Type 0
Holds o rows =
    (rows ≡ with_ids (drop o.next_tuple_id o.tuples)) × (o.next_tuple_id ≤ length o.tuples)

length-with_ids : (ts : List Tuple) → length (with_ids ts) ≡ length ts
unfolding with_ids
length-with_ids ts = length-map _ ts

at_end : (o : ValueOperator) → Holds o [] → value_step o ≡ ok none
unfolding value_step
at_end o h = ground (
  arith,
  ap length h.0,
  length-with_ids (drop o.next_tuple_id o.tuples),
  length-drop o.next_tuple_id o.tuples,
)

at_row :
    (o : ValueOperator) (row : ChunkRow) (rows : List ChunkRow)
    → Holds o (row ∷ rows)
    → (o' : ValueOperator) × (value_step o ≡ ok (some (row, o'))) × Holds o' rows
unfolding value_step with_ids
at_row o row rows h =
    let more : o.next_tuple_id < length o.tuples = omega (
      arith,
      ap length h.0,
      length-with_ids (drop o.next_tuple_id o.tuples),
      length-drop o.next_tuple_id o.tuples,
    ) in
    let (t, here, split) = drop-get_elem? o.next_tuple_id o.tuples more in
    let cells = h.0 ∙ ap with_ids split in
    (
      record o { next_tuple_id = o.next_tuple_id + 1 },
      ground (arith, here, cells),
      (rw add-one (ground (arith, cells)), omega arith),
    )

-- After `Init`, and with chunks of at least one row, the operator hands out exactly its tuples, in
-- order and without row ids, and is exhausted after finitely many calls.
pub value-Produces :
    (chunk_size : ℕ) (o : ValueOperator)
    → 0 < chunk_size
    → (cs : List Chunk) × (o' : ValueOperator) × Produces (next chunk_size) (self_init o) cs o'
      × (rows_of cs ≡ with_ids o.tuples)
unfolding next self_init
value-Produces chunk_size o pos =
    emit-Produces value_step Holds at_end at_row chunk_size (self_init o) (with_ids o.tuples) pos
      (refl, omega arith)
