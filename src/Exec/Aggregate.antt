-- ===== src/Exec/Aggregate.antt =====
-- src/execution/aggregate_operator.cpp: the sum of one column for each value of another.
use Prim.Native.String.{◌++◌ as str_append}
use babydb_private.Prelude.{
  ℕ, zero, suc, ◌+◌, ◌%◌, String, Bool, true, false, Option, none, some, List, [], ◌∷◌, nat_eq,
  if◌then◌else◌,
}
use babydb_private.Outcome.{Outcome, ok, unfinished, ◌>>=◌}
use babydb_private.Schema.{Schema, invalid_id, word_mod, key_from_tuple, get_key_attr}
use babydb_private.Exec.Operator.{ChunkRow, Chunk, have_more_output, exhausted, Next, emit}

-- The entries of `hash_table_` in the order of their insertion.
abbrev pub Sums : Type 0
Sums = List (ℕ × ℕ)

-- `child_schema` is what `GetOutputSchema` of the child gives. The iterator `output_ptr_` is the
-- list of the entries that it has still to meet.
pub record AggregateOperator (S : Type 0) : Type 0 where
  pub group_by : String
  pub aggregate_column : String
  pub child_schema : Schema
  pub hash_table : Sums
  pub output_ptr : Sums
  pub hash_table_build : Bool
  pub child : S

unfoldable pub get_aggregate_output_schema : String → String → Schema
get_aggregate_output_schema group_by aggregate_column =
    group_by ∷ str_append "SUM(" (str_append aggregate_column ")") ∷ []

unfoldable pub self_init : {S : Type 0} → AggregateOperator S → AggregateOperator S
self_init o = record o { hash_table = []; hash_table_build = false; output_ptr = [] }

unfoldable pub self_check : {S : Type 0} → AggregateOperator S → Outcome (Unit {0})
self_check o = do
  _ ← get_key_attr o.child_schema o.group_by
  _ ← get_key_attr o.child_schema o.aggregate_column
  ok tt

-- A new group gets the value, a group that is there adds it to its sum, which wraps.
unfoldable pub add_value : ℕ → ℕ → Sums → Sums
add_value key value [] = (key, value) ∷ []
add_value key value ((k, sum) ∷ rest) =
    if nat_eq k key
    then (k, (sum + value) % word_mod) ∷ rest
    else (k, sum) ∷ add_value key value rest

-- The loop over one chunk.
unfoldable pub add_rows : ℕ → ℕ → Chunk → Sums → Outcome Sums
unfolding add_value
add_rows group_by_attr aggregate_attr [] table = ok table
add_rows group_by_attr aggregate_attr ((t, id) ∷ rows) table = do
  key ← key_from_tuple t group_by_attr
  value ← key_from_tuple t aggregate_attr
  add_rows group_by_attr aggregate_attr rows (add_value key value table)

-- `while (child_state != EXHAUSETED)`, with the body run on the last chunk too.
module _ {S : Type 0} (child_next : Next S) {A : Type 0} (body : Chunk → A → Outcome A) where
  unfoldable pub drain : ℕ → S → A → Outcome (A × S)
  drain zero s a = unfinished
  drain (suc fuel) s a = child_next s >>= λ b. body b.chunk a >>= λ a'. elim b.answer [
    | exhausted ↦ ok (a', b.rest)
    | have_more_output ↦ drain fuel b.rest a'
  ]

-- `order` is the order in which the hash table is iterated over, which the standard library does
-- not fix.
module _ (order : Sums → Sums) {S : Type 0} (child_next : Next S) where
  unfoldable pub build_hash_table : ℕ → AggregateOperator S → Outcome (AggregateOperator S)
  unfolding drain add_rows
  build_hash_table fuel o = do
    group_by_attr ← get_key_attr o.child_schema o.group_by
    aggregate_attr ← get_key_attr o.child_schema o.aggregate_column
    result ← drain child_next (add_rows group_by_attr aggregate_attr) fuel o.child o.hash_table
    ok (record o { hash_table = result.0; child = result.1 })

  unfoldable pub aggregate_step :
      AggregateOperator S → Outcome (Option (ChunkRow × AggregateOperator S))
  aggregate_step o = elim o.output_ptr [
    | [] ↦ ok none
    | (key, sum) ∷ rest ↦ ok (some ((key ∷ sum ∷ [], invalid_id), record o { output_ptr = rest }))
  ]

  unfoldable pub next : ℕ → ℕ → Next (AggregateOperator S)
  unfolding build_hash_table aggregate_step emit
  next fuel chunk_size o =
      (if o.hash_table_build
        then ok o
        else (build_hash_table fuel (record o { hash_table_build = true }) >>= λ o'.
            ok (record o' { output_ptr = order o'.hash_table })))
      >>= λ built. emit aggregate_step chunk_size built
