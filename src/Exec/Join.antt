-- ===== src/Exec/Join.antt =====
-- src/execution/hash_join_operator.cpp: an equality join of two children on one column of each.
use babydb_private.Prelude.{
  ℕ, zero, suc, ◌+◌, String, Bool, true, false, not, ◌&&◌, List, [], ◌∷◌, ◌++◌, nat_eq, ltb,
  if◌then◌else◌, length, get_elem?, map,
}
use babydb_private.Outcome.{Outcome, ok, unfinished, deref, ◌>>=◌}
use babydb_private.Schema.{Tuple, Schema, invalid_id, key_from_tuple, get_key_attr}
use babydb_private.Exec.Operator.{Chunk, have_more_output, exhausted, Batch, Next}

-- The entries of `hash_table_` in the order of their insertion.
abbrev pub Builds : Type 0
Builds = List (ℕ × Tuple)

pub record HashJoinOperator (P B : Type 0) : Type 0 where
  pub probe_column_name : String
  pub build_column_name : String
  pub probe_schema : Schema
  pub build_schema : Schema
  pub hash_table : Builds
  pub buffer : Chunk
  pub buffer_ptr : ℕ
  pub probe_child_exhausted : Bool
  pub hash_table_build : Bool
  pub probe_child : P
  pub build_child : B

-- The constructor leaves the last three fields as the memory has them; `SelfInit` sets them.
unfoldable pub make_hash_join_operator :
    {P B : Type 0}
    → Schema
    → P
    → Schema
    → B
    → String
    → String
    → ℕ
    → Bool
    → Bool
    → HashJoinOperator P B
make_hash_join_operator probe_schema probe build_schema build probe_name build_name ptr ended
      built =
    record {
      probe_column_name = probe_name;
      build_column_name = build_name;
      probe_schema = probe_schema;
      build_schema = build_schema;
      hash_table = [];
      buffer = [];
      buffer_ptr = ptr;
      probe_child_exhausted = ended;
      hash_table_build = built;
      probe_child = probe;
      build_child = build;
    }

unfoldable pub union_tuple : Tuple → Tuple → Tuple
union_tuple a b = a ++ b

unfoldable pub self_init : {P B : Type 0} → HashJoinOperator P B → HashJoinOperator P B
self_init o = record o {
  hash_table = [];
  buffer = [];
  buffer_ptr = 0;
  probe_child_exhausted = false;
  hash_table_build = false;
}

unfoldable pub self_check : {P B : Type 0} → HashJoinOperator P B → Outcome (Unit {0})
self_check o = do
  _ ← get_key_attr o.probe_schema o.probe_column_name
  _ ← get_key_attr o.build_schema o.build_column_name
  ok tt

-- The loop over one chunk of the build child.
unfoldable pub insert_rows : ℕ → Chunk → Builds → Outcome Builds
insert_rows build_key_attr [] table = ok table
insert_rows build_key_attr ((t, id) ∷ rows) table = do
  key ← key_from_tuple t build_key_attr
  insert_rows build_key_attr rows (table ++ (key, t) ∷ [])

-- `while (build_child_operator->Next(build_chunk) != EXHAUSETED)`: the body does not run on the
-- chunk that comes with the last answer.
module _ {B : Type 0} (build_next : Next B) where
  unfoldable pub build_loop : ℕ → ℕ → B → Builds → Outcome (Builds × B)
  unfolding insert_rows
  build_loop zero attr s table = unfinished
  build_loop (suc fuel) attr s table = build_next s >>= λ b. elim b.answer [
    | exhausted ↦ ok (table, b.rest)
    | have_more_output ↦
        insert_rows attr b.chunk table >>= λ table'. build_loop fuel attr b.rest table'
  ]

-- The tuples of `equal_range`; `order` is how the hash table orders equal keys.
abbrev pub with_key : ℕ → Builds → List Tuple
with_key key [] = []
with_key key ((k, t) ∷ rest) = if nat_eq k key then t ∷ with_key key rest else with_key key rest

module _ (order : List Tuple → List Tuple) {P B : Type 0} (probe_next : Next P)
    (build_next : Next B) where
  unfoldable pub build_hash_table : ℕ → HashJoinOperator P B → Outcome (HashJoinOperator P B)
  unfolding build_loop
  build_hash_table fuel o = do
    attr ← get_key_attr o.build_schema o.build_column_name
    result ← build_loop build_next fuel attr o.build_child o.hash_table
    ok (record o { hash_table = result.0; build_child = result.1 })

  unfoldable pub refill : HashJoinOperator P B → Outcome (HashJoinOperator P B)
  refill o =
      if nat_eq o.buffer_ptr (length o.buffer) && not o.probe_child_exhausted
      then (probe_next o.probe_child >>= λ b. ok (record o {
        buffer = b.chunk;
        buffer_ptr = 0;
        probe_child = b.rest;
        probe_child_exhausted = elim b.answer [ exhausted ↦ true | have_more_output ↦ false ];
      }))
      else ok o

  unfoldable pub joined : HashJoinOperator P B → ℕ → Tuple → Chunk
  unfolding union_tuple
  joined o key probe_tuple =
      map (λ t. (union_tuple probe_tuple t, invalid_id)) (order (with_key key o.hash_table))

  -- The loop of `Next` with the output so far.
  unfoldable pub probe_loop :
      ℕ → ℕ → ℕ → HashJoinOperator P B → Chunk → Outcome (Batch (HashJoinOperator P B))
  unfolding refill joined
  probe_loop zero chunk_size attr o out = unfinished
  probe_loop (suc fuel) chunk_size attr o out =
      let round = refill o >>= λ o'.
      if nat_eq o'.buffer_ptr (length o'.buffer)
      then ok (record { chunk = out; answer = exhausted; rest = o' })
      else (deref (get_elem? o'.buffer o'.buffer_ptr) >>= λ row.
          key_from_tuple row.0 attr >>= λ key.
          probe_loop fuel chunk_size attr (record o' { buffer_ptr = o'.buffer_ptr + 1 })
            (out ++ joined o' key row.0)) in
      if ltb (length out) chunk_size
      then round
      else ok (record { chunk = out; answer = have_more_output; rest = o })

  unfoldable pub next : ℕ → ℕ → Next (HashJoinOperator P B)
  unfolding build_hash_table probe_loop
  next fuel chunk_size o =
      (if o.hash_table_build
        then ok o
        else build_hash_table fuel (record o { hash_table_build = true }))
      >>= λ built. get_key_attr built.probe_schema built.probe_column_name >>= λ attr.
          probe_loop fuel chunk_size attr built []
