-- ===== src/Exec/Filter.antt =====
-- src/execution/filter_operator.cpp: the rows of the child that pass every filter.
use babydb_private.Prelude.{
  ◌≡◌, refl, ap, ap, Bool, true, false, List, [], ◌∷◌, ◌++◌, map, if◌then◌else◌, arith, select,
  select-append, append-nil, All, All-split, sym, ◌∙◌,
}
use babydb_private.Outcome.{Outcome, ok, ◌>>=◌}
use babydb_private.Schema.{Tuple, Schema}
use babydb_private.Filter
use babydb_private.Filter.{Filter, check}
use babydb_private.Exec.Operator.{Chunk, Batch, Next}
use babydb_private.Exec.Drain.{Produces, last, more, rows_of}

pub record FilterOperator (S : Type 0) : Type 0 where
  pub output_schema : Schema
  pub filters : List Filter
  pub child : S

unfoldable pub trans_to_vec : Filter → List Filter
trans_to_vec filter = filter ∷ []

-- The two constructors; the output schema is the child's.
unfoldable pub make_filter_operator : {S : Type 0} → Schema → S → List Filter → FilterOperator S
make_filter_operator child_schema child filters = record {
  output_schema = child_schema;
  filters = filters;
  child = child;
}

unfoldable pub make_single_filter_operator : {S : Type 0} → Schema → S → Filter → FilterOperator S
unfolding trans_to_vec make_filter_operator
make_single_filter_operator child_schema child filter =
    make_filter_operator child_schema child (trans_to_vec filter)

-- `SelfInit` and `SelfCheck` resolve the columns of every filter against the output schema.
init_filters : Schema → List Filter → Outcome (List Filter)
init_filters schema [] = ok []
init_filters schema (f ∷ fs) = do
  f' ← Filter.init f schema
  fs' ← init_filters schema fs
  ok (f' ∷ fs')

unfoldable pub self_init : {S : Type 0} → FilterOperator S → Outcome (FilterOperator S)
unfolding init_filters
self_init o = do fs ← init_filters o.output_schema o.filters; ok (record o { filters = fs })

-- The inner loop: a filter is asked only if those before it passed.
unfoldable pub passes : List Filter → Tuple → Outcome Bool
passes [] t = ok true
passes (f ∷ fs) t =
    let rest = passes fs t in (check f t >>= λ pass. if pass then rest else ok false)

-- The outer loop.
unfoldable pub filter_rows : List Filter → Chunk → Outcome Chunk
unfolding passes
filter_rows fs [] = ok []
filter_rows fs ((t, id) ∷ rows) = do
  pass ← passes fs t
  kept ← filter_rows fs rows
  ok (if pass then (t, id) ∷ kept else kept)

module _ {S : Type 0} (child_next : Next S) where
  unfoldable pub next : Next (FilterOperator S)
  unfolding filter_rows
  next o = child_next o.child >>= λ b. filter_rows o.filters b.chunk >>= λ rows.
      ok (record { chunk = rows; answer = b.answer; rest = record o { child = b.rest } })

abbrev pub selects : (Tuple → Bool) → Chunk → Chunk
selects p = select (λ row. p row.0)

filter_rows-select :
    (fs : List Filter) (p : Tuple → Bool) (rows : Chunk)
    → All (λ row. passes fs row.0 ≡ ok (p row.0)) rows
    → filter_rows fs rows ≡ ok (selects p rows)
unfolding filter_rows
filter_rows-select fs p [] h = refl
filter_rows-select fs p ((t, id) ∷ rows) h =
    rw (h.0, filter_rows-select fs p rows h.1) (ground arith)

module _ {S : Type 0} (child_next : Next S) (schema : Schema) (fs : List Filter)
    (p : Tuple → Bool) where
  abbrev pub above : S → FilterOperator S
  above s = record { output_schema = schema; filters = fs; child = s }

  next-ok :
      (s : S) (b : Batch S)
      → child_next s ≡ ok b
      → All (λ row. passes fs row.0 ≡ ok (p row.0)) b.chunk
      → next child_next (above s)
        ≡ ok (record { chunk = selects p b.chunk; answer = b.answer; rest = above b.rest })
  unfolding next
  next-ok s b e h = rw (e, filter_rows-select fs p b.chunk h)

  -- If the filters decide every row that the child hands out, and `p` says how, then the operator
  -- hands out the child's rows that pass, in order and with their row ids; it makes one chunk of
  -- each chunk of the child and is exhausted when the child is.
  pub filter-Produces :
      {s s' : S} {cs : List Chunk}
      → Produces child_next s cs s'
      → All (λ row. passes fs row.0 ≡ ok (p row.0)) (rows_of cs)
      → Produces (next child_next) (above s) (map (selects p) cs) (above s')
        × (rows_of (map (selects p) cs) ≡ selects p (rows_of cs))
  filter-Produces {s = s} {s' = s'} (last c e) h = (
    last {s' = above s'} (selects p c) (next-ok s _ e (rw append-nil at h)),
    rw (append-nil c) (append-nil (selects p c)),
  )
  filter-Produces {s = s} (more {s' = t} c {cs = cs} e rest) h =
      let (mine, others) = All-split _ c (rows_of cs) h in
      let (q, joined) = filter-Produces rest others in
      (
        more {s' = above t} (selects p c) (next-ok s _ e mine) q,
        ap (◌++◌ (selects p c)) joined ∙ sym (select-append _ c (rows_of cs)),
      )
