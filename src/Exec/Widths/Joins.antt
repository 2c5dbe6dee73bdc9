-- ===== src/Exec/Widths/Joins.antt =====
-- src/execution/hash_join_operator.cpp: the widths of the rows of a join.
use babydb_private.Prelude.{
  All-append, ℕ, zero, suc, ◌+◌, ◌≡◌, refl, subst, Bool, true, false, not, ◌&&◌, some, List, [],
  ◌∷◌, ◌++◌, length, length-append, get_elem?, map, nat_eq, ltb, if◌then◌else◌, arith, Bool-cases,
  ◌⊎◌, inl, inr, All, All-get_elem?,
}
use babydb_private.Outcome.{Outcome, ok, deref, >>=-eq-ok}
use babydb_private.Schema.{Tuple, invalid_id, key_from_tuple, get_key_attr}
use babydb_private.Exec.Operator.{
  OperatorState, ChunkRow, Chunk, have_more_output, exhausted, Batch, Next,
}
use babydb_private.Exec.Join.{
  Builds, HashJoinOperator, insert_rows, build_loop, build_hash_table, with_key, refill, joined,
  union_tuple, probe_loop, next,
}
use babydb_private.Exec.Widths.{RowsFit, TuplesFit, Fits}

abbrev pub TableFit : ℕ → Builds → Type 0
TableFit width table = All (λ entry. length entry.1 ≡ width) table

insert_rows-TableFit :
    (attr width : ℕ) (rows : Chunk) (table table' : Builds)
    → RowsFit width rows
    → TableFit width table
    → insert_rows attr rows table ≡ ok table'
    → TableFit width table'
unfolding insert_rows
insert_rows-TableFit attr width [] table table' fits old h =
    subst (TableFit width) (ground (arith, h)) old
insert_rows-TableFit attr width ((t, id) ∷ rows) table table' fits old h =
    let (key, _, h1) = >>=-eq-ok (key_from_tuple t attr) _ {b = table'} h in
    insert_rows-TableFit attr width rows (table ++ (key, t) ∷ []) table' fits.1
      (All-append _ table ((key, t) ∷ []) old (fits.0, tt)) h1

with_key-TuplesFit :
    (width key : ℕ) (table : Builds) → TableFit width table → TuplesFit width (with_key key table)
with_key-TuplesFit width key [] fits = tt
with_key-TuplesFit width key ((k, t) ∷ table) fits = elim (Bool-cases (nat_eq k key)) [
  | inl e ↦ rw e (fits.0, with_key-TuplesFit width key table fits.1)
  | inr e ↦ rw e (with_key-TuplesFit width key table fits.1)
]

map-RowsFit :
    (left right : ℕ) (t : Tuple) (builds : List Tuple)
    → length t ≡ left
    → TuplesFit right builds
    → RowsFit (left + right) (map (λ b. (union_tuple t b, invalid_id)) builds)
unfolding union_tuple
map-RowsFit left right t [] h fits = tt
map-RowsFit left right t (b ∷ builds) h fits =
    (omega (arith, length-append t b, h, fits.0), map-RowsFit left right t builds h fits.1)

answer_cases : (a : OperatorState) → (a ≡ have_more_output) ⊎ (a ≡ exhausted)
answer_cases have_more_output = inl refl
answer_cases exhausted = inr refl

module _ (order : List Tuple → List Tuple) {P B : Type 0} {probe_next : Next P}
    {build_next : Next B} {ProbeTyped : P → Type 0} {BuildTyped : B → Type 0} {left right : ℕ}
    (probe : Fits probe_next ProbeTyped left) (build : Fits build_next BuildTyped right)
    (ordered : (ts : List Tuple) → TuplesFit right ts → TuplesFit right (order ts)) where
  abbrev pub JoinTyped : HashJoinOperator P B → Type 0
  JoinTyped o =
      ProbeTyped o.probe_child
      × BuildTyped o.build_child
      × RowsFit left o.buffer
      × TableFit right o.hash_table

  build_loop-TableFit :
      (fuel attr : ℕ) (s : B) (table : Builds) (end : Builds × B)
      → BuildTyped s
      → TableFit right table
      → build_loop build_next fuel attr s table ≡ ok end
      → TableFit right end.0 × BuildTyped end.1
  unfolding build_loop
  build_loop-TableFit zero attr s table end typed fits h = absurd (ground (arith, h))
  build_loop-TableFit (suc fuel) attr s table end typed fits h =
      let (b, run, h1) = >>=-eq-ok (build_next s) _ {b = end} h in
      let (rows, typed') = build s b typed run in
      elim (answer_cases b.answer) [
        | inr e ↦
            let same : (table, b.rest) ≡ end = ground (arith, rw e at h1) in
            subst (λ (end : Builds × B). TableFit right end.0 × BuildTyped end.1) same
              (fits, typed')
        | inl e ↦
            let (table', inserted, h2) =
              >>=-eq-ok (insert_rows attr b.chunk table) _ {b = end} (rw e at h1) in
            build_loop-TableFit fuel attr b.rest table' end typed'
              (insert_rows-TableFit attr right b.chunk table table' rows fits inserted) h2
      ]

  -- A result that returns a typed operator.
  abbrev Keeps : Outcome (HashJoinOperator P B) → Type 0
  Keeps result = (o' : HashJoinOperator P B) → result ≡ ok o' → JoinTyped o'

  ok-Keeps : (o : HashJoinOperator P B) → JoinTyped o → Keeps (ok o)
  ok-Keeps o typed o' h = let same : o ≡ o' = ground (arith, h) in subst JoinTyped same typed

  build_hash_table-Keeps :
      (fuel : ℕ) (o : HashJoinOperator P B)
      → JoinTyped o
      → Keeps (build_hash_table order probe_next build_next fuel o)
  unfolding build_hash_table
  build_hash_table-Keeps fuel o typed o' h =
      let (attr, _, h1) =
        >>=-eq-ok (get_key_attr o.build_schema o.build_column_name) _ {b = o'} h in
      let (end, run, h2) =
        >>=-eq-ok (build_loop build_next fuel attr o.build_child o.hash_table) _ {b = o'} h1 in
      let (table, child) =
        build_loop-TableFit fuel attr o.build_child o.hash_table end typed.1 typed.3 run in
      ok-Keeps (record o { hash_table = end.0; build_child = end.1 })
        (typed.0, child, typed.2, table) o' h2

  refill-Keeps :
      (o : HashJoinOperator P B) → JoinTyped o → Keeps (refill order probe_next build_next o)
  unfolding refill
  refill-Keeps o typed o' h =
      elim (Bool-cases (nat_eq o.buffer_ptr (length o.buffer) && not o.probe_child_exhausted)) [
        | inr e ↦ ok-Keeps o typed o' (rw e at h)
        | inl e ↦
            let (b, run, h1) = >>=-eq-ok (probe_next o.probe_child) _ {b = o'} (rw e at h) in
            let (rows, child) = probe o.probe_child b typed.0 run in
            ok-Keeps _ (child, typed.1, rows, typed.3) o' h1
      ]

  joined-RowsFit :
      (o : HashJoinOperator P B) (key : ℕ) (t : Tuple)
      → length t ≡ left
      → TableFit right o.hash_table
      → RowsFit (left + right) (joined order probe_next build_next o key t)
  unfolding joined
  joined-RowsFit o key t h fits =
      map-RowsFit left right t (order (with_key key o.hash_table)) h
        (ordered (with_key key o.hash_table) (with_key-TuplesFit right key o.hash_table fits))

  abbrev Emits : Outcome (Batch (HashJoinOperator P B)) → Type 0
  Emits result =
      (b : Batch (HashJoinOperator P B))
      → result ≡ ok b
      → RowsFit (left + right) b.chunk × JoinTyped b.rest

  ok-Emits :
      (b : Batch (HashJoinOperator P B))
      → RowsFit (left + right) b.chunk
      → JoinTyped b.rest
      → Emits (ok b)
  ok-Emits b fits typed b' h =
      let same : b ≡ b' = ground (arith, h) in
      subst
        (λ (b : Batch (HashJoinOperator P B)). RowsFit (left + right) b.chunk × JoinTyped b.rest)
        same (fits, typed)

  probe_loop-Emits :
      (fuel size attr : ℕ) (o : HashJoinOperator P B) (out : Chunk)
      → JoinTyped o
      → RowsFit (left + right) out
      → Emits (probe_loop order probe_next build_next fuel size attr o out)
  unfolding probe_loop
  probe_loop-Emits zero size attr o out typed fits b h = absurd (ground (arith, h))
  probe_loop-Emits (suc fuel) size attr o out typed fits b h =
      elim (Bool-cases (ltb (length out) size)) [
        | inr e ↦
            ok-Emits (record { chunk = out; answer = have_more_output; rest = o }) fits typed b
              (rw e at h)
        | inl e ↦
            let (o', filled, h1) =
              >>=-eq-ok (refill order probe_next build_next o) _ {b = b} (rw e at h) in
            let typed' = refill-Keeps o typed o' filled in
            elim (Bool-cases (nat_eq o'.buffer_ptr (length o'.buffer))) [
              | inl used ↦
                  ok-Emits (record { chunk = out; answer = exhausted; rest = o' }) fits typed' b
                    (rw used at h1)
              | inr unused ↦
                  let (row, found, h2) =
                    >>=-eq-ok (deref (get_elem? o'.buffer o'.buffer_ptr)) _ {b = b}
                      (rw unused at h1) in
                  let (key, _, h3) = >>=-eq-ok (key_from_tuple row.0 attr) _ {b = b} h2 in
                  let here : get_elem? o'.buffer o'.buffer_ptr ≡ some row = ground (arith, found) in
                  let wide =
                    All-get_elem? (λ (row : ChunkRow). length row.0 ≡ left) o'.buffer o'.buffer_ptr
                      row typed'.2 here in
                  probe_loop-Emits fuel size attr (record o' { buffer_ptr = o'.buffer_ptr + 1 })
                    (out ++ joined order probe_next build_next o' key row.0) typed'
                    (All-append _ out (joined order probe_next build_next o' key row.0) fits
                      (joined-RowsFit o' key row.0 wide typed'.3))
                    b h3
            ]
      ]

  prepared-Keeps :
      (fuel : ℕ) (o : HashJoinOperator P B) (built : Bool)
      → JoinTyped o
      → Keeps (
          if built
          then ok o
          else build_hash_table order probe_next build_next fuel
              (record o { hash_table_build = true }))
  prepared-Keeps fuel o true typed = ok-Keeps o typed
  prepared-Keeps fuel o false typed =
      build_hash_table-Keeps fuel (record o { hash_table_build = true }) typed

  -- A join hands out rows with the values of both children's rows.
  pub join-Fits :
      (fuel size : ℕ) → Fits (next order probe_next build_next fuel size) JoinTyped (left + right)
  unfolding next
  join-Fits fuel size s b typed h =
      let (built, run, h1) =
        >>=-eq-ok
          (if s.hash_table_build
            then ok s
            else build_hash_table order probe_next build_next fuel
                (record s { hash_table_build = true }))
          _ {b = b} h in
      let (attr, _, h2) =
        >>=-eq-ok (get_key_attr built.probe_schema built.probe_column_name) _ {b = b} h1 in
      let typed' = prepared-Keeps fuel s s.hash_table_build typed built run in
      probe_loop-Emits fuel size attr built [] typed' tt b h2
