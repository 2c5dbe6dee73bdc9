-- ===== src/Exec/BuildSide.antt =====
-- What the hash table of a join holds, and where its probe stops.
use babydb_private.Prelude.{
  ℕ, zero, suc, ◌≤◌, ◌≡◌, refl, List, [], ◌∷◌, ◌++◌, length, arith, sym, ◌∙◌,
}
use babydb_private.Outcome.{ok, ◌>>=◌, >>=-eq-ok, bind_assoc}
use babydb_private.Exec.Operator.{Chunk, have_more_output, Next}
use babydb_private.Exec.Drain.{Produces, last, more, rows_of}
use babydb_private.Exec.Join.{Builds, insert_rows, build_loop}

unfoldable pub but_last : List Chunk → List Chunk
but_last [] = []
but_last (c ∷ []) = []
but_last (c ∷ d ∷ cs) = c ∷ but_last (d ∷ cs)

insert_rows-append :
    (attr : ℕ) (xs ys : Chunk) (table : Builds)
    → insert_rows attr (xs ++ ys) table ≡ (insert_rows attr xs table >>= insert_rows attr ys)
unfolding insert_rows
insert_rows-append attr [] ys table = refl
insert_rows-append attr ((t, id) ∷ xs) ys table = simp (bind_assoc, insert_rows-append attr xs ys)

module _ {B : Type 0} (build_next : Next B) where
  build_more :
      (fuel attr : ℕ) (s t s' : B) (c rows : Chunk) (table table' : Builds)
      → build_next s ≡ ok (record { chunk = c; answer = have_more_output; rest = t })
      → insert_rows attr (c ++ rows) table ≡ ok table'
      → ((middle : Builds)
          → insert_rows attr rows middle ≡ ok table'
          → build_loop build_next fuel attr t middle ≡ ok (table', s'))
      → build_loop build_next (suc fuel) attr s table ≡ ok (table', s')
  unfolding build_loop
  build_more fuel attr s t s' c rows table table' e h later =
      let (middle, first, second) =
        >>=-eq-ok (insert_rows attr c table) (insert_rows attr rows) {b = table'}
          (sym (insert_rows-append attr c rows table) ∙ h) in
      rw (e, first) (later middle second)

  -- If the build child is exhausted after some chunks, and the fuel allows for as many calls, the
  -- hash table gets the rows of all those chunks but the last, in order, under their keys.
  pub build_loop_lem :
      (fuel attr : ℕ) {s s' : B} {cs : List Chunk} (table table' : Builds)
      → Produces build_next s cs s'
      → length cs ≤ fuel
      → insert_rows attr (rows_of (but_last cs)) table ≡ ok table'
      → build_loop build_next fuel attr s table ≡ ok (table', s')
  unfolding but_last
  build_loop_lem zero attr table table' (last c e) enough h = absurd (omega arith)
  build_loop_lem zero attr table table' (more c e rest) enough h = absurd (omega arith)
  build_loop_lem (suc fuel) attr table table' (last c e) enough h =
      unfold build_loop insert_rows in rw e (ground arith)
  build_loop_lem (suc fuel) attr {s} {s'} table table' (more {s' = t} c e (last d e')) enough h =
      build_more fuel attr s t s' c [] table table' e h
        (λ middle g. build_loop_lem fuel attr middle table' (last d e') (omega arith) g)
  build_loop_lem (suc fuel) attr {s} {s'} table table'
        (more {s' = t} c e (more d {cs = cs} e' rest)) enough h =
      build_more fuel attr s t s' c (rows_of (but_last (d ∷ cs))) table table' e h
        (λ middle g. build_loop_lem fuel attr middle table' (more d e' rest) (omega arith) g)
