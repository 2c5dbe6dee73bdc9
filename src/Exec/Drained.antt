-- ===== src/Exec/Drained.antt =====
-- src/execution/aggregate_operator.cpp and the modifying operators: the loop over all chunks of a
-- child, the last one too.
use babydb_private.Prelude.{
  ℕ, zero, suc, ◌≤◌, ◌≡◌, ap, ◌∙◌, sym, List, [], ◌∷◌, ◌++◌, length, arith, fun_ext,
}
use babydb_private.Outcome.{Outcome, ok, ◌>>=◌, >>=-eq-ok}
use babydb_private.Exec.Operator.{Chunk, Next}
use babydb_private.Exec.Drain.{Produces, last, more, rows_of}
use babydb_private.Exec.Aggregate.{drain}

-- The body on each chunk in turn.
abbrev over : {A : Type 0} → (Chunk → A → Outcome A) → List Chunk → A → Outcome A
over body [] a = ok a
over body (c ∷ cs) a = body c a >>= over body cs

module _ {S : Type 0} (child_next : Next S) {A : Type 0} (body : Chunk → A → Outcome A) where
  drain_lem :
      (fuel : ℕ) {s s' : S} {cs : List Chunk} (a a' : A)
      → Produces child_next s cs s'
      → length cs ≤ fuel
      → over body cs a ≡ ok a'
      → drain child_next body fuel s a ≡ ok (a', s')
  unfolding drain
  drain_lem zero a a' (last c e) enough h = absurd (omega arith)
  drain_lem zero a a' (more c e rest) enough h = absurd (omega arith)
  drain_lem (suc fuel) a a' (last c e) enough h =
      let (b, run, done) = >>=-eq-ok (body c a) ok {b = a'} h in rw (e, run) (ground arith)
  drain_lem (suc fuel) a a' (more c {cs = cs} e rest) enough h =
      let (b, run, later) = >>=-eq-ok (body c a) (over body cs) {b = a'} h in
      rw (e, run) (drain_lem fuel b a' rest (omega arith) later)

module _ {S : Type 0} (child_next : Next S) {A : Type 0} (body : Chunk → A → Outcome A)
    (at_none : (a : A) → body [] a ≡ ok a)
    (at_both : (xs ys : Chunk) (a : A) → body (xs ++ ys) a ≡ (body xs a >>= body ys)) where
  over-rows_of : (cs : List Chunk) (a : A) → over body cs a ≡ body (rows_of cs) a
  over-rows_of [] a = sym (at_none a)
  over-rows_of (c ∷ cs) a =
      ap (λ after. body c a >>= after) (fun_ext (over-rows_of cs)) ∙ sym (at_both c (rows_of cs) a)

  -- A body that goes row by row has then run on all the child's rows.
  pub drain_rows :
      (fuel : ℕ) {s s' : S} {cs : List Chunk} (a a' : A)
      → Produces child_next s cs s'
      → length cs ≤ fuel
      → body (rows_of cs) a ≡ ok a'
      → drain child_next body fuel s a ≡ ok (a', s')
  drain_rows fuel {cs = cs} a a' produced enough h =
      drain_lem child_next body fuel a a' produced enough (over-rows_of cs a ∙ h)
