-- ===== src/Exec/Drain.antt =====
-- Calling `Next` until it answers that the operator is exhausted.
use babydb_private.Prelude.{
  ℕ, zero, suc, ◌<◌, ◌≡◌, ◌∙◌, ap, Option, none, some, List, [], ◌∷◌, ◌++◌, leb, if◌then◌else◌,
  length, take, drop, arith, take-append-drop, append-nil, Bool-cases, inl, inr, leb→le, take_all,
  length-drop,
}
use babydb_private.Outcome.{Outcome, ok}
use babydb_private.Exec.Operator.{
  ChunkRow, Chunk, OperatorState, have_more_output, exhausted, Next, emit,
}

-- The chunks that an operator hands out, the last of them with `exhausted`, and what it is then.
pub data Produces {S : Type 0} (next : Next S) : S → List Chunk → S → Type 0 where
  last :
      {s s' : S} (c : Chunk)
      → next s ≡ ok (record { chunk = c; answer = exhausted; rest = s' })
      → Produces next s (c ∷ []) s'
  more :
      {s s' s'' : S} (c : Chunk) {cs : List Chunk}
      → next s ≡ ok (record { chunk = c; answer = have_more_output; rest = s' })
      → Produces next s' cs s''
      → Produces next s (c ∷ cs) s''

abbrev pub rows_of : List Chunk → Chunk
rows_of [] = []
rows_of (c ∷ cs) = c ++ rows_of cs

-- A source that hands out the rows `remaining` in order.
module _ {S : Type 0} (step : S → Outcome (Option (ChunkRow × S)))
    (Holds : S → List ChunkRow → Type 0) (at_end : (s : S) → Holds s [] → step s ≡ ok none)
    (at_row : (s : S) (row : ChunkRow) (rows : List ChunkRow)
      → Holds s (row ∷ rows)
      → (s' : S) × (step s ≡ ok (some (row, s'))) × Holds s' rows) where
  abbrev answers : ℕ → List ChunkRow → OperatorState
  answers room rows = if leb room (length rows) then have_more_output else exhausted

  pub emit_lem :
      (room : ℕ) (s : S) (rows : List ChunkRow)
      → Holds s rows
      → (s' : S) × (emit step room s
          ≡ ok (record { chunk = take room rows; answer = answers room rows; rest = s' }))
        × Holds s' (drop room rows)
  unfolding emit
  emit_lem zero s rows h = (s, ground arith, h)
  emit_lem (suc room) s [] h = (s, rw (at_end s h) (ground arith), h)
  emit_lem (suc room) s (row ∷ rows) h =
      let (s', run, h') = at_row s row rows h in
      let (s'', run', h'') = emit_lem room s' rows h' in (s'', rw (run, run') (ground arith), h'')

  abbrev pub Produced : ℕ → S → List ChunkRow → Type 0
  Produced room s rows =
      (cs : List Chunk) × (s' : S) × Produces (emit step room) s cs s' × (rows_of cs ≡ rows)

  emit_within :
      (k room : ℕ) (s : S) (rows : List ChunkRow)
      → 0 < room
      → Holds s rows
      → length rows < k
      → Produced room s rows
  emit_within zero room s rows pos h lt = absurd (omega arith)
  emit_within (suc k) room s rows pos h lt =
      let (s', run, h') = emit_lem room s rows h in
      elim (Bool-cases (leb room (length rows))) [
        | inr end ↦
            let whole = take_all room rows (ground arith) in
            (
              take room rows ∷ [],
              s',
              last (take room rows) (rw end at run),
              append-nil (take room rows) ∙ whole,
            )
        | inl full ↦
            let (cs, s'', p, joined) =
              emit_within k room s' (drop room rows) pos h'
                (omega (arith, length-drop room rows, leb→le room (length rows) full)) in
            (
              take room rows ∷ cs,
              s'',
              more (take room rows) (rw full at run) p,
              ap (◌++◌ (take room rows)) joined ∙ take-append-drop room rows,
            )
      ]

  -- With room for at least one row in a chunk, the source is exhausted after finitely many calls,
  -- and its chunks joined are its rows.
  pub emit-Produces :
      (room : ℕ) (s : S) (rows : List ChunkRow) → 0 < room → Holds s rows → Produced room s rows
  emit-Produces room s rows pos h = emit_within (suc (length rows)) room s rows pos h (omega arith)
