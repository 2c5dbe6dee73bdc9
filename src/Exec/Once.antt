-- ===== src/Exec/Once.antt =====
-- Operators that prepare their source on the first call of `Next`.
use babydb_private.Prelude.{
  ℕ, zero, suc, ◌≡◌, Option, some, List, [], ◌∷◌, arith, subst, Option-cases, inl, inr, ◌∙◌,
}
use babydb_private.Outcome.{Outcome, ok, >>=-eq-ok}
use babydb_private.Exec.Operator.{ChunkRow, Chunk, have_more_output, exhausted, Batch, Next, emit}
use babydb_private.Exec.Drain.{Produces, last, more}

module _ {S : Type 0} (step : S → Outcome (Option (ChunkRow × S))) (Ready : S → Type 0)
    (kept : (s : S) (row : ChunkRow) (s' : S)
      → Ready s
      → step s ≡ ok (some (row, s'))
      → Ready s') where
  ok-rest : (b b' : Batch S) → Ready b.rest → ok b ≡ ok b' → Ready b'.rest
  ok-rest b b' ready h = let e : b.rest ≡ b'.rest = ground arith in subst Ready e ready

  emit-Ready : (room : ℕ) (s : S) (b : Batch S) → Ready s → emit step room s ≡ ok b → Ready b.rest
  unfolding emit
  emit-Ready zero s b ready h =
      ok-rest (record { chunk = []; answer = have_more_output; rest = s }) b ready h
  emit-Ready (suc room) s b ready h =
      let (at, e, h') = >>=-eq-ok (step s) _ {b = b} h in
      elim (Option-cases at) [
        | inl none_left ↦
            ok-rest (record { chunk = []; answer = exhausted; rest = s }) b ready
              (rw none_left at h')
        | inr ((row, s'), found) ↦
            let (b', e', h'') = >>=-eq-ok (emit step room s') _ {b = b} (rw found at h') in
            ok-rest (record b' { chunk = row ∷ b'.chunk }) b
              (emit-Ready room s' b' (kept s row s' ready (rw found at e)) e') h''
      ]

  module _ (room : ℕ) (next : Next S) (same : (s : S) → Ready s → next s ≡ emit step room s) where
    -- Once the source is ready, `Next` hands out what it has.
    pub Produces-emit :
        {s s' : S} {cs : List Chunk}
        → Ready s
        → Produces (emit step room) s cs s'
        → Produces next s cs s'
    Produces-emit {s = s} ready (last {s' = s'} c e) = last {s' = s'} c (same s ready ∙ e)
    Produces-emit {s = s} ready (more {s' = t} c e rest) =
        more {s' = t} c (same s ready ∙ e) (Produces-emit (emit-Ready room s _ ready e) rest)

pub Produces-first :
    {S : Type 0} (next : Next S) {s t s' : S} {cs : List Chunk}
    → next s ≡ next t
    → Produces next t cs s'
    → Produces next s cs s'
Produces-first next h (last {s' = s'} c e) = last {s' = s'} c (h ∙ e)
Produces-first next h (more {s' = m} c e rest) = more {s' = m} c (h ∙ e) rest
