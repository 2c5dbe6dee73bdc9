-- ===== src/Exec/Operator.antt =====
-- src/include/execution/operator.hpp: chunks, the answer of `Next`, and what the operators share.
use babydb_private.Prelude.{ℕ, zero, suc, Option, none, some, List, [], ◌∷◌}
use babydb_private.Outcome.{Outcome, ok, ◌>>=◌}
use babydb_private.Schema.{Tuple}

-- A tuple with its row id, or `invalid_id`.
abbrev pub ChunkRow : Type 0
ChunkRow = Tuple × ℕ

abbrev pub Chunk : Type 0
Chunk = List ChunkRow

pub data OperatorState : Type 0 where
  have_more_output exhausted : OperatorState

-- What a call of `Next` leaves: the output chunk, the returned state and the operator.
pub record Batch (S : Type 0) : Type 0 where
  pub chunk : Chunk
  pub answer : OperatorState
  pub rest : S

-- `Next` of an operator whose fields are `S`; its children's are among them.
abbrev pub Next : Type 0 → Type 0
Next S = S → Outcome (Batch S)

-- The loop `while (output_chunk.size() < CHUNK_SUGGEST_SIZE)` of the operators that hand out one
-- row a round: `step` says what stands at the cursor, and `none` that the source is at its end.
-- The number is how many rows the chunk still takes.
module _ {S : Type 0} (step : S → Outcome (Option (ChunkRow × S))) where
  unfoldable pub emit : ℕ → S → Outcome (Batch S)
  emit zero s = ok (record { chunk = []; answer = have_more_output; rest = s })
  emit (suc room) s = step s >>= λ at. elim at [
    | none ↦ ok (record { chunk = []; answer = exhausted; rest = s })
    | some (row, s') ↦ emit room s' >>= λ b.
        ok (record { chunk = row ∷ b.chunk; answer = b.answer; rest = b.rest })
  ]
