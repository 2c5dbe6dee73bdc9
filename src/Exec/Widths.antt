-- ===== src/Exec/Widths.antt =====
-- src/execution: how many values the rows have that an operator hands out.
pub mod Rows
pub mod Joins
pub mod Query
use babydb_private.Prelude.{All-append, ℕ, ◌≡◌, List, [], ◌∷◌, ◌++◌, length, All, sym, ◌∙◌}
use babydb_private.Outcome.{ok}
use babydb_private.Schema.{Tuple}
use babydb_private.Exec.Operator.{ChunkRow, Chunk, Batch, Next}
use babydb_private.Exec.Drain.{Produces, last, more, rows_of}

abbrev pub RowsFit : ℕ → Chunk → Type 0
RowsFit width rows = All (λ row. length row.0 ≡ width) rows

abbrev pub TuplesFit : ℕ → List Tuple → Type 0
TuplesFit width ts = All (λ t. length t ≡ width) ts

-- From every state that `Typed` describes, a call of `Next` that returns hands out rows of one
-- width and leaves such a state.
abbrev pub Fits : {S : Type 0} → Next S → (S → Type 0) → ℕ → Type 0
Fits {S} next Typed width =
    (s : S) (b : Batch S) → Typed s → next s ≡ ok b → RowsFit width b.chunk × Typed b.rest

pub Fits-Produces :
    {S : Type 0} {next : Next S} {Typed : S → Type 0} {width : ℕ}
    → Fits next Typed width
    → {s s' : S} {cs : List Chunk} → Produces next s cs s'
    → Typed s
    → RowsFit width (rows_of cs)
Fits-Produces fits {s} (last {s' = t} c e) typed =
    All-append _ c [] (fits s (record { chunk = c; answer = _; rest = t }) typed e).0 tt
Fits-Produces fits {s} (more {s' = t} c {cs = cs} e rest) typed =
    let (here, typed') = fits s (record { chunk = c; answer = _; rest = t }) typed e in
    All-append _ c (rows_of cs) here (Fits-Produces fits rest typed')
