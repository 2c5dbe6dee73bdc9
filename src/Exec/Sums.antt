-- ===== src/Exec/Sums.antt =====
-- The hash table of an aggregation holds the sums of its groups.
use babydb_private.Prelude.{
  ℕ, ◌+◌, ◌%◌, ◌≤◌, ◌<◌, ◌≡◌, refl, false, Bool, ◌||◌, Option, none, some, List, [], ◌∷◌, ◌++◌,
  length, arith, Bool-cases, Option-cases, inl, inr, subst, ◌∙◌, nat_eq, if◌then◌else◌, All,
}
use babydb_private.Outcome.{Outcome, ok, ◌>>=◌, bind_assoc, >>=-eq-ok}
use babydb_private.Schema.{word_mod, key_from_tuple, get_key_attr}
use babydb_private.Exec.Operator.{Chunk, Next}
use babydb_private.Exec.Drain.{Produces, rows_of}
use babydb_private.Exec.Drained.{drain_rows}
use babydb_private.Exec.Aggregate.{Sums, AggregateOperator, add_value, add_rows, build_hash_table}

pub sum_at : ℕ → Sums → Option ℕ
sum_at g [] = none
sum_at g ((k, sum) ∷ rest) = if nat_eq k g then some sum else sum_at g rest

-- The group and the value of each row.
unfoldable pub read_pairs : ℕ → ℕ → Chunk → Outcome (List (ℕ × ℕ))
read_pairs ga va [] = ok []
read_pairs ga va ((t, id) ∷ rows) = do
  key ← key_from_tuple t ga
  value ← key_from_tuple t va
  rest ← read_pairs ga va rows
  ok ((key, value) ∷ rest)

add_pairs : List (ℕ × ℕ) → Sums → Sums
add_pairs [] table = table
add_pairs ((key, value) ∷ ps) table = add_pairs ps (add_value key value table)

-- Whether a group occurs, and the sum of its values.
pub occurs : ℕ → List (ℕ × ℕ) → Bool
occurs g [] = false
occurs g ((key, value) ∷ ps) = nat_eq key g || occurs g ps

pub sum_of : ℕ → List (ℕ × ℕ) → ℕ
sum_of g [] = 0
sum_of g ((key, value) ∷ ps) = (if nat_eq key g then value else 0) + sum_of g ps

add_rows-pairs :
    (ga va : ℕ) (rows : Chunk) (ps : List (ℕ × ℕ)) (table : Sums)
    → read_pairs ga va rows ≡ ok ps
    → add_rows ga va rows table ≡ ok (add_pairs ps table)
unfolding read_pairs add_rows add_pairs
add_rows-pairs ga va [] ps table h = ground arith
add_rows-pairs ga va ((t, id) ∷ rows) ps table h =
    let (key, ek, h1) = >>=-eq-ok (key_from_tuple t ga) _ {b = ps} h in
    let (value, ev, h2) = >>=-eq-ok (key_from_tuple t va) _ {b = ps} h1 in
    let (rest, er, h3) = >>=-eq-ok (read_pairs ga va rows) _ {b = ps} h2 in
    let p : (key, value) ∷ rest ≡ ps = ground arith in
    subst (λ q. add_rows ga va ((t, id) ∷ rows) table ≡ ok (add_pairs q table)) p
      (rw (ek, ev) (add_rows-pairs ga va rows rest (add_value key value table) er))

sum_at-add_value :
    (g key value : ℕ) (table : Sums)
    → sum_at g (add_value key value table) ≡ (
        if nat_eq key g
        then elim (sum_at g table) [
          | none ↦ some value
          | some sum ↦ some ((sum + value) % word_mod)
        ]
        else sum_at g table)
unfolding sum_at add_value
sum_at-add_value g key value [] = ground arith
sum_at-add_value g key value ((k, sum) ∷ rest) = ground (arith, sum_at-add_value g key value rest)

sum_at-lt :
    (g : ℕ) (table : Sums)
    → All (λ p. p.1 < word_mod) table
    → (sum : ℕ) → sum_at g table ≡ some sum
    → sum < word_mod
unfolding sum_at
sum_at-lt g [] fits sum h = ground arith
sum_at-lt g ((k, first) ∷ rest) fits sum h = ground (arith, sum_at-lt g rest fits.1 sum)

add_value-All :
    (key value : ℕ) (table : Sums)
    → value < word_mod
    → All (λ p. p.1 < word_mod) table
    → All (λ p. p.1 < word_mod) (add_value key value table)
unfolding add_value
add_value-All key value [] small fits = (small, tt)
add_value-All key value ((k, first) ∷ rest) small fits =
    ground (arith, add_value-All key value rest small fits.1)

-- The sum of a group after some pairs, from what was there.
from_there : ℕ → Option ℕ → List (ℕ × ℕ) → Option ℕ
from_there g (some sum) ps = some ((sum + sum_of g ps) % word_mod)
from_there g none ps = if occurs g ps then some (sum_of g ps % word_mod) else none

sum_at-add_pairs :
    (g : ℕ) (ps : List (ℕ × ℕ)) (table : Sums)
    → All (λ p. p.1 < word_mod) ps
    → All (λ p. p.1 < word_mod) table
    → sum_at g (add_pairs ps table) ≡ from_there g (sum_at g table) ps
unfolding add_pairs from_there occurs sum_of sum_at
sum_at-add_pairs g [] table small fits = elim (Option-cases (sum_at g table)) [
  | inl e ↦ rw (e, from_there) (ground arith)
  | inr (sum, e) ↦ rw (e, from_there) (ground (arith, sum_at-lt g table fits sum e))
]
sum_at-add_pairs g ((key, value) ∷ ps) table small fits =
    sum_at-add_pairs g ps (add_value key value table) small.1
      (add_value-All key value table small.0 fits)
    ∙ rw (sum_at-add_value g key value table) (ground (arith, sum_at-lt g table fits))

add_rows-append :
    (ga va : ℕ) (xs ys : Chunk) (table : Sums)
    → add_rows ga va (xs ++ ys) table ≡ (add_rows ga va xs table >>= add_rows ga va ys)
unfolding add_rows
add_rows-append ga va [] ys table = refl
add_rows-append ga va ((t, id) ∷ xs) ys table = simp (bind_assoc, add_rows-append ga va xs ys)

-- No group has two entries.
pub IsDistinct : Sums → Type 0
IsDistinct [] = Unit
IsDistinct ((k, sum) ∷ rest) = (sum_at k rest ≡ none) × IsDistinct rest

add_value-IsDistinct :
    (key value : ℕ) (table : Sums) → IsDistinct table → IsDistinct (add_value key value table)
unfolding add_value IsDistinct
add_value-IsDistinct key value [] h = (unfold sum_at in refl, tt)
add_value-IsDistinct key value ((k, first) ∷ rest) h = elim (Bool-cases (nat_eq k key)) [
  | inl e ↦ rw (e, add_value) h
  | inr e ↦
      rw (e, add_value)
        (
          ground (arith, h.0, sum_at-add_value k key value rest),
          add_value-IsDistinct key value rest h.1,
        )
]

add_pairs-IsDistinct :
    (ps : List (ℕ × ℕ)) (table : Sums) → IsDistinct table → IsDistinct (add_pairs ps table)
unfolding add_pairs
add_pairs-IsDistinct [] table h = h
add_pairs-IsDistinct ((key, value) ∷ ps) table h =
    add_pairs-IsDistinct ps (add_value key value table) (add_value-IsDistinct key value table h)

-- What a table holds after the rows with these groups and values.
pub IsSummary : List (ℕ × ℕ) → Sums → Type 0
IsSummary ps table =
    IsDistinct table
    × ((g : ℕ) → sum_at g table ≡ (if occurs g ps then some (sum_of g ps % word_mod) else none))

-- If the child is exhausted after some chunks, the fuel allows for as many calls, the hash table is
-- empty, and every row has a group and a value, a 64-bit number, then the hash table that is built
-- has one entry for each group that occurs and no other, and it is the sum of the group's values
-- modulo 2 ^ 64.
pub build_hash_table_lem :
    {S : Type 0} (order : Sums → Sums) (child_next : Next S) (fuel ga va : ℕ)
    (o : AggregateOperator S) {s' : S} {cs : List Chunk} (ps : List (ℕ × ℕ))
    → Produces child_next o.child cs s'
    → length cs ≤ fuel
    → o.hash_table ≡ []
    → get_key_attr o.child_schema o.group_by ≡ ok ga
    → get_key_attr o.child_schema o.aggregate_column ≡ ok va
    → read_pairs ga va (rows_of cs) ≡ ok ps
    → All (λ p. p.1 < word_mod) ps
    → (table : Sums) × (build_hash_table order child_next fuel o
        ≡ ok (record o { hash_table = table; child = s' }))
      × IsSummary ps table
unfolding build_hash_table IsSummary
build_hash_table_lem order child_next fuel ga va o {s'} {cs} ps produced enough none_yet eg ev read
      small =
    let run =
      drain_rows child_next (add_rows ga va) (λ table. unfold add_rows in refl)
        (add_rows-append ga va) fuel [] (add_pairs ps []) produced enough
        (add_rows-pairs ga va (rows_of cs) ps [] read) in
    (
      add_pairs ps [],
      rw (none_yet, eg, ev, run) refl,
      (
        add_pairs-IsDistinct ps [] (unfold IsDistinct in tt),
        λ g. sum_at-add_pairs g ps [] small tt ∙ (unfold from_there sum_at in refl),
      ),
    )
