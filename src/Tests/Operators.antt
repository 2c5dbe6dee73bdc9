-- ===== src/Tests/Operators.antt =====
-- Trees of operators on concrete schemas.
use babydb_private.Prelude.{String, List, ◌≡◌, refl, false, if◌then◌else◌, [], ◌∷◌}
use babydb_private.Outcome.{Outcome, ok, throws, undefined, duplicated_column, ◌>>=◌}
use babydb_private.Schema.{Tuple, get_key_attr}
use babydb_private.Exec.Value
use babydb_private.Exec.Join
use babydb_private.Exec.Join.{make_hash_join_operator}
use babydb_private.Exec.SchemaCheck.{check_schema, distinct, check_schema_lem}
use babydb_private.Exec.Plan.{
  Operator, operator, no_operator, child, check, all_distinct, Passes, check-Passes,
  get_output_schema,
}

-- The names are equal though another one stands between them.
twice : check_schema ("b" ∷ "a" ∷ "b" ∷ []) ≡ throws duplicated_column
unfolding check_schema
twice = refl

check_schema_lem_example :
    check_schema ("b" ∷ "a" ∷ "c" ∷ [])
    ≡ (if distinct ("b" ∷ "a" ∷ "c" ∷ []) then ok tt else throws duplicated_column)
check_schema_lem_example = check_schema_lem ("b" ∷ "a" ∷ "c" ∷ [])

-- The fields of the two classes in the tree.
data Fields : Type 0 where
  values : List Tuple → Fields
  hash_join : String → String → Fields

-- `ValueOperator::SelfCheck` and `HashJoinOperator::SelfCheck`.
abbrev self_check : Operator Fields → Outcome Fields
self_check (operator (values tuples) schema children) =
    Value.self_check (record { output_schema = schema; tuples = tuples; next_tuple_id = 0 })
    >>= λ _. ok (values tuples)
self_check
      (operator (hash_join probe_name build_name) schema (child probe (child build no_operator))) =
    Join.self_check (
      make_hash_join_operator (get_output_schema probe) probe (get_output_schema build) build
        probe_name build_name 0 false false)
    >>= λ _. ok (hash_join probe_name build_name)
self_check (operator (hash_join probe_name build_name) schema children) = undefined

-- A join of two operators that both have the column `a`.
abbrev join_tree : Operator Fields
join_tree = operator (hash_join "a" "a") ("a" ∷ "bb" ∷ "a" ∷ []) (
    child (operator (values ((1 ∷ 2 ∷ []) ∷ [])) ("a" ∷ "bb" ∷ []) no_operator)
      (child (operator (values ((3 ∷ []) ∷ [])) ("a" ∷ []) no_operator) no_operator))

own_checks : Passes self_check join_tree join_tree
unfolding Value.self_check Join.self_check make_hash_join_operator get_output_schema get_key_attr
own_checks = (((tt, refl, refl), ((tt, refl, refl), tt)), refl, refl)

not_distinct : all_distinct join_tree ≡ false
unfolding all_distinct
not_distinct = refl

check-Passes_example :
    check self_check join_tree
    ≡ (if all_distinct join_tree then ok join_tree else throws duplicated_column)
check-Passes_example = check-Passes self_check join_tree join_tree own_checks
