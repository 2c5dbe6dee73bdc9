-- ===== src/Exec/Plan.antt =====
-- src/include/execution/operator.hpp: trees of operators, `Init` and `Check`.
use babydb_private.Prelude.{
  ◌≡◌, refl, ap, ◌∙◌, Bool, true, ◌&&◌, [], ◌++◌, if◌then◌else◌, Bool-cases, inl, inr,
}
use babydb_private.Outcome.{Outcome, ok, throws, duplicated_column, ◌>>=◌}
use babydb_private.Schema.{Schema}
use babydb_private.Exec.SchemaCheck.{check_schema, distinct, check_schema_lem}

-- An operator has the fields `F` of its class, its output schema and its children.
mutual
  pub data Operator (F : Type 0) : Type 0 where
    operator : F → Schema → Operators F → Operator F

  pub data Operators (F : Type 0) : Type 0 where
    no_operator : Operators F
    child : Operator F → Operators F → Operators F

unfoldable pub get_output_schema : {F : Type 0} → Operator F → Schema
get_output_schema (operator fields schema children) = schema

-- The columns of the children, one child after another.
unfoldable pub child_columns : {F : Type 0} → Operators F → Schema
unfolding get_output_schema
child_columns no_operator = []
child_columns (child o os) = get_output_schema o ++ child_columns os

-- The constructor that is given no schema.
unfoldable pub make_operator : {F : Type 0} → F → Operators F → Operator F
unfolding child_columns
make_operator fields children = operator fields (child_columns children) children

-- `self_init` and `self_check` are the virtual methods of the classes.
module _ {F : Type 0} (self_init : Operator F → Outcome F) where
  unfoldable mutual
    pub init : Operator F → Outcome (Operator F)
    init (operator fields schema children) = do
      children' ← init_children children
      fields' ← self_init (operator fields schema children')
      ok (operator fields' schema children')

    pub init_children : Operators F → Outcome (Operators F)
    init_children no_operator = ok no_operator
    init_children (child o os) = do o' ← init o; os' ← init_children os; ok (child o' os')

module _ {F : Type 0} (self_check : Operator F → Outcome F) where
  unfoldable mutual
    unfolding check_schema

    pub check : Operator F → Outcome (Operator F)
    check (operator fields schema children) = do
      children' ← check_children children
      _ ← check_schema schema
      fields' ← self_check (operator fields schema children')
      ok (operator fields' schema children')

    pub check_children : Operators F → Outcome (Operators F)
    check_children no_operator = ok no_operator
    check_children (child o os) = do o' ← check o; os' ← check_children os; ok (child o' os')

-- No operator of the tree has two columns of one name.
unfoldable mutual
  unfolding distinct

  pub all_distinct : {F : Type 0} → Operator F → Bool
  all_distinct (operator fields schema children) = children_distinct children && distinct schema

  pub children_distinct : {F : Type 0} → Operators F → Bool
  children_distinct no_operator = true
  children_distinct (child o os) = all_distinct o && children_distinct os

two_decided :
    {A B C : Type 0} (m : Outcome A) (n : Outcome B) (f : A → B → C) (a : A) (b : B) (p q : Bool)
    → m ≡ (if p then ok a else throws duplicated_column)
    → n ≡ (if q then ok b else throws duplicated_column)
    → (m >>= λ x. n >>= λ y. ok (f x y)) ≡ (if p && q then ok (f a b) else throws duplicated_column)
two_decided m n f a b p q run runs =
    rw (run, runs)
      (elim (Bool-cases p) [
        | inl e ↦ elim (Bool-cases q) [ inl g ↦ rw (e, g) refl | inr g ↦ rw (e, g) refl ]
        | inr e ↦ rw e refl
      ])

self_decided :
    {A B C : Type 0} (m : Outcome A) (n : Outcome (Unit {0})) (g : A → Outcome B) (f : A → B → C)
    (a : A) (b : B) (p q : Bool)
    → m ≡ (if p then ok a else throws duplicated_column)
    → n ≡ (if q then ok tt else throws duplicated_column)
    → g a ≡ ok b
    → (m >>= λ x. n >>= λ _. g x >>= λ y. ok (f x y))
      ≡ (if p && q then ok (f a b) else throws duplicated_column)
self_decided m n g f a b p q run runs mine =
    rw (run, runs)
      (elim (Bool-cases p) [
        | inl e ↦ elim (Bool-cases q) [ inl h ↦ rw (e, h, mine) refl | inr h ↦ rw (e, h) refl ]
        | inr e ↦ rw e refl
      ])

-- What the virtual methods make of a tree: each operator's own `SelfCheck`, on its children as their
-- checks leave them, succeeds with the fields that it has in the second tree.
module _ {F : Type 0} (self_check : Operator F → Outcome F) where
  abbrev mutual
    pub Passes : Operator F → Operator F → Type 0
    Passes (operator fields schema children) (operator fields' schema' children') =
        AllPass children children'
        × (schema ≡ schema')
        × (self_check (operator fields schema children') ≡ ok fields')

    pub AllPass : Operators F → Operators F → Type 0
    AllPass no_operator no_operator = Unit
    AllPass no_operator (child o os) = ⊥
    AllPass (child o os) no_operator = ⊥
    AllPass (child o os) (child o' os') = Passes o o' × AllPass os os'

  mutual
    unfolding check all_distinct

    check_lem :
        (o o' : Operator F)
        → Passes o o'
        → check self_check o ≡ (if all_distinct o then ok o' else throws duplicated_column)
    check_lem (operator fields schema children) (operator fields' schema' children') passes =
        self_decided (check_children self_check children) (check_schema schema)
          (λ cs. self_check (operator fields schema cs)) (λ cs fs. operator fs schema cs) children'
          fields' (children_distinct children) (distinct schema)
          (check_children_lem children children' passes.0) (check_schema_lem schema) passes.2
        ∙ ap
            (λ s.
              if children_distinct children && distinct schema
              then ok (operator fields' s children')
              else throws duplicated_column)
            passes.1

    check_children_lem :
        (os os' : Operators F)
        → AllPass os os'
        → check_children self_check os
          ≡ (if children_distinct os then ok os' else throws duplicated_column)
    check_children_lem no_operator no_operator passes = refl
    check_children_lem no_operator (child o os) passes = absurd passes
    check_children_lem (child o os) no_operator passes = absurd passes
    check_children_lem (child o os) (child o' os') passes =
        two_decided (check self_check o) (check_children self_check os) child o' os'
          (all_distinct o) (children_distinct os) (check_lem o o' passes.0)
          (check_children_lem os os' passes.1)

-- If the own check of each operator of the tree succeeds, with its children as their checks leave them,
-- then `Check` of the tree throws exactly if one of its operators has two columns of one name, and
-- otherwise returns the tree with the fields that these own checks leave.
pub check-Passes :
    {F : Type 0} (self_check : Operator F → Outcome F) (o o' : Operator F)
    → Passes self_check o o'
    → check self_check o ≡ (if all_distinct o then ok o' else throws duplicated_column)
check-Passes self_check o o' passes = check_lem self_check o o' passes
