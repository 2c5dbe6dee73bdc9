-- ===== src/Exec/SchemaCheck.antt =====
-- src/include/execution/operator.hpp: `CheckSchema`.
use text.Mathlib.TextEquality.{eq_iff}
use babydb_private.Prelude.{
  String, ◌≡◌, refl, ap, sym, ◌∙◌, subst, Bool, true, false, ◌&&◌, ◌||◌, not, [], ◌∷◌, str_eq,
  if◌then◌else◌, arith, All, Bool-cases, inl, inr, Key_string,
}
use babydb_private.Outcome.{Outcome, ok, throws, duplicated_column}
use babydb_private.Schema.{Schema}
use babydb_private.Schema.Order.{name_leb, name_leb_total, name_leb_trans, name_leb_antisym}

insert_name : String → Schema → Schema
unfolding name_leb
insert_name x [] = x ∷ []
insert_name x (y ∷ ys) =
    let rest = insert_name x ys in if name_leb x y then x ∷ y ∷ ys else y ∷ rest

-- `std::sort` of the names.
unfoldable pub sort_names : Schema → Schema
unfolding insert_name
sort_names [] = []
sort_names (x ∷ xs) = insert_name x (sort_names xs)

-- The loop, from the column behind `x` on.
unfoldable pub check_from : String → Schema → Outcome (Unit {0})
check_from x [] = ok tt
check_from x (y ∷ ys) =
    let rest = check_from y ys in if str_eq y x then throws duplicated_column else rest

unfoldable pub check_sorted : Schema → Outcome (Unit {0})
unfolding check_from
check_sorted [] = ok tt
check_sorted (x ∷ xs) = check_from x xs

unfoldable pub check_schema : Schema → Outcome (Unit {0})
unfolding sort_names check_sorted
check_schema schema = check_sorted (sort_names schema)

unfoldable pub has_name : String → Schema → Bool
has_name x [] = false
has_name x (y ∷ ys) = str_eq y x || has_name x ys

-- No column has the name of a later one.
unfoldable pub distinct : Schema → Bool
unfolding has_name
distinct [] = true
distinct (x ∷ xs) = not (has_name x xs) && distinct xs

abbrev IsBelow : String → Schema → Type 0
IsBelow x ys = All (λ y. name_leb x y ≡ true) ys

abbrev IsSorted : Schema → Type 0
IsSorted [] = Unit
IsSorted (x ∷ xs) = IsBelow x xs × IsSorted xs

insert_name-IsBelow :
    (z x : String) (ys : Schema) → name_leb z x ≡ true → IsBelow z ys → IsBelow z (insert_name x ys)
unfolding insert_name
insert_name-IsBelow z x [] h below = (h, tt)
insert_name-IsBelow z x (y ∷ ys) h below = elim (Bool-cases (name_leb x y)) [
  | inl e ↦ rw e (h, below)
  | inr e ↦ rw e (below.0, insert_name-IsBelow z x ys h below.1)
]

IsBelow-trans : (x y : String) (ys : Schema) → name_leb x y ≡ true → IsBelow y ys → IsBelow x ys
IsBelow-trans x y [] h below = tt
IsBelow-trans x y (z ∷ zs) h below =
    (name_leb_trans x y z h below.0, IsBelow-trans x y zs h below.1)

insert_name-IsSorted : (x : String) (ys : Schema) → IsSorted ys → IsSorted (insert_name x ys)
unfolding insert_name
insert_name-IsSorted x [] s = (tt, tt)
insert_name-IsSorted x (y ∷ ys) s = elim (Bool-cases (name_leb x y)) [
  | inl e ↦ rw e ((e, IsBelow-trans x y ys e s.0), s)
  | inr e ↦
      rw e (insert_name-IsBelow y x ys (name_leb_total x y e) s.0, insert_name-IsSorted x ys s.1)
]

sort_names-IsSorted : (xs : Schema) → IsSorted (sort_names xs)
unfolding sort_names
sort_names-IsSorted [] = tt
sort_names-IsSorted (x ∷ xs) = insert_name-IsSorted x (sort_names xs) (sort_names-IsSorted xs)

has_name-insert_name :
    (z x : String) (ys : Schema) → has_name z (insert_name x ys) ≡ (str_eq x z || has_name z ys)
unfolding insert_name has_name
has_name-insert_name z x [] = refl
has_name-insert_name z x (y ∷ ys) = ground (arith, has_name-insert_name z x ys)

has_name-sort_names : (z : String) (xs : Schema) → has_name z (sort_names xs) ≡ has_name z xs
unfolding sort_names has_name
has_name-sort_names z [] = refl
has_name-sort_names z (x ∷ xs) =
    has_name-insert_name z x (sort_names xs) ∙ ap (λ b. str_eq x z || b) (has_name-sort_names z xs)

str_eq_sym : (x y : String) → str_eq x y ≡ str_eq y x
str_eq_sym x y = elim (Bool-cases (str_eq x y)) [
  | inl e ↦ e ∙ sym ((eq_iff y x).1 (sym ((eq_iff x y).0 e)))
  | inr e ↦ elim (Bool-cases (str_eq y x)) [
    | inl f ↦ absurd (ground (arith, e, (eq_iff x y).1 (sym ((eq_iff y x).0 f))))
    | inr f ↦ e ∙ sym f
  ]
]

distinct-insert_name :
    (x : String) (ys : Schema) → distinct (insert_name x ys) ≡ (not (has_name x ys) && distinct ys)
unfolding insert_name has_name distinct
distinct-insert_name x [] = refl
distinct-insert_name x (y ∷ ys) =
    ground (arith, distinct-insert_name x ys, has_name-insert_name y x ys, str_eq_sym x y)

distinct-sort_names : (xs : Schema) → distinct (sort_names xs) ≡ distinct xs
unfolding sort_names distinct
distinct-sort_names [] = refl
distinct-sort_names (x ∷ xs) =
    distinct-insert_name x (sort_names xs)
    ∙ rw (has_name-sort_names x xs, distinct-sort_names xs) refl

-- In a sorted list a name that is there is not below its elements, unless it equals them.
none_below :
    (x y : String) (ys : Schema)
    → name_leb x y ≡ true
    → str_eq y x ≡ false
    → IsBelow y ys
    → has_name x ys ≡ false
unfolding has_name
none_below x y [] h e below = refl
none_below x y (z ∷ zs) h e below = elim (Bool-cases (str_eq z x)) [
  | inl f ↦
      let same : z ≡ x = (eq_iff z x).0 f in
      let x_is_y = name_leb_antisym x y h (subst (λ n. name_leb y n ≡ true) same below.0) in
      absurd (ground (arith, e, (eq_iff y x).1 (sym x_is_y)))
  | inr f ↦ rw f (none_below x y zs h e below.1)
]

check_from-distinct :
    (x : String) (ys : Schema)
    → IsBelow x ys
    → IsSorted ys
    → check_from x ys
      ≡ (if not (has_name x ys) && distinct ys then ok tt else throws duplicated_column)
unfolding check_from has_name distinct
check_from-distinct x [] below s = refl
check_from-distinct x (y ∷ ys) below s = elim (Bool-cases (str_eq y x)) [
  | inl e ↦ rw e refl
  | inr e ↦ rw (e, none_below x y ys below.0 e s.0) (check_from-distinct y ys s.0 s.1)
]

check_sorted-distinct :
    (xs : Schema)
    → IsSorted xs
    → check_sorted xs ≡ (if distinct xs then ok tt else throws duplicated_column)
unfolding check_sorted distinct
check_sorted-distinct [] s = refl
check_sorted-distinct (x ∷ xs) s = check_from-distinct x xs s.0 s.1

-- `CheckSchema` throws exactly if two columns have one name.
pub check_schema_lem :
    (schema : Schema)
    → check_schema schema ≡ (if distinct schema then ok tt else throws duplicated_column)
unfolding check_schema
check_schema_lem schema =
    check_sorted-distinct (sort_names schema) (sort_names-IsSorted schema)
    ∙ ap (λ b. if b then ok tt else throws duplicated_column) (distinct-sort_names schema)
