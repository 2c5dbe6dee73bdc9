-- ===== src/Outcome.antt =====
-- How a call of the C++ code ends: with a value, with an exception, or with behaviour that the
-- language leaves undefined (an access out of bounds, an iterator moved past the end). A loop that
-- is modelled with fuel is unfinished where its fuel runs out.
use babydb_private.Prelude.{Bool, true, false, ◌≡◌, refl, Option, none, some}

-- One constructor for each exception that the repository throws; `system_error` is the standard
-- library's, thrown by `unlock` on a lock that is not owned.
pub data Error : Type 0 where
  invalid_key_schema : Error
  table_exists table_missing index_exists index_missing table_has_index : Error
  table_not_empty duplicated_key : Error
  commit_not_running abort_not_running abort_unimplemented : Error
  duplicated_column schema_mismatch duplicate_projection : Error
  disallowed unimplemented system_error : Error

pub data Outcome {ℓ} (A : Type ℓ) : Type ℓ where
  ok : A → Outcome A
  throws : Error → Outcome A
  undefined : Outcome A
  unfinished : Outcome A

infixl 5 ◌>>◌ ◌>>=◌
-- The call, then what the caller does with its value.
abbrev pub ◌>>=◌ {ℓ ℓ'} : {A : Type ℓ} {B : Type ℓ'} → Outcome A → (A → Outcome B) → Outcome B
unfinished >>= after = unfinished
undefined >>= after = undefined
throws e >>= after = throws e
ok value >>= after = after value

abbrev pub ◌>>◌ {ℓ} : {B : Type ℓ} → Outcome (Unit {0}) → Outcome B → Outcome B
m >> k = m >>= λ _. k

-- `throw e` under a condition.
abbrev pub throw_if : Bool → Error → Outcome (Unit {0})
throw_if true e = throws e
throw_if false e = ok tt

-- An access that is undefined where there is nothing.
abbrev pub deref {ℓ} : {A : Type ℓ} → Option A → Outcome A
deref none = undefined
deref (some a) = ok a

-- A search that throws where it finds nothing.
abbrev pub found_or {ℓ} : {A : Type ℓ} → Error → Option A → Outcome A
found_or e none = throws e
found_or e (some a) = ok a

-- A value at the end comes from a value of the first call.
pub >>=-eq-ok {ℓ ℓ'} :
    {A : Type ℓ} {B : Type ℓ'} (call : Outcome A) (after : A → Outcome B) {b : B}
    → (call >>= after) ≡ ok b
    → (value : A) × (call ≡ ok value) × (after value ≡ ok b)
>>=-eq-ok unfinished after h = cc
>>=-eq-ok undefined after h = cc
>>=-eq-ok (throws e) after h = cc
>>=-eq-ok (ok value) after h = (value, refl, h)

pub bind_assoc {ℓ κ μ} :
    {A : Type ℓ} {B : Type κ} {C : Type μ} (m : Outcome A) (f : A → Outcome B) (g : B → Outcome C)
    → ((m >>= f) >>= g) ≡ (m >>= λ a. f a >>= g)
bind_assoc (ok a) f g = refl
bind_assoc (throws e) f g = refl
bind_assoc undefined f g = refl
bind_assoc unfinished f g = refl
