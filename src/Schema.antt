-- ===== src/Schema.antt =====
-- src/include/common/typedefs.hpp: tuples, schemas and ranges, and the resolution of column names
-- to positions. `data_t` and `idx_t` are numbers below 2 ^ 64.
pub mod Lookup
pub mod Order
use Prim.Native.String.{len}
use babydb_private.Prelude.{
  ℕ, zero, suc, ◌-◌, ◌^◌, String, Bool, true, List, [], ◌∷◌, get_elem?, str_eq, nat_eq,
  if◌then◌else◌,
}
use babydb_private.Outcome.{Outcome, ok, throws, undefined, invalid_key_schema, deref, ◌>>=◌}

abbrev pub word_mod : ℕ
word_mod = 2 ^ 64

-- `static_cast<idx_t>(-1)`
abbrev pub invalid_id : ℕ
invalid_id = 0xffff_ffff_ffff_ffff

abbrev pub invalid_name : String
invalid_name = ""

abbrev pub data_max : ℕ
data_max = 0x7fff_ffff_ffff_ffff

abbrev pub txn_start_id : ℕ
txn_start_id = 0x4000_0000_0000_0000

pub record RangeInfo : Type 0 where
  pub start : ℕ
  pub end : ℕ
  pub contain_start : Bool
  pub contain_end : Bool

abbrev pub Tuple : Type 0
Tuple = List ℕ

abbrev pub Schema : Type 0
Schema = List String

-- `operator[]` of a vector is undefined out of bounds.
unfoldable pub key_from_tuple : Tuple → ℕ → Outcome ℕ
key_from_tuple t position = deref (get_elem? t position)

unfoldable pub keys_from_tuple : Tuple → List ℕ → Outcome Tuple
unfolding key_from_tuple
keys_from_tuple t [] = ok []
keys_from_tuple t (position ∷ rest) = do
  key ← key_from_tuple t position
  keys ← keys_from_tuple t rest
  ok (key ∷ keys)

-- The loop of `Schema::Find`. It runs for as many rounds as the searched name has bytes: the
-- second argument is the rounds left, the third the position that the schema's rest starts at.
pub find_from : Schema → ℕ → ℕ → String → Outcome ℕ
find_from columns zero i cname = ok invalid_id
find_from [] (suc rounds) i cname = undefined
find_from (column ∷ rest) (suc rounds) i cname =
    if str_eq column cname then ok i else find_from rest rounds (suc i) cname

pub find : Schema → String → Outcome ℕ
unfolding find_from
find columns cname = find_from columns (len cname) 0 cname

unfoldable pub get_key_attr : Schema → String → Outcome ℕ
unfolding find
get_key_attr columns column_name = do
  position ← find columns column_name
  if nat_eq position invalid_id then throws invalid_key_schema else ok position

unfoldable pub get_key_attrs : Schema → Schema → Outcome (List ℕ)
unfolding get_key_attr
get_key_attrs columns [] = ok []
get_key_attrs columns (cname ∷ rest) = do
  position ← get_key_attr columns cname
  positions ← get_key_attrs columns rest
  ok (position ∷ positions)
