-- ===== src/Filter.antt =====
-- src/include/execution/expression/filter.hpp: the conditions on a tuple.
use babydb_private.Prelude.{
  ℕ, Bool, true, false, not, ◌&&◌, ◌||◌, List, ltb, nat_eq, get_elem?, if◌then◌else◌,
}
use babydb_private.Outcome.{Outcome, ok, deref, ◌>>=◌}
use babydb_private.Schema.{RangeInfo, Tuple, Schema, keys_from_tuple, get_key_attrs}

-- The three classes of filters. A user's function may end in any way.
pub data Condition : Type 0 where
  range_filter : RangeInfo → Condition
  equal_filter : ℕ → Condition
  ud_filter : (Tuple → Outcome Bool) → Condition

-- `key_attrs_` is empty until `Init`.
pub record Filter : Type 0 where
  pub keys_schema : Schema
  pub key_attrs : List ℕ
  pub condition : Condition

-- The tests of `RangeFilter::CheckInternal` on the key.
unfoldable pub range_accepts : RangeInfo → ℕ → Bool
range_accepts r key =
    if ltb key r.start || ltb r.end key
    then false
    else (if not r.contain_start && nat_eq key r.start
        then false
        else (if not r.contain_end && nat_eq key r.end then false else true))

-- `tuple[0]` is undefined on an empty tuple.
unfoldable pub check_internal : Condition → Tuple → Outcome Bool
unfolding range_accepts
check_internal (range_filter r) keys = do key ← deref (get_elem? keys 0); ok (range_accepts r key)
check_internal (equal_filter target) keys = do
  key ← deref (get_elem? keys 0)
  ok (nat_eq key target)
check_internal (ud_filter udf) keys = udf keys

unfoldable pub check : Filter → Tuple → Outcome Bool
unfolding check_internal keys_from_tuple
check f t = do keys ← keys_from_tuple t f.key_attrs; check_internal f.condition keys

unfoldable pub init : Filter → Schema → Outcome Filter
unfolding get_key_attrs
init f input_schema = do
  attrs ← get_key_attrs input_schema f.keys_schema
  ok (record f { key_attrs = attrs })
