-- ===== src/Schema/Lookup.antt =====
-- What the resolution of column names returns, against the position of the first equal column.
use Prim.Native.String.{len}
use mathlib.Core.Option
use babydb_private.Prelude.{
  ℕ, zero, suc, ◌+◌, ◌≤◌, ◌≡◌, refl, String, Option, none, some, [], ◌∷◌, leb, ltb, str_eq,
  if◌then◌else◌, length, arith,
}
use babydb_private.Outcome.{Outcome, ok, throws, undefined, invalid_key_schema}
use babydb_private.Schema.{Schema, invalid_id, find_from, find, get_key_attr}

-- The position of the first column of that name.
unfoldable pub position_of : Schema → String → Option ℕ
position_of [] cname = none
position_of (column ∷ rest) cname =
    if str_eq column cname then some 0 else Option.map suc (position_of rest cname)

-- What a search of `rounds` rounds returns, where the column stands at `p`.
abbrev pub resolved : ℕ → ℕ → Option ℕ → Outcome ℕ
resolved width rounds (some p) = if ltb p rounds then ok p else throws invalid_key_schema
resolved width rounds none = if leb rounds width then throws invalid_key_schema else undefined

abbrev shifted : ℕ → ℕ → ℕ → Option ℕ → Outcome ℕ
shifted width rounds i (some p) = if ltb p rounds then ok (i + p) else ok invalid_id
shifted width rounds i none = if leb rounds width then ok invalid_id else undefined

find_from_lem :
    (columns : Schema) (rounds i : ℕ) (cname : String)
    → find_from columns rounds i cname
      ≡ shifted (length columns) rounds i (position_of columns cname)
unfolding find_from position_of
find_from_lem [] zero i cname = refl
find_from_lem [] (suc rounds) i cname = ground arith
find_from_lem (c ∷ cs) zero i cname = ground arith
find_from_lem (c ∷ cs) (suc rounds) i cname = ground (arith, find_from_lem cs rounds (suc i) cname)

-- `GetKeyAttr` returns the first position of the name if that position is below the name's own
-- length in bytes. It throws if the position is not, and if there is none in a schema that has
-- at least as many columns as the name has bytes; in a narrower schema a missing name reads
-- past the end.
pub get_key_attr_lem :
    (columns : Schema) (cname : String)
    → len cname ≤ invalid_id
    → get_key_attr columns cname ≡ resolved (length columns) (len cname) (position_of columns cname)
unfolding get_key_attr find
get_key_attr_lem columns cname h = ground (arith, find_from_lem columns (len cname) 0 cname)
