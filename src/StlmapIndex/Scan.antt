-- ===== src/StlmapIndex/Scan.antt =====
-- Range scans: the iterator loop against the filter on the same range.
use babydb_private.Prelude.{
  ℕ, suc, ◌<◌, ◌≡◌, refl, Bool, false, not, ◌&&◌, ◌||◌, List, [], ◌∷◌, ltb, leb, if◌then◌else◌,
  arith, drop, fun_ext, Bool-cases, inl, inr,
}
use babydb_private.Outcome.{ok, undefined}
use babydb_private.Filter.{range_accepts}
use babydb_private.Schema.{RangeInfo}
use babydb_private.StlmapIndex.{
  Entries, lower_bound, upper_bound, collect, start_ite, end_ite, scan_range,
}
use babydb_private.StlmapIndex.Order.{Above, IsSorted}

-- The number of leading entries whose keys pass the test.
bound : (ℕ → Bool) → Entries → ℕ
bound p [] = 0
bound p ((k, row) ∷ rest) = if p k then suc (bound p rest) else 0

unfoldable pub rows : Entries → List ℕ
rows [] = []
rows ((k, row) ∷ rest) = row ∷ rows rest

unfoldable pub some_key : (ℕ → Bool) → Entries → Bool
some_key p [] = false
some_key p ((k, row) ∷ rest) = p k || some_key p rest

unfoldable pub keep : (ℕ → Bool) → Entries → Entries
keep p [] = []
keep p ((k, row) ∷ rest) = if p k then (k, row) ∷ keep p rest else keep p rest

-- Once a key fails the test, all greater keys do.
abbrev IsInitial : (ℕ → Bool) → Type 0
IsInitial p = (a b : ℕ) → a < b → p a ≡ false → p b ≡ false

collect-suc : (l : Entries) (i j : ℕ) → collect l (suc i) (suc j) ≡ collect l i j
unfolding collect
collect-suc [] i j = ground arith
collect-suc ((k, row) ∷ rest) i j = ground (arith, collect-suc rest (suc i) j)

collect_past : (l : Entries) (i j : ℕ) → j < i → collect l i j ≡ undefined
unfolding collect
collect_past [] i j h = ground arith
collect_past ((k, row) ∷ rest) i j h = ground (arith, collect_past rest (suc i) j)

module _ (p q : ℕ → Bool) (p_initial : IsInitial p) (q_initial : IsInitial q) where
  keep_none : (k : ℕ) (l : Entries) → Above k l → q k ≡ false → keep q l ≡ []
  unfolding keep
  keep_none k [] h f = refl
  keep_none k ((j, row) ∷ rest) h f = ground (arith, q_initial k j, keep_none k rest)

  none_before :
      (k : ℕ) (l : Entries)
      → Above k l
      → p k ≡ false
      → (some_key (λ j. p j && not (q j)) l ≡ false) × (keep (λ j. not (p j) && q j) l ≡ keep q l)
  unfolding keep some_key
  none_before k [] h f = (refl, refl)
  none_before k ((j, row) ∷ rest) h f = ground (arith, p_initial k j, none_before k rest)

  collect-keep : (l : Entries) → IsSorted l → collect l 0 (bound q l) ≡ ok (rows (keep q l))
  unfolding collect keep bound rows
  collect-keep [] s = ground arith
  collect-keep ((k, row) ∷ rest) s =
      ground (arith, collect-keep rest, collect-suc rest 0 (bound q rest), keep_none k rest)

  collect_between :
      (l : Entries)
      → IsSorted l
      → collect (drop (bound p l) l) (bound p l) (bound q l) ≡ (
          if some_key (λ j. p j && not (q j)) l
          then undefined
          else ok (rows (keep (λ j. not (p j) && q j) l)))
  unfolding bound keep some_key rows
  collect_between [] s = collect-keep [] tt
  collect_between ((k, row) ∷ rest) s = elim (Bool-cases (p k)) [
    | inr after ↦
        let (a, b) = none_before k rest s.0 after in
        rw (after, a, b) (collect-keep ((k, row) ∷ rest) s)
    | inl before ↦ elim (Bool-cases (q k)) [
      | inl inside ↦ rw (before, inside, collect-suc) (collect_between rest s.1)
      | inr past ↦
          rw (before, past)
            (collect_past (drop (bound p rest) rest) (suc (bound p rest)) 0 (omega arith))
    ]
  ]

lower_bound-bound : (x : ℕ) (l : Entries) → lower_bound x l ≡ bound (λ k. ltb k x) l
unfolding lower_bound bound
lower_bound-bound x [] = refl
lower_bound-bound x ((k, row) ∷ rest) = ground (arith, lower_bound-bound x rest)

upper_bound-bound : (x : ℕ) (l : Entries) → upper_bound x l ≡ bound (λ k. leb k x) l
unfolding upper_bound bound
upper_bound-bound x [] = refl
upper_bound-bound x ((k, row) ∷ rest) = ground (arith, upper_bound-bound x rest)

-- The keys that the first iterator skips, and those that the second one leaves behind.
abbrev pub skipped : RangeInfo → ℕ → Bool
skipped r k = if r.contain_start then ltb k r.start else leb k r.start

abbrev pub passed : RangeInfo → ℕ → Bool
passed r k = if r.contain_end then leb k r.end else ltb k r.end

skipped-IsInitial : (r : RangeInfo) → IsInitial (skipped r)
skipped-IsInitial r a b h = ground arith

passed-IsInitial : (r : RangeInfo) → IsInitial (passed r)
passed-IsInitial r a b h = ground arith

start_ite-bound : (r : RangeInfo) (l : Entries) → start_ite r l ≡ bound (skipped r) l
unfolding start_ite
start_ite-bound r l = elim (Bool-cases r.contain_start) [
  | inl e ↦ rw (e, start_ite) (lower_bound-bound r.start l)
  | inr e ↦ rw (e, start_ite) (upper_bound-bound r.start l)
]

end_ite-bound : (r : RangeInfo) (l : Entries) → end_ite r l ≡ bound (passed r) l
unfolding end_ite
end_ite-bound r l = elim (Bool-cases r.contain_end) [
  | inl e ↦ rw (e, end_ite) (upper_bound-bound r.end l)
  | inr e ↦ rw (e, end_ite) (lower_bound-bound r.end l)
]

accepts_between : (r : RangeInfo) (k : ℕ) → (not (skipped r k) && passed r k) ≡ range_accepts r k
unfolding range_accepts
accepts_between r k = ground arith

keep_congr : {p q : ℕ → Bool} (l : Entries) → ((k : ℕ) → p k ≡ q k) → keep p l ≡ keep q l
keep_congr l h = rw (fun_ext h)

-- On a sorted index, `ScanRange` returns the rows of exactly those entries whose keys a range
-- filter on the same range accepts, in key order; except that where the index has a key which
-- lies both before the start and past the end of the range (an inverted range, or an empty one
-- with two open ends), its loop misses the end and runs out of the map.
pub scan_range_lem :
    (index : Entries) (r : RangeInfo)
    → IsSorted index
    → scan_range index r ≡ (
        if some_key (λ k. skipped r k && not (passed r k)) index
        then undefined
        else ok (rows (keep (range_accepts r) index)))
unfolding scan_range
scan_range_lem index r s =
    rw (start_ite-bound r index, end_ite-bound r index, ← keep_congr index (accepts_between r))
      (collect_between _ _ (skipped-IsInitial r) (passed-IsInitial r) index s)
