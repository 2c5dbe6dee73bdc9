-- ===== src/Art/Valid/Keys.antt =====
-- src/storage/art.cpp: the bytes of a key along a path.
use babydb_private.Prelude.{
  ℕ, zero, suc, ◌+◌, ◌<◌, ◌≡◌, refl, ◌∙◌, true, some, List, [], ◌∷◌, ◌++◌, nat_eq, arith, length,
  take, drop, get_elem?, length-append, drop-get_elem?, get_elem?-drop, take-add, take-suc, All,
  All-get_elem?,
}
use babydb_private.Schema.{word_mod}
use babydb_private.Art.Key.{load_key}
use babydb_private.Art.Leaf.{equal_lists, equal_keys}
use babydb_private.Art.Valid.{IsOn, extend}

pub length-load_key : (k : ℕ) → length (load_key k) ≡ 8
unfolding load_key
length-load_key k = refl

pub load_key-All : (k : ℕ) → All (λ x. x < 256) (load_key k)
unfolding load_key
load_key-All k = omega arith

pub byte-lt : (k i z : ℕ) → get_elem? (load_key k) i ≡ some z → z < 256
byte-lt k i z at = All-get_elem? (λ x. x < 256) (load_key k) i z (load_key-All k) at

pub byte_at : (k i : ℕ) → i < 8 → (z : ℕ) × (get_elem? (load_key k) i ≡ some z) × (z < 256)
byte_at k i lt =
    let (z, at, _) = drop-get_elem? i (load_key k) (omega (arith, lt, length-load_key k)) in
    (z, at, byte-lt k i z at)

pub length-extend :
    (path bytes : List ℕ) (z : ℕ) → length (extend path bytes z) ≡ suc (length path + length bytes)
length-extend path bytes z =
    omega (arith, length-append path (bytes ++ z ∷ []), length-append bytes (z ∷ []))

-- A key that has the bytes of a prefix below the path, and a byte behind them, is on the longer path.
pub extend-IsOn :
    (path bytes : List ℕ) (k z : ℕ)
    → IsOn path k
    → take (length bytes) (drop (length path) (load_key k)) ≡ bytes
    → get_elem? (load_key k) (length path + length bytes) ≡ some z
    → IsOn (extend path bytes z) k
extend-IsOn path bytes k z on same at =
    let d = length path in
    let m = length bytes in
    let at' = get_elem?-drop d m (load_key k) ∙ at in
    let reach : length (extend path bytes z) ≡ d + suc m =
      omega (arith, length-extend path bytes z) in
    rw reach
      (take-add d (suc m) (load_key k) ∙ rw (on, take-suc m (drop d (load_key k)) z at', same) refl)

equal_tails :
    (d : ℕ) (xs ys : List ℕ)
    → take d xs ≡ take d ys
    → equal_lists (drop d xs) (drop d ys) ≡ equal_lists xs ys
unfolding equal_lists
equal_tails zero xs ys h = refl
equal_tails (suc d) [] [] h = refl
equal_tails (suc d) [] (y ∷ ys) h = absurd (ground (arith, h))
equal_tails (suc d) (x ∷ xs) [] h = absurd (ground (arith, h))
equal_tails (suc d) (x ∷ xs) (y ∷ ys) h = ground (arith, h, equal_tails d xs ys)

pub equal_from :
    (v k d : ℕ)
    → v < word_mod
    → k < word_mod
    → take d (load_key v) ≡ take d (load_key k)
    → equal_lists (drop d (load_key v)) (drop d (load_key k)) ≡ nat_eq v k
equal_from v k d hv hk same = equal_tails d (load_key v) (load_key k) same ∙ equal_keys v k hv hk

pub whole_equal : (v k : ℕ) → equal_lists (drop 8 (load_key v)) (drop 8 (load_key k)) ≡ true
unfolding load_key equal_lists
whole_equal v k = refl
