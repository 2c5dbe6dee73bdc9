-- ===== src/Art/Valid/Erase/Paths.antt =====
-- src/storage/art.cpp: the path and the prefix of the only child that is left of a `Node4`.
use Prim.Native.Nat.{min}
use babydb_private.Prelude.{
  ℕ, suc, ◌+◌, ◌-◌, ◌<◌, ◌≡◌, refl, ap, sym, ◌∙◌, true, ltb, some, List, [], ◌∷◌, ◌++◌, length,
  length-append, take, drop, take_all, get_elem?, get_elem?-drop, append_assoc, arith,
}
use babydb_private.Art.{Header}
use babydb_private.Art.Key.{load_key}
use babydb_private.Art.Search.{max_prefix_length}
use babydb_private.Art.Erase.{join_prefix}
use babydb_private.Art.Leaf.{equal_lists_refl, equal_lists}
use babydb_private.Art.Nodes.Insert.{IsShort}
use babydb_private.Art.Valid.{IsOn, extend}
use babydb_private.Art.Valid.Lookup.{continues}

-- A list that starts with two lists, one behind the other.
take_front :
    (front back : List ℕ) (m : ℕ) (xs : List ℕ)
    → take (length front + m) xs ≡ front ++ back
    → (take (length front) xs ≡ front) × (take m (drop (length front) xs) ≡ back)
take_front [] back m xs h = (refl, ap (λ n. take n xs) (omega arith) ∙ h)
take_front (x ∷ front) back m [] h = absurd (
    ground
      (arith, sym (ap (λ n. take {A = ℕ} n []) {y = suc (length front + m)} (omega arith)) ∙ h))
take_front (x ∷ front) back m (y ∷ xs) h =
    let both : y ∷ take (length front + m) xs ≡ x ∷ (front ++ back) =
      sym (ap (λ n. take n (y ∷ xs)) {y = suc (length front + m)} (omega arith)) ∙ h in
    let (first, rest) = take_front front back m xs (ground (arith, both)) in
    (ground (arith, both, first), rest)

take_one : (xs : List ℕ) (z : ℕ) → take 1 xs ≡ z ∷ [] → get_elem? xs 0 ≡ some z
take_one [] z h = absurd (ground (arith, h))
take_one (x ∷ xs) z h = ground (arith, h)

-- A key on the path to a child is on the path to the node, has the node's prefix, and then the
-- child's byte.
pub from_extend :
    (path bytes : List ℕ) (k z : ℕ)
    → IsOn (extend path bytes z) k
    → IsOn path k
      × (continues path bytes k ≡ true)
      × (get_elem? (load_key k) (length path + length bytes) ≡ some z)
from_extend path bytes k z on =
    let ks = load_key k in
    let long = length-append path (bytes ++ z ∷ []) in
    let long' = length-append bytes (z ∷ []) in
    let (front, back) =
      take_front path (bytes ++ z ∷ []) (length (bytes ++ z ∷ [])) ks
        (sym (ap (λ n. take n ks) long) ∙ on) in
    let (middle, last) =
      take_front bytes (z ∷ []) 1 (drop (length path) ks)
        (sym (ap (λ n. take n (drop (length path) ks)) long') ∙ back) in
    (
      front,
      ap (equal_lists bytes) middle ∙ equal_lists_refl bytes,
      sym (get_elem?-drop (length path) (length bytes) ks)
          ∙ ap (get_elem? (drop (length path) ks)) {y = length bytes + 0} (omega arith)
          ∙ (sym (get_elem?-drop (length bytes) 0 (drop (length path) ks)) ∙ take_one _ z last),
    )

-- The prefix of the node, the child's byte and the prefix of the child.
abbrev pub joined_header : Header → ℕ → Header → Header
joined_header h x g = record {
  prefix_length = g.prefix_length + (h.prefix_length + 1);
  prefix = h.prefix ++ x ∷ g.prefix;
}

pub join_prefix_lem :
    (h : Header) (x : ℕ) (g : Header)
    → IsShort h
    → IsShort g
    → h.prefix_length + g.prefix_length < 8
    → join_prefix h x g ≡ joined_header h x g
unfolding join_prefix
join_prefix_lem h x g sh sg room =
    let first : ltb h.prefix_length max_prefix_length ≡ true = ground (arith, room) in
    let second : ltb (h.prefix_length + 1) max_prefix_length ≡ true = ground (arith, room) in
    let all : min g.prefix_length (max_prefix_length - (h.prefix_length + 1)) ≡ g.prefix_length =
      ground (arith, room) in
    let whole : take h.prefix_length h.prefix ≡ h.prefix =
      take_all h.prefix_length h.prefix (omega (arith, sh.0)) in
    let whole' : take g.prefix_length g.prefix ≡ g.prefix =
      take_all g.prefix_length g.prefix (omega (arith, sg.0)) in
    rw (first, second, all, whole, whole')
      (ap
        (λ (p : List ℕ). record {
          prefix_length = g.prefix_length + (h.prefix_length + 1);
          prefix = p;
        })
        (append_assoc h.prefix (x ∷ []) g.prefix))
