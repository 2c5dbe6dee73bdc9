-- ===== src/Prelude/Slices.antt =====
-- Parts of lists.
use Prim.Native.Nat.{ℕ, zero, suc, ◌+◌, ◌-◌, ◌≤◌, ◌<◌}
use mathlib.Core.Path.{◌≡◌, refl, ap, sym, ◌∙◌}
use mathlib.Core.List.{List, [], ◌∷◌, ◌++◌}
use mathlib.Core.Option.{some}
use native.Mathlib.Omega.{arith}
use babydb_private.Prelude.Lists.{length, get_elem?, take, drop, All}

module _ {ℓ} {A : Type ℓ} where
  pub get_elem?-drop : (d m : ℕ) (xs : List A) → get_elem? (drop d xs) m ≡ get_elem? xs (d + m)
  get_elem?-drop zero m xs = ap (get_elem? xs) (omega arith)
  get_elem?-drop (suc d) m [] = refl
  get_elem?-drop (suc d) m (x ∷ xs) =
      get_elem?-drop d m xs ∙ ap (get_elem? (x ∷ xs)) {x = suc (d + m)} (omega arith)

  take_nil : (n : ℕ) → take {A = A} n [] ≡ []
  take_nil zero = refl
  take_nil (suc n) = refl

  drop_nil : (n : ℕ) → drop {A = A} n [] ≡ []
  drop_nil zero = refl
  drop_nil (suc n) = refl

  pub take-add : (a b : ℕ) (xs : List A) → take (a + b) xs ≡ take a xs ++ take b (drop a xs)
  take-add zero b xs = ap (λ n. take n xs) (omega arith)
  take-add (suc a) b [] = take_nil (suc a + b) ∙ sym (take_nil b)
  take-add (suc a) b (x ∷ xs) =
      ap (λ n. take n (x ∷ xs)) {y = suc (a + b)} (omega arith) ∙ ap (◌∷◌ x) (take-add a b xs)

  pub drop-drop : (a b : ℕ) (xs : List A) → drop b (drop a xs) ≡ drop (a + b) xs
  drop-drop zero b xs = ap (λ n. drop n xs) (omega arith)
  drop-drop (suc a) b [] = drop_nil b ∙ sym (drop_nil (suc a + b))
  drop-drop (suc a) b (x ∷ xs) =
      drop-drop a b xs ∙ ap (λ n. drop n (x ∷ xs)) {x = suc (a + b)} (omega arith)

  pub take-suc :
      (m : ℕ) (xs : List A) (z : A)
      → get_elem? xs m ≡ some z
      → take (suc m) xs ≡ take m xs ++ z ∷ []
  take-suc m [] z h = absurd (ground (arith, h))
  take-suc zero (x ∷ xs) z h = ground (arith, h)
  take-suc (suc m) (x ∷ xs) z h = ap (◌∷◌ x) (take-suc m xs z h)

  pub split_at :
      (m : ℕ) (xs : List A) (z : A)
      → get_elem? xs m ≡ some z
      → xs ≡ take m xs ++ z ∷ drop (suc m) xs
  split_at m [] z h = absurd (ground (arith, h))
  split_at zero (x ∷ xs) z h = ground (arith, h)
  split_at (suc m) (x ∷ xs) z h = ap (◌∷◌ x) (split_at m xs z h)

  pub take-take : (a b : ℕ) (xs : List A) → a ≤ b → take a (take b xs) ≡ take a xs
  take-take zero b xs h = refl
  take-take (suc a) zero xs h = absurd (omega arith)
  take-take (suc a) (suc b) [] h = refl
  take-take (suc a) (suc b) (x ∷ xs) h = ap (◌∷◌ x) (take-take a b xs (omega arith))

  pub get_elem?-take :
      (n : ℕ) (xs : List A) (i : ℕ) → i < n → get_elem? (take n xs) i ≡ get_elem? xs i
  get_elem?-take zero xs i lt = absurd (omega arith)
  get_elem?-take (suc n) [] i lt = refl
  get_elem?-take (suc n) (x ∷ xs) zero lt = refl
  get_elem?-take (suc n) (x ∷ xs) (suc i) lt = get_elem?-take n xs i (omega arith)

  pub drop-take : (a b : ℕ) (xs : List A) → drop a (take b xs) ≡ take (b - a) (drop a xs)
  drop-take zero b xs = ap (λ n. take n xs) (omega arith)
  drop-take (suc a) zero xs = ap (λ n. take n (drop (suc a) xs)) {x = 0} (omega arith)
  drop-take (suc a) (suc b) [] = sym (take_nil (suc b - suc a))
  drop-take (suc a) (suc b) (x ∷ xs) = drop-take a b xs ∙ ap (λ n. take n (drop a xs)) (omega arith)

  pub take-append : (xs ys : List A) → take (length xs) (xs ++ ys) ≡ xs
  take-append [] ys = refl
  take-append (x ∷ xs) ys = ap (◌∷◌ x) (take-append xs ys)

  pub All-take {κ} : (P : A → Type κ) (m : ℕ) (xs : List A) → All P xs → All P (take m xs)
  All-take P zero xs h = tt
  All-take P (suc m) [] h = tt
  All-take P (suc m) (x ∷ xs) h = (h.0, All-take P m xs h.1)

  pub All-append {κ} : (P : A → Type κ) (xs ys : List A) → All P xs → All P ys → All P (xs ++ ys)
  All-append P [] ys h k = k
  All-append P (x ∷ xs) ys h k = (h.0, All-append P xs ys h.1 k)

  pub drop_behind : (xs : List A) (y : A) (ys : List A) → drop (suc (length xs)) (xs ++ y ∷ ys) ≡ ys
  drop_behind [] y ys = refl
  drop_behind (x ∷ xs) y ys = drop_behind xs y ys

  pub get_elem?-append :
      (xs : List A) (y : A) (ys : List A) → get_elem? (xs ++ y ∷ ys) (length xs) ≡ some y
  get_elem?-append [] y ys = refl
  get_elem?-append (x ∷ xs) y ys = get_elem?-append xs y ys

  pub All-drop {κ} : (P : A → Type κ) (m : ℕ) (xs : List A) → All P xs → All P (drop m xs)
  All-drop P zero xs h = h
  All-drop P (suc m) [] h = tt
  All-drop P (suc m) (x ∷ xs) h = All-drop P m xs h.1

  pub All-get_elem? {κ} :
      (P : A → Type κ) (xs : List A) (i : ℕ) (x : A) → All P xs → get_elem? xs i ≡ some x → P x
  All-get_elem? P [] i x h e = absurd (ground (arith, e))
  All-get_elem? P (y ∷ xs) zero x h e = let same : y ≡ x = ground (arith, e) in rw (← same) h.0
  All-get_elem? P (y ∷ xs) (suc i) x h e = All-get_elem? P xs i x h.1 e
