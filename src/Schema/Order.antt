-- ===== src/Schema/Order.antt =====
-- src/include/common/typedefs.hpp: the order on column names that `std::sort` goes by.
use Prim.Native.Char.{code}
use Prim.Native.String.{[] as empty_text, ◌∷◌ as ◌⊲◌}
use text.Mathlib.TextEquality.{Char-path}
use babydb_private.Prelude.{
  String, ◌≡◌, refl, ap, ◌∙◌, Bool, true, false, ltb, nat_eq, if◌then◌else◌, arith,
}

-- `operator<=` on `std::string`.
unfoldable pub name_leb : String → String → Bool
name_leb empty_text t = true
name_leb (c ⊲ s) empty_text = false
name_leb (c ⊲ s) (d ⊲ t) =
    let rest = name_leb s t in
    if ltb (code c) (code d) then true else if nat_eq (code c) (code d) then rest else false

pub name_leb_total : (s t : String) → name_leb s t ≡ false → name_leb t s ≡ true
unfolding name_leb
name_leb_total empty_text t h = absurd (ground (arith, h))
name_leb_total (c ⊲ s) empty_text h = refl
name_leb_total (c ⊲ s) (d ⊲ t) h = ground (arith, h, name_leb_total s t)

pub name_leb_trans :
    (s t u : String) → name_leb s t ≡ true → name_leb t u ≡ true → name_leb s u ≡ true
unfolding name_leb
name_leb_trans empty_text t u h k = refl
name_leb_trans (c ⊲ s) empty_text u h k = absurd (ground (arith, h))
name_leb_trans (c ⊲ s) (d ⊲ t) empty_text h k = absurd (ground (arith, k))
name_leb_trans (c ⊲ s) (d ⊲ t) (e ⊲ u) h k = ground (arith, h, k, name_leb_trans s t u)

pub name_leb_antisym : (s t : String) → name_leb s t ≡ true → name_leb t s ≡ true → s ≡ t
unfolding name_leb
name_leb_antisym empty_text empty_text h k = refl
name_leb_antisym empty_text (d ⊲ t) h k = absurd (ground (arith, k))
name_leb_antisym (c ⊲ s) empty_text h k = absurd (ground (arith, h))
name_leb_antisym (c ⊲ s) (d ⊲ t) h k =
    let same : code c ≡ code d = ground (arith, h, k) in
    let first : c ≡ d = Char-path c d same in
    let rest : s ≡ t = name_leb_antisym s t (ground (arith, h, same)) (ground (arith, k, same)) in
    ap (λ e. e ⊲ s) first ∙ ap (λ r. d ⊲ r) rest
