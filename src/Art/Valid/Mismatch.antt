-- ===== src/Art/Valid/Mismatch.antt =====
-- src/storage/art.cpp: `prefixMismatch` where the whole prefix is in the array.
use babydb_private.Prelude.{
  ℕ, zero, suc, ◌≤◌, ◌<◌, ◌≡◌, refl, false, ltb, some, List, [], ◌∷◌, length, take, drop, get_elem?,
  nat_eq, nat_eq_iff, if_false, arith, Bool-cases, ◌⊎◌, inl, inr,
}
use babydb_private.Outcome.{Outcome, ok}
use babydb_private.Art.{Header, Body}
use babydb_private.Art.Search.{max_prefix_length, mismatch_within, prefix_mismatch}
use babydb_private.Art.Nodes.Insert.{IsShort}

-- The first place where a key leaves a prefix.
pub record Mismatch (key prefix : List ℕ) (result : Outcome ℕ) : Type 0 where
  pub pos : ℕ
  pub old_byte : ℕ
  pub new_byte : ℕ
  pub run : result ≡ ok pos
  pub at_old : get_elem? prefix pos ≡ some old_byte
  pub at_new : get_elem? key pos ≡ some new_byte
  pub differ : nat_eq old_byte new_byte ≡ false
  pub agreed : take pos key ≡ take pos prefix
  pub within : pos < length prefix

pub mismatch :
    (n : ℕ) (key prefix : List ℕ)
    → length prefix ≡ n
    → n ≤ length key
    → ((mismatch_within n key prefix ≡ ok n) × (take n key ≡ prefix))
      ⊎ Mismatch key prefix (mismatch_within n key prefix)
unfolding mismatch_within
mismatch zero key [] l h = inl (refl, refl)
mismatch zero key (p ∷ prefix) l h = absurd (omega (arith, l))
mismatch (suc n) [] prefix l h = absurd (omega (arith, h))
mismatch (suc n) (k ∷ key) [] l h = absurd (omega (arith, l))
mismatch (suc n) (k ∷ key) (p ∷ prefix) l h = elim (Bool-cases (nat_eq k p)) [
  | inl e ↦
      let same : k ≡ p = (nat_eq_iff k p).0 e in
      elim (mismatch n key prefix (omega (arith, l)) (omega (arith, h))) [
        | inl (run, whole) ↦ inl (rw (e, run) refl, rw (same, whole) refl)
        | inr m ↦ inr record {
          pos = suc m.pos;
          old_byte = m.old_byte;
          new_byte = m.new_byte;
          run = rw (e, m.run) refl;
          at_old = m.at_old;
          at_new = m.at_new;
          differ = m.differ;
          agreed = rw (same, m.agreed) refl;
          within = omega (arith, m.within);
        }
      ]
  | inr e ↦ inr record {
    pos = 0;
    old_byte = p;
    new_byte = k;
    run = rw e refl;
    at_old = refl;
    at_new = refl;
    differ = ground (arith, e);
    agreed = refl;
    within = omega arith;
  }
]

pub prefix_mismatch-mismatch_within :
    (fuel : ℕ) (h : Header) (b : Body) (key : List ℕ) (depth : ℕ)
    → IsShort h
    → prefix_mismatch fuel h b key depth ≡ mismatch_within h.prefix_length (drop depth key) h.prefix
unfolding prefix_mismatch
prefix_mismatch-mismatch_within fuel h b key depth short =
    let fits : ltb max_prefix_length h.prefix_length ≡ false = ground (arith, short.1) in
    if_false _ _ _ fits
