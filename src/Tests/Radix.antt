-- ===== src/Tests/Radix.antt =====
-- The radix tree on concrete keys.
use babydb_private.Prelude.{ℕ, ◌≡◌, ◌+◌, refl, [], ◌∷◌, zero, suc}
use babydb_private.Outcome.{Outcome, ok, throws, duplicated_key, ◌>>=◌}
use babydb_private.Schema.{invalid_id}
use babydb_private.Art.{TreePointer, null}
use babydb_private.Art.Key.{load_key}
use babydb_private.Art.Erase.{erase}
use babydb_private.Art.Destroy.{destroy}
use babydb_private.Art.Tree.{insert_entry, lookup_key}

fill : ℕ → TreePointer → Outcome TreePointer
unfolding insert_entry
fill zero t = ok t
fill (suc n) t = fill n t >>= λ t'. insert_entry t' (n + 1) 0

key_bytes : load_key 0x0102_0304_0506_0708 ≡ 1 ∷ 2 ∷ 3 ∷ 4 ∷ 5 ∷ 6 ∷ 7 ∷ 8 ∷ []
unfolding load_key
key_bytes = refl

-- The root grows to a `Node48` and every key is found.
filled : (fill 20 null >>= λ t. lookup_key t 7) ≡ ok 7
unfolding fill lookup_key
filled = refl

absent : (fill 20 null >>= λ t. lookup_key t 0x10_0000) ≡ ok invalid_id
unfolding fill lookup_key
absent = refl

again : (fill 3 null >>= λ t. insert_entry t 2 0) ≡ throws duplicated_key
unfolding fill insert_entry
again = refl

big : (fill 60 null >>= λ t. lookup_key t 60) ≡ ok 60
unfolding fill lookup_key
big = refl

erased : (fill 3 null >>= λ t. erase 10 t (load_key 2) 0 >>= λ t'. lookup_key t' 2) ≡ ok invalid_id
unfolding fill lookup_key erase load_key
erased = refl

-- Five keys, two removed: the node shrinks from 16 to 4 and forgets how long its prefix was.
shrunk :
    (fill 5 null >>= λ t.
    erase 10 t (load_key 2) 0 >>= λ t'. erase 10 t' (load_key 3) 0 >>= λ t''. lookup_key t'' 1)
    ≡ ok invalid_id
unfolding fill lookup_key erase load_key
shrunk = refl

-- One node for each byte at which two of the keys part.
destroyed :
    (insert_entry null 0x1_0101 0 >>= λ a. insert_entry a 0x1_0102 0 >>= λ b.
    insert_entry b 0x1_0201 0 >>= λ c. insert_entry c 0x2_0101 0 >>= λ t. destroy 10 t)
    ≡ ok 3
unfolding insert_entry destroy
destroyed = refl
