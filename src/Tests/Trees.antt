-- ===== src/Tests/Trees.antt =====
-- Insertion into the radix tree on concrete keys.
use babydb_private.Prelude.{ℕ, get_elem?, some, subst, sym, arith, ◌≡◌, refl, [], ◌∷◌, false}
use babydb_private.Outcome.{ok}
use babydb_private.Art.{Header, TreePointer, null, leaf, node, Body, node4, no_entry, entry}
use babydb_private.Art.Key.{load_key}
use babydb_private.Art.Arrays.{is_empty, count}
use babydb_private.Art.Search.{lookup, find_child}
use babydb_private.Art.Insert.{insert_body}
use babydb_private.Art.Erase.{erase}
use babydb_private.Art.Destroy.{destroy}
use babydb_private.Art.Destroy.Whole.{destroy_lem, nodes}
use babydb_private.Art.Valid.{extend}
use babydb_private.Art.Valid.Erase.{Erased, IsSteady}
use babydb_private.Art.Valid.Erase.Whole.{erase-Erased}
use babydb_private.Art.Nodes.{IsBody}
use babydb_private.Art.Nodes.Insert.{Adds, insert_body-Adds}
use babydb_private.Art.Valid.Index.{
  Answers, lookup-Answers, IsRoot, Holds, Takes, Reached, created, accepted, insert_entry-Takes,
  Reached-Holds,
}
use babydb_private.Art.Tree.{insert_entry, destroy_tree}

-- The keys 5 and 261 share six bytes.
abbrev two_keys : TreePointer
two_keys =
    node (record { prefix_length = 6; prefix = 0 ∷ 0 ∷ 0 ∷ 0 ∷ 0 ∷ 0 ∷ [] })
      (node4 (entry 0 (leaf 5) (entry 1 (leaf 261) no_entry)))

first_call : insert_entry null 5 9 ≡ ok (leaf 5)
unfolding insert_entry
first_call = refl

second_call : insert_entry (leaf 5) 261 9 ≡ ok two_keys
unfolding insert_entry
second_call = refl

two-Reached : Reached (261 ∷ 5 ∷ []) two_keys
two-Reached =
    accepted 261 9 (accepted 5 9 created (omega arith) first_call) (omega arith) second_call

Reached-Holds_example : IsRoot two_keys × Holds two_keys (261 ∷ 5 ∷ [])
Reached-Holds_example = Reached-Holds (261 ∷ 5 ∷ []) two_keys two-Reached

insert_entry-Takes_example : Takes (261 ∷ 5 ∷ []) two_keys 70000 1
insert_entry-Takes_example =
    insert_entry-Takes (261 ∷ 5 ∷ []) two_keys 70000 1 Reached-Holds_example.0
      Reached-Holds_example.1 (omega arith)

lookup-Answers_example : Answers (lookup 9 false two_keys (load_key 5) 0) 5
lookup-Answers_example =
    lookup-Answers 8 9 [] two_keys 5 Reached-Holds_example.0 (omega arith) (omega arith) refl

abbrev four_children : Body
four_children =
    node4 (entry 1 (leaf 1) (entry 2 (leaf 2) (entry 3 (leaf 3) (entry 200 (leaf 200) no_entry))))

abbrev above_them : Header
above_them = record { prefix_length = 1; prefix = 7 ∷ [] }

four_children-IsBody : IsBody four_children
unfolding is_empty count
four_children-IsBody = ground arith

no_ninth : find_child four_children 9 ≡ ok null
unfolding find_child
no_ninth = refl

-- The node grows to a `Node16`.
insert_body-Adds_example :
    Adds above_them
      (find_child four_children)
      9
      (leaf 9)
      (insert_body above_them four_children 9 (leaf 9))
insert_body-Adds_example =
    insert_body-Adds above_them (refl, omega arith) 9 (omega arith) (leaf 9)
      (unfold is_empty in refl) four_children four_children-IsBody no_ninth

-- 5 leaves 261 alone below its node.
one_key : erase 9 two_keys (load_key 5) 0 ≡ ok (leaf 261)
unfolding erase load_key
one_key = refl

only_leaf :
    (z : ℕ) (c : TreePointer)
    → get_elem? (load_key 5) 6 ≡ some z
    → find_child (node4 (entry 0 (leaf 5) (entry 1 (leaf 261) no_entry))) z ≡ ok c
    → IsSteady 7 (extend [] (0 ∷ 0 ∷ 0 ∷ 0 ∷ 0 ∷ 0 ∷ []) z) c 5
unfolding load_key find_child
only_leaf z c at found =
    let here : 0 ≡ z = ground (arith, at) in
    let first : ok (leaf 5) ≡ ok c =
      subst (λ w. find_child (node4 (entry 0 (leaf 5) (entry 1 (leaf 261) no_entry))) w ≡ ok c)
        (sym here) found in
    let same : leaf 5 ≡ c = ground (arith, first) in
    subst (λ d. IsSteady 7 (extend [] (0 ∷ 0 ∷ 0 ∷ 0 ∷ 0 ∷ 0 ∷ []) z) d 5) same tt

two-IsSteady : IsSteady 8 [] two_keys 5
two-IsSteady = λ z at c found. (λ own. tt, only_leaf z c at found)

erase-Erased_example : Erased 8 [] two_keys 5 (erase 9 two_keys (load_key 5) 0)
erase-Erased_example =
    erase-Erased 8 9 [] two_keys 5 Reached-Holds_example.0 (omega arith) refl two-IsSteady
      (omega arith)

destroy_lem_example : destroy 9 two_keys ≡ ok (nodes 8 two_keys)
destroy_lem_example = destroy_lem 8 9 [] two_keys Reached-Holds_example.0 (omega arith)

one_node : destroy_tree two_keys ≡ ok 1
unfolding destroy_tree
one_node = refl
