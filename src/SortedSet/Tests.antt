-- ===== src/SortedSet/Tests.antt =====
-- The skip list and the sorted set on scores that are numbers.
use toll_mesh_store.Common.{
  ℕ, ◌≡◌, refl, ltb, some, [], ◌∷◌, arith, lookup, insert, str_ltb, Map, ◌⊎◌, false,
}
use toll_mesh_store.SortedSet.Nodes.{SkipList, new_skip_list}
use toll_mesh_store.SortedSet.Skip
use toll_mesh_store.SortedSet.{
  SortedSetMember, SortedSet, new_sorted_set, add, remove, merge, merge_snapshot, by_name,
}
use toll_mesh_store.SortedSet.Merging.{AtLeast, merge_lem}
use toll_mesh_store.SortedSet.Clock.{add-undone, remove-undone}
use toll_mesh_store.Sharding.Changes.{ltb-WeakOrder}

abbrev of_three : SkipList ℕ
of_three =
    Skip.insert ltb (Skip.insert ltb (Skip.insert ltb (new_skip_list 0) "cat" 5 1) "ant" 3 3) "bee"
      3 2

all_of_three : Skip.get_all ltb of_three ≡ "ant" ∷ "bee" ∷ "cat" ∷ []
unfolding Skip.get_all Skip.insert new_skip_list str_ltb
all_of_three = refl

rank_of_cat : Skip.rank ltb of_three "cat" 5 ≡ some 2
unfolding Skip.rank Skip.insert new_skip_list str_ltb
rank_of_cat = refl

rank_of_bee : Skip.rank ltb of_three "bee" 3 ≡ some 1
unfolding Skip.rank Skip.insert new_skip_list str_ltb
rank_of_bee = refl

-- From the tail, and without the first one.
back_from_cat : Skip.range_desc ltb (Skip.delete ltb of_three "ant" 3) 0 9 5 ≡ "cat" ∷ "bee" ∷ []
unfolding Skip.range_desc Skip.delete Skip.insert new_skip_list str_ltb
back_from_cat = refl

rank_after_delete : Skip.rank ltb (Skip.delete ltb of_three "ant" 3) "cat" 5 ≡ some 1
unfolding Skip.rank Skip.delete Skip.insert new_skip_list str_ltb
rank_after_delete = refl

level_after_delete : (Skip.delete ltb of_three "ant" 3).level ≡ 2
unfolding Skip.delete Skip.insert new_skip_list str_ltb
level_after_delete = refl

three_to_four : Skip.range ltb of_three 3 4 9 ≡ "ant" ∷ "bee" ∷ []
unfolding Skip.range Skip.insert new_skip_list str_ltb
three_to_four = refl

-- A member with the score 5, at the clock 7 of the node "a".
abbrev five : SortedSetMember ℕ
five = record { member = "m"; score = 5; timestamp = 7; node = "a"; tombstone = false; tomb_at = 0 }

-- A node "b" that has the same score for it, written at 1.
abbrev local : SortedSet ℕ
local = add ltb (new_sorted_set 0 "z" "b") "m" 5 1

abbrev sent : Map (SortedSetMember ℕ)
sent = ("m", five) ∷ []

merge_lem_example :
    ((v : SortedSetMember ℕ)
      → (lookup "m" local.member_map ≡ some v) ⊎ (lookup "m" sent ≡ some v)
      → AtLeast ltb ltb-WeakOrder v (lookup "m" (merge ltb local sent 7 (λ n. 2)).member_map))
    × ((lookup "m" (merge ltb local sent 7 (λ n. 2)).member_map ≡ lookup "m" local.member_map)
        ⊎ (lookup "m" (merge ltb local sent 7 (λ n. 2)).member_map ≡ lookup "m" sent))
unfolding lookup
merge_lem_example = merge_lem ltb ltb-WeakOrder local sent 7 (λ n. 2) "m" (refl, tt)

add-undone_example :
    lookup "m" (merge ltb (add ltb local "m" 3 1) sent 7 (λ n. 2)).member_map ≡ some five
unfolding lookup
add-undone_example =
    add-undone ltb ltb-WeakOrder local "m" 3 1 five sent 7 (λ n. 2) (refl, tt) refl refl

remove-undone_example :
    (zs : SortedSet ℕ) × (remove ltb (merge_snapshot ltb local (five ∷ []) (λ n. 2)) "m" 0
      ≡ some zs)
    × (lookup "m" (merge_snapshot ltb zs (five ∷ []) (λ n. 3)).member_map ≡ some five)
unfolding by_name merge_snapshot add lookup insert new_sorted_set
remove-undone_example =
    remove-undone ltb ltb-WeakOrder local (five ∷ []) (λ n. 2) (λ n. 3) "m" five 0 refl refl
      (omega arith)
