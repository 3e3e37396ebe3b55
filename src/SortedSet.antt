-- ===== src/SortedSet.antt =====
-- A sorted set of members with scores, which gossip merges (sortedset/sorted_set.go).
--
-- Scores are floats in the code, which only compares them: they are any type with a comparison, and
-- the theorems take it to be a strict weak order, as it is on the floats without NaN. The members of
-- another set are taken by value, as MergeSnapshot makes them. Replicas, which the code keeps for
-- tests, are not modelled.
pub mod Nodes
pub mod Skip
pub mod Merging
pub mod Clock
pub mod Tests
use toll_mesh_store.Common.{
  ℕ, ◌+◌, ◌-◌, Bool, true, false, ltb, not, if◌then◌else◌, String, str_ltb, Map, lookup, insert,
  Option, none, some, List, [], ◌∷◌, milli, ◌&&◌,
}
use toll_mesh_store.SortedSet.Nodes.{SkipList, new_skip_list}
use toll_mesh_store.SortedSet.Skip
use toll_mesh_store.SortedSet.Skip.{equal_to}

pub record SortedSetMember (S : Type 0) : Type 0 where
  pub member : String
  pub score : S
  pub timestamp : ℕ
  pub node : String
  pub tombstone : Bool
  pub tomb_at : ℕ

pub record SortedSet (S : Type 0) : Type 0 where
  pub name : String
  pub members : SkipList S
  pub member_map : Map (SortedSetMember S)
  pub timestamp : ℕ
  pub node_id : String

abbrev pub live : {S : Type 0} → Option (SortedSetMember S) → Option (SortedSetMember S)
live none = none
live (some m) = if m.tombstone then none else some m

-- The results of a range that are in the map and not removed.
unfoldable pub found :
    {S : Type 0} → Map (SortedSetMember S) → List String → List (SortedSetMember S)
found members [] = []
found members (name ∷ rest) = elim (live (lookup name members)) [
  | none ↦ found members rest
  | some m ↦ m ∷ found members rest
]

unfoldable pub count_live : {S : Type 0} → Map (SortedSetMember S) → ℕ
count_live [] = 0
count_live ((name, m) ∷ rest) = (if m.tombstone then 0 else 1) + count_live rest

unfoldable pub values : {V : Type 0} → Map V → List V
values [] = []
values ((key, v) ∷ rest) = v ∷ values rest

-- Score first, then timestamp, then node.
pub data Comparison : Type 0 where
  below same above : Comparison

unfoldable pub new_sorted_set : {S : Type 0} → S → String → String → SortedSet S
unfolding new_skip_list
new_sorted_set lowest name node_id = record {
  name = name;
  members = new_skip_list lowest;
  member_map = [];
  timestamp = 0;
  node_id = node_id;
}

-- The members by name; of two under one name the later stays.
unfoldable pub by_name :
    {S : Type 0} → Map (SortedSetMember S) → List (SortedSetMember S) → Map (SortedSetMember S)
by_name m [] = m
by_name m (x ∷ rest) = by_name (insert x.member x m) rest

unfoldable pub card : {S : Type 0} → SortedSet S → ℕ
unfolding count_live
card zs = count_live zs.member_map

unfoldable pub snapshot : {S : Type 0} → SortedSet S → List (SortedSetMember S)
unfolding values
snapshot zs = values zs.member_map

unfoldable pub get : {S : Type 0} → SortedSet S → String → Option S
get zs member = elim (live (lookup member zs.member_map)) [ none ↦ none | some m ↦ some m.score ]

abbrev pub wins : Comparison → Bool
wins below = false
wins same = false
wins above = true

module _ {S : Type 0} (less : S → S → Bool) where
  -- The skip list without the member where its score changes.
  unfoldable pub moved : SkipList S → Option (SortedSetMember S) → String → S → SkipList S
  unfolding Skip.delete
  moved sl none member score = sl
  moved sl (some old) member score =
      if equal_to less old.score score then sl else Skip.delete less sl member old.score

  -- `height` is the level that the skip list draws for a new node.
  unfoldable pub add : SortedSet S → String → S → ℕ → SortedSet S
  unfolding moved Skip.insert
  add zs member score height =
      let ts = zs.timestamp + 1 in
      record zs {
        timestamp = ts;
        members =
            Skip.insert less (moved zs.members (lookup member zs.member_map) member score) member
              score height;
        member_map =
            insert member
              (record {
                member = member;
                score = score;
                timestamp = ts;
                node = zs.node_id;
                tombstone = false;
                tomb_at = 0;
              })
              zs.member_map;
      }

  -- `none` is the error that the member is not there. The score stays with the tombstone.
  unfoldable pub remove : SortedSet S → String → ℕ → Option (SortedSet S)
  unfolding Skip.delete
  remove zs member now = elim (lookup member zs.member_map) [
    | none ↦ none
    | some old ↦ some (record zs {
      timestamp = zs.timestamp + 1;
      members = Skip.delete less zs.members member old.score;
      member_map =
          insert member
            (record old {
              tombstone = true;
              tomb_at = milli now;
              timestamp = zs.timestamp + 1;
              node = zs.node_id;
            })
            zs.member_map;
    })
  ]

  unfoldable pub rank : SortedSet S → String → Option ℕ
  unfolding Skip.rank
  rank zs member = elim (live (lookup member zs.member_map)) [
    | none ↦ none
    | some m ↦ Skip.rank less zs.members member m.score
  ]

  unfoldable pub rev_rank : SortedSet S → String → Option ℕ
  unfolding rank
  rev_rank zs member = elim (rank zs member) [
    | none ↦ none
    | some r ↦ some (zs.members.length - r - 1)
  ]

  unfoldable pub range : SortedSet S → S → S → ℕ → List (SortedSetMember S)
  unfolding found Skip.range
  range zs min max limit = found zs.member_map (Skip.range less zs.members min max limit)

  unfoldable pub range_by_rank : SortedSet S → ℕ → ℕ → List (SortedSetMember S)
  unfolding found Skip.range_by_rank
  range_by_rank zs start stop = found zs.member_map (Skip.range_by_rank less zs.members start stop)

  unfoldable pub rev_range : SortedSet S → S → S → ℕ → List (SortedSetMember S)
  unfolding found Skip.range_desc
  rev_range zs max min limit = found zs.member_map (Skip.range_desc less zs.members min max limit)

  unfoldable pub count : SortedSet S → S → S → ℕ
  unfolding Skip.count
  count zs min max = Skip.count less zs.members min max

  unfoldable pub compare_members : SortedSetMember S → SortedSetMember S → Comparison
  compare_members a b =
      if less a.score b.score
      then below
      else if less b.score a.score
      then above
      else if ltb a.timestamp b.timestamp
      then below
      else if ltb b.timestamp a.timestamp
      then above
      else if str_ltb a.node b.node
      then below
      else if str_ltb b.node a.node
      then above
      else same

  -- The skip list after another version of a member has won over `old`, or is new.
  unfoldable pub relisted :
      SkipList S → Option (SortedSetMember S) → String → SortedSetMember S → ℕ → SkipList S
  unfolding Skip.delete Skip.insert
  relisted sl none member other height =
      if other.tombstone then sl else Skip.insert less sl member other.score height
  relisted sl (some old) member other height =
      let freed = Skip.delete less sl member old.score in
      if other.tombstone then freed else Skip.insert less freed member other.score height

  unfoldable pub adopt : SortedSet S → String → SortedSetMember S → ℕ → SortedSet S
  unfolding relisted
  adopt zs member other height = record zs {
    member_map = insert member other zs.member_map;
    members = relisted zs.members (lookup member zs.member_map) member other height;
  }

  unfoldable pub merge_member : SortedSet S → String → SortedSetMember S → ℕ → SortedSet S
  unfolding adopt compare_members
  merge_member zs member other height = elim (lookup member zs.member_map) [
    | none ↦ adopt zs member other height
    | some old ↦ if wins (compare_members other old) then adopt zs member other height else zs
  ]

  -- `heights` gives the level that is drawn for each member.
  unfoldable pub merge_members : SortedSet S → Map (SortedSetMember S) → (String → ℕ) → SortedSet S
  unfolding merge_member
  merge_members zs [] heights = zs
  merge_members zs ((member, other) ∷ rest) heights =
      merge_members (merge_member zs member other (heights member)) rest heights

  -- The merge with the members and the clock of another set.
  unfoldable pub merge : SortedSet S → Map (SortedSetMember S) → ℕ → (String → ℕ) → SortedSet S
  unfolding merge_members
  merge zs members clock heights =
      let merged = merge_members zs members heights in
      record merged {
        timestamp = (if ltb merged.timestamp clock then clock else merged.timestamp) + 1;
      }

  -- The other set's clock does not travel: it is 0.
  unfoldable pub merge_snapshot :
      SortedSet S → List (SortedSetMember S) → (String → ℕ) → SortedSet S
  unfolding merge by_name
  merge_snapshot zs members heights = merge zs (by_name [] members) 0 heights
