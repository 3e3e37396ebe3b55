-- ===== src/SortedSet/Clock.antt =====
-- Writes that a merge takes back (Add, Remove and MergeSnapshot of sortedset/sorted_set.go).
use toll_mesh_store.Common.{
  ℕ, ◌+◌, ◌≡◌, ◌<◌, refl, ◌∙◌, inl, inr, Bool, true, false, ltb, String, milli, Map, Unique, lookup,
  insert, lookup-insert_self, insert-Unique, Option, some, List, [], ◌∷◌, WeakOrder, arith, subst,
}
use toll_mesh_store.SortedSet.Skip
use toll_mesh_store.SortedSet.{
  SortedSetMember, SortedSet, compare_members, add, remove, merge_member, adopt, merge_members,
  merge, by_name, merge_snapshot,
}
use toll_mesh_store.SortedSet.Merging.{AtLeast, later, merge_lem}

by_name-Unique :
    {S : Type 0} (m : Map (SortedSetMember S)) (members : List (SortedSetMember S))
    → Unique m
    → Unique (by_name m members)
unfolding by_name
by_name-Unique m [] u = u
by_name-Unique m (x ∷ rest) u =
    by_name-Unique (insert x.member x m) rest (insert-Unique x.member x m u)

module _ {S : Type 0} (less : S → S → Bool) (W : WeakOrder less) where
  -- A merge with a version that comes after the one that is there.
  taken_back :
      (zs : SortedSet S) (name : String) (new old : SortedSetMember S)
      (others : Map (SortedSetMember S)) (clock : ℕ) (heights : String → ℕ)
      → Unique others
      → lookup name zs.member_map ≡ some new
      → lookup name others ≡ some old
      → later less W old new ≡ true
      → lookup name (merge less zs others clock heights).member_map ≡ some old
  taken_back zs name new old others clock heights u here there wins_over =
      let (least, from) = merge_lem less W zs others clock heights name u in
      elim from [
        | inr sent ↦ sent ∙ there
        | inl kept ↦ absurd (let x = least old (inr there) in refuted _ (kept ∙ here) x)
      ]
    where
      refuted : (o : Option (SortedSetMember S)) → o ≡ some new → AtLeast less W old o → ⊥
      refuted o e x = let y = subst (AtLeast less W old) e x in cc

  lower-later :
      (old new : SortedSetMember S) → less new.score old.score ≡ true → later less W old new ≡ true
  unfolding compare_members
  lower-later old new h = ground (arith, h, W.asym new.score old.score)

  -- A node that lowers the score of a member, and then merges a peer that still has the higher one,
  -- has the higher one again: the merge compares scores before timestamps.
  pub add-undone :
      (zs : SortedSet S) (name : String) (score : S) (height : ℕ) (old : SortedSetMember S)
      (others : Map (SortedSetMember S)) (clock : ℕ) (heights : String → ℕ)
      → Unique others
      → lookup name others ≡ some old
      → less score old.score ≡ true
      → lookup name (merge less (add less zs name score height) others clock heights).member_map
        ≡ some old
  unfolding add
  add-undone zs name score height old others clock heights u there lower =
      let new : SortedSetMember S = record {
        member = name;
        score = score;
        timestamp = zs.timestamp + 1;
        node = zs.node_id;
        tombstone = false;
        tomb_at = 0;
      } in
      taken_back (add less zs name score height) name new old others clock heights u
        (lookup-insert_self name new zs.member_map) there (lower-later old new lower)

  merge_member-clock :
      (zs : SortedSet S) (name : String) (other : SortedSetMember S) (height : ℕ)
      → (merge_member less zs name other height).timestamp ≡ zs.timestamp
  unfolding merge_member adopt
  merge_member-clock zs name other height = ground arith

  merge_members-clock :
      (zs : SortedSet S) (others : Map (SortedSetMember S)) (heights : String → ℕ)
      → (merge_members less zs others heights).timestamp ≡ zs.timestamp
  unfolding merge_members
  merge_members-clock zs [] heights = refl
  merge_members-clock zs ((name, other) ∷ rest) heights =
      merge_members-clock (merge_member less zs name other (heights name)) rest heights
      ∙ merge_member-clock zs name other (heights name)

  merge_snapshot-clock :
      (zs : SortedSet S) (members : List (SortedSetMember S)) (heights : String → ℕ)
      → (merge_snapshot less zs members heights).timestamp ≡ zs.timestamp + 1
  unfolding merge_snapshot merge
  merge_snapshot-clock zs members heights =
      ground (arith, merge_members-clock zs (by_name [] members) heights)

  later-stale :
      (old new : SortedSetMember S)
      → new.score ≡ old.score
      → ltb new.timestamp old.timestamp ≡ true
      → later less W old new ≡ true
  unfolding compare_members
  later-stale old new e h = rw (e, W.irrefl old.score) (ground (arith, h))

  abbrev grave_of : SortedSet S → SortedSetMember S → ℕ → SortedSetMember S
  grave_of zs old now = record old {
    tombstone = true;
    tomb_at = milli now;
    timestamp = zs.timestamp + 1;
    node = zs.node_id;
  }

  -- The removal of a member that is there leaves its tombstone.
  removed :
      (zs : SortedSet S) (name : String) (old : SortedSetMember S) (now : ℕ)
      → lookup name zs.member_map ≡ some old
      → (zs' : SortedSet S) × (remove less zs name now ≡ some zs')
        × (lookup name zs'.member_map ≡ some (grave_of zs old now))
  unfolding remove
  removed zs name old now here = (
    record zs {
      timestamp = zs.timestamp + 1;
      members = Skip.delete less zs.members name old.score;
      member_map = insert name (grave_of zs old now) zs.member_map;
    },
    rw (remove, here) refl,
    lookup-insert_self name (grave_of zs old now) zs.member_map,
  )

  -- A node merges a peer's members, of which one has a timestamp well past the node's clock, and
  -- removes that member. The merge has not moved the clock past the member, so the tombstone has an
  -- earlier timestamp, and the next merge of the same members brings the member back.
  pub remove-undone :
      (zs : SortedSet S) (members : List (SortedSetMember S)) (heights heights' : String → ℕ)
      (name : String) (other : SortedSetMember S) (now : ℕ)
      → lookup name (by_name [] members) ≡ some other
      → lookup name (merge_snapshot less zs members heights).member_map ≡ some other
      → zs.timestamp + 2 < other.timestamp
      → (zs' : SortedSet S) × (remove less (merge_snapshot less zs members heights) name now
          ≡ some zs')
        × (lookup name (merge_snapshot less zs' members heights').member_map ≡ some other)
  unfolding merge_snapshot
  remove-undone zs members heights heights' name other now sent here ahead =
      let merged = merge_snapshot less zs members heights in
      let (zs', gone, there) = removed merged name other now here in
      let stale : later less W other (grave_of merged other now) ≡ true =
        later-stale other (grave_of merged other now) refl
          (ground (arith, merge_snapshot-clock zs members heights, ahead)) in
      (
        zs',
        gone,
        taken_back zs' name (grave_of merged other now) other (by_name [] members) 0 heights'
            (by_name-Unique [] members tt) there sent stale,
      )
