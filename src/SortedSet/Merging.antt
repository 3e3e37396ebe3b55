-- ===== src/SortedSet/Merging.antt =====
-- The merge of members (Merge and MergeSnapshot of sortedset/sorted_set.go).
use toll_mesh_store.Common.{
  ℕ, ◌≡◌, ◌⊎◌, refl, sym, ap, ◌∙◌, inl, inr, Bool, true, false, if◌then◌else◌, String, str_eq,
  eq_iff, str_ltb_irrefl, str_ltb_asym, Map, Unique, lookup, insert, lookup-insert, Option, none,
  some, [], ◌∷◌, WeakOrder, arith, subst, Version, version_ltb, version_ltb-false_trans, Bool-cases,
  Option-cases,
}
use toll_mesh_store.SortedSet.{
  SortedSetMember, SortedSet, compare_members, wins, adopt, merge_member, merge_members, merge,
}

some_inj : {A : Type 0} (a b : A) → some a ≡ some b → a ≡ b
some_inj a b h = cc

module _ {S : Type 0} (less : S → S → Bool) (W : WeakOrder less) where
  -- The member that stays under a name where another set has one.
  unfoldable pub winner : Option (SortedSetMember S) → SortedSetMember S → SortedSetMember S
  winner none other = other
  winner (some old) other = if wins (compare_members less other old) then other else old

  -- Whether a version of a member comes after another.
  abbrev pub later : SortedSetMember S → SortedSetMember S → Bool
  later a b = wins (compare_members less a b)

  adopt_map :
      (zs : SortedSet S) (member : String) (other : SortedSetMember S) (height : ℕ)
      → (adopt less zs member other height).member_map ≡ insert member other zs.member_map
  unfolding adopt
  adopt_map zs member other height = refl

  -- What a merge of one member leaves under a name.
  merge_member_lem :
      (zs : SortedSet S) (member : String) (other : SortedSetMember S) (height : ℕ) (name : String)
      → lookup name (merge_member less zs member other height).member_map ≡ (
          if str_eq member name
          then some (winner (lookup name zs.member_map) other)
          else lookup name zs.member_map)
  unfolding merge_member adopt winner
  merge_member_lem zs member other height name = elim (Option-cases (lookup member zs.member_map)) [
    | inl e ↦ ground (arith, e, lookup-insert member name other zs.member_map, eq_iff member name)
    | inr (old, e) ↦ elim (Bool-cases (wins (compare_members less other old))) [
      | inl w ↦
          ground (arith, e, w, lookup-insert member name other zs.member_map, eq_iff member name)
      | inr n ↦ ground (arith, e, n, eq_iff member name)
    ]
  ]

  -- A version is no earlier than another.
  abbrev pub AtLeast : SortedSetMember S → Option (SortedSetMember S) → Type 0
  AtLeast v none = ⊥
  AtLeast v (some m) = later v m ≡ false

  later_irrefl : (a : SortedSetMember S) → later a a ≡ false
  unfolding compare_members
  later_irrefl a = ground (arith, W.irrefl a.score, str_ltb_irrefl a.node)

  later_asym : (a b : SortedSetMember S) → later a b ≡ true → later b a ≡ false
  unfolding compare_members
  later_asym a b h =
      ground (arith, W.asym a.score b.score, W.asym b.score a.score, str_ltb_asym b.node a.node, h)

  abbrev version_of : SortedSetMember S → Version
  version_of m = (m.timestamp, m.node)

  later-version :
      (a b : SortedSetMember S)
      → later a b ≡ (
          if less a.score b.score
          then false
          else if less b.score a.score
          then true
          else version_ltb (version_of b) (version_of a))
  unfolding compare_members version_ltb
  later-version a b = ground (arith, str_ltb_asym a.node b.node)

  later-false_trans :
      (a b c : SortedSetMember S) → later a b ≡ false → later b c ≡ false → later a c ≡ false
  later-false_trans a b c p q = ground (
    arith,
    later-version a b,
    later-version b c,
    later-version a c,
    W.false_trans c.score b.score a.score,
    W.false_trans a.score c.score b.score,
    W.false_trans b.score a.score c.score,
    W.asym a.score b.score,
    W.asym b.score c.score,
    W.asym c.score a.score,
    version_ltb-false_trans (version_of c) (version_of b) (version_of a),
  )

  winner-other :
      (o : Option (SortedSetMember S)) (other : SortedSetMember S)
      → AtLeast other (some (winner o other))
  unfolding winner
  winner-other none other = later_irrefl other
  winner-other (some old) other = ground (arith, later_irrefl other)

  winner-old :
      (o : Option (SortedSetMember S)) (other v : SortedSetMember S)
      → AtLeast v o
      → AtLeast v (some (winner o other))
  unfolding winner
  winner-old none other v h = absurd h
  winner-old (some old) other v h =
      ground (arith, later-false_trans v old other, later_asym other old, h)

  merge_members-old :
      (zs : SortedSet S) (others : Map (SortedSetMember S)) (heights : String → ℕ) (name : String)
      (v : SortedSetMember S)
      → AtLeast v (lookup name zs.member_map)
      → AtLeast v (lookup name (merge_members less zs others heights).member_map)
  unfolding merge_members
  merge_members-old zs [] heights name v h = h
  merge_members-old zs ((member, other) ∷ rest) heights name v h =
      merge_members-old (merge_member less zs member other (heights member)) rest heights name v (
        rw (merge_member_lem zs member other (heights member) name)
          (elim (Bool-cases (str_eq member name)) [
            | inl hit ↦ rw hit (winner-old (lookup name zs.member_map) other v h)
            | inr miss ↦ rw miss h
          ]))

  merge_members-other :
      (zs : SortedSet S) (others : Map (SortedSetMember S)) (heights : String → ℕ) (name : String)
      (other : SortedSetMember S)
      → lookup name others ≡ some other
      → AtLeast other (lookup name (merge_members less zs others heights).member_map)
  unfolding merge_members lookup
  merge_members-other zs [] heights name other h = absurd (cc)
  merge_members-other zs ((member, m) ∷ rest) heights name other h =
      elim (Bool-cases (str_eq member name)) [
        | inl hit ↦
            let same : m ≡ other = some_inj m other (sym (rw hit refl) ∙ h) in
            merge_members-old (merge_member less zs member m (heights member)) rest heights name
              other
              (rw (merge_member_lem zs member m (heights member) name, hit)
                (subst (λ o. AtLeast o (some (winner (lookup name zs.member_map) m))) same
                  (winner-other (lookup name zs.member_map) m)))
        | inr miss ↦
            merge_members-other (merge_member less zs member m (heights member)) rest heights name
              other (ground (arith, h, miss))
      ]

  winner-cases :
      (o : Option (SortedSetMember S)) (other : SortedSetMember S)
      → (some (winner o other) ≡ o) ⊎ (winner o other ≡ other)
  unfolding winner
  winner-cases none other = inr refl
  winner-cases (some old) other = elim (Bool-cases (wins (compare_members less other old))) [
    | inl w ↦ inr (rw w refl)
    | inr n ↦ inl (rw n refl)
  ]

  merge_members-absent :
      (zs : SortedSet S) (others : Map (SortedSetMember S)) (heights : String → ℕ) (name : String)
      → lookup name others ≡ none
      → lookup name (merge_members less zs others heights).member_map ≡ lookup name zs.member_map
  unfolding merge_members lookup
  merge_members-absent zs [] heights name h = refl
  merge_members-absent zs ((member, m) ∷ rest) heights name h =
      let miss : str_eq member name ≡ false = ground (arith, h) in
      merge_members-absent (merge_member less zs member m (heights member)) rest heights name
        (ground (arith, h))
      ∙ merge_member_lem zs member m (heights member) name
      ∙ rw miss refl

  merge_members-origin :
      (zs : SortedSet S) (others : Map (SortedSetMember S)) (heights : String → ℕ) (name : String)
      → Unique others
      → (lookup name (merge_members less zs others heights).member_map ≡ lookup name zs.member_map)
        ⊎ (lookup name (merge_members less zs others heights).member_map ≡ lookup name others)
  unfolding merge_members lookup
  merge_members-origin zs [] heights name u = inl refl
  merge_members-origin zs ((member, m) ∷ rest) heights name u =
      let next = merge_member less zs member m (heights member) in
      let one = merge_member_lem zs member m (heights member) name in
      elim (Bool-cases (str_eq member name)) [
        | inl hit ↦
            let gone : lookup name rest ≡ none =
              ap (λ n. lookup n rest) (sym ((eq_iff member name).0 hit)) ∙ u.0 in
            let now : lookup name (merge_members less next rest heights).member_map
                ≡ some (winner (lookup name zs.member_map) m) =
              merge_members-absent next rest heights name gone ∙ one ∙ rw hit refl in
            elim (winner-cases (lookup name zs.member_map) m) [
              | inl kept ↦ inl (now ∙ kept)
              | inr new ↦ inr (now ∙ rw hit (ap some new))
            ]
        | inr miss ↦
            let was : lookup name next.member_map ≡ lookup name zs.member_map =
              one ∙ rw miss refl in
            elim (merge_members-origin next rest heights name u.1) [
              | inl kept ↦ inl (kept ∙ was)
              | inr sent ↦ inr (rw miss sent)
            ]
      ]

  -- A merge never takes a member back to an earlier version: what it leaves under a name is what the
  -- set or the other set had there, and no earlier than either, in the order of scores, then
  -- timestamps, then nodes.
  pub merge_lem :
      (zs : SortedSet S) (others : Map (SortedSetMember S)) (clock : ℕ) (heights : String → ℕ)
      (name : String)
      → Unique others
      → ((v : SortedSetMember S)
          → (lookup name zs.member_map ≡ some v) ⊎ (lookup name others ≡ some v)
          → AtLeast v (lookup name (merge less zs others clock heights).member_map))
        × ((lookup name (merge less zs others clock heights).member_map ≡ lookup name zs.member_map)
            ⊎ (lookup name (merge less zs others clock heights).member_map ≡ lookup name others))
  unfolding merge
  merge_lem zs others clock heights name u = (
    λ v from. elim from [
      | inl mine ↦ merge_members-old zs others heights name v (rw mine (later_irrefl v))
      | inr sent ↦ merge_members-other zs others heights name v sent
    ],
    merge_members-origin zs others heights name u,
  )
