-- ===== src/Stream/Order.antt =====
-- The order of a stream's entries after a merge (MergeSnapshot of stream/entry.go).
use toll_mesh_store.Common.{
  ℕ, zero, suc, ◌≡◌, ◌⊎◌, Bool-cases, inl, inr, true, false, List, [], ◌∷◌, arith, str_ltb, String,
  sort, Sorted, Above, WeakOrder, sort-Sorted, drop, str_ltb_irrefl, str_ltb_asym, str_ltb_total,
  str_ltb_trans,
}
use toll_mesh_store.Stream.{StreamEntry, Stream, young, union, merge_snapshot, entry_less}
use toll_mesh_store.Stream.Retention.{cut, apply_retention-entries}

str_ltb-false_trans :
    (a b c : String) → str_ltb a b ≡ false → str_ltb b c ≡ false → str_ltb a c ≡ false
str_ltb-false_trans a b c h k = ground (
  arith,
  str_ltb_trans a c b,
  str_ltb_total a b,
  str_ltb_asym a c,
  str_ltb_total b c,
  str_ltb_trans b a c,
)

entry_less-WeakOrder : WeakOrder entry_less
unfolding entry_less
entry_less-WeakOrder = record {
  irrefl = λ a. ground (arith, str_ltb_irrefl a.node);
  asym = λ a b h. ground (arith, str_ltb_asym a.node b.node);
  false_trans = λ a b c h k. ground (arith, str_ltb-false_trans a.node b.node c.node);
}

module _ (now max_age : ℕ) where
  young-Above :
      (x : StreamEntry) (es : List StreamEntry)
      → Above entry_less x es
      → Above entry_less x (young now max_age es)
  unfolding young
  young-Above x [] a = tt
  young-Above x (e ∷ rest) a = ground (arith, young-Above x rest a.1)

  young-Sorted :
      (es : List StreamEntry) → Sorted entry_less es → Sorted entry_less (young now max_age es)
  unfolding young
  young-Sorted [] s = tt
  young-Sorted (e ∷ rest) s = ground (arith, young-Above e rest s.0, young-Sorted rest s.1)

drop-Sorted : (k : ℕ) (es : List StreamEntry) → Sorted entry_less es → Sorted entry_less (drop k es)
drop-Sorted zero es s = s
drop-Sorted (suc k) [] s = s
drop-Sorted (suc k) (e ∷ rest) s = drop-Sorted k rest s.1

-- A merge keeps a stream in the order of time, sequence and node, and a merge that adds entries
-- puts it in that order whatever order it was in.
pub merge_snapshot-Sorted :
    (s : Stream) (peers : List StreamEntry) (now : ℕ)
    → Sorted entry_less s.entries ⊎ ((union s.entries s.entry_index peers).2 ≡ true)
    → Sorted entry_less (merge_snapshot s peers now).entries
unfolding merge_snapshot
merge_snapshot-Sorted s peers now h =
    let u = union s.entries s.entry_index peers in
    let merged : Stream = record s { entries = sort entry_less u.0; entry_index = u.1 } in
    elim (Bool-cases u.2) [
      | inl changed ↦
          rw (changed, apply_retention-entries now merged)
            (drop-Sorted (cut now merged) (young now s.retention_policy.max_age merged.entries) (
              young-Sorted now s.retention_policy.max_age merged.entries
                (sort-Sorted entry_less entry_less-WeakOrder u.0)))
      | inr unchanged ↦
          rw unchanged (elim h [ inl s ↦ s | inr c ↦ absurd (ground (arith, c, unchanged)) ])
    ]
