-- ===== src/Ranking/Tests.antt =====
-- The registry of ranking configurations on small inputs.
use toll_mesh_store.Common.{
  ℕ, ◌≡◌, refl, ap, lookup, insert, erase, Option, none, some, List, [], ◌∷◌, ◌++◌, arith, inr,
}
use toll_mesh_store.Ranking.{
  RankingConfig, Ranker, vector_ranker, llm_ranker, context_ranker, bm25_ranker, new_registry,
  build_ranker, rank_with_config, snapshot, merge_snapshot,
}
use toll_mesh_store.Ranking.Merging.{version_of}
use toll_mesh_store.Ranking.Converge.{
  Call, register_call, delete_call, merge_call, run, exchange_agrees,
}

abbrev by_vector : RankingConfig ℕ
by_vector = record { name = "books"; strategy = "vector"; boosts = none; created = 0; node = "a" }

abbrev by_llm : RankingConfig ℕ
by_llm = record by_vector { strategy = "llm"; node = "b" }

abbrev mine : List (Call ℕ)
mine = register_call by_vector 5000000 ∷ []

-- A node that has registered, deleted and registered again, later.
abbrev yours : List (Call ℕ)
yours = register_call by_vector 3000000 ∷ delete_call "books" ∷ register_call by_llm 7000000 ∷ []

-- The deleted one is gone until a peer sends it again.
comes_back :
    (run new_registry
      (mine ++ delete_call "books" ∷ merge_call (snapshot (run new_registry mine)) ∷ [])).configs
    ≡ (run new_registry mine).configs
unfolding run snapshot insert lookup erase
comes_back = refl

-- A ranking in which only the ranker of the type "llm" puts a 9 in front.
abbrev marked : Ranker ℕ → List ℕ → List ℕ
marked vector_ranker items = items
marked llm_ranker items = 9 ∷ items
marked (context_ranker boosts) items = items
marked bm25_ranker items = items

ranked_by_llm : rank_with_config marked (run new_registry yours) "books" (1 ∷ []) ≡ inr (9 ∷ 1 ∷ [])
unfolding rank_with_config run insert lookup erase
ranked_by_llm = refl

other_is_bm25 : build_ranker {B = ℕ} "" (some 1) ≡ bm25_ranker
unfolding build_ranker
other_is_bm25 = refl

abbrev stamp : Option (RankingConfig ℕ) → ℕ
stamp none = 0
stamp (some cfg) = cfg.created

versions_differ :
    (x y : RankingConfig ℕ)
    → lookup "books" (run new_registry mine).configs ≡ some x
    → lookup "books" (run new_registry yours).configs ≡ some y
    → version_of x ≡ version_of y
    → x ≡ y
unfolding run lookup insert erase
versions_differ x y p q e =
    let five : 5 ≡ x.created = ap stamp p in
    let seven : 7 ≡ y.created = ap stamp q in
    let same : x.created ≡ y.created = ap (λ v. v.0) e in absurd (omega arith)

exchange_agrees_example :
    lookup "books"
      (merge_snapshot (run new_registry mine) (snapshot (run new_registry yours))).configs
    ≡ lookup "books"
        (merge_snapshot (run new_registry yours) (snapshot (run new_registry mine))).configs
exchange_agrees_example = exchange_agrees mine yours "books" versions_differ
