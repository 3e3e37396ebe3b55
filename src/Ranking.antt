-- ===== src/Ranking.antt =====
-- Named ranking configurations, which gossip replicates (ranking/registry.go).
--
-- Boosts are values of any type, and a nil map of them is none. The rankers, which compute with floats,
-- are the names of their constructors. A call that the code refuses with an error leaves the registry.
pub mod Merging
pub mod Converge
pub mod Tests
use toll_mesh_store.Common.{
  ℕ, Bool, true, false, not, ltb, ◌==◌, if◌then◌else◌, String, str_eq, str_ltb, Map, lookup, insert,
  erase, Option, none, some, List, [], ◌∷◌, milli, ◌⊎◌, inl, inr,
}

pub record RankingConfig (B : Type 0) : Type 0 where
  pub name : String
  pub strategy : String
  pub boosts : Option B
  pub created : ℕ
  pub node : String

pub record Registry (B : Type 0) : Type 0 where
  pub configs : Map (RankingConfig B)

pub data RegistryError : Type 0 where
  name_required : RegistryError
  config_not_found : String → RegistryError

-- The ranker that a configuration names.
pub data Ranker (B : Type 0) : Type 0 where
  vector_ranker : Ranker B
  llm_ranker : Ranker B
  context_ranker : Option B → Ranker B
  bm25_ranker : Ranker B

unfoldable pub config_less : ℕ → String → ℕ → String → Bool
config_less created_a node_a created_b node_b =
    if not (created_a == created_b) then ltb created_a created_b else str_ltb node_a node_b

module _ {B : Type 0} where
  abbrev pub new_registry : Registry B
  new_registry = record { configs = [] }

  unfoldable pub register : Registry B → RankingConfig B → ℕ → Registry B × Option RegistryError
  register r cfg now = if str_eq cfg.name "" then (r, some name_required) else (
    record r { configs = insert cfg.name (record cfg { created = milli now }) r.configs },
    none,
  )

  unfoldable pub get : Registry B → String → RegistryError ⊎ RankingConfig B
  get r name = elim (lookup name r.configs) [
    | none ↦ inl (config_not_found name)
    | some cfg ↦ inr cfg
  ]

  unfoldable pub configs_of : Map (RankingConfig B) → List (RankingConfig B)
  configs_of [] = []
  configs_of ((name, cfg) ∷ rest) = cfg ∷ configs_of rest

  unfoldable pub list : Registry B → List (RankingConfig B)
  unfolding configs_of
  list r = configs_of r.configs

  unfoldable pub delete : Registry B → String → Registry B × Option RegistryError
  delete r name = elim (lookup name r.configs) [
    | none ↦ (r, some (config_not_found name))
    | some cfg ↦ (record r { configs = erase name r.configs }, none)
  ]

  unfoldable pub build_ranker : String → Option B → Ranker B
  build_ranker strategy boosts =
      if str_eq strategy "vector"
      then vector_ranker
      else if str_eq strategy "llm"
      then llm_ranker
      else if str_eq strategy "context"
      then context_ranker boosts
      else bm25_ranker

  -- `rank` is the method of the rankers.
  unfoldable pub rank_with_config :
      {I : Type 0}
      → (Ranker B → List I → List I)
      → Registry B
      → String
      → List I
      → RegistryError ⊎ List I
  unfolding get build_ranker
  rank_with_config rank r name items = elim (get r name) [
    | inl error ↦ inl error
    | inr cfg ↦ inr (rank (build_ranker cfg.strategy cfg.boosts) items)
  ]

  unfoldable pub snapshot : Registry B → List (RankingConfig B)
  unfolding configs_of
  snapshot r = configs_of r.configs

  unfoldable pub merge_config : Map (RankingConfig B) → RankingConfig B → Map (RankingConfig B)
  unfolding config_less
  merge_config configs peer = elim (lookup peer.name configs) [
    | none ↦ insert peer.name peer configs
    | some local ↦
        if not (config_less local.created local.node peer.created peer.node)
        then configs
        else insert peer.name peer configs
  ]

  unfoldable pub merge_configs :
      Map (RankingConfig B) → List (RankingConfig B) → Map (RankingConfig B)
  unfolding merge_config
  merge_configs configs [] = configs
  merge_configs configs (peer ∷ rest) = merge_configs (merge_config configs peer) rest

  unfoldable pub merge_snapshot : Registry B → List (RankingConfig B) → Registry B
  unfolding merge_configs
  merge_snapshot r peers = record r { configs = merge_configs r.configs peers }
