-- ===== src/Ranking/Converge.antt =====
-- Sequences of calls on a registry, and the exchange of snapshots after them (ranking/registry.go).
use toll_mesh_store.Common.{
  ℕ, ◌≡◌, refl, sym, ◌∙◌, String, str_eq, Map, Unique, lookup, insert, erase, insert-Unique,
  erase-Unique, some, List, [], ◌∷◌, Option-cases, Bool-cases, inl, inr, milli,
}
use toll_mesh_store.Ranking.{
  RankingConfig, Registry, new_registry, register, delete, snapshot, config_less, merge_config,
  merge_configs, merge_snapshot,
}
use toll_mesh_store.Ranking.Merging.{version_of, Named, newer_comm, merge_configs_lem}

-- The calls that change a registry.
pub data Call (B : Type 0) : Type 0 where
  register_call : RankingConfig B → ℕ → Call B
  delete_call : String → Call B
  merge_call : List (RankingConfig B) → Call B

module _ {B : Type 0} where
  unfoldable pub step : Registry B → Call B → Registry B
  unfolding register delete merge_snapshot
  step r (register_call cfg now) = (register r cfg now).0
  step r (delete_call name) = (delete r name).0
  step r (merge_call peers) = merge_snapshot r peers

  unfoldable pub run : Registry B → List (Call B) → Registry B
  unfolding step
  run r [] = r
  run r (c ∷ rest) = run (step r c) rest

  -- A name stands once, over a configuration of that name.
  abbrev IsRegistry : Map (RankingConfig B) → Type 0
  IsRegistry configs = Unique configs × Named configs

  insert-Named :
      (c : RankingConfig B) (configs : Map (RankingConfig B))
      → Named configs
      → Named (insert c.name c configs)
  unfolding insert
  insert-Named c [] n = (refl, tt)
  insert-Named c ((at, old) ∷ rest) n = elim (Bool-cases (str_eq at c.name)) [
    | inl hit ↦ rw hit (refl, n.1)
    | inr miss ↦ rw miss (n.0, insert-Named c rest n.1)
  ]

  erase-Named :
      (name : String) (configs : Map (RankingConfig B)) → Named configs → Named (erase name configs)
  unfolding erase
  erase-Named name [] n = tt
  erase-Named name ((at, old) ∷ rest) n = elim (Bool-cases (str_eq at name)) [
    | inl hit ↦ rw hit (erase-Named name rest n.1)
    | inr miss ↦ rw miss (n.0, erase-Named name rest n.1)
  ]

  insert-IsRegistry :
      (c : RankingConfig B) (configs : Map (RankingConfig B))
      → IsRegistry configs
      → IsRegistry (insert c.name c configs)
  insert-IsRegistry c configs i = (insert-Unique c.name c configs i.0, insert-Named c configs i.1)

  merge_config-IsRegistry :
      (configs : Map (RankingConfig B)) (peer : RankingConfig B)
      → IsRegistry configs
      → IsRegistry (merge_config configs peer)
  unfolding merge_config
  merge_config-IsRegistry configs peer i =
      let new = insert-IsRegistry peer configs i in
      elim (Option-cases (lookup peer.name configs)) [
        | inl e ↦ rw (merge_config, e) new
        | inr (local, e) ↦
            elim (Bool-cases (config_less local.created local.node peer.created peer.node)) [
              | inl lt ↦ rw (merge_config, e, lt) new
              | inr ge ↦ rw (merge_config, e, ge) i
            ]
      ]

  merge_configs-IsRegistry :
      (configs : Map (RankingConfig B)) (peers : List (RankingConfig B))
      → IsRegistry configs
      → IsRegistry (merge_configs configs peers)
  unfolding merge_configs
  merge_configs-IsRegistry configs [] i = i
  merge_configs-IsRegistry configs (peer ∷ rest) i =
      merge_configs-IsRegistry (merge_config configs peer) rest
        (merge_config-IsRegistry configs peer i)

  step-IsRegistry :
      (r : Registry B) (c : Call B) → IsRegistry r.configs → IsRegistry (step r c).configs
  unfolding step register delete merge_snapshot
  step-IsRegistry r (register_call cfg now) i =
      let new = insert-IsRegistry (record cfg { created = milli now }) r.configs i in
      elim (Bool-cases (str_eq cfg.name "")) [
        | inl empty ↦ rw (step, register, empty) i
        | inr named ↦ rw (step, register, named) new
      ]
  step-IsRegistry r (delete_call name) i =
      let gone : IsRegistry (erase name r.configs) =
        (erase-Unique name r.configs i.0, erase-Named name r.configs i.1) in
      elim (Option-cases (lookup name r.configs)) [
        | inl e ↦ rw (step, delete, e) i
        | inr (old, e) ↦ rw (step, delete, e) gone
      ]
  step-IsRegistry r (merge_call peers) i = merge_configs-IsRegistry r.configs peers i

  run-IsRegistry :
      (r : Registry B) (calls : List (Call B))
      → IsRegistry r.configs
      → IsRegistry (run r calls).configs
  unfolding run
  run-IsRegistry r [] i = i
  run-IsRegistry r (c ∷ rest) i = run-IsRegistry (step r c) rest (step-IsRegistry r c i)

  -- Two registries that any calls have led to, and that then merge each other's snapshots, have the
  -- same configuration under every name under which one version is one configuration.
  pub exchange_agrees :
      (mine yours : List (Call B)) (name : String)
      → ((x y : RankingConfig B)
          → lookup name (run new_registry mine).configs ≡ some x
          → lookup name (run new_registry yours).configs ≡ some y
          → version_of x ≡ version_of y
          → x ≡ y)
      → lookup name
          (merge_snapshot (run new_registry mine) (snapshot (run new_registry yours))).configs
        ≡ lookup name
            (merge_snapshot (run new_registry yours) (snapshot (run new_registry mine))).configs
  unfolding merge_snapshot snapshot
  exchange_agrees mine yours name same =
      let a = run new_registry mine in
      let b = run new_registry yours in
      let (ua, na) = run-IsRegistry new_registry mine (tt, tt) in
      let (ub, nb) = run-IsRegistry new_registry yours (tt, tt) in
      merge_configs_lem a.configs b.configs name ub nb
      ∙ newer_comm (lookup name a.configs) (lookup name b.configs) same
      ∙ sym (merge_configs_lem b.configs a.configs name ua na)
