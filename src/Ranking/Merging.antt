-- ===== src/Ranking/Merging.antt =====
-- Two registries that merge each other's snapshots (ranking/registry.go).
use toll_mesh_store.Common.{
  ℕ, ◌≡◌, refl, sym, ap, inl, inr, if◌then◌else◌, String, str_eq, eq_iff, Map, Unique, lookup,
  lookup-insert, Option, none, some, [], ◌∷◌, arith, Version, version_ltb, version_ltb_asym,
  version_ltb_total, Bool-cases, Option-cases,
}
use toll_mesh_store.Ranking.{RankingConfig, configs_of, config_less, merge_config, merge_configs}

abbrev pub version_of : {B : Type 0} → RankingConfig B → Version
version_of c = (c.created, c.node)

config_less-eq :
    (s : ℕ) (m : String) (t : ℕ) (n : String) → config_less s m t n ≡ version_ltb (s, m) (t, n)
unfolding config_less version_ltb
config_less-eq s m t n = ground arith

module _ {B : Type 0} where
  -- What a merge leaves of the configuration that is there and the one that is sent.
  unfoldable pub newer :
      Option (RankingConfig B) → Option (RankingConfig B) → Option (RankingConfig B)
  newer none sent = sent
  newer (some local) none = some local
  newer (some local) (some peer) =
      if version_ltb (version_of local) (version_of peer) then some peer else some local

  -- Every configuration stands under its name.
  abbrev pub Named : Map (RankingConfig B) → Type 0
  Named [] = Unit
  Named ((name, c) ∷ rest) = (c.name ≡ name) × Named rest

  merge_config_lem :
      (configs : Map (RankingConfig B)) (peer : RankingConfig B) (name : String)
      → lookup name (merge_config configs peer) ≡ (
          if str_eq peer.name name
          then newer (lookup name configs) (some peer)
          else lookup name configs)
  unfolding merge_config newer
  merge_config_lem configs peer name = elim (Option-cases (lookup peer.name configs)) [
    | inl e ↦ ground (arith, e, lookup-insert peer.name name peer configs, eq_iff peer.name name)
    | inr (local, e) ↦ ground (
      arith,
      e,
      lookup-insert peer.name name peer configs,
      eq_iff peer.name name,
      config_less-eq local.created local.node peer.created peer.node,
    )
  ]

  newer-none : (o : Option (RankingConfig B)) → newer o none ≡ o
  unfolding newer
  newer-none none = refl
  newer-none (some c) = refl

  -- Of every name, a merge of a registry's configurations leaves the newer one.
  pub merge_configs_lem :
      (configs sent : Map (RankingConfig B)) (name : String)
      → Unique sent
      → Named sent
      → lookup name (merge_configs configs (configs_of sent))
        ≡ newer (lookup name configs) (lookup name sent)
  unfolding merge_configs configs_of lookup
  merge_configs_lem configs [] name u n = sym (newer-none (lookup name configs))
  merge_configs_lem configs ((at, c) ∷ rest) name u n =
      let tail = merge_configs_lem (merge_config configs c) rest name u.1 n.1 in
      let head = merge_config_lem configs c name in
      elim (Bool-cases (str_eq at name)) [
        | inl hit ↦ ground (
          arith,
          tail,
          head,
          hit,
          n.0,
          u.0,
          eq_iff at name,
          newer-none (newer (lookup name configs) (some c)),
        )
        | inr miss ↦ ground (arith, tail, head, miss, n.0)
      ]

  pub newer_comm :
      (a b : Option (RankingConfig B))
      → ((x y : RankingConfig B) → a ≡ some x → b ≡ some y → version_of x ≡ version_of y → x ≡ y)
      → newer a b ≡ newer b a
  unfolding newer
  newer_comm none none same = refl
  newer_comm none (some y) same = refl
  newer_comm (some x) none same = refl
  newer_comm (some x) (some y) same =
      elim (Bool-cases (version_ltb (version_of x) (version_of y))) [
        | inl lt ↦ rw (lt, version_ltb_asym (version_of x) (version_of y) lt) refl
        | inr ge ↦ elim (Bool-cases (version_ltb (version_of y) (version_of x))) [
          | inl gt ↦ rw (ge, gt) refl
          | inr le ↦
              rw (ge, le)
                (ap some
                  (same x y refl refl (version_ltb_total (version_of x) (version_of y) ge le)))
        ]
      ]
