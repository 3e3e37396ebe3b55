-- ===== src/Scripting/Tests.antt =====
-- The engine on small inputs, with handlers that work on a number.
use toll_mesh_store.Common.{
  ℕ, ◌+◌, ◌≡◌, refl, String, lookup, insert, Option, none, some, List, [], ◌∷◌, ◌⊎◌, inl, inr,
}
use toll_mesh_store.Scripting.{
  Value, text, other, Step, Pipeline, Handler, Engine, Progress, execution_timeout, new_engine, run,
  execute,
}
use toll_mesh_store.Scripting.Calls.{handler_call, register_call, calls, Ending, execute-Ending}

-- The sum of what is there and the argument "n", which becomes what is there.
abbrev sum_of : Option (Value ℕ) → ℕ → (String ⊎ Value ℕ) × ℕ
sum_of none there = (inl "no n", there)
sum_of (some (text s)) there = (inl "not a number", there)
sum_of (some (other n)) there = (inr (other (there + n)), there + n)

unfoldable raise : Handler ℕ ℕ String
raise args there = sum_of (lookup "n" args) there

abbrev raise_by : Value ℕ → String → Step ℕ
raise_by v name = record { op = "raise"; args = ("n", v) ∷ []; save_as = name }

abbrev pipeline_of : List (Step ℕ) → Pipeline ℕ String
pipeline_of steps = record {
  name = "twice";
  steps = steps;
  created = 0;
  node = "a";
  executions = 0;
  last_error = none;
}

-- The second step takes the result of the first.
abbrev twice : Pipeline ℕ String
twice = pipeline_of (raise_by (other 2) "x" ∷ raise_by (text "$x") "" ∷ [])

abbrev engine : Engine ℕ ℕ String
engine = calls (new_engine 10) (handler_call "raise" raise ∷ register_call twice 0 ∷ [])

world_after : (run engine twice.steps 5 1).world ≡ 6
unfolding calls run insert lookup raise new_engine
world_after = refl

-- The timer fires after the first step, which has had its effect.
cut_short : (run engine twice.steps 1 1).error ≡ some execution_timeout
unfolding calls run insert lookup raise new_engine
cut_short = refl

world_cut_short : (run engine twice.steps 1 1).world ≡ 3
unfolding calls run insert lookup raise new_engine
world_cut_short = refl

-- A step that fails leaves the effects of those before it.
world_after_failure :
    (run engine (raise_by (other 2) "" ∷ raise_by (text "$x") "" ∷ []) 5 1).world ≡ 3
unfolding calls run insert lookup raise new_engine
world_after_failure = refl

execute-Ending_example :
    (progress : Progress ℕ ℕ String) × ((execute engine "twice" 5 1).0 ≡ inr progress)
    × Ending progress.error
unfolding calls insert lookup new_engine
execute-Ending_example =
    execute-Ending 10 (handler_call "raise" raise ∷ register_call twice 0 ∷ []) "twice"
      (record twice { created = 0 }) 5 1 refl
