-- ===== src/Scripting.antt =====
-- Pipelines of store operations (scripting/pipeline.go).
--
-- `W` is what the handlers work on, `V` the values of arguments and results that are not texts, and `E`
-- the errors of handlers. A handler is a parameter: it takes the arguments and what it works on. The
-- timeout of a run is the number of steps that have ended when the timer fires; the goroutine then goes
-- on with the steps that are left, which the outcome names.
pub mod Calls
pub mod Tests
use Prim.Native.String.{slice}
use toll_mesh_store.Common.{
  ℕ, zero, suc, Bool, true, false, not, ltb, ◌==◌, ◌+◌, if◌then◌else◌, is_some, ◌&&◌, String,
  str_eq, str_ltb, len, Map, lookup, insert, erase, Option, none, some, List, [], ◌∷◌, ◌++◌, length,
  milli, ◌⊎◌, inl, inr,
}

pub data Value (V : Type 0) : Type 0 where
  text : String → Value V
  other : V → Value V

pub record Step (V : Type 0) : Type 0 where
  pub op : String
  pub args : Map (Value V)
  pub save_as : String

pub data EngineError (E : Type 0) : Type 0 where
  no_steps : EngineError E
  too_many_steps : ℕ → ℕ → EngineError E
  unknown_operation : String → EngineError E
  pipeline_not_found : String → EngineError E
  step_failed : String → E → EngineError E
  execution_timeout : EngineError E

pub record Pipeline (V E : Type 0) : Type 0 where
  pub name : String
  pub steps : List (Step V)
  pub created : ℕ
  pub node : String
  pub executions : ℕ
  pub last_error : Option (EngineError E)

-- What a step gives: its output, the error of its handler, or that it has none.
pub data StepOutput (V E : Type 0) : Type 0 where
  gave : Value V → StepOutput V E
  failed : E → StepOutput V E
  unknown : StepOutput V E

pub record StepResult (V E : Type 0) : Type 0 where
  pub op : String
  pub save_as : String
  pub output : StepOutput V E

abbrev pub Handler : Type 0 → Type 0 → Type 0 → Type 0
Handler W V E = Map (Value V) → W → (E ⊎ Value V) × W

pub record Engine (W V E : Type 0) : Type 0 where
  pub pipelines : Map (Pipeline V E)
  pub handlers : Map (Handler W V E)
  pub max_steps : ℕ

-- What has happened when a run answers: the results, an error, what the handlers work on, and the
-- steps that are still to run.
pub record Progress (W V E : Type 0) : Type 0 where
  pub results : List (StepResult V E)
  pub error : Option (EngineError E)
  pub world : W
  pub left : List (Step V)

unfoldable pub pipeline_less : ℕ → String → ℕ → String → Bool
pipeline_less created_a node_a created_b node_b =
    if not (created_a == created_b) then ltb created_a created_b else str_ltb node_a node_b

module _ {V : Type 0} where
  -- An argument "$name" is the result that is saved under the name, where there is one.
  unfoldable pub resolve_value : Value V → Map (Value V) → Value V
  resolve_value (other v) saved = other v
  resolve_value (text s) saved =
      if str_eq (slice s 0 1) "$"
      then (elim (lookup (slice s 1 (len s)) saved) as (λ o. Value V) [
        | none ↦ text s
        | some v ↦ v
      ])
      else text s

  unfoldable pub resolve_args : Map (Value V) → Map (Value V) → Map (Value V)
  unfolding resolve_value
  resolve_args [] saved = []
  resolve_args ((key, v) ∷ rest) saved = (key, resolve_value v saved) ∷ resolve_args rest saved

  unfoldable pub save : String → Value V → Map (Value V) → Map (Value V)
  save name v saved = if str_eq name "" then saved else insert name v saved

module _ {V E : Type 0} where
  abbrev pub result_of : Step V → StepOutput V E → StepResult V E
  result_of s output = record { op = s.op; save_as = s.save_as; output = output }

  unfoldable pub pipelines_of : Map (Pipeline V E) → List (Pipeline V E)
  pipelines_of [] = []
  pipelines_of ((name, p) ∷ rest) = p ∷ pipelines_of rest

  -- Whether a peer's pipeline is to take the place of what is there.
  unfoldable pub is_newer : Option (Pipeline V E) → Pipeline V E → Bool
  unfolding pipeline_less
  is_newer none peer = true
  is_newer (some local) peer = pipeline_less local.created local.node peer.created peer.node

  -- The count and the last error of a pipeline after a run; an error stays until there is another.
  unfoldable pub executed : Pipeline V E → Option (EngineError E) → Pipeline V E
  executed p none = record p { executions = p.executions + 1 }
  executed p (some error) = record p { executions = p.executions + 1; last_error = some error }

module _ {W V E : Type 0} where
  unfoldable pub new_engine : ℕ → Engine W V E
  new_engine max_steps = record { pipelines = []; handlers = []; max_steps = max_steps }

  unfoldable pub register_handler : Engine W V E → String → Handler W V E → Engine W V E
  register_handler e op h = record e { handlers = insert op h e.handlers }

  -- The first operation of the steps that has no handler.
  unfoldable pub first_unknown : Map (Handler W V E) → List (Step V) → Option String
  first_unknown handlers [] = none
  first_unknown handlers (s ∷ rest) = elim (lookup s.op handlers) [
    | none ↦ some s.op
    | some h ↦ first_unknown handlers rest
  ]

  -- The checks on the number of steps.
  unfoldable pub size_error : Engine W V E → List (Step V) → Option (EngineError E)
  size_error e steps =
      if length steps == 0
      then some no_steps
      else if ltb e.max_steps (length steps)
      then some (too_many_steps (length steps) e.max_steps)
      else none

  unfoldable pub register_pipeline :
      Engine W V E → Pipeline V E → ℕ → Engine W V E × Option (EngineError E)
  unfolding first_unknown size_error
  register_pipeline e p now = elim (size_error e p.steps) [
    | some error ↦ (e, some error)
    | none ↦ elim (first_unknown e.handlers p.steps) [
      | some op ↦ (e, some (unknown_operation op))
      | none ↦ (
        record e { pipelines = insert p.name (record p { created = milli now }) e.pipelines },
        none,
      )
    ]
  ]

  unfoldable pub get_pipeline : Engine W V E → String → EngineError E ⊎ Pipeline V E
  get_pipeline e name = elim (lookup name e.pipelines) [
    | none ↦ inl (pipeline_not_found name)
    | some p ↦ inr p
  ]

  unfoldable pub list_pipelines : Engine W V E → List (Pipeline V E)
  unfolding pipelines_of
  list_pipelines e = pipelines_of e.pipelines

  unfoldable pub snapshot : Engine W V E → List (Pipeline V E)
  unfolding pipelines_of
  snapshot e = pipelines_of e.pipelines

  unfoldable pub merge_pipeline : Engine W V E → Pipeline V E → Engine W V E
  unfolding is_newer first_unknown
  merge_pipeline e peer =
      if is_newer (lookup peer.name e.pipelines) peer
        && not (is_some (first_unknown e.handlers peer.steps))
      then record e { pipelines = insert peer.name peer e.pipelines }
      else e

  unfoldable pub merge_snapshot : Engine W V E → List (Pipeline V E) → Engine W V E
  unfolding merge_pipeline
  merge_snapshot e [] = e
  merge_snapshot e (peer ∷ rest) = merge_snapshot (merge_pipeline e peer) rest

  unfoldable pub delete_pipeline : Engine W V E → String → Engine W V E × Option (EngineError E)
  delete_pipeline e name = elim (lookup name e.pipelines) [
    | none ↦ (e, some (pipeline_not_found name))
    | some p ↦ (record e { pipelines = erase name e.pipelines }, none)
  ]

  -- The loop over the steps, of which `fuel` end before the timer fires.
  unfoldable pub run_steps :
      Map (Handler W V E)
      → List (Step V)
      → Map (Value V)
      → List (StepResult V E)
      → ℕ
      → W
      → Progress W V E
  unfolding resolve_args save
  run_steps handlers [] saved results fuel world = record {
    results = results;
    error = none;
    world = world;
    left = [];
  }
  run_steps handlers (s ∷ rest) saved results zero world = record {
    results = results;
    error = some execution_timeout;
    world = world;
    left = s ∷ rest;
  }
  run_steps handlers (s ∷ rest) saved results (suc fuel) world = elim (lookup s.op handlers) [
    | none ↦ record {
      results = results ++ (record { op = s.op; save_as = ""; output = unknown }) ∷ [];
      error = some (unknown_operation s.op);
      world = world;
      left = [];
    }
    | some h ↦
        let (output, next) = h (resolve_args s.args saved) world in
        elim output [
          | inl failure ↦ record {
            results = results ++ result_of s (failed failure) ∷ [];
            error = some (step_failed s.op failure);
            world = next;
            left = [];
          }
          | inr v ↦
              run_steps handlers rest (save s.save_as v saved)
                (results ++ result_of s (gave v) ∷ []) fuel next
        ]
  ]

  unfoldable pub run : Engine W V E → List (Step V) → ℕ → W → Progress W V E
  unfolding run_steps
  run e steps fuel world = run_steps e.handlers steps [] [] fuel world

  unfoldable pub execute :
      Engine W V E → String → ℕ → W → (EngineError E ⊎ Progress W V E) × Engine W V E
  unfolding run executed
  execute e name fuel world = elim (lookup name e.pipelines) [
    | none ↦ (inl (pipeline_not_found name), e)
    | some p ↦
        let progress = run e p.steps fuel world in
        (inr progress, record e { pipelines = insert name (executed p progress.error) e.pipelines })
  ]

  unfoldable pub execute_inline :
      Engine W V E → List (Step V) → ℕ → W → EngineError E ⊎ Progress W V E
  unfolding run size_error
  execute_inline e steps fuel world = elim (size_error e steps) [
    | some error ↦ inl error
    | none ↦ inr (run e steps fuel world)
  ]
