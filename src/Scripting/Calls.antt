-- ===== src/Scripting/Calls.antt =====
-- Sequences of calls of the pipeline engine, and the operations that a run meets
-- (scripting/pipeline.go).
use toll_mesh_store.Common.{
  ℕ, zero, suc, ◌≡◌, refl, sym, ◌∙◌, subst, String, str_eq, Map, lookup, insert, erase,
  lookup-insert, lookup-erase, Option, none, some, List, [], ◌∷◌, ◌++◌, ◌⊎◌, inl, inr, arith,
  Option-cases, Bool-cases, milli,
}
use toll_mesh_store.Scripting.{
  Value, Step, EngineError, execution_timeout, step_failed, Pipeline, StepResult, Handler, Engine,
  Progress, new_engine, register_handler, first_unknown, size_error, register_pipeline, is_newer,
  merge_pipeline, merge_snapshot, delete_pipeline, run_steps, run, executed, execute, resolve_args,
  save, result_of, gave,
}

-- The calls that change an engine.
pub data Call (W V E : Type 0) : Type 0 where
  handler_call : String → Handler W V E → Call W V E
  register_call : Pipeline V E → ℕ → Call W V E
  merge_call : List (Pipeline V E) → Call W V E
  delete_call : String → Call W V E
  execute_call : String → ℕ → W → Call W V E

-- A run ends well, at a step whose handler fails, or at the timeout.
pub data Ending {E : Type 0} : Option (EngineError E) → Type 0 where
  ended : Ending none
  handler_failed : (op : String) (failure : E) → Ending (some (step_failed op failure))
  timed_out : Ending (some execution_timeout)

some_inj : {A : Type 0} (a b : A) → some a ≡ some b → a ≡ b
some_inj a b h = cc

some-none_ne : {A : Type 0} {a : A} → some a ≡ none → ⊥
some-none_ne h = cc

sum_cases : {A B : Type 0} (o : A ⊎ B) → ((a : A) × (o ≡ inl a)) ⊎ ((b : B) × (o ≡ inr b))
sum_cases (inl a) = inl (a, refl)
sum_cases (inr b) = inr (b, refl)

module _ {V E : Type 0} where
  executed-steps :
      (p : Pipeline V E) (error : Option (EngineError E)) → (executed p error).steps ≡ p.steps
  unfolding executed
  executed-steps p none = refl
  executed-steps p (some error) = refl

module _ {W V E : Type 0} where
  unfoldable pub call : Engine W V E → Call W V E → Engine W V E
  unfolding register_handler register_pipeline merge_snapshot delete_pipeline execute
  call e (handler_call op h) = register_handler e op h
  call e (register_call p now) = (register_pipeline e p now).0
  call e (merge_call peers) = merge_snapshot e peers
  call e (delete_call name) = (delete_pipeline e name).0
  call e (execute_call name fuel world) = (execute e name fuel world).1

  unfoldable pub calls : Engine W V E → List (Call W V E) → Engine W V E
  unfolding call
  calls e [] = e
  calls e (c ∷ rest) = calls (call e c) rest

  -- Each operation of each pipeline has a handler.
  abbrev Known : Engine W V E → Type 0
  Known e =
      (name : String) (p : Pipeline V E)
      → lookup name e.pipelines ≡ some p
      → first_unknown e.handlers p.steps ≡ none

  first_unknown-insert :
      (op : String) (h : Handler W V E) (handlers : Map (Handler W V E)) (steps : List (Step V))
      → first_unknown handlers steps ≡ none
      → first_unknown (insert op h handlers) steps ≡ none
  unfolding first_unknown
  first_unknown-insert op h handlers [] known = refl
  first_unknown-insert op h handlers (s ∷ rest) known =
      ground
        (arith, lookup-insert op s.op h handlers, first_unknown-insert op h handlers rest, known)

  insert-Known :
      (e : Engine W V E) (name : String) (p : Pipeline V E)
      → Known e
      → first_unknown e.handlers p.steps ≡ none
      → Known (record e { pipelines = insert name p e.pipelines })
  insert-Known e name p known new at q found = elim (Bool-cases (str_eq name at)) [
    | inl hit ↦
        let read : lookup at (insert name p e.pipelines) ≡ some p =
          lookup-insert name at p e.pipelines ∙ rw hit refl in
        let same : p ≡ q = some_inj p q (sym read ∙ found) in
        subst (λ x. first_unknown e.handlers x.steps ≡ none) same new
    | inr miss ↦
        let read : lookup at (insert name p e.pipelines) ≡ lookup at e.pipelines =
          lookup-insert name at p e.pipelines ∙ rw miss refl in
        known at q (sym read ∙ found)
  ]

  erase-Known :
      (e : Engine W V E) (name : String)
      → Known e
      → Known (record e { pipelines = erase name e.pipelines })
  erase-Known e name known at q found =
      known at q (ground (arith, lookup-erase name at e.pipelines, found))

  merge_pipeline-Known :
      (e : Engine W V E) (peer : Pipeline V E) → Known e → Known (merge_pipeline e peer)
  unfolding merge_pipeline
  merge_pipeline-Known e peer known = elim (Option-cases (first_unknown e.handlers peer.steps)) [
    | inl all ↦ elim (Bool-cases (is_newer (lookup peer.name e.pipelines) peer)) [
      | inl newer ↦ rw (merge_pipeline, all, newer) (insert-Known e peer.name peer known all)
      | inr old ↦ rw (merge_pipeline, all, old) known
    ]
    | inr (op, miss) ↦ elim (Bool-cases (is_newer (lookup peer.name e.pipelines) peer)) [
      | inl newer ↦ rw (merge_pipeline, miss, newer) known
      | inr old ↦ rw (merge_pipeline, miss, old) known
    ]
  ]

  merge_snapshot-Known :
      (e : Engine W V E) (peers : List (Pipeline V E)) → Known e → Known (merge_snapshot e peers)
  unfolding merge_snapshot
  merge_snapshot-Known e [] known = known
  merge_snapshot-Known e (peer ∷ rest) known =
      merge_snapshot-Known (merge_pipeline e peer) rest (merge_pipeline-Known e peer known)

  register_pipeline-Known :
      (e : Engine W V E) (p : Pipeline V E) (now : ℕ)
      → Known e
      → Known (register_pipeline e p now).0
  unfolding register_pipeline
  register_pipeline-Known e p now known = elim (Option-cases (size_error e p.steps)) [
    | inr (error, bad) ↦ rw (register_pipeline, bad) known
    | inl fits ↦ elim (Option-cases (first_unknown e.handlers p.steps)) [
      | inr (op, miss) ↦ rw (register_pipeline, fits, miss) known
      | inl all ↦
          rw (register_pipeline, fits, all)
            (insert-Known e p.name (record p { created = milli now }) known all)
    ]
  ]

  delete_pipeline-Known :
      (e : Engine W V E) (name : String) → Known e → Known (delete_pipeline e name).0
  unfolding delete_pipeline
  delete_pipeline-Known e name known = elim (Option-cases (lookup name e.pipelines)) [
    | inl none_there ↦ rw (delete_pipeline, none_there) known
    | inr (p, there) ↦ rw (delete_pipeline, there) (erase-Known e name known)
  ]

  execute-Known :
      (e : Engine W V E) (name : String) (fuel : ℕ) (world : W)
      → Known e
      → Known (execute e name fuel world).1
  unfolding execute
  execute-Known e name fuel world known = elim (Option-cases (lookup name e.pipelines)) [
    | inl absent ↦ rw (execute, absent) known
    | inr (p, there) ↦
        rw (execute, there)
          (insert-Known e name (executed p (run e p.steps fuel world).error) known
            (rw (executed-steps p (run e p.steps fuel world).error) (known name p there)))
  ]

  call-Known : (e : Engine W V E) (c : Call W V E) → Known e → Known (call e c)
  unfolding call
  call-Known e (handler_call op h) known =
      λ name p found. first_unknown-insert op h e.handlers p.steps (known name p found)
  call-Known e (register_call p now) known = register_pipeline-Known e p now known
  call-Known e (merge_call peers) known = merge_snapshot-Known e peers known
  call-Known e (delete_call name) known = delete_pipeline-Known e name known
  call-Known e (execute_call name fuel world) known = execute-Known e name fuel world known

  calls-Known : (e : Engine W V E) (cs : List (Call W V E)) → Known e → Known (calls e cs)
  unfolding calls
  calls-Known e [] known = known
  calls-Known e (c ∷ rest) known = calls-Known (call e c) rest (call-Known e c known)

  run_steps-Ending :
      (handlers : Map (Handler W V E)) (steps : List (Step V)) (saved : Map (Value V))
      (results : List (StepResult V E)) (fuel : ℕ) (world : W)
      → first_unknown handlers steps ≡ none
      → Ending (run_steps handlers steps saved results fuel world).error
  unfolding run_steps first_unknown
  run_steps-Ending handlers [] saved results fuel world known = ended
  run_steps-Ending handlers (s ∷ rest) saved results zero world known = timed_out
  run_steps-Ending handlers (s ∷ rest) saved results (suc fuel) world known =
      elim (Option-cases (lookup s.op handlers)) [
        | inl missing ↦
            let bad : some s.op ≡ none = rw (first_unknown, missing) at known in
            absurd (some-none_ne bad)
        | inr (h, there) ↦
            let rest_known : first_unknown handlers rest ≡ none =
              rw (first_unknown, there) at known in
            elim (sum_cases (h (resolve_args s.args saved) world).0) [
              | inl (failure, fails) ↦ rw (run_steps, there, fails) (handler_failed s.op failure)
              | inr (v, gives) ↦
                  rw (run_steps, there, gives)
                    (run_steps-Ending handlers rest (save s.save_as v saved)
                      (results ++ result_of s (gave v) ∷ []) fuel
                      (h (resolve_args s.args saved) world).1 rest_known)
            ]
      ]

  -- After any calls on a new engine, a pipeline that is registered runs without meeting an operation
  -- that the engine does not know: the run ends well, at a step whose handler fails, or at the timeout.
  pub execute-Ending :
      (max_steps : ℕ) (cs : List (Call W V E)) (name : String) (p : Pipeline V E) (fuel : ℕ)
      (world : W)
      → lookup name (calls (new_engine max_steps) cs).pipelines ≡ some p
      → (progress : Progress W V E) × ((execute (calls (new_engine max_steps) cs) name fuel world).0
          ≡ inr progress)
        × Ending progress.error
  unfolding execute new_engine lookup
  execute-Ending max_steps cs name p fuel world there =
      let e = calls (new_engine max_steps) cs in
      let known =
        calls-Known (new_engine max_steps) cs λ at q found. absurd (some-none_ne (sym found)) in
      (
        run e p.steps fuel world,
        rw (execute, there) refl,
        run_steps-Ending e.handlers p.steps [] [] fuel world (known name p there),
      )
