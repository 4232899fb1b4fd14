-- ===== src/Engine/Results/Retry.antt =====
-- crates/callora-core/src/engine.rs: how often a failing action is tried.
use callora.Base.{
  ℕ, suc, ◌+◌, ◌≤◌, ◌<◌, List, [], ◌∷◌, ◌++◌, ◌≡◌, arith, length, replicate, ap, ◌∙◌, lookup,
}
use callora.Call.Run.{PipelineRun, executing}
use callora.Engine.Speech.{Directive, run_action}
use callora.Engine.Out.{Out}
use callora.Engine.Out
use callora.Engine.State.{Engine}
use callora.Engine.Env.{Env}
use callora.Engine.Say.{pipeline_of, finish, or_else}
use callora.Engine.Fill.{with_run}
use callora.Engine.Flow.{action_input}
use callora.Engine.Started.{actions}
use callora.Engine.Results.{
  ActionFailure, err, handle_result, retried, max_attempts_of, on_action_result,
}

-- The attempt `a` of a run's action under `id`.
abbrev pub attempt : PipelineRun → ℕ → ℕ → PipelineRun
attempt run id a = record run { step = executing id; attempts = a }

abbrev pub attempts_allowed : Engine → PipelineRun → ℕ
attempts_allowed e run =
    max_attempts_of (lookup (or_else (pipeline_of e run).action "") e.business.actions)

module _ (w : Env) where
  -- One failure after the other, and the directives of all of them.
  abbrev pub on_failures : Engine → ℕ → List ActionFailure → Engine × List Directive
  on_failures e id [] = (e, [])
  on_failures e id (f ∷ fs) =
      let (e1, ds) = on_action_result w e id (err f) in
      let (e2, ds2) = on_failures e1 id fs in (e2, ds ++ ds2)

  abbrev retry : Engine → PipelineRun → ℕ → ℕ → Engine × List Directive
  retry e run id a =
      let r = with_run e (attempt run id a) in
      (
        with_run e (attempt run id (suc a)),
        run_action id (or_else (pipeline_of e run).action "") (action_input r id) ∷ [],
      )

  on_failure-retry :
      (e : Engine) (run : PipelineRun) (id a : ℕ) (f : ActionFailure)
      → a < attempts_allowed e run
      → on_action_result w (with_run e (attempt run id a)) id (err f) ≡ retry e run id a
  unfolding on_action_result handle_result retried Out.push Out.flush Out.empty finish pipeline_of
      action_input
  on_failure-retry e run id a f h = ground arith

  failed_and :
      (e : Engine) (run : PipelineRun) (id a : ℕ) (f : ActionFailure) (fs : List ActionFailure)
      → a < attempts_allowed e run
      → on_failures (with_run e (attempt run id a)) id (f ∷ fs) ≡ (
        (on_failures (with_run e (attempt run id (suc a))) id fs).0,
        (retry e run id a).1 ++ (on_failures (with_run e (attempt run id (suc a))) id fs).1,
      )
  failed_and e run id a f fs h =
      ap (λ r. ((on_failures r.0 id fs).0, r.1 ++ (on_failures r.0 id fs).1))
        (on_failure-retry e run id a f h)

  -- While attempts are left, each of a run of failures starts the action again under the same
  -- run id, once, whether or not its outcome is known, and only the count of attempts changes.
  pub on_failures-retries :
      (e : Engine) (run : PipelineRun) (id a : ℕ) (fs : List ActionFailure)
      → a + length fs ≤ attempts_allowed e run
      → ((on_failures (with_run e (attempt run id a)) id fs).0
          ≡ with_run e (attempt run id (a + length fs)))
        × (actions (on_failures (with_run e (attempt run id a)) id fs).1 ≡ replicate (length fs) id)
  on_failures-retries e run id a [] h = ground arith
  on_failures-retries e run id a (f ∷ fs) h =
      let step = failed_and e run id a f fs (omega arith) in
      let (s, d) = on_failures-retries e run id (suc a) fs (omega arith) in
      (
        ap (λ r. r.0) step ∙ s ∙ ap (λ n. with_run e (attempt run id n)) (omega arith),
        ap (λ r. actions r.1) step ∙ ap (λ ids. id ∷ ids) d,
      )
