-- ===== src/Engine/Ended/Finishing.antt =====
-- crates/callora-core/src/engine.rs: `advance` and `finish_run` hang up exactly when they end the call.
use callora.Base.{
  ◌+◌, Bool, true, false, Option, none, some, List, [], ◌∷◌, String, ◌≡◌, refl, Bool-cases, inl,
  inr, ◌∙◌, ap, str_eq,
}
use callora.Call.Run.{PipelineRun}
use callora.Engine.Config.{PipelineConfig, AfterPipeline, continue, hang_up, say_goodbye}
use callora.Engine.Speech.{hangup}
use callora.Engine.Out.{Out}
use callora.Engine.State.{Engine, Report, active}
use callora.Engine.Env.{Env}
use callora.Engine.Say.{render_ctx, pipeline_of, say, with_state, has_response, or_else}
use callora.Engine.Fill.{fill_defaults, fill_from_other_tasks}
use callora.Engine.Flow.{
  goodbye, offer_more, move_on, advance_with, after_run, finish_with, finish_run, advance, Finish,
  close_run,
}
use callora.Engine.Frame.{say-directives}
use callora.Engine.Ended.{ends, EndsOnce, push-ends, kept, left, FinishEnds}
use callora.Engine.Ended.Tasks.{said-EndsOnce, move_on-EndsOnce}

module _ (w : Env) where
  abbrev at : Engine → Option PipelineRun → Engine
  at e r = record e { state = record (e.state) { run = r } }

  filled-phase :
      (e : Engine) (p : PipelineConfig) (r : Option PipelineRun)
      → (fill_defaults w (at e r) p).state.phase ≡ e.state.phase
  unfolding fill_defaults fill_from_other_tasks
  filled-phase e p none = refl
  filled-phase e p (some run) = refl

  fill_defaults-phase :
      (e : Engine) (p : PipelineConfig) → (fill_defaults w e p).state.phase ≡ e.state.phase
  fill_defaults-phase e p = filled-phase e p e.state.run

  abbrev go_on : Finish → Engine → Out → Bool → PipelineConfig → Option PipelineRun → Engine × Out
  go_on finish e1 o acknowledge p r = elim r [
    | none ↦ (e1, o)
    | some run ↦ move_on w finish e1 o acknowledge run p
  ]

  go_on-EndsOnce :
      (finish : Finish)
      → FinishEnds finish
      → (e : Engine) (o : Out) (acknowledge : Bool) (p : PipelineConfig) (r : Option PipelineRun)
      → e.state.phase ≡ active
      → EndsOnce o (go_on finish e o acknowledge p r)
  go_on-EndsOnce finish ok e o acknowledge p none h = kept o (e, o) refl h
  go_on-EndsOnce finish ok e o acknowledge p (some run) h =
      move_on-EndsOnce w finish ok e o acknowledge run p h

  -- `advance` where `r` is the run.
  abbrev advanced : Finish → Engine → Out → Bool → Option PipelineRun → Engine × Out
  advanced finish e o acknowledge r = elim r [
    | none ↦ (e, o)
    | some run ↦
        let p = pipeline_of e run in
        let e1 = fill_defaults w e p in go_on finish e1 o acknowledge p e1.state.run
  ]

  advanced-EndsOnce :
      (finish : Finish)
      → FinishEnds finish
      → (e : Engine) (o : Out) (acknowledge : Bool) (r : Option PipelineRun)
      → e.state.phase ≡ active
      → EndsOnce o (advanced finish e o acknowledge r)
  advanced-EndsOnce finish ok e o acknowledge none h = kept o (e, o) refl h
  advanced-EndsOnce finish ok e o acknowledge (some run) h =
      let e1 = fill_defaults w e (pipeline_of e run) in
      go_on-EndsOnce finish ok e1 o acknowledge (pipeline_of e run) e1.state.run
        (fill_defaults-phase e (pipeline_of e run) ∙ h)

  pub advance_with-EndsOnce :
      (finish : Finish)
      → FinishEnds finish
      → (e : Engine) (o : Out) (acknowledge : Bool) → e.state.phase ≡ active
      → EndsOnce o (advance_with w finish e o acknowledge)
  advance_with-EndsOnce finish ok e o acknowledge h =
      advanced-EndsOnce finish ok e o acknowledge e.state.run h

  pub goodbye-EndsOnce : (e : Engine) (o : Out) → EndsOnce o (goodbye w e o)
  unfolding goodbye
  goodbye-EndsOnce e o =
      let r = or_else (e.business.meta_response say_goodbye) e.business.goodbye in
      left o (goodbye w e o)
        (push-ends (say w e o r (render_ctx e) true).1 hangup
          ∙ ap (λ n. n + 1) (ap ends (say-directives w e o r (render_ctx e) true)))
        refl

  pub offer_more-EndsOnce :
      (e : Engine) (o : Out) → e.state.phase ≡ active → EndsOnce o (offer_more w e o)
  unfolding offer_more
  offer_more-EndsOnce e o h = said-EndsOnce w e o e.business.anything_else (render_ctx e) true h

  after_run-EndsOnce :
      (e : Engine) (o : Out) (after : AfterPipeline) (offer : Option String) (outcome : String)
      → e.state.phase ≡ active
      → EndsOnce o (after_run w e o after offer outcome)
  unfolding after_run
  after_run-EndsOnce e o hang_up offer outcome i = elim (Bool-cases (str_eq outcome "success")) [
    | inl h ↦ rw h (goodbye-EndsOnce e o)
    | inr h ↦ rw h (offer_more-EndsOnce e o i)
  ]
  after_run-EndsOnce e o continue none outcome i = offer_more-EndsOnce e o i
  after_run-EndsOnce e o continue (some offer) outcome i =
      elim (Bool-cases (has_response e offer)) [
        | inl h ↦ rw h (said-EndsOnce w e o offer (render_ctx e) true i)
        | inr h ↦ rw h (offer_more-EndsOnce e o i)
      ]

  last-EndsOnce :
      (e : Engine) (o : Out) (outcome : String) (result : Option Report) (r : Option PipelineRun)
      → e.state.phase ≡ active
      → EndsOnce o (finish_with w [] (at e r) o outcome result)
  unfolding finish_with close_run
  last-EndsOnce e o outcome result none h = kept o (at e none, o) refl h
  last-EndsOnce e o outcome result (some run) h =
      let p = pipeline_of (at e (some run)) run in
      after_run-EndsOnce (close_run (at e (some run)) outcome result) o p.after p.offer outcome h

  next-EndsOnce :
      (resumed : PipelineRun) (rest : List PipelineRun)
      → FinishEnds (finish_with w rest)
      → (e : Engine) (o : Out) (outcome : String) (result : Option Report) (r : Option PipelineRun)
      → e.state.phase ≡ active
      → EndsOnce o (finish_with w (resumed ∷ rest) (at e r) o outcome result)
  unfolding finish_with close_run
  next-EndsOnce resumed rest ok e o outcome result none h = kept o (at e none, o) refl h
  next-EndsOnce resumed rest ok e o outcome result (some run) h =
      let closed = close_run (at e (some run)) outcome result in
      advance_with-EndsOnce (finish_with w rest) ok
        (with_state closed (record (closed.state) { run = some resumed; suspended = rest })) o false
        h

  pub finish_with-FinishEnds : (suspended : List PipelineRun) → FinishEnds (finish_with w suspended)
  finish_with-FinishEnds [] e o outcome result h = last-EndsOnce e o outcome result e.state.run h
  finish_with-FinishEnds (resumed ∷ rest) e o outcome result h =
      next-EndsOnce resumed rest (finish_with-FinishEnds rest) e o outcome result e.state.run h

  pub finish_run-EndsOnce : FinishEnds (finish_run w)
  unfolding finish_run
  finish_run-EndsOnce e o outcome result h =
      finish_with-FinishEnds e.state.suspended e o outcome result h

  pub advance-EndsOnce :
      (e : Engine) (o : Out) (acknowledge : Bool)
      → e.state.phase ≡ active
      → EndsOnce o (advance w e o acknowledge)
  unfolding advance
  advance-EndsOnce e o acknowledge h =
      advance_with-EndsOnce (finish_with w e.state.suspended)
        (finish_with-FinishEnds e.state.suspended) e o acknowledge h
