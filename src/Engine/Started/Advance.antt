-- ===== src/Engine/Started/Advance.antt =====
-- crates/callora-core/src/engine.rs: `advance` and `finish_run` start an action only for the task
-- they leave waiting for it.
use callora.Base.{
  Bool, true, false, Option, none, some, List, [], ◌∷◌, String, ◌≡◌, refl, arith, Bool-cases, inl,
  inr, ap, ◌∙◌, append-nil, str_eq,
}
use callora.Call.Run.{PipelineRun}
use callora.Engine.Config.{AfterPipeline, continue, hang_up}
use callora.Engine.Speech.{hangup}
use callora.Engine.Out.{Out}
use callora.Engine.State.{Engine, Report}
use callora.Engine.Env.{Env}
use callora.Engine.Say.{pipeline_of, say, say_here, or_else, render_ctx, has_response, with_state}
use callora.Engine.Flow.{
  goodbye, offer_more, advance_with, after_run, finish_with, finish_run, advance, close_run,
}
use callora.Engine.Frame.{say-Keeps, say-directives}
use callora.Engine.Started.{actions, ids_of, Started, push-actions, quiet, FinishStarts}
use callora.Engine.Started.Acts.{StartedFrom, advance_with-Started}

module _ (w : Env) where
  goodbye-Started :
      (e : Engine) (o : Out) → ids_of e.state.run ≡ [] → StartedFrom w e o (goodbye w e o)
  unfolding goodbye
  goodbye-Started e o i =
      let r = or_else (e.business.meta_response _) e.business.goodbye in
      let k = say-Keeps w e o r (render_ctx e) true in
      quiet e.state.next_action_run (actions o.directives) (goodbye w e o)
        (push-actions (say w e o r (render_ctx e) true).1 hangup
          ∙ append-nil _
          ∙ ap actions (say-directives w e o r (render_ctx e) true))
        (ap ids_of k.run ∙ i) (omega (arith, k.next_action_run))

  -- A response said with no run waiting for an action.
  said_here :
      (e : Engine) (o : Out) (r : String) (b : Bool)
      → ids_of e.state.run ≡ []
      → StartedFrom w e o
          (record ((say_here w e o r true).0) { offered_more = b }, (say_here w e o r true).1)
  said_here e o r b i =
      let k = say-Keeps w e o r (render_ctx e) true in
      quiet e.state.next_action_run (actions o.directives)
        (record ((say_here w e o r true).0) { offered_more = b }, (say_here w e o r true).1)
        (ap actions (say-directives w e o r (render_ctx e) true)) (ap ids_of k.run ∙ i)
        (omega (arith, k.next_action_run))

  offer_more-Started :
      (e : Engine) (o : Out) → ids_of e.state.run ≡ [] → StartedFrom w e o (offer_more w e o)
  unfolding offer_more
  offer_more-Started e o i = said_here e o e.business.anything_else true i

  after_run-Started :
      (e : Engine) (o : Out) (after : AfterPipeline) (offer : Option String) (outcome : String)
      → ids_of e.state.run ≡ []
      → StartedFrom w e o (after_run w e o after offer outcome)
  unfolding after_run
  after_run-Started e o hang_up offer outcome i = elim (Bool-cases (str_eq outcome "success")) [
    | inl h ↦ rw h (goodbye-Started e o i)
    | inr h ↦ rw h (offer_more-Started e o i)
  ]
  after_run-Started e o continue none outcome i = offer_more-Started e o i
  after_run-Started e o continue (some offer) outcome i = elim (Bool-cases (has_response e offer)) [
    | inl h ↦ rw h (said_here e o offer true i)
    | inr h ↦ rw h (offer_more-Started e o i)
  ]

  abbrev at : Engine → Option PipelineRun → Engine
  at e r = record e { state = record (e.state) { run = r } }

  no_run : (e : Engine) (o : Out) → StartedFrom w e o (at e none, o)
  no_run e o =
      quiet e.state.next_action_run (actions o.directives) (at e none, o) refl refl (omega arith)

  FinishStarts-last :
      (e : Engine) (o : Out) (outcome : String) (result : Option Report) (r : Option PipelineRun)
      → StartedFrom w e o (finish_with w [] (at e r) o outcome result)
  unfolding finish_with close_run
  FinishStarts-last e o outcome result none = no_run e o
  FinishStarts-last e o outcome result (some run) =
      let p = pipeline_of (at e (some run)) run in
      after_run-Started (close_run (at e (some run)) outcome result) o p.after p.offer outcome refl

  FinishStarts-next :
      (resumed : PipelineRun) (rest : List PipelineRun)
      → FinishStarts (finish_with w rest)
      → (e : Engine) (o : Out) (outcome : String) (result : Option Report) (r : Option PipelineRun)
      → StartedFrom w e o (finish_with w (resumed ∷ rest) (at e r) o outcome result)
  unfolding finish_with close_run
  FinishStarts-next resumed rest ok e o outcome result none = no_run e o
  FinishStarts-next resumed rest ok e o outcome result (some run) =
      let closed = close_run (at e (some run)) outcome result in
      advance_with-Started w (finish_with w rest) ok
        (with_state closed (record (closed.state) { run = some resumed; suspended = rest })) o false
        resumed refl

  pub finish_with-FinishStarts :
      (suspended : List PipelineRun) → FinishStarts (finish_with w suspended)
  finish_with-FinishStarts [] e o outcome result = FinishStarts-last e o outcome result e.state.run
  finish_with-FinishStarts (resumed ∷ rest) e o outcome result =
      FinishStarts-next resumed rest (finish_with-FinishStarts rest) e o outcome result e.state.run

  -- Finishing a task, with every suspended task that this resumes and finishes, adds no action
  -- or one: that of the task it leaves waiting for an action, if it leaves one. The run id was
  -- not given out before. The read-back of that task is accepted where it has one, every
  -- required detail is given, and none of its details is too doubtful.
  pub finish_run-Started :
      (e : Engine) (o : Out) (outcome : String) (result : Option Report)
      → Started e.state.next_action_run (actions o.directives) (finish_run w e o outcome result)
  unfolding finish_run
  finish_run-Started e o outcome result =
      finish_with-FinishStarts e.state.suspended e o outcome result

  advanced :
      (e : Engine) (o : Out) (acknowledge : Bool) (r : Option PipelineRun)
      → (suspended : List PipelineRun)
      → StartedFrom w e o (advance_with w (finish_with w suspended) (at e r) o acknowledge)
  advanced e o acknowledge none suspended = no_run e o
  advanced e o acknowledge (some run) suspended =
      advance_with-Started w (finish_with w suspended) (finish_with-FinishStarts suspended)
        (at e (some run)) o acknowledge run refl

  -- Moving the current task forward, with every task that it finishes and resumes on the way,
  -- adds no action or one: that of the task it leaves waiting for an action, if it leaves one.
  -- The run id was not given out before. The read-back of that task is accepted where it has
  -- one, every required detail is given, and none of its details is too doubtful.
  pub advance-Started :
      (e : Engine) (o : Out) (acknowledge : Bool)
      → Started e.state.next_action_run (actions o.directives) (advance w e o acknowledge)
  unfolding advance
  advance-Started e o acknowledge = advanced e o acknowledge e.state.run e.state.suspended
