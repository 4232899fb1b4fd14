-- ===== src/Engine/Started/Acts.antt =====
-- crates/callora-core/src/engine.rs: the steps of `advance` that may start a business action.
use callora.Base.{
  ℕ, suc, ◌≤◌, Bool, true, false, Option, none, some, List, [], ◌++◌, String, ◌≡◌, refl, arith,
  Option-cases, Bool-cases, ◌⊎◌, inl, inr, ◌∙◌, ap, ap₂, subst, sym, lookup, not, ◌&&◌, mem,
}
use callora.Call.Run.{PipelineRun, SlotState, executing}
use callora.Engine.Config.{PipelineConfig}
use callora.Engine.Speech.{run_action, SpeechPlan, ActionInput}
use callora.Engine.Out.{Out}
use callora.Engine.Out
use callora.Engine.State.{Engine, Report}
use callora.Engine.Env.{Env, Context}
use callora.Engine.Say.{render_ctx, pipeline_of, render_plan, say, say_some, ask, with_state}
use callora.Engine.Fill.{with_run, fill_defaults, fill_from_other_tasks}
use callora.Engine.Flow.{
  first_doubtful, first_missing, below_action, confirm_value, speak_filler, execute, act, unread,
  complete, move_on, advance_with, Finish, action_input, changes_something,
}
use callora.Engine.Frame.{
  Keeps, Keeps-refl, say-Keeps, say-directives, say_some-Keeps, say_some-directives, ask-Keeps,
  ask-directives, speak-directives, render_plan-Keeps,
}
use callora.Engine.Started.{
  first_missing-AllGiven, first_doubtful-AllCertain, actions, ids_of, Started, flush-actions,
  push-actions, quiet, Started-weaken, FinishStarts,
}

pipeline_of-eq :
    (e' e : Engine) (run : PipelineRun) (n : ℕ)
    → e'.business ≡ e.business
    → pipeline_of e' (record run { step = executing n; attempts = 1 }) ≡ pipeline_of e run
unfolding pipeline_of
pipeline_of-eq e' e run n h = rw h

module _ (w : Env) where
  abbrev pub StartedFrom : Engine → Out → Engine × Out → Type 0
  StartedFrom e o r = Started e.state.next_action_run (actions o.directives) r

  said-Started :
      (e : Engine) (o : Out) (r : String) (ctx : Context) (recording : Bool) (n : ℕ)
      (before : List ℕ)
      → actions o.directives ≡ before
      → ids_of e.state.run ≡ []
      → n ≤ e.state.next_action_run
      → Started n before (say w e o r ctx recording)
  said-Started e o r ctx recording n before a i g =
      let k = say-Keeps w e o r ctx recording in
      quiet n before (say w e o r ctx recording)
        (ap actions (say-directives w e o r ctx recording) ∙ a) (ap ids_of k.run ∙ i)
        (omega (arith, k.next_action_run))

  asked-Started :
      (e : Engine) (o : Out) (slot : String) (acknowledge : Bool) (n : ℕ) (before : List ℕ)
      → actions o.directives ≡ before
      → ids_of e.state.run ≡ []
      → n ≤ e.state.next_action_run
      → Started n before (ask w e o slot acknowledge)
  asked-Started e o slot acknowledge n before a i g =
      let k = ask-Keeps w e o slot acknowledge in
      quiet n before (ask w e o slot acknowledge)
        (ap actions (ask-directives w e o slot acknowledge) ∙ a) (ap ids_of k.run ∙ i)
        (omega (arith, k.next_action_run))

  confirm_value-Started :
      (e : Engine) (o : Out) (run : PipelineRun) (d : String × SlotState)
      → StartedFrom e o (confirm_value w e o run d)
  unfolding confirm_value
  confirm_value-Started e o run (slot, s) = said-Started _ o _ _ true _ _ refl refl (omega arith)

  abbrev filled : Out → Option SpeechPlan → Out
  filled o plan = elim plan [ none ↦ o | some p ↦ Out.flush (Out.speak o p false) true ]

  filled-actions :
      (o : Out) (plan : Option SpeechPlan)
      → actions (filled o plan).directives ≡ actions o.directives
  filled-actions o none = refl
  filled-actions o (some p) =
      flush-actions (Out.speak o p false) true ∙ ap actions (speak-directives o p false)

  speak_filler-Keeps :
      (e : Engine) (o : Out) (f : Option String)
      → Keeps e (speak_filler w e o f).0
        × (actions (speak_filler w e o f).1.directives ≡ actions o.directives)
  speak_filler-Keeps e o none = (Keeps-refl e, refl)
  speak_filler-Keeps e o (some f) = elim (Bool-cases (Out.has_speech o)) [
    | inl h ↦ rw h (Keeps-refl e, refl)
    | inr h ↦ rw h (
      render_plan-Keeps w e f (render_ctx e),
      filled-actions o (render_plan w e f (render_ctx e)).0,
    )
  ]

  execute-Started :
      (e : Engine) (o : Out) (run : PipelineRun) (p : PipelineConfig) (a : String)
      (input : Option ActionInput)
      → p ≡ pipeline_of e run
      → (p.confirm ≡ none) ⊎ (run.confirmed ≡ true)
      → first_missing p.slots run.slots ≡ none
      → first_doubtful e.business.slots p.slots run.slots ≡ none
      → (n : ℕ) → suc n ≡ e.state.next_action_run
      → Started n (actions o.directives) (execute w e o run p a n input)
  unfolding execute
  execute-Started e o run p a input hp u m d n hn = record {
    emitted = push-actions f.1 (run_action n a input) ∙ ap₂ ◌++◌ k.1 (sym (ap ids_of k.0.run));
    grows = omega (arith, k.0.next_action_run);
    fresh = rw k.0.run ((omega arith, omega (arith, k.0.next_action_run)), tt);
    ready = rw k.0.run (record {
      accepted = rw same u;
      given = rw same (first_missing-AllGiven p.slots run.slots m);
      certain = rw (k.0.business, same) (first_doubtful-AllCertain _ p.slots run.slots d);
    });
  }
    where
      e1 : Engine
      e1 = with_run e (record run { step = executing n; attempts = 1 })

      f : Engine × Out
      f = speak_filler w e1 o p.filler

      k : Keeps e1 f.0 × (actions f.1.directives ≡ actions o.directives)
      k = speak_filler-Keeps e1 o p.filler

      same : pipeline_of f.0 (record run { step = executing n; attempts = 1 }) ≡ p
      same = pipeline_of-eq f.0 e run n k.0.business ∙ sym hp

  finish_after :
      (finish : Finish)
      → FinishStarts finish
      → (n : ℕ) (e : Engine) (o : Out) (r : Engine × Out) → Keeps e r.0
      → r.1.directives ≡ o.directives
      → n ≤ e.state.next_action_run
      → (outcome : String) (result : Option Report)
      → Started n (actions o.directives) (finish r.0 r.1 outcome result)
  finish_after finish ok n e o r k d h outcome result =
      subst (λ ids. Started n ids (finish r.0 r.1 outcome result)) (ap actions d)
        (Started-weaken n r.0.state.next_action_run _ _ (omega (arith, k.next_action_run))
          (ok r.0 r.1 outcome result))

  act-Started :
      (finish : Finish)
      → FinishStarts finish
      → (e : Engine) (o : Out) (run : PipelineRun) (p : PipelineConfig) (a : String)
      → p ≡ pipeline_of e run
      → (p.confirm ≡ none) ⊎ (run.confirmed ≡ true)
      → first_missing p.slots run.slots ≡ none
      → first_doubtful e.business.slots p.slots run.slots ≡ none
      → StartedFrom e o (act w finish e o run p a)
  unfolding act pipeline_of
  act-Started finish ok e o run p a hp u m d =
      elim (Option-cases (below_action (lookup a e.business.actions) run)) [
        | inr (v, b) ↦ rw (b, act) (confirm_value-Started e o run v)
        | inl b ↦ elim (Bool-cases known) [
          | inl t ↦
              rw (b, act, t)
                (finish_after finish ok n e1 o (say_some w e1 o p.on_failure true)
                  (say_some-Keeps w e1 o p.on_failure true)
                  (say_some-directives w e1 o p.on_failure true) (omega arith) "failed" _)
          | inr t ↦
              rw (b, act, t) (execute-Started e1 o run p a (action_input e1 n) hp u m d n refl)
        ]
      ]
    where
      n : ℕ
      n = e.state.next_action_run

      e1 : Engine
      e1 = with_state e (record (e.state) { next_action_run = suc n })

      known : Bool
      known =
          not (changes_something (lookup a e.business.actions))
          && mem (w.failed_key a (action_input e1 n)) e1.state.failed_actions

  unread-none :
      (p : PipelineConfig) (run : PipelineRun)
      → unread w p.confirm run ≡ none
      → (p.confirm ≡ none) ⊎ (run.confirmed ≡ true)
  unread-none p run h = ground arith

  complete-Started :
      (finish : Finish)
      → FinishStarts finish
      → (e : Engine) (o : Out) (run : PipelineRun) (p : PipelineConfig) → p ≡ pipeline_of e run
      → first_missing p.slots run.slots ≡ none
      → first_doubtful e.business.slots p.slots run.slots ≡ none
      → StartedFrom e o (complete w finish e o run p)
  unfolding complete
  complete-Started finish ok e o run p hp m d = elim (Option-cases (unread w p.confirm run)) [
    | inr (c, u) ↦ rw (u, complete) (said-Started _ o _ _ true _ _ refl refl (omega arith))
    | inl u ↦ elim (Option-cases p.action) [
      | inr (a, h) ↦
          rw (u, complete, h) (act-Started finish ok e o run p a hp (unread-none p run u) m d)
      | inl h ↦
          rw (u, complete, h)
            (finish_after finish ok e.state.next_action_run e o (say_some w e o p.on_complete true)
              (say_some-Keeps w e o p.on_complete true)
              (say_some-directives w e o p.on_complete true) (omega arith) "completed" none)
    ]
  ]

  move_on-Started :
      (finish : Finish)
      → FinishStarts finish
      → (e : Engine) (o : Out) (acknowledge : Bool) (run : PipelineRun) (p : PipelineConfig)
      → p ≡ pipeline_of e run
      → StartedFrom e o (move_on w finish e o acknowledge run p)
  unfolding move_on
  move_on-Started finish ok e o acknowledge run p hp = elim (Option-cases doubtful) [
    | inr (v, d) ↦ rw (d, move_on) (confirm_value-Started e o run v)
    | inl d ↦ elim (Option-cases (first_missing p.slots run.slots)) [
      | inr (slot, m) ↦
          rw (d, move_on, m) (asked-Started _ o slot acknowledge _ _ refl refl (omega arith))
      | inl m ↦ rw (d, move_on, m) (complete-Started finish ok e o run p hp m d)
    ]
  ]
    where
      doubtful : Option (String × SlotState)
      doubtful = first_doubtful e.business.slots p.slots run.slots

  fill_defaults-Fills :
      (e : Engine) (p : PipelineConfig) (run : PipelineRun)
      → (slots : List (String × SlotState)) × (fill_defaults w (with_run e run) p
          ≡ with_run e (record run { slots = slots }))
  unfolding fill_defaults fill_from_other_tasks
  fill_defaults-Fills e p run = (_, refl)

  same_pipeline :
      (e : Engine) (run : PipelineRun) (slots : List (String × SlotState))
      → pipeline_of (with_run e run) run
        ≡ pipeline_of (with_run e (record run { slots = slots })) (record run { slots = slots })
  unfolding pipeline_of
  same_pipeline e run slots = refl

  abbrev after_filling : Finish → Engine → Out → Bool → PipelineConfig → Engine × Out
  after_filling finish e1 o acknowledge p = elim e1.state.run [
    | none ↦ (e1, o)
    | some run1 ↦ move_on w finish e1 o acknowledge run1 p
  ]

  running-Started :
      (finish : Finish)
      → FinishStarts finish
      → (e : Engine) (o : Out) (acknowledge : Bool) (run : PipelineRun)
      → StartedFrom e o (advance_with w finish (with_run e run) o acknowledge)
  running-Started finish ok e o acknowledge run =
      let p = pipeline_of (with_run e run) run in
      let (slots, f) = fill_defaults-Fills e p run in
      subst (λ e1. StartedFrom e o (after_filling finish e1 o acknowledge p)) (sym f)
        (move_on-Started finish ok (with_run e (record run { slots = slots })) o acknowledge
          (record run { slots = slots }) p (same_pipeline e run slots))

  pub advance_with-Started :
      (finish : Finish)
      → FinishStarts finish
      → (e : Engine) (o : Out) (acknowledge : Bool) (run : PipelineRun) → e.state.run ≡ some run
      → StartedFrom e o (advance_with w finish e o acknowledge)
  advance_with-Started finish ok e o acknowledge run h =
      subst
        (λ r.
          StartedFrom e o (
            advance_with w finish (record e { state = record (e.state) { run = r } }) o
              acknowledge))
        (sym h) (running-Started finish ok e o acknowledge run)
