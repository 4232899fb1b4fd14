-- ===== src/Engine/Results/Last.antt =====
-- crates/callora-core/src/engine.rs: what the last failure of an action starts.
use callora.Base.{
  none, Option, ℕ, ◌≤◌, ltb, leb, Bool, true, false, some, [], String, ◌≡◌, refl, arith, ap, subst,
  sym, ◌∙◌, lookup, Bool-cases, Option-cases, inl, inr, append-nil, str_eq,
}
use callora.Call.Run.{PipelineRun}
use callora.Engine.Config.{PipelineConfig, AfterPipeline, hang_up, continue}
use callora.Engine.Speech.{hand_off, hangup}
use callora.Engine.Out.{Out}
use callora.Engine.Out
use callora.Engine.State.{Engine, Report, failed, outcome_unknown}
use callora.Engine.Env.{Env}
use callora.Engine.Say.{pipeline_of, finish, or_else, has_response, say_here, say_some, render_ctx}
use callora.Engine.Flow.{
  changes_something, goodbye, offer_more, after_run, finish_with, finish_run, close_run,
}
use callora.Engine.Handoff.{handoff, has_desk, to_desk}
use callora.Engine.Frame.{Keeps, say-directives, say_some-Keeps, say_some-directives}
use callora.Engine.Fill.{with_run}
use callora.Engine.Started.{actions, push-actions, flush-actions}
use callora.Engine.Results.{
  awaited, ActionFailure, err, handle_result, on_action_result, left_unknown, failed_for_good,
  count_failure,
}
use callora.Engine.Results.Retry.{attempt, attempts_allowed}

-- Nothing is asked of the backend.
abbrev Quiet : Out → Type 0
Quiet o = actions o.directives ≡ []

own :
    (run : PipelineRun) (id a : ℕ) → awaited (some (attempt run id a)) id ≡ some (attempt run id a)
own run id a = ground arith

module _ (w : Env) where
  said-Quiet : (e : Engine) (o : Out) (r : String) → Quiet o → Quiet (say_here w e o r true).1
  said-Quiet e o r a = ap actions (say-directives w e o r (render_ctx e) true) ∙ a

  hung_up : (o : Out) → Quiet o → Quiet (Out.push o hangup)
  hung_up o a = push-actions o hangup ∙ append-nil _ ∙ a

  offer_more-Quiet : (e : Engine) (o : Out) → Quiet o → Quiet (offer_more w e o).1
  unfolding offer_more
  offer_more-Quiet e o a = said-Quiet e o e.business.anything_else a

  goodbye-Quiet : (e : Engine) (o : Out) → Quiet o → Quiet (goodbye w e o).1
  unfolding goodbye
  goodbye-Quiet e o a = hung_up _ (said-Quiet e o _ a)

  after_run-Quiet :
      (e : Engine) (o : Out) (after : AfterPipeline) (offer : Option String) (outcome : String)
      → Quiet o
      → Quiet (after_run w e o after offer outcome).1
  unfolding after_run
  after_run-Quiet e o hang_up offer outcome a = elim (Bool-cases (str_eq outcome "success")) [
    | inl t ↦ rw t (goodbye-Quiet e o a)
    | inr t ↦ rw t (offer_more-Quiet e o a)
  ]
  after_run-Quiet e o continue none outcome a = offer_more-Quiet e o a
  after_run-Quiet e o continue (some offer) outcome a = elim (Bool-cases (has_response e offer)) [
    | inl t ↦ rw t (said-Quiet e o offer a)
    | inr t ↦ rw t (offer_more-Quiet e o a)
  ]

  abbrev at : Engine → Option PipelineRun → Engine
  at e r = record e { state = record (e.state) { run = r } }

  finished-Quiet :
      (e : Engine) (o : Out) (outcome : String) (result : Option Report) (r : Option PipelineRun)
      → Quiet o
      → Quiet (finish_with w [] (at e r) o outcome result).1
  unfolding finish_with
  finished-Quiet e o outcome result none a = a
  finished-Quiet e o outcome result (some run) a =
      let p = pipeline_of (at e (some run)) run in
      after_run-Quiet (close_run (at e (some run)) outcome result) o p.after p.offer outcome a

  finish_run-Quiet :
      (e : Engine) (o : Out) (outcome : String) (result : Option Report)
      → e.state.suspended ≡ []
      → Quiet o
      → Quiet (finish_run w e o outcome result).1
  unfolding finish_run
  finish_run-Quiet e o outcome result h a =
      subst (λ s. Quiet (finish_with w s e o outcome result).1) (sym h)
        (finished-Quiet e o outcome result e.state.run a)

  to_desk-Quiet :
      (e : Engine) (o : Out) (reason : String) → Quiet o → Quiet (to_desk w e o reason).1
  to_desk-Quiet e o reason a =
      push-actions (say_here w e o e.business.handoff_response true).1 (hand_off _)
      ∙ append-nil _
      ∙ said-Quiet e o e.business.handoff_response a

  handoff-Quiet : (e : Engine) (o : Out) → Quiet o → Quiet (handoff w e o "action_failed").1
  unfolding handoff
  handoff-Quiet e o a = elim (Bool-cases (has_desk e)) [
    | inl d ↦ rw (handoff, d) (to_desk-Quiet e o "action_failed" a)
    | inr d ↦ rw (handoff, d) (hung_up _ (said-Quiet e o e.business.unavailable_response a))
  ]

  desk-Quiet :
      (e : Engine) (o : Out) (reason : String)
      → has_desk e ≡ true
      → Quiet o
      → Quiet (handoff w e o reason).1
  unfolding handoff
  desk-Quiet e o reason d a = rw (handoff, d) (to_desk-Quiet e o reason a)

  has_desk-Keeps : (e e' : Engine) → Keeps e e' → has_desk e' ≡ has_desk e
  unfolding has_desk
  has_desk-Keeps e e' k = elim (Option-cases e.desk) [
    | inl d ↦ simp (has_desk, k.desk, d, k.business)
    | inr (available, d) ↦ simp (has_desk, k.desk, d)
  ]

  finish-directives : (e : Engine) (o : Out) → actions (finish w e o).1 ≡ actions o.directives
  unfolding finish
  finish-directives e o = flush-actions o false

  counted :
      (e : Engine) (a : String) (id : ℕ) (changes : Bool)
      → (count_failure w e a id changes).state.suspended ≡ e.state.suspended
  counted e a id true = refl
  counted e a id false = refl

  failed_for_good-Quiet :
      (e : Engine) (p : PipelineConfig) (a : String) (id : ℕ) (error : String)
      → e.state.suspended ≡ []
      → Quiet (failed_for_good w e p a id error).1
  unfolding failed_for_good Out.empty
  failed_for_good-Quiet e p a id error h =
      let changes = changes_something (lookup a e.business.actions) in
      let e1 = count_failure w e a id changes in
      let s = say_some w e1 Out.empty p.on_failure true in
      let silent = ap actions (say_some-directives w e1 Out.empty p.on_failure true) in
      let none_left =
        (say_some-Keeps w e1 Out.empty p.on_failure true).suspended ∙ counted e a id changes ∙ h in
      elim (Bool-cases (leb s.0.business.after_action_failures s.0.state.action_failures)) [
        | inl t ↦ rw (failed_for_good, t) (handoff-Quiet s.0 s.1 silent)
        | inr t ↦
            rw (failed_for_good, t)
              (finish_run-Quiet s.0 s.1 "failed" (some (failed error)) none_left silent)
      ]

  left_unknown-Quiet :
      (e : Engine) (p : PipelineConfig) (error : String) (id : ℕ)
      → e.state.suspended ≡ []
      → Quiet (left_unknown w e p error id).1
  unfolding left_unknown Out.empty
  left_unknown-Quiet e p error id h =
      let s = say_some w e Out.empty p.on_unknown true in
      let silent = ap actions (say_some-directives w e Out.empty p.on_unknown true) in
      elim (Bool-cases (has_desk e)) [
        | inl d ↦
            let kept = has_desk-Keeps e s.0 (say_some-Keeps w e Out.empty p.on_unknown true) in
            rw (left_unknown, d) (desk-Quiet s.0 s.1 "action_outcome_unknown" (kept ∙ d) silent)
        | inr d ↦
            rw (left_unknown, d)
              (finish_run-Quiet e Out.empty "unknown" (some (outcome_unknown error id)) h refl)
      ]

  handle_result-Quiet :
      (e : Engine) (run : PipelineRun) (id a : ℕ) (f : ActionFailure)
      → e.state.suspended ≡ []
      → attempts_allowed e run ≤ a
      → Quiet (handle_result w (with_run e (attempt run id a)) (attempt run id a) id (err f)).1
  unfolding handle_result pipeline_of
  handle_result-Quiet e run id a f h last =
      let e1 = with_run e (attempt run id a) in
      let p = pipeline_of e run in
      let over : ltb a (attempts_allowed e run) ≡ false = ground (arith, last) in
      elim (Bool-cases f.outcome_unknown) [
        | inl u ↦ rw (handle_result, over, u) (left_unknown-Quiet e1 p f.error id h)
        | inr u ↦
            rw (handle_result, over, u)
              (failed_for_good-Quiet e1 p (or_else p.action "") id f.error h)
      ]

  -- Once as many attempts of the only open task's action have failed as the action allows, a
  -- further failure, of whichever kind, asks for no action at all, neither this one again nor
  -- another.
  pub on_action_result-last :
      (e : Engine) (run : PipelineRun) (id a : ℕ) (f : ActionFailure)
      → e.state.suspended ≡ []
      → attempts_allowed e run ≤ a
      → actions (on_action_result w (with_run e (attempt run id a)) id (err f)).1 ≡ []
  unfolding on_action_result
  on_action_result-last e run id a f h last =
      let r = handle_result w (with_run e (attempt run id a)) (attempt run id a) id (err f) in
      rw (on_action_result, own run id a)
        (finish-directives r.0 r.1 ∙ handle_result-Quiet e run id a f h last)
