-- ===== src/Engine/Agent/Starts.antt =====
-- crates/callora-core/src/engine.rs: the agent's turn starts an action only when the task is ready for it.
use callora.Base.{
  ℕ, Option, none, some, [], ◌≡◌, ◌⊎◌, String, refl, arith, ◌∙◌, ap, subst, sym, append-nil, lookup,
  true,
}
use callora.Call.Run.{
  PipelineRun, Step, collecting, confirming_slot, awaiting_confirmation, executing,
}
use callora.Engine.Speech.{hangup}
use callora.Engine.Out.{Out}
use callora.Engine.Out
use callora.Engine.State.{Engine, Phase, active, ending, handing_off}
use callora.Engine.Env.{Env}
use callora.Engine.Say.{or_else, pipeline_of, no_pipeline, say_some}
use callora.Engine.Handoff.{with_phase, handoff}
use callora.Engine.Results.{force_handoff, ended_if_active}
use callora.Engine.Frame.{
  Keeps, say_some-Keeps, say_some-directives, say-Keeps, say-directives, speak-directives,
}
use callora.Engine.Answer.{Check}
use callora.Engine.Started.{
  actions, ids_of, Started, AllGiven, AllCertain, IsReady, ReadyAt, ReadyRun, quiet, push-actions,
}
use callora.Engine.Utterance.Starts.{
  given, nothing_said, Idle, steps, finish-Started, handoff-Idle, ready_with,
}
use callora.Engine.Agent.{AgentTurn, Hearing}
use callora.Engine.Agent.Whole.{on_agent_turn}
use callora.Engine.Agent.Steps.{AgentSteps}
use callora.Engine.Agent.Closed.{on_agent_turn-Closed}

-- What makes a task ready is read from the run and the business.
same-IsReady :
    (e e' : Engine) (run : PipelineRun) → e'.business ≡ e.business → IsReady e run → IsReady e' run
unfolding pipeline_of
same-IsReady e e' run b r = record {
  accepted =
      subst
        (λ c.
          ((or_else (lookup run.pipeline c.pipelines) no_pipeline).confirm ≡ none)
          ⊎ (run.confirmed ≡ true))
        (sym b) r.accepted;
  given =
      subst (λ c. AllGiven (or_else (lookup run.pipeline c.pipelines) no_pipeline).slots run.slots)
        (sym b) r.given;
  certain =
      subst
        (λ c.
          AllCertain c.slots (or_else (lookup run.pipeline c.pipelines) no_pipeline).slots
            run.slots)
        (sym b) r.certain;
}

ready_step :
    (e e' : Engine) (run : PipelineRun) (t : Step)
    → e'.business ≡ e.business
    → ReadyAt e run t
    → ReadyAt e' run t
ready_step e e' run (executing _) b r = same-IsReady e e' run b r
ready_step e e' run (collecting _) b r = tt
ready_step e e' run (confirming_slot _) b r = tt
ready_step e e' run awaiting_confirmation b r = tt

ready_run :
    (e e' : Engine) (c : Option PipelineRun)
    → e'.business ≡ e.business
    → ReadyRun e c
    → ReadyRun e' c
ready_run e e' none b r = tt
ready_run e e' (some run) b r = ready_step e e' run run.step b r

module _ (w : Env) (n : ℕ) where
  -- What changes neither the run nor the actions leaves them as they were.
  kept-Started :
      (e e' : Engine) (o o' : Out)
      → Keeps e e'
      → actions o'.directives ≡ actions o.directives
      → Started n [] (e, o)
      → Started n [] (e', o')
  kept-Started e e' o o' k a s = record {
    emitted = a ∙ s.emitted ∙ ap ids_of (sym k.run);
    grows = omega (arith, k.next_action_run, s.grows);
    fresh = rw (k.run, k.next_action_run) s.fresh;
    ready = subst (ReadyRun e') (sym k.run) (ready_run e e' e.state.run k.business s.ready);
  }

  hung_up-Started :
      (e : Engine) (o : Out)
      → Started n [] (e, o)
      → Started n [] (with_phase e ending, Out.push o hangup)
  hung_up-Started e o s = record {
    emitted = push-actions o hangup ∙ append-nil (actions o.directives) ∙ s.emitted;
    grows = s.grows;
    fresh = s.fresh;
    ready = ready_with e (record (e.state) { phase = ending }) e.state.run s.ready;
  }

  ended_if_active-Started :
      (e : Engine) (o : Out) (p : Phase)
      → Started n [] (e, o)
      → Started n [] (ended_if_active w e o p)
  ended_if_active-Started e o active s = hung_up-Started e o s
  ended_if_active-Started e o handing_off s = s
  ended_if_active-Started e o ending s = s

  ShutDown : Engine → String → Type 0
  ShutDown e reason = let r = force_handoff w e reason in Started n [] (r.0, given r.1)

  forced :
      (e : Engine) (reason : String) (p : Phase)
      → Idle w n (with_phase e p) Out.empty
      → ShutDown (with_phase e p) reason
  unfolding force_handoff ShutDown
  forced e reason active k =
      let r = handoff w (with_phase e active) Out.empty reason in
      let x = ended_if_active w r.0 r.1 r.0.state.phase in
      finish-Started w n x (
        ended_if_active-Started r.0 r.1 r.0.state.phase
          (handoff-Idle w n (with_phase e active) Out.empty reason k))
  forced e reason handing_off (a, i, g) = quiet n [] (with_phase e handing_off, given []) refl i g
  forced e reason ending (a, i, g) = quiet n [] (with_phase e ending, given []) refl i g

  pub agent_steps : AgentSteps w (Idle w n) (Started n []) (λ r. Started n [] (r.0, given r.1))
  agent_steps = record {
    steps = steps w n;
    says_in = λ e o r ctx recording (a, i, g).
        let k = say-Keeps w e o r ctx recording in
        (
          ap actions (say-directives w e o r ctx recording) ∙ a,
          ap ids_of k.run ∙ i,
          omega (arith, k.next_action_run, g),
        );
    notes = λ e o p k. k;
    notes_after = λ e o p k. record {
      emitted = k.emitted;
      grows = k.grows;
      fresh = k.fresh;
      ready = k.ready;
    };
    speaks_after = λ e o p recording s. record {
      emitted = ap actions (speak-directives o p recording) ∙ s.emitted;
      grows = s.grows;
      fresh = s.fresh;
      ready = s.ready;
    };
    says_after = λ e o r recording s.
        kept-Started e (say_some w e o r recording).0 o (say_some w e o r recording).1
          (say_some-Keeps w e o r recording) (ap actions (say_some-directives w e o r recording)) s;
    closes = finish-Started w n;
    forces = λ e reason k. unfold ShutDown in forced e reason e.state.phase k;
    restarts = λ e o (a, i, g). (nothing_said, i, g);
  }

-- Whatever the language model decides for what a caller said in an active call where no action runs, the turn
-- adds no action or one: that of the task it leaves waiting for an action, if it leaves one. The run id was
-- not given out before. The read-back of that task is accepted where it has one, every required detail is
-- given, and none of its details is too doubtful.
pub on_agent_turn-Started :
    (w : Env) (h : Hearing) (check : String → Check) (e : Engine) (transcript : String)
    (t : AgentTurn) (spoken : String)
    → e.state.phase ≡ active
    → ids_of e.state.run ≡ []
    → let r = on_agent_turn w h check e transcript t spoken in
      Started e.state.next_action_run [] (r.0, given r.1)
on_agent_turn-Started w h check e transcript t spoken p i =
    let n = e.state.next_action_run in
    on_agent_turn-Closed w h (Idle w n) (Started n []) (λ r. Started n [] (r.0, given r.1))
      (agent_steps w n) check e transcript t spoken p (nothing_said, i, omega arith)
