-- ===== src/Engine/Utterance/Starts.antt =====
-- crates/callora-core/src/engine.rs: an utterance's turn starts an action only when the task is ready for it.
use callora.Base.{
  ℕ, ◌≤◌, Bool, true, false, Option, none, some, [], List, ◌∷◌, ◌++◌, String, ◌≡◌, refl, arith, ◌∙◌,
  ap, ap₂, subst, sym, Bool-cases, Option-cases, inl, inr, ◌||◌, str_eq, suc, is_some,
}
use callora.Engine.Speech.{SpeechPlan, Directive, hangup, hand_off, agent}
use callora.Engine.Out.{Out}
use callora.Engine.Out
use callora.Engine.State.{Engine, CallState, active, ending, handing_off}
use callora.Engine.Env.{Env}
use callora.Engine.Say.{
  say_some, ask, finish, remember, with_state, or_else, plan_text, pipeline_of,
}
use callora.Call.Run.{
  PipelineRun, Step, collecting, confirming_slot, awaiting_confirmation, executing,
}
use callora.Engine.Config.{say_goodbye}
use callora.Engine.Flow.{goodbye, offer_more, advance, finish_run}
use callora.Engine.Handoff.{with_phase, handoff, has_desk, to_desk, without_desk, restart_once}
use callora.Engine.Summary.{summary}
use callora.Engine.Frame.{
  say_some-Keeps, say_some-directives, speak-directives, ask-Keeps, ask-directives,
}
use callora.Engine.Understanding.{Understanding}
use callora.Engine.Answer.{Check}
use callora.Engine.Utterance.{on_utterance}
use callora.Engine.Started.{
  actions, ids_of, Started, ReadyRun, ReadyAt, quiet, push-actions, flush-actions, Started-weaken,
}
use callora.Engine.Started.Advance.{advance-Started, finish_run-Started}
use callora.Engine.Utterance.Steps.{Steps}
use callora.Engine.Utterance.Whole.{on_utterance-Closed}

-- The directives of a turn, as they are handed out.
abbrev pub given : List Directive → Out
given ds = record { directives = ds; pending = none; recorded = none }

pub nothing_said : actions Out.empty.directives ≡ []
unfolding Out.empty
nothing_said = refl

ready_at :
    (e : Engine) (s : CallState) (run : PipelineRun) (t : Step)
    → ReadyAt e run t
    → ReadyAt (with_state e s) run t
unfolding pipeline_of
ready_at e s run (executing _) r = record {
  accepted = r.accepted;
  given = r.given;
  certain = r.certain;
}
ready_at e s run (collecting _) r = tt
ready_at e s run (confirming_slot _) r = tt
ready_at e s run awaiting_confirmation r = tt

-- A task is as ready in another state of the call.
pub ready_with :
    (e : Engine) (s : CallState) (c : Option PipelineRun)
    → ReadyRun e c
    → ReadyRun (with_state e s) c
ready_with e s none r = tt
ready_with e s (some run) r = ready_at e s run run.step r

module _ (w : Env) (n : ℕ) where
  -- No action was started, and none runs.
  abbrev pub Idle : Engine → Out → Type 0
  Idle e o = (actions o.directives ≡ []) × (ids_of e.state.run ≡ []) × (n ≤ e.state.next_action_run)

  idle-Started : (e : Engine) (o : Out) → Idle e o → Started n [] (e, o)
  idle-Started e o (a, i, g) = quiet n [] (e, o) a i g

  said-Idle :
      (e : Engine) (o : Out) (r : Option String) (recording : Bool)
      → Idle e o
      → Idle (say_some w e o r recording).0 (say_some w e o r recording).1
  said-Idle e o r recording (a, i, g) =
      let k = say_some-Keeps w e o r recording in
      (
        ap actions (say_some-directives w e o r recording) ∙ a,
        ap ids_of k.run ∙ i,
        omega (arith, k.next_action_run, g),
      )

  -- The directives so far have no action.
  from_none :
      (o : Out) (m : ℕ) (r : Engine × Out)
      → actions o.directives ≡ []
      → n ≤ m
      → Started m (actions o.directives) r
      → Started n [] r
  from_none o m r a g h = Started-weaken n m [] r g (subst (λ xs. Started m xs r) a h)

  advance-Idle :
      (e : Engine) (o : Out) (acknowledge : Bool)
      → Idle e o
      → Started n [] (advance w e o acknowledge)
  advance-Idle e o acknowledge (a, i, g) =
      from_none o e.state.next_action_run (advance w e o acknowledge) a g
        (advance-Started w e o acknowledge)

  pushed-Started :
      (e : Engine) (o : Out) (d : Directive)
      → actions (d ∷ []) ≡ []
      → Idle e o
      → Started n [] (e, Out.push o d)
  pushed-Started e o d q (a, i, g) =
      quiet n [] (e, Out.push o d) (push-actions o d ∙ ap₂ (◌++◌ {A = ℕ}) a q) i g

  to_desk-Idle :
      (e : Engine) (o : Out) (reason : String) → Idle e o → Started n [] (to_desk w e o reason)
  to_desk-Idle e o reason h =
      let said = say_some w e o (some e.business.handoff_response) true in
      let e2 = with_phase said.0 handing_off in
      pushed-Started e2 said.1 (hand_off (summary w e2 reason)) refl
        (said-Idle e o (some e.business.handoff_response) true h)

  without_desk-Idle :
      (e : Engine) (o : Out) (reason : String) → Idle e o → Started n [] (without_desk w e o reason)
  without_desk-Idle e o reason h =
      let said = say_some w e o (some e.business.unavailable_response) true in
      let k = said-Idle e o (some e.business.unavailable_response) true h in
      elim (Bool-cases (str_eq reason "not_understood" || str_eq reason "action_failed")) [
        | inl t ↦ rw t (pushed-Started (with_phase said.0 ending) said.1 hangup refl k)
        | inr t ↦ elim (Bool-cases (is_some said.0.state.run)) [
          | inl r ↦ rw (t, r) (advance-Idle said.0 said.1 false k)
          | inr r ↦ rw (t, r) (idle-Started said.0 said.1 k)
        ]
      ]

  pub handoff-Idle :
      (e : Engine) (o : Out) (reason : String) → Idle e o → Started n [] (handoff w e o reason)
  unfolding handoff
  handoff-Idle e o reason h = elim (Bool-cases (has_desk e)) [
    | inl d ↦ rw (handoff, d) (to_desk-Idle e o reason h)
    | inr d ↦ elim (Option-cases (restart_once e reason)) [
      | inl r ↦ rw (handoff, d, r) (without_desk-Idle e o reason h)
      | inr (restart, r) ↦
          let e1 = with_state e (record (e.state) {
            fallback_restarts = suc e.state.fallback_restarts;
            fallback_level = 0;
          }) in
          let said = say_some w e1 o (some restart) true in
          rw (handoff, d, r) (idle-Started said.0 said.1 (said-Idle e1 o (some restart) true h))
    ]
  ]

  goodbye-Idle : (e : Engine) (o : Out) → Idle e o → Started n [] (goodbye w e o)
  unfolding goodbye
  goodbye-Idle e o h =
      let r = or_else (e.business.meta_response say_goodbye) e.business.goodbye in
      let said = say_some w e o (some r) true in
      pushed-Started (with_phase said.0 ending) said.1 hangup refl (said-Idle e o (some r) true h)

  offer_more-Idle : (e : Engine) (o : Out) → Idle e o → Started n [] (offer_more w e o)
  unfolding offer_more
  offer_more-Idle e o h =
      let said = say_some w e o (some e.business.anything_else) true in
      idle-Started (record (said.0) { offered_more = true }) said.1
        (said-Idle e o (some e.business.anything_else) true h)

  ask-Idle :
      (e : Engine) (o : Out) (slot : String) (b : Bool) → Idle e o → Started n [] (ask w e o slot b)
  ask-Idle e o slot b (a, i, g) =
      let asked = ask w e o slot b in
      let k = ask-Keeps w e o slot b in
      idle-Started asked.0 asked.1 (
        ap actions (ask-directives w e o slot b) ∙ a,
        ap ids_of k.run ∙ i,
        omega (arith, k.next_action_run, g),
      )

  pub steps : Steps w Idle (Started n [])
  steps = record {
    stays = idle-Started;
    moves = λ e e' o (p, i, k) (a, j, g). (a, i j, omega (arith, k, g));
    says = said-Idle;
    speaks = λ e o p recording (a, i, g). (ap actions (speak-directives o p recording) ∙ a, i, g);
    asks = ask-Idle;
    advances = advance-Idle;
    finishes = λ e o outcome (a, i, g).
        from_none o e.state.next_action_run (finish_run w e o outcome none) a g
          (finish_run-Started w e o outcome none);
    hands_off = handoff-Idle;
    says_goodbye = goodbye-Idle;
    offers = offer_more-Idle;
    hangs_up = λ e o h. pushed-Started (with_phase e ending) o hangup refl h;
  }

  handed_out-Started :
      (r : Engine × Out)
      → Started n [] r
      → Started n [] (r.0, given (Out.flush r.1 false).directives)
  handed_out-Started (e, o) h = record {
    emitted = flush-actions o false ∙ h.emitted;
    grows = h.grows;
    fresh = h.fresh;
    ready = h.ready;
  }

  pub replaced-Started :
      (e : Engine) (s : CallState) (ds : List Directive)
      → s.run ≡ e.state.run
      → s.next_action_run ≡ e.state.next_action_run
      → Started n [] (e, given ds)
      → Started n [] (with_state e s, given ds)
  replaced-Started e s ds r k h = record {
    emitted = h.emitted ∙ ap ids_of (sym r);
    grows = omega (arith, k, h.grows);
    fresh = rw (r, k) h.fresh;
    ready = rw r (ready_with e s e.state.run h.ready);
  }

  told :
      (e : Engine) (ds : List Directive) (recorded : Option SpeechPlan)
      → Started n [] (e, given ds)
      → Started n [] (
        elim recorded as (λ _. Engine) [
          | none ↦ e
          | some plan ↦
              with_state e
                (record (remember w e.state agent (plan_text plan)) { last_plan = some plan })
        ],
        given ds,
      )
  unfolding remember
  told e ds none h = h
  told e ds (some plan) h =
      replaced-Started e
        (record (remember w e.state agent (plan_text plan)) { last_plan = some plan }) ds
        (ground arith) (ground arith) h

  pub finish-Started :
      (r : Engine × Out)
      → Started n [] r
      → Started n [] ((finish w r.0 r.1).0, given (finish w r.0 r.1).1)
  unfolding finish
  finish-Started (e, o) h =
      told e (Out.flush o false).directives (Out.flush o false).recorded
        (handed_out-Started (e, o) h)

-- Whatever a caller says in an active call where no action runs, the turn adds no action or one: that of the
-- task it leaves waiting for an action, if it leaves one. The run id was not given out before. The
-- read-back of that task is accepted where it has one, every required detail is given, and none of its
-- details is too doubtful.
pub on_utterance-Started :
    (w : Env) (check : Check) (e : Engine) (u : Understanding)
    → e.state.phase ≡ active
    → ids_of e.state.run ≡ []
    → let r = on_utterance w check e u in Started e.state.next_action_run [] (r.0, given r.1)
on_utterance-Started w check e u h i =
    let n = e.state.next_action_run in
    on_utterance-Closed w (Idle w n) (Started n []) (steps w n) (λ r. Started n [] (r.0, given r.1))
      (finish-Started w n) check e u h (nothing_said, i, omega arith)
      (quiet n [] (e, given []) refl i (omega arith))
