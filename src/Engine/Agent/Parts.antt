-- ===== src/Engine/Agent/Parts.antt =====
-- crates/callora-core/src/engine.rs: the agent's words, the engine's questions and the model's actions keep what the
-- steps of a turn keep.
use Prim.Native.String.{◌++◌ as str_append}
use callora.Base.{
  Bool, true, false, Option, none, some, List, [], ◌∷◌, String, refl, Option-cases, Bool-cases, inl,
  inr, not, ◌&&◌, ◌||◌, str_eq, contains_key, is_some, find, if◌then◌else◌,
}
use callora.Call.Run.{PipelineRun, awaiting_confirmation}
use callora.Engine.Config.{PipelineConfig, ConfirmConfig}
use callora.Engine.Speech.{SpeechPlan, Directive, has_none}
use callora.Engine.Out.{Out}
use callora.Engine.State.{Engine}
use callora.Engine.Env.{Env}
use callora.Engine.Say.{
  with_state, has_response, render_ctx, render_plan, say_here, note_asked, specific_ask, asking_ctx,
  again_of, pipeline_of,
}
use callora.Engine.Fill.{fill_defaults}
use callora.Engine.Flow
use callora.Engine.Flow.{first_missing, with_step}
use callora.Engine.Frame.{Keeps, Keeps-refl, Keeps-trans, render_plan-Keeps, note_asked-Keeps}
use callora.Engine.Agent.{
  AgentAction, talk, read_back, submit, transfer, end_call, AgentTurn, Hearing, ask_again,
  read_aloud, read_filled, read_back_task, next_filled, next_question, note_unless, free_plan,
  or_render, in_other_words, as_said, asked_rest, rendered_for, render_phrase, say_phrase,
  speak_plan, agent_say, slot_asked_by, said_before, expected_slot, still_to_ask, silenced,
}
use callora.Engine.Agent.Choice.{Choice}
use callora.Engine.Agent.Acts.{
  act, ask_expected, say_if, doubt_goodbye, leave, stay, end_of_call, goodbye_mid_task,
  read_or_send, read_or_submit, confirm_run, talks, runs_without_read_back, is_quiet, confirmed_now,
  asked_already,
}
use callora.Engine.Utterance.Steps.{Same}
use callora.Engine.Agent.Steps.{AgentSteps}
use callora.Engine.Agent.Kept.{Keeps-Same, fill_defaults-Same, at}

module _ (w : Env) (h : Hearing) where
  or_render-Keeps : (id : String) (r : Option SpeechPlan × Engine) → Keeps r.1 (or_render w id r).1
  or_render-Keeps id (none, e) = render_plan-Keeps w e id (render_ctx e)
  or_render-Keeps id (some q, e) = Keeps-refl e

  in_other_words-Keeps :
      (e : Engine) (id : String) (again : Option String) → Keeps e (in_other_words w e id again).1
  in_other_words-Keeps e id none = render_plan-Keeps w e id (render_ctx e)
  in_other_words-Keeps e id (some again) =
      let r = render_plan w e again (render_ctx e) in
      Keeps-trans e r.1 (or_render w id r).1 (render_plan-Keeps w e again (render_ctx e))
        (or_render-Keeps id r)

  as_said-Keeps : (e : Engine) (id : String) → Keeps e (as_said w e id).1
  as_said-Keeps e id =
      in_other_words-Keeps e id (if said_before w e id then again_of e id else none)

  asked_rest-Keeps :
      (e : Engine) (id slot : String) (r : Option String) → Keeps e (asked_rest w e id slot r).1
  asked_rest-Keeps e id slot none = as_said-Keeps e id
  asked_rest-Keeps e id slot (some r) = elim (Bool-cases (str_eq r id)) [
    | inl t ↦ rw t (as_said-Keeps e id)
    | inr t ↦ rw t (render_plan-Keeps w e r (asking_ctx e slot))
  ]

  rendered_for-Keeps :
      (e : Engine) (id : String) (slot : Option String) → Keeps e (rendered_for w e id slot).1
  rendered_for-Keeps e id none = as_said-Keeps e id
  rendered_for-Keeps e id (some slot) = asked_rest-Keeps e id slot (specific_ask e slot)

  pub render_phrase-Keeps : (e : Engine) (id : String) → Keeps e (render_phrase w e id).1
  unfolding render_phrase
  render_phrase-Keeps e id = rendered_for-Keeps e id (slot_asked_by e id)

module _ (w : Env) (h : Hearing) (During : Engine → Out → Type 0) (After : Engine × Out → Type 0)
    (Closed : Engine × List Directive → Type 0) (a : AgentSteps w During After Closed) where
  open a use {steps}

  abbrev pub Going : Engine × Out → Type 0
  Going r = During r.0 r.1

  speak_plan-During :
      (e : Engine) (o : Out) (p : Option SpeechPlan) → During e o → During e (speak_plan w o p)
  speak_plan-During e o none k = k
  speak_plan-During e o (some p) k = steps.speaks e o p true k

  say_phrase-During :
      (e : Engine) (o : Out) (p : Option String) → During e o → Going (say_phrase w e o p)
  say_phrase-During e o none k = k
  say_phrase-During e o (some id) k =
      let r = render_phrase w e id in
      speak_plan-During r.1 o r.0
        (steps.moves e r.1 o (Keeps-Same e r.1 (render_phrase-Keeps w h e id)) k)

  pub agent_say-During :
      (e : Engine) (o : Out) (phrase : Option String) (words spoken : String)
      → During e o
      → Going (agent_say w h e o phrase words spoken)
  unfolding agent_say
  agent_say-During e o phrase words spoken k = elim (Bool-cases (not (str_eq spoken ""))) [
    | inl t ↦ rw (agent_say, t) (a.notes e o _ k)
    | inr t ↦
        let r = say_phrase w e o phrase in
        let k1 = say_phrase-During e o phrase k in
        elim (Bool-cases (silenced w h r.0 phrase words || w.is_blank words)) [
          | inl b ↦ rw (agent_say, t, b) k1
          | inr b ↦ rw (agent_say, t, b) (steps.speaks r.0 r.1 (free_plan w r.0 words) true k1)
        ]
  ]

  pub agent_say-After :
      (r : Engine × Out) (words spoken : String)
      → After r
      → After (agent_say w h r.0 r.1 none words spoken)
  unfolding agent_say
  agent_say-After (e, o) words spoken k = elim (Bool-cases (not (str_eq spoken ""))) [
    | inl t ↦ rw (agent_say, t) (a.notes_after e o _ k)
    | inr t ↦ elim (Bool-cases (w.is_blank words)) [
      | inl b ↦ rw (agent_say, t, b) k
      | inr b ↦ rw (agent_say, t, b) (a.speaks_after e o (free_plan w e words) true k)
    ]
  ]

  pub say_if-During :
      (b : Bool) (e : Engine) (o : Out) (r : String) → During e o → Going (say_if w h b e o r)
  say_if-During true e o r k = steps.says e o (some r) true k
  say_if-During false e o r k = k

  pub noted-During :
      (e : Engine) (o : Out) (slots : List String) → During e o → During (note_asked e slots) o
  noted-During e o slots k =
      steps.moves e (note_asked e slots) o
        (Keeps-Same e (note_asked e slots) (note_asked-Keeps e slots)) k

  pub ask_again-After :
      (e : Engine) (o : Out) (slot : String) → During e o → After (ask_again w e o slot)
  unfolding ask_again
  ask_again-After e o slot k =
      elim (Bool-cases (
        not (contains_key slot e.state.place_cities)
        && has_response e (str_append "ask_again_" slot))) [
          | inl t ↦
              let r = say_here w e o (str_append "ask_again_" slot) true in
              rw (ask_again, t)
                (steps.stays (note_asked r.0 (slot ∷ [])) r.1 (
                  noted-During r.0 r.1 (slot ∷ [])
                    (steps.says e o (some (str_append "ask_again_" slot)) true k)))
          | inr t ↦ rw (ask_again, t) (steps.asks e o slot false k)
        ]

  awaiting-Same :
      (e : Engine) (run : PipelineRun)
      → Same e (with_step e (record run { confirmed = false }) awaiting_confirmation)
  awaiting-Same e run = (refl, λ i. refl, refl)

  confirm-After :
      (e : Engine) (o : Out) (run : PipelineRun) (p : PipelineConfig) (c : Option ConfirmConfig)
      → During e o
      → After (elim c as (λ _. Engine × Out) [
        | some d ↦ read_aloud w e o run p d.response
        | none ↦ Flow.advance w e o false
      ])
  confirm-After e o run p none k = steps.advances e o false k
  confirm-After e o run p (some c) k =
      let e1 = with_step e (record run { confirmed = false }) awaiting_confirmation in
      steps.stays _ _ (steps.says e1 o (some _) true (steps.moves e e1 o (awaiting-Same e run) k))

  pub read_filled-After :
      (e : Engine) (o : Out) (p : PipelineConfig) (b : Bool) (c : Option PipelineRun)
      → During e o
      → After (read_filled w e o p b c)
  read_filled-After e o p b none k = steps.stays e o k
  read_filled-After e o p b (some run) k = elim (Option-cases (first_missing p.slots run.slots)) [
    | inl m ↦ rw (read_filled, m) (confirm-After e o run p p.confirm k)
    | inr (slot, m) ↦ elim (Bool-cases b) [
      | inl t ↦ rw (read_filled, m, t) (steps.asks e o slot false k)
      | inr t ↦ rw (read_filled, m, t) (steps.stays e o k)
    ]
  ]

  pub read_back_task-After :
      (e : Engine) (o : Out) (b : Bool) → During e o → After (read_back_task w e o b)
  unfolding read_back_task
  read_back_task-After e o b k = elim (Option-cases e.state.run) [
    | inl n ↦ rw (read_back_task, n) (steps.stays e o k)
    | inr (run, n) ↦
        let p = pipeline_of e run in
        let e1 = fill_defaults w e p in
        rw (read_back_task, n)
          (read_filled-After e1 o p b e1.state.run
            (steps.moves e e1 o (fill_defaults-Same w e p) k))
  ]

  pub note_unless-During :
      (b : Bool) (e : Engine) (o : Out) (slot : String)
      → During e o
      → During (note_unless b e slot) o
  note_unless-During true e o slot k =
      steps.moves e (note_unless true e slot) o (refl, λ i. i, refl) k
  note_unless-During false e o slot k = k

  next_filled-After :
      (e : Engine) (o : Out) (p : PipelineConfig) (c : Option PipelineRun)
      → During e o
      → After (next_filled w e o p c)
  next_filled-After e o p none k = steps.stays e o k
  next_filled-After e o p (some run) k =
      elim (Option-cases (find (still_to_ask w e p run) p.slots)) [
        | inl n ↦ rw (next_filled, n) (read_back_task-After e o true k)
        | inr (ps, n) ↦
            rw (next_filled, n)
              (steps.asks (note_unless ps.ask_before_confirm e ps.slot) o ps.slot true
                (note_unless-During ps.ask_before_confirm e o ps.slot k))
      ]

  pub next_question-After : (e : Engine) (o : Out) → During e o → After (next_question w e o)
  unfolding next_question
  next_question-After e o k = elim (Option-cases e.state.run) [
    | inl n ↦ rw (next_question, n) (steps.stays e o k)
    | inr (run, n) ↦
        let p = pipeline_of e run in
        let e1 = fill_defaults w e p in
        rw (next_question, n)
          (next_filled-After e1 o p e1.state.run (steps.moves e e1 o (fill_defaults-Same w e p) k))
  ]

  ask_expected-After :
      (e : Engine) (o : Out) (slot : Option String) → During e o → After (ask_expected w h e o slot)
  ask_expected-After e o none k = read_back_task-After e o true k
  ask_expected-After e o (some slot) k = ask_again-After e o slot k

  doubt_goodbye-After :
      (e : Engine) (o : Out) (spoken : String) → During e o → After (doubt_goodbye w h e o spoken)
  unfolding doubt_goodbye
  doubt_goodbye-After e o spoken k =
      let e1 = with_state e (record (e.state) { goodbye_doubted = true }) in
      let r2 = agent_say w h e1 o none "" spoken in
      let r3 = say_if w h (has_response r2.0 "did_not_catch") r2.0 r2.1 "did_not_catch" in
      ask_expected-After r3.0 r3.1 (expected_slot w r3.0) (
        say_if-During (has_response r2.0 "did_not_catch") r2.0 r2.1 "did_not_catch"
          (agent_say-During e1 o none "" spoken (steps.moves e e1 o (refl, λ i. i, refl) k)))

  leave-After :
      (e : Engine) (o : Out) (t : AgentTurn) (spoken : String)
      → During e o
      → After (leave w h e o t spoken)
  unfolding leave
  leave-After e o t spoken k =
      elim (Bool-cases (str_eq spoken "" && str_eq t.words "" && not (is_some t.phrase))) [
        | inl b ↦ rw (leave, b) (steps.says_goodbye e o k)
        | inr b ↦
            let r = agent_say w h e o t.phrase t.words spoken in
            rw (leave, b) (steps.hangs_up r.0 r.1 (agent_say-During e o t.phrase t.words spoken k))
      ]

  stay-After : (e : Engine) (o : Out) (spoken : String) → During e o → After (stay w h e o spoken)
  unfolding stay
  stay-After e o spoken k =
      let r = agent_say w h e o none "" spoken in
      let k1 = agent_say-During e o none "" spoken k in
      elim (Bool-cases (is_some r.0.state.run)) [
        | inl b ↦ rw (stay, b) (read_back_task-After r.0 r.1 true k1)
        | inr b ↦
            let next =
              if has_none r.0.state.completed then "small_talk_answer" else "anything_else" in
            let s = say_if w h (has_response r.0 next) r.0 r.1 next in
            rw (stay, b)
              (steps.stays s.0 s.1 (say_if-During (has_response r.0 next) r.0 r.1 next k1))
      ]

  end_of_call-After :
      (e : Engine) (o : Out) (transcript : String) (t : AgentTurn) (spoken : String)
      (offered_more : Bool)
      → During e o
      → After (end_of_call w h e o transcript t spoken offered_more)
  unfolding end_of_call
  end_of_call-After e o transcript t spoken offered_more k =
      elim (Bool-cases (goodbye_mid_task w h e transcript)) [
        | inl b ↦ rw (end_of_call, b) (doubt_goodbye-After e o spoken k)
        | inr b ↦
            elim (Bool-cases (
              h.says_goodbye e.business transcript
              || (offered_more && h.only_fillers e.business transcript))) [
                | inl c ↦ rw (end_of_call, b, c) (leave-After e o t spoken k)
                | inr c ↦ rw (end_of_call, b, c) (stay-After e o spoken k)
              ]
      ]

  confirm_run-Same : (e : Engine) (c : Option PipelineRun) → Same (at e c) (confirm_run (at e c) c)
  confirm_run-Same e none = (refl, λ i. i, refl)
  confirm_run-Same e (some run) = (refl, λ i. i, refl)

  read_or_send-After :
      (e : Engine) (o : Out) (now asked : Bool)
      → During e o
      → After (read_or_send w h e o now asked)
  read_or_send-After e o true asked k =
      let e1 = confirm_run e e.state.run in
      steps.advances e1 o false (steps.moves e e1 o (confirm_run-Same e e.state.run) k)
  read_or_send-After e o false asked k = read_back_task-After e o (not asked) k

  read_or_submit-After :
      (e : Engine) (o : Out) (transcript : String) (action : AgentAction) (t : AgentTurn)
      (spoken : String) (changed : Bool)
      → During e o
      → After (read_or_submit w h e o transcript action t spoken changed)
  unfolding read_or_submit
  read_or_submit-After e o transcript action t spoken changed k =
      let quiet = is_quiet w h e action t in
      let phrase = if quiet then none else t.phrase in
      let words = if quiet then "" else t.words in
      let r = agent_say w h e o phrase words spoken in
      read_or_send-After r.0 r.1 (confirmed_now w h e action transcript changed)
        (asked_already w h r.0 phrase words spoken) (agent_say-During e o phrase words spoken k)

  talks-After :
      (e : Engine) (o : Out) (c : Choice) (spoken : String)
      → During e o
      → After (talks w h e o c spoken)
  talks-After e o c spoken k = elim (Bool-cases (c.decided || runs_without_read_back e)) [
    | inl b ↦
        let r = agent_say w h e o none "" spoken in
        rw (talks, b) (steps.advances r.0 r.1 false (agent_say-During e o none "" spoken k))
    | inr b ↦
        let r = agent_say w h e o c.turn.phrase c.turn.words spoken in
        rw (talks, b)
          (steps.stays r.0 r.1 (agent_say-During e o c.turn.phrase c.turn.words spoken k))
  ]

  pub act-After :
      (e : Engine) (o : Out) (transcript : String) (action : AgentAction) (c : Choice)
      (spoken : String) (changed offered_more : Bool)
      → During e o
      → After (act w h e o transcript action c spoken changed offered_more)
  unfolding act
  act-After e o transcript talk c spoken changed offered_more k = talks-After e o c spoken k
  act-After e o transcript transfer c spoken changed offered_more k =
      let r = agent_say w h e o c.turn.phrase c.turn.words spoken in
      steps.hands_off r.0 r.1 "caller_requested"
        (agent_say-During e o c.turn.phrase c.turn.words spoken k)
  act-After e o transcript end_call c spoken changed offered_more k =
      end_of_call-After e o transcript c.turn spoken offered_more k
  act-After e o transcript read_back c spoken changed offered_more k =
      read_or_submit-After e o transcript read_back c.turn spoken changed k
  act-After e o transcript submit c spoken changed offered_more k =
      read_or_submit-After e o transcript submit c.turn spoken changed k
