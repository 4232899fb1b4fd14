-- ===== src/Engine/Conversation/Closed.antt =====
-- crates/callora-core/src/engine.rs: the turns on noise, silence and what needs no model keep what their steps keep.
use callora.Base.{
  Bool, true, false, Option, none, some, List, [], ◌∷◌, String, refl, arith, Bool-cases,
  Option-cases, inl, inr, is_some, not, ◌&&◌, ◌||◌, ltb, ◌+◌, get_elem?,
}
use callora.Call.Run.{PipelineRun}
use callora.Engine.Speech.{Directive, SpeechPlan, is_empty}
use callora.Engine.Out.{Out}
use callora.Engine.Out
use callora.Engine.State.{Engine}
use callora.Engine.Env.{Env, Context}
use callora.Engine.Say.{finish, remember, say_some, with_state, has_response, render_plan}
use callora.Engine.Flow.{goodbye}
use callora.Engine.Frame.{render_plan-Keeps}
use callora.Engine.Silence.{
  is_active, is_busy, apologized, say_it_again, noise_answer, on_noise, on_unheard, with_question,
  repeat_question, on_hello, last_question, said_goodbye, speak_filled, question_only, reprompt,
  patiently, patience, counted_silence, bump, on_silence, succeeded_last,
}
use callora.Engine.Agent.{Hearing, is_collecting, read_back_task}
use callora.Engine.Agent.Steps.{AgentSteps}
use callora.Engine.Agent.Kept.{Keeps-Same}
use callora.Engine.Agent.Parts.{read_back_task-After}
use callora.Engine.Shortcuts.{
  greet, greetings, greeting_ctx, start, replayed, replay_last, answered_no, counted, no_in,
  refuses, on_no_to_optional, on_closing, optional_open,
}
use callora.Engine.Conversation.{tried}

module _ (w : Env) (h : Hearing) (During : Engine → Out → Type 0) (After : Engine × Out → Type 0)
    (Closed : Engine × List Directive → Type 0) (a : AgentSteps w During After Closed) where
  open a use {steps}

  pub nothing_done : (e : Engine) → During e Out.empty → Closed (e, [])
  unfolding finish Out.flush Out.empty
  nothing_done e k = a.closes (e, Out.empty) (steps.stays e Out.empty k)

  finished : (e : Engine) (o : Out) → During e o → Closed (finish w e o)
  finished e o k = a.closes (e, o) (steps.stays e o k)

  repeated :
      (e : Engine) (o : Out) (q : Option SpeechPlan) → During e o → During e (repeat_question o q)
  repeated e o none k = k
  repeated e o (some q) k = steps.speaks e o q false k

  apologized-During :
      (e : Engine) (o : Out) (b : Bool)
      → During e o
      → During (apologized w e o b).0 (apologized w e o b).1
  apologized-During e o false k = k
  apologized-During e o true k =
      let e1 = with_state e (record (e.state) { noise_apology_turn = some e.state.turns }) in
      steps.says e1 o (some "noisy_line") false (steps.moves e e1 o (refl, λ i. i, refl) k)

  said_again-Closed :
      (e : Engine)
      → During e Out.empty
      → Closed (finish w (say_it_again w e).0 (say_it_again w e).1)
  said_again-Closed e k =
      let e1 = with_state e (record (e.state) { noise_apology_turn = some e.state.turns }) in
      finished (say_it_again w e).0 (say_it_again w e).1 (
        steps.says e1 Out.empty (get_elem? e.business.ladder 0) false
          (steps.moves e e1 Out.empty (refl, λ i. i, refl) k))

  noise_answer-Closed :
      (e : Engine) (i b : Bool) (q : Option SpeechPlan)
      → During e Out.empty
      → Closed (noise_answer w e i b q)
  noise_answer-Closed e i b none k = elim (Bool-cases (not i && b)) [
    | inl t ↦ rw t (said_again-Closed e k)
    | inr t ↦ rw t (nothing_done e k)
  ]
  noise_answer-Closed e i b (some plan) k = elim (Bool-cases (not i && not b)) [
    | inl t ↦ rw t (nothing_done e k)
    | inr t ↦ rw t (
        let r = apologized w e Out.empty b in
        finished r.0 (Out.speak r.1 plan false)
          (steps.speaks r.0 r.1 plan false (apologized-During e Out.empty b k)))
  ]

  pub on_noise-Closed : (e : Engine) (i : Bool) → During e Out.empty → Closed (on_noise w e i)
  unfolding on_noise
  on_noise-Closed e i k = elim (Bool-cases (is_busy e)) [
    | inl t ↦ rw (on_noise, t) (nothing_done e k)
    | inr t ↦ rw (on_noise, t) (noise_answer-Closed e i _ _ k)
  ]

  pub on_unheard-Closed : (e : Engine) → During e Out.empty → Closed (on_unheard w e)
  unfolding on_unheard
  on_unheard-Closed e k = elim (Bool-cases (is_some e.state.run)) [
    | inl t ↦ rw (on_unheard, t) (on_noise-Closed e false k)
    | inr t ↦ rw (on_unheard, t) (nothing_done e k)
  ]

  pub on_hello-Closed : (e : Engine) → During e Out.empty → Closed (on_hello w e)
  unfolding on_hello
  on_hello-Closed e k = elim (Bool-cases (is_busy e || not (has_response e "i_hear_you"))) [
    | inl t ↦ rw (on_hello, t) (on_noise-Closed e false k)
    | inr t ↦
        rw (on_hello, t)
          (let s = say_some w e Out.empty (some "i_hear_you") false in
            finished s.0 (with_question w s.0 s.1) (
              repeated s.0 s.1 (last_question w s.0)
                (steps.says e Out.empty (some "i_hear_you") false k)))
  ]

  said_goodbye-Closed : (e : Engine) → During e Out.empty → Closed (said_goodbye w e)
  unfolding said_goodbye
  said_goodbye-Closed e k = a.closes (goodbye w e Out.empty) (steps.says_goodbye e Out.empty k)

  filled-During :
      (e : Engine) (o : Out) (q : Option SpeechPlan) → During e o → During e (speak_filled o q)
  filled-During e o none k = k
  filled-During e o (some p) k = elim (Bool-cases (is_empty p)) [
    | inl t ↦ rw t k
    | inr t ↦ rw t (steps.speaks e o p false k)
  ]

  reprompt-Closed : (e : Engine) → During e Out.empty → Closed (reprompt w e)
  unfolding reprompt
  reprompt-Closed e k =
      let r = e.business.silence.response in
      let s = say_some w e Out.empty r false in
      let q = question_only w e e.state.last_plan in
      finished s.0 (speak_filled s.1 q) (filled-During s.0 s.1 q (steps.says e Out.empty r false k))

  patiently-Closed :
      (e : Engine) (r : Option String) → During e Out.empty → Closed (patiently w e r)
  patiently-Closed e none k = reprompt-Closed e k
  patiently-Closed e (some r) k =
      let s = say_some w e Out.empty (some r) false in
      finished s.0 s.1 (steps.says e Out.empty (some r) false k)

  counted_silence-Closed : (e : Engine) → During e Out.empty → Closed (counted_silence w e)
  unfolding counted_silence
  counted_silence-Closed e k =
      let m = e.business.silence.max_reprompts in
      elim (Bool-cases (ltb (m + patience e) e.state.silence_reprompts)) [
        | inl t ↦ rw (counted_silence, t) (said_goodbye-Closed e k)
        | inr t ↦ elim (Bool-cases (ltb m e.state.silence_reprompts)) [
          | inl u ↦
              rw (counted_silence, t, u) (patiently-Closed e e.business.silence.patient_response k)
          | inr u ↦ rw (counted_silence, t, u) (reprompt-Closed e k)
        ]
      ]

  pub on_silence-Closed : (e : Engine) → During e Out.empty → Closed (on_silence w e)
  unfolding on_silence
  on_silence-Closed e k =
      let e1 = with_state e (record (e.state) { waiting = false }) in
      let k1 = steps.moves e e1 Out.empty (refl, λ i. i, refl) k in
      elim (Bool-cases (is_busy e)) [
        | inl t ↦ rw (on_silence, t) (nothing_done e k)
        | inr t ↦
            elim (Bool-cases (
              e1.offered_more && not (is_some e1.state.run) && succeeded_last e1.state.completed)) [
                | inl u ↦ rw (on_silence, t, u) (said_goodbye-Closed e1 k1)
                | inr u ↦
                    rw (on_silence, t, u)
                      (counted_silence-Closed (bump e1)
                        (steps.moves e1 (bump e1) Out.empty (refl, λ i. i, refl) k1))
              ]
      ]

  greet-During :
      (e : Engine) (o : Out) (ctx : Context) (gs : List String)
      → During e o
      → During (greet w e o ctx gs).0 (greet w e o ctx gs).1
  unfolding greet
  greet-During e o ctx [] k = k
  greet-During e o ctx (g ∷ gs) k =
      let r = render_plan w e g ctx in
      let k1 = steps.moves e r.1 o (Keeps-Same e r.1 (render_plan-Keeps w e g ctx)) k in
      elim (Option-cases r.0) [
        | inl n ↦ rw (greet, n) (greet-During r.1 o ctx gs k1)
        | inr (p, n) ↦ rw (greet, n) (steps.speaks r.1 o p true k1)
      ]

  pub start-Closed : (e : Engine) → During e Out.empty → Closed (start w e)
  unfolding start
  start-Closed e k =
      let r = greet w e Out.empty (greeting_ctx e.state.customer) (greetings e) in
      finished r.0 r.1 (greet-During e Out.empty (greeting_ctx e.state.customer) (greetings e) k)

  replayed-During :
      (e : Engine) (b : Bool) (p : Option SpeechPlan)
      → During e Out.empty
      → During e (replayed w b p)
  replayed-During e true (some p) k = steps.speaks e Out.empty p true k
  replayed-During e true none k = k
  replayed-During e false p k = k

  pub replay_last-Closed : (e : Engine) → During e Out.empty → Closed (replay_last w e)
  unfolding replay_last
  replay_last-Closed e k =
      let b = is_active e.state.phase in
      finished e (replayed w b e.state.last_plan) (replayed-During e b e.state.last_plan k)

  refuses-Closed :
      (e : Engine) (text : String) (slot : Option String)
      → During e Out.empty
      → Closed (tried e (refuses w h e text slot))
  unfolding remember
  refuses-Closed e text none k = nothing_done e k
  refuses-Closed e text (some slot) k =
      elim (Bool-cases (h.says_no e.business text && h.says_nothing e.business text)) [
        | inl t ↦ rw t (
            let e1 = answered_no w h e text slot in
            a.closes (read_back_task w e1 Out.empty true) (
              read_back_task-After w h During After Closed a e1 Out.empty true
                (steps.moves e e1 Out.empty (ground arith, ground arith, ground arith) k)))
        | inr t ↦ rw t (nothing_done e k)
      ]

  no_in-Closed :
      (e : Engine) (text : String) (c : Option PipelineRun)
      → During e Out.empty
      → Closed (tried e (no_in w h e text c))
  no_in-Closed e text none k = nothing_done e k
  no_in-Closed e text (some run) k =
      elim (Bool-cases (is_active e.state.phase && is_collecting run.step)) [
        | inl t ↦ rw t (refuses-Closed e text (optional_open e run) k)
        | inr t ↦ rw t (nothing_done e k)
      ]

  pub on_no_to_optional-Closed :
      (e : Engine) (text : String)
      → During e Out.empty
      → Closed (tried e (on_no_to_optional w h e text))
  unfolding on_no_to_optional
  on_no_to_optional-Closed e text k = no_in-Closed e text e.state.run k

  pub on_closing-Closed :
      (e : Engine) (text : String) → During e Out.empty → Closed (tried e (on_closing w h e text))
  unfolding on_closing remember
  on_closing-Closed e text k =
      elim (Bool-cases (
        not (is_active e.state.phase)
        || not e.offered_more
        || not (h.only_fillers e.business text)
        || h.says_hello e.business text
        || h.only_hesitation e.business text)) [
          | inl t ↦ rw (on_closing, t) (nothing_done e k)
          | inr t ↦
              rw (on_closing, t)
                (let e1 = counted w (record e { offered_more = false }) text in
                  a.closes (goodbye w e1 Out.empty) (
                    steps.says_goodbye e1 Out.empty
                      (steps.moves e e1 Out.empty (ground arith, ground arith, ground arith) k)))
        ]
