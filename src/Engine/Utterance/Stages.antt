-- ===== src/Engine/Utterance/Stages.antt =====
-- crates/callora-core/src/engine.rs: answers to a read-back, and intents, keep what the steps of a turn keep.
use Prim.Native.String.{◌++◌ as str_append}
use callora.Base.{
  Bool, true, false, Option, none, some, [], String, ◌≡◌, refl, Option-cases, Bool-cases, inl, inr,
  find, str_eq, is_some, lookup,
}
use callora.Call.Run.{
  PipelineRun, Step, collecting, confirming_slot, awaiting_confirmation, executing, clear,
  SlotState,
}
use callora.Call.Run
use callora.Engine.Config.{IntentConfig, PipelineConfig, ConfirmConfig}
use callora.Engine.Speech.{has_none}
use callora.Engine.Out.{Out}
use callora.Engine.State.{Engine}
use callora.Engine.Env.{Env}
use callora.Engine.Say.{say_some, with_state, pipeline_of}
use callora.Engine.Fill.{with_run}
use callora.Engine.Understanding.{Understanding, SlotFill, IntentGuess, slot_of}
use callora.Engine.Answer.{new_run, last_done}
use callora.Engine.Utterance.{
  reading, reading_of, reading_at, read_value, read_all, refused, ask_change, settled, agreed_slot,
  asked_again, agreed, doubted, corrects, Stage, over, on, respond, follow, switches, switched,
  intent_given, intent_stage,
}
use callora.Engine.Started.{ids_of}
use callora.Engine.Utterance.Steps.{Steps}
use callora.Engine.Utterance.Parts.{at, with_run-During, fallback-After}

agreed_slot-ids : (run : PipelineRun) (slot : String) → ids_of (some (agreed_slot run slot)) ≡ []
agreed_slot-ids run slot = elim (Option-cases (lookup slot run.slots)) [
  | inl n ↦ rw (agreed_slot, n) refl
  | inr (v, n) ↦ rw (agreed_slot, n) refl
]

pub new_run-step : (e : Engine) (p i : String) → ids_of (some (new_run e p i)) ≡ []
unfolding new_run Run.new
new_run-step e p i = elim (Option-cases (lookup p e.business.pipelines)) [
  | inl n ↦ rw (new_run, n) refl
  | inr (c, n) ↦ elim (Option-cases (last_done e.state.completed)) [
    | inl d ↦ rw (new_run, n, d) refl
    | inr (k, d) ↦ rw (new_run, n, d) refl
  ]
]

module _ (w : Env) (During : Engine → Out → Type 0) (After : Engine × Out → Type 0)
    (s : Steps w During After) where
  settled-During :
      (e : Engine) (o : Out) (run : PipelineRun)
      → (ids_of e.state.run ≡ [] → ids_of (some run) ≡ [])
      → During e o
      → During (settled e run) o
  settled-During e o run i h = s.moves e (settled e run) o (refl, i, refl) h

  abbrev pub MayAfter : Option (Engine × Out) → Type 0
  MayAfter none = Unit
  MayAfter (some r) = After r

  read_value-After :
      (e : Engine) (o : Out) (run : PipelineRun) (slot : String) (f : Option SlotFill)
      (affirm : Option Bool)
      → During e o
      → MayAfter (read_value w e o run slot f affirm)
  read_value-After e o run slot (some f) affirm h = elim (Bool-cases (doubted e f slot)) [
    | inl d ↦
        rw (MayAfter, d)
          (fallback-After w During After s (with_run e (asked_again run slot)) o
            (with_run-During w During After s e o (asked_again run slot) (λ i. refl) h))
    | inr d ↦ rw (MayAfter, d) tt
  ]
  read_value-After e o run slot none none h = tt
  read_value-After e o run slot none (some true) h =
      s.advances (settled e (agreed_slot run slot)) o false
        (settled-During e o (agreed_slot run slot) (λ i. agreed_slot-ids run slot) h)
  read_value-After e o run slot none (some false) h =
      s.asks (settled e (asked_again run slot)) o slot false
        (settled-During e o (asked_again run slot) (λ i. refl) h)

  ask_change-During :
      (e : Engine) (o : Out) (c : Option ConfirmConfig)
      → During e o
      → During (ask_change w e o c).0 (ask_change w e o c).1
  ask_change-During e o none h = h
  ask_change-During e o (some c) h = s.says e o (some c.ask_change) true h

  refused-After :
      (e : Engine) (o : Out) (run : PipelineRun) (p : PipelineConfig)
      → (ids_of e.state.run ≡ [] → ids_of (some run) ≡ [])
      → During e o
      → After (refused w e o run p)
  refused-After e o run p i h =
      let c = ask_change w (settled e run) o p.confirm in
      let k = ask_change-During (settled e run) o p.confirm (settled-During e o run i h) in
      let left =
        with_state c.0
          (record (c.0.state) { run = some (record run { step = collecting none }) }) in
      elim (Bool-cases (has_none p.slots)) [
        | inl n ↦ rw n (s.finishes c.0 c.1 "declined" k)
        | inr n ↦ rw n (s.stays left c.1 (s.moves c.0 left c.1 (refl, λ j. refl, refl) k))
      ]

  read_all-After :
      (e : Engine) (o : Out) (run : PipelineRun) (affirm : Option Bool)
      → (ids_of e.state.run ≡ [] → ids_of (some run) ≡ [])
      → During e o
      → MayAfter (read_all w e o run affirm)
  read_all-After e o run none i h = tt
  read_all-After e o run (some true) i h =
      s.advances (settled e (agreed run)) o false (settled-During e o (agreed run) i h)
  read_all-After e o run (some false) i h = refused-After e o run (pipeline_of e run) i h

  reading_at-After :
      (e : Engine) (o : Out) (u : Understanding) (run : PipelineRun) (t : Step)
      → (ids_of e.state.run ≡ [] → ids_of (some run) ≡ [])
      → During e o
      → MayAfter (reading_at w e o u run t)
  reading_at-After e o u run (confirming_slot slot) i h =
      read_value-After e o run slot (slot_of u slot) u.affirm h
  reading_at-After e o u run awaiting_confirmation i h = elim (Bool-cases (corrects e u run)) [
    | inl c ↦ rw (MayAfter, c) tt
    | inr c ↦ rw c (read_all-After e o run u.affirm i h)
  ]
  reading_at-After e o u run (collecting _) i h = tt
  reading_at-After e o u run (executing _) i h = tt

  reading_of-After :
      (e : Engine) (o : Out) (u : Understanding) (c : Option PipelineRun)
      → During (at e c) o
      → MayAfter (reading_of w (at e c) o u c)
  reading_of-After e o u none h = tt
  reading_of-After e o u (some run) h =
      reading_at-After (at e (some run)) o u run run.step (λ i. i) h

  pub reading-After :
      (e : Engine) (o : Out) (u : Understanding) → During e o → MayAfter (reading w e o u)
  unfolding reading
  reading-After e o u h = reading_of-After e o u e.state.run h

  -- A stage that takes the turn is over; one that goes on is still during the turn.
  abbrev pub StageKeeps : Out → Stage w → Type 0
  StageKeeps o (over r) = After r
  StageKeeps o (on e progressed) = During e o

  respond-After : (e : Engine) (o : Out) (r : String) → During e o → After (respond w e o r)
  respond-After e o r h =
      let e1 = with_state e (record (e.state) { fallback_level = 0 }) in
      let said = say_some w e1 o (some r) true in
      let k = s.says e1 o (some r) true (s.moves e e1 o (refl, λ i. i, refl) h) in
      elim (Bool-cases (is_some said.0.state.run)) [
        | inl t ↦ rw t (s.advances said.0 said.1 false k)
        | inr t ↦ rw t (s.offers said.0 said.1 k)
      ]

  follow-Keeps :
      (e : Engine) (o : Out) (i : IntentConfig) (r p : Option String)
      → During e o
      → StageKeeps o (follow w e o (record i { pipeline = p }) r)
  follow-Keeps e o i (some r) p h = respond-After e o r h
  follow-Keeps e o i none none h = h
  follow-Keeps e o i none (some p) h =
      s.moves e (switched e p i.id) o (refl, λ j. new_run-step e p i.id, refl) h

  intent_given-Keeps :
      (e : Engine) (o : Out) (guess : IntentGuess)
      → During e o
      → StageKeeps o (intent_given w e o guess)
  unfolding intent_given
  intent_given-Keeps e o guess h =
      elim (Option-cases (find (λ i. str_eq i.id guess.id) e.business.intents)) [
        | inl n ↦ rw (intent_given, n) (fallback-After w During After s e o h)
        | inr (i, n) ↦ elim (Bool-cases (switches e.state.run i guess.confidence)) [
          | inr t ↦ rw (intent_given, n, t) h
          | inl t ↦ elim (Bool-cases i.handoff) [
            | inl d ↦ rw (intent_given, n, t, d) (s.hands_off e o (str_append "intent:" i.id) h)
            | inr d ↦ rw (intent_given, n, t, d) (follow-Keeps e o i i.respond i.pipeline h)
          ]
        ]
      ]

  pub intent_stage-Keeps :
      (e : Engine) (o : Out) (guess : Option IntentGuess)
      → During e o
      → StageKeeps o (intent_stage w e o guess)
  intent_stage-Keeps e o none h = h
  intent_stage-Keeps e o (some guess) h = intent_given-Keeps e o guess h
