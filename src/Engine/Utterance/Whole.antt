-- ===== src/Engine/Utterance/Whole.antt =====
-- crates/callora-core/src/engine.rs: the whole turn of an utterance keeps what its steps keep.
use callora.Base.{
  suc, Bool, true, false, Option, none, some, List, [], ◌≡◌, refl, arith, Bool-cases, inl, inr, ap,
  is_some, not, ◌&&◌, ◌||◌, ltb, leb, ◌==◌,
}
use callora.Engine.Config.{MetaIntent}
use callora.Engine.Speech.{SpeechPlan, Directive, hangup}
use callora.Engine.Out.{Out}
use callora.Engine.Out
use callora.Engine.State.{Engine, active, ending}
use callora.Engine.Env.{Env}
use callora.Engine.Say.{say_some, with_state, finish, remember, has_response}
use callora.Engine.Handoff.{with_phase}
use callora.Engine.Silence.{
  on_abuse, is_active, last_question, repeat_question, warned, question_again,
}
use callora.Engine.Understanding.{Understanding, SlotFill}
use callora.Engine.Rules.{Applied, takes_over, goes_on, apply_rules}
use callora.Engine.Answer.{Check, check_places, apply_fills}
use callora.Engine.Utterance.{
  reading, Stage, over, on, intent_stage, infer, without_task, ruled, take_values, with_task,
  after_intent, understood, heard, calmed, answered, meta_of, on_utterance, is_yes, is_no,
}
use callora.Engine.Utterance.Steps.{Steps, Same}
use callora.Engine.Utterance.Values.{check_places-Same, apply_fills-Same, infer-Same}
use callora.Engine.Utterance.Parts.{fallback-After, meta-After, apply_from-Keeps, AppliedKeeps}
use callora.Engine.Utterance.Stages.{MayAfter, reading-After, StageKeeps, intent_stage-Keeps}

module _ (w : Env) (During : Engine → Out → Type 0) (After : Engine × Out → Type 0)
    (s : Steps w During After) where
  without_task-After :
      (e : Engine) (o : Out) (u : Understanding) (offered : Bool)
      → During e o
      → After (without_task w e o u offered)
  unfolding without_task
  without_task-After e o u offered h = elim (Bool-cases (offered && is_no u.affirm)) [
    | inl n ↦ rw (without_task, n) (s.says_goodbye e o h)
    | inr n ↦ elim (Bool-cases (offered && is_yes u.affirm)) [
      | inl y ↦
          rw (without_task, n, y)
            (let said = say_some w e o (some e.business.greeting) true in
              s.stays said.0 said.1 (s.says e o (some e.business.greeting) true h))
      | inr y ↦ rw (without_task, n, y) (fallback-After w During After s e o h)
    ]
  ]

  ruled-After :
      (a : Applied w) (acknowledge : Bool)
      → AppliedKeeps w During After s a
      → After (ruled w a acknowledge)
  ruled-After (takes_over r) acknowledge h = h
  ruled-After (goes_on e o) acknowledge h = s.advances e o acknowledge h

  take_values-After :
      (check : Check) (e : Engine) (o : Out) (u : Understanding) (b : Bool)
      → During e o
      → After (take_values w check e o u b)
  unfolding take_values apply_rules
  take_values-After check e o u b h =
      elim (Bool-cases ((apply_fills c.0 c.1).1 == 0 && not (b || c.2))) [
        | inl t ↦ rw (take_values, t) (fallback-After w During After s e2 o h2)
        | inr t ↦
            rw (take_values, t)
              (ruled-After (apply_rules w e3 o) (ltb 0 (apply_fills c.0 c.1).1) (
                apply_from-Keeps w During After s e3.business.rules e3 o
                  (s.moves e2 e3 o (refl, λ i. i, refl) h2)))
      ]
    where
      c : Engine × List SlotFill × Bool
      c = check_places check e u.slots

      e2 : Engine
      e2 = (apply_fills c.0 c.1).0

      e3 : Engine
      e3 = with_state e2 (record (e2.state) { fallback_level = 0 })

      h2 : During e2 o
      h2 =
          s.moves c.0 e2 o (apply_fills-Same c.0 c.1)
            (s.moves e c.0 o (check_places-Same check e u.slots) h)

  with_task-After :
      (check : Check) (o : Out) (u : Understanding) (offered : Bool) (r : Engine × Bool)
      → During r.0 o
      → After (with_task w check o u offered r)
  with_task-After check o u offered (e, b) h = elim (Bool-cases (is_some e.state.run)) [
    | inl t ↦ rw t (take_values-After check e o u b h)
    | inr t ↦ rw t (without_task-After e o u offered h)
  ]

  after_intent-After :
      (check : Check) (o : Out) (u : Understanding) (offered : Bool) (t : Stage w)
      → StageKeeps w During After s o t
      → After (after_intent w check o u offered t)
  after_intent-After check o u offered (over r) h = h
  after_intent-After check o u offered (on e b) h =
      with_task-After check o u offered (infer w e u b)
        (s.moves e (infer w e u b).0 o (infer-Same w e u b) h)

  understood-After :
      (check : Check) (e : Engine) (o : Out) (u : Understanding)
      → During e o
      → After (understood w check e o u)
  unfolding understood
  understood-After check e o u h =
      read (reading w e0 o u) (reading-After w During After s e0 o u h0)
    where
      e0 : Engine
      e0 = record e { offered_more = false }

      h0 : During e0 o
      h0 = s.moves e e0 o (refl, λ i. i, refl) h

      read :
          (r : Option (Engine × Out))
          → MayAfter w During After s r
          → After (elim r as (λ _. Engine × Out) [
            | some done ↦ done
            | none ↦ after_intent w check o u e.offered_more (intent_stage w e0 o u.intent)
          ])
      read (some done) k = k
      read none k =
          after_intent-After check o u e.offered_more (intent_stage w e0 o u.intent)
            (intent_stage-Keeps w During After s e0 o u.intent h0)

  answered-After :
      (check : Check) (e : Engine) (u : Understanding) (m : Option MetaIntent)
      → During e Out.empty
      → After (answered w check e u m)
  answered-After check e u none h = understood-After check e Out.empty u h
  answered-After check e u (some m) h = meta-After w During After s e Out.empty m h

  heard-Same : (e : Engine) (u : Understanding) → Same e (heard w e u)
  unfolding remember
  heard-Same e u = (ground arith, ground arith, ground arith)

  calmed-Same : (e : Engine) (u : Understanding) → Same e (calmed w e u)
  calmed-Same e u = (ground arith, ground arith, ground arith)

  repeat_question-During :
      (e : Engine) (o : Out) (q : Option SpeechPlan) → During e o → During e (repeat_question o q)
  repeat_question-During e o none h = h
  repeat_question-During e o (some q) h = s.speaks e o q false h

  module _ (Closed : Engine × List Directive → Type 0)
      (closes : (r : Engine × Out) → After r → Closed (finish w r.0 r.1)) where
    warned-During :
        (e : Engine) (b : Bool) → During e Out.empty → During (warned w e b).0 (warned w e b).1
    warned-During e true h = s.says e Out.empty (some "abuse_warning") false h
    warned-During e false h = h

    question_again-Closed : (r : Engine × Out) → During r.0 r.1 → Closed (question_again w r)
    question_again-Closed (e, o) h =
        let asked = repeat_question o (last_question w e) in
        closes (e, asked) (s.stays e asked (repeat_question-During e o (last_question w e) h))

    pub on_abuse-Closed : (e : Engine) → During e Out.empty → Closed (on_abuse w e)
    unfolding on_abuse
    on_abuse-Closed e h =
        elim (Bool-cases (leb 2 (suc e.state.abuse_strikes) && has_response e1 "abuse_goodbye")) [
          | inl t ↦
              rw (on_abuse, t)
                (let said = say_some w e1 Out.empty (some "abuse_goodbye") true in
                  closes (with_phase said.0 ending, Out.push said.1 hangup)
                    (s.hangs_up said.0 said.1 (s.says e1 Out.empty (some "abuse_goodbye") true h1)))
          | inr t ↦
              rw (on_abuse, t)
                (let b = has_response e1 "abuse_warning" in
                  question_again-Closed (warned w e1 b) (warned-During e1 b h1))
        ]
      where
        e1 : Engine
        e1 = with_state e (record (e.state) { abuse_strikes = suc e.state.abuse_strikes })

        h1 : During e1 Out.empty
        h1 = s.moves e e1 Out.empty (refl, λ i. i, refl) h

    pub on_utterance-Closed :
        (check : Check) (e : Engine) (u : Understanding)
        → e.state.phase ≡ active
        → During e Out.empty
        → Closed (e, [])
        → Closed (on_utterance w check e u)
    unfolding on_utterance
    on_utterance-Closed check e u a h none_said = elim (Bool-cases u.noise) [
      | inl n ↦ rw (on_utterance, ap is_active a, n) none_said
      | inr n ↦
          let e1 = heard w e u in
          let h1 = s.moves e e1 Out.empty (heard-Same e u) h in
          elim (Bool-cases (w.is_abusive e1.business u.transcript)) [
            | inl b ↦ rw (on_utterance, ap is_active a, n, b) (on_abuse-Closed e1 h1)
            | inr b ↦
                rw (on_utterance, ap is_active a, n, b)
                  (let e2 = calmed w e1 u in
                    let r = answered w check e2 u (meta_of w u u.meta) in
                    closes r (
                      answered-After check e2 u (meta_of w u u.meta)
                        (s.moves e1 e2 Out.empty (calmed-Same e1 u) h1)))
          ]
    ]
