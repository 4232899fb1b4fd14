-- ===== src/Engine/Utterance/Parts.antt =====
-- crates/callora-core/src/engine.rs: fallbacks, rules and requests about the conversation keep what the steps
-- of a turn keep.
use Prim.Native.String.{◌++◌ as str_append}
use callora.Base.{
  suc, true, false, Option, none, some, List, [], ◌∷◌, String, ◌≡◌, refl, arith, Bool-cases, inl,
  inr, ◌∙◌, ap, get_elem?, ltb, length, ◌-◌,
}
use callora.Call.Run.{PipelineRun, collecting, set, clear, undo, JournalEntry, SlotValue}
use callora.Engine.Config.{
  RuleConfig, RuleEffect, reject, hand_off, sets, MetaIntent, repeat_last, did_not_understand,
  speak_slower, speak_louder, cancel_current_flow, go_back, transfer_human, say_goodbye, wait,
}
use callora.Engine.Speech.{SpeechPlan}
use callora.Engine.Out.{Out}
use callora.Engine.Out
use callora.Engine.State.{Engine}
use callora.Engine.Env.{Env}
use callora.Engine.Say.{say_some, render_ctx, with_state}
use callora.Engine.Fill.{with_run}
use callora.Engine.Handoff.{fallback, answerable}
use callora.Engine.Frame.{Keeps, render_plan-Keeps}
use callora.Engine.Rules.{
  Applied, takes_over, goes_on, apply_rule, apply_from, apply_hit, rule_hit, fired, set_by_rule,
}
use callora.Engine.Meta.{
  meta, close_as, say_again, cancel_flow, back, waits, undone_to, say_last, last_or_greeting,
  raised, slowed,
}
use callora.Engine.Started.{ids_of}
use callora.Engine.Started
use callora.Engine.Utterance.Steps.{Steps, Same}

abbrev pub at : Engine → Option PipelineRun → Engine
at e c = with_state e (record (e.state) { run = c })

module _ (w : Env) (During : Engine → Out → Type 0) (After : Engine × Out → Type 0)
    (s : Steps w During After) where
  -- Only what the run is, or other parts of the state, change.
  pub with_run-During :
      (e : Engine) (o : Out) (run : PipelineRun)
      → (ids_of e.state.run ≡ [] → ids_of (some run) ≡ [])
      → During e o
      → During (with_run e run) o
  with_run-During e o run i h = s.moves e (with_run e run) o (refl, i, refl) h

  pub fallback-After : (e : Engine) (o : Out) → During e o → After (fallback w e o)
  unfolding fallback
  fallback-After e o h =
      elim (Bool-cases (ltb (length e.business.ladder) (suc e.state.fallback_level))) [
        | inl l ↦ rw (fallback, l) (s.hands_off e1 o "not_understood" h1)
        | inr l ↦ elim (Bool-cases (answerable e.state.run)) [
          | inl a ↦
              rw (fallback, l, a)
                (s.advances _ _ false (s.says e1 o (get_elem? e.business.ladder 0) false h1))
          | inr a ↦
              rw (fallback, l, a)
                (s.stays _ _ (
                  s.says e1 o (get_elem? e.business.ladder (suc e.state.fallback_level - 1)) true
                    h1))
        ]
      ]
    where
      e1 : Engine
      e1 = with_state e (record (e.state) { fallback_level = suc e.state.fallback_level })

      h1 : During e1 o
      h1 = s.moves e e1 o (refl, λ i. i, refl) h

  abbrev pub AppliedKeeps : Applied w → Type 0
  AppliedKeeps (takes_over r) = After r
  AppliedKeeps (goes_on e o) = During e o

  set-step :
      (run : PipelineRun) (slot : String) (v : Option SlotValue)
      → (set_by_rule run slot v).step ≡ run.step
  unfolding set
  set-step run slot none = refl
  set-step run slot (some v) = refl

  apply_rule-Keeps :
      (e : Engine) (o : Out) (run : PipelineRun) (r : RuleConfig) (effect : RuleEffect)
      → (ids_of e.state.run ≡ [] → ids_of (some run) ≡ [])
      → During e o
      → AppliedKeeps (apply_rule w e o run r effect)
  unfolding apply_rule
  apply_rule-Keeps e o run r (reject response) i h = s.asks _ _ r.when_slot false (
      s.says _ o (some response) true (
        with_run-During e o
          (record (clear run r.when_slot) { step = collecting (some r.when_slot) }) (λ j. refl) h))
  apply_rule-Keeps e o run r (hand_off response reason) i h =
      s.hands_off _ _ (str_append "rule:" reason)
        (s.says _ o response true (with_run-During e o run i h))
  apply_rule-Keeps e o run r (sets slot value) i h =
      let v = w.default_value e.business slot value in
      with_run-During e o (set_by_rule run slot v)
        (λ j. ap Started.id_of (set-step run slot v) ∙ i j) h

  apply_hit-Keeps :
      (e : Engine) (o : Out) (c : Option PipelineRun) (r : RuleConfig)
      → During (at e c) o
      → AppliedKeeps (apply_hit w (at e c) o c r)
  apply_hit-Keeps e o none r h = h
  apply_hit-Keeps e o (some run) r h = elim (Bool-cases (rule_hit run r)) [
    | inl t ↦ rw t (apply_rule-Keeps (at e (some run)) o (fired run r) r r.effect (λ i. i) h)
    | inr t ↦ rw t h
  ]

  then_from :
      (rs : List RuleConfig) (a : Applied w)
      → ((e : Engine) (o : Out) → During e o → AppliedKeeps (apply_from w rs e o))
      → AppliedKeeps a
      → AppliedKeeps (elim a as (λ _. Applied w) [
        | takes_over done ↦ takes_over done
        | goes_on e1 out1 ↦ apply_from w rs e1 out1
      ])
  then_from rs (takes_over done) ok h = h
  then_from rs (goes_on e o) ok h = ok e o h

  pub apply_from-Keeps :
      (rs : List RuleConfig) (e : Engine) (o : Out)
      → During e o
      → AppliedKeeps (apply_from w rs e o)
  unfolding apply_from
  apply_from-Keeps [] e o h = h
  apply_from-Keeps (r ∷ rs) e o h =
      then_from rs (apply_hit w e o e.state.run r) (apply_from-Keeps rs)
        (apply_hit-Keeps e o e.state.run r h)

  say_last-After :
      (e : Engine) (o : Out) (last : Option SpeechPlan) → During e o → After (say_last w e o last)
  say_last-After e o none h = s.stays e o h
  say_last-After e o (some p) h = s.stays e (Out.speak o p true) (s.speaks e o p true h)

  adjusted-Same : (e : Engine) (m : MetaIntent) → Same e (raised m (slowed m e))
  adjusted-Same e m = (ground arith, ground arith, ground arith)

  Keeps-Same : (e e' : Engine) → Keeps e e' → Same e e'
  Keeps-Same e e' k = (k.phase, λ i. ap ids_of k.run ∙ i, k.next_action_run)

  greeted :
      (e : Engine) (last : Option SpeechPlan)
      → Same
          (record e { state = record (e.state) { last_plan = last } })
          (last_or_greeting w (record e { state = record (e.state) { last_plan = last } })).1
  greeted e none =
      let e1 = record e { state = record (e.state) { last_plan = none } } in
      Keeps-Same e1 _ (render_plan-Keeps w e1 e1.business.greeting (render_ctx e1))
  greeted e (some p) = (refl, λ i. i, refl)

  say_again-After : (e : Engine) (o : Out) (m : MetaIntent) → During e o → After (say_again w e o m)
  unfolding say_again
  say_again-After e o m h =
      let e1 = raised m (slowed m e) in
      let said = say_some w e1 o (e.business.meta_response m) false in
      let k =
        s.says e1 o (e.business.meta_response m) false (s.moves e e1 o (adjusted-Same e m) h) in
      let last = last_or_greeting w said.0 in
      s.stays last.1 _ (
        s.speaks last.1 said.1 _ true
          (s.moves said.0 last.1 said.1 (greeted said.0 said.0.state.last_plan) k))

  cancel_flow-After : (e : Engine) (o : Out) → During e o → After (cancel_flow w e o)
  unfolding cancel_flow
  cancel_flow-After e o h =
      let e0 = with_state e (record (e.state) {
        run = none;
        completed = close_as e.state.run "cancelled" e.state.completed;
        suspended = [];
      }) in
      let said = say_some w e0 o (e.business.meta_response cancel_current_flow) true in
      s.stays (record (said.0) { offered_more = true }) said.1
        (s.moves said.0 (record (said.0) { offered_more = true }) said.1 (refl, λ i. i, refl)
          (s.says e0 o (e.business.meta_response cancel_current_flow) true
            (s.moves e e0 o (refl, λ i. refl, refl) h)))

  undone_to-After :
      (e : Engine) (o : Out) (r : PipelineRun × Option String)
      → (ids_of e.state.run ≡ [] → ids_of (some r.0) ≡ [])
      → During e o
      → After (undone_to w e o r)
  undone_to-After e o (run, none) i h =
      say_last-After (with_run e run) o e.state.last_plan (with_run-During e o run i h)
  undone_to-After e o (run, some slot) i h = s.asks _ _ slot false (
      s.says _ o (e.business.meta_response go_back) false
        (with_run-During e o (record run { step = collecting (some slot) }) (λ j. refl) h))

  undo-step :
      (run : PipelineRun) (j : List JournalEntry)
      → (undo (record run { journal = j })).0.step ≡ run.step
  unfolding undo
  undo-step run [] = refl
  undo-step run (x ∷ j) = refl

  back_from-After :
      (e : Engine) (o : Out) (c : Option PipelineRun)
      → During (at e c) o
      → After (back w (at e c) o)
  unfolding back
  back_from-After e o none h = say_last-After (at e none) o e.state.last_plan h
  back_from-After e o (some run) h =
      undone_to-After (at e (some run)) o (undo run)
        (λ i. ap Started.id_of (undo-step run run.journal) ∙ i) h

  waits-After : (e : Engine) (o : Out) → During e o → After (waits w e o)
  unfolding waits
  waits-After e o h =
      let said = say_some w e o (e.business.meta_response wait) false in
      let e1 = with_state said.0 (record (said.0.state) { waiting = true }) in
      s.stays e1 said.1 (
        s.moves said.0 e1 said.1 (refl, λ i. i, refl)
          (s.says e o (e.business.meta_response wait) false h))

  pub meta-After : (e : Engine) (o : Out) (m : MetaIntent) → During e o → After (meta w e o m)
  unfolding meta
  meta-After e o cancel_current_flow h = cancel_flow-After e o h
  meta-After e o go_back h = back_from-After e o e.state.run h
  meta-After e o transfer_human h = s.hands_off e o "caller_requested" h
  meta-After e o say_goodbye h = s.says_goodbye e o h
  meta-After e o wait h = waits-After e o h
  meta-After e o repeat_last h = say_again-After e o repeat_last h
  meta-After e o did_not_understand h = say_again-After e o did_not_understand h
  meta-After e o speak_slower h = say_again-After e o speak_slower h
  meta-After e o speak_louder h = say_again-After e o speak_louder h
