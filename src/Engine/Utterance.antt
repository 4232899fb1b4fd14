-- ===== src/Engine/Utterance.antt =====
-- crates/callora-core/src/engine.rs: a final transcript, understood (`on_utterance` and `understood`). A part
-- of `understood` that returns early takes the turn; otherwise the next part follows.
pub mod Steps
pub mod Parts
pub mod Stages
pub mod Values
pub mod Whole
pub mod Starts
pub mod Tests
pub mod Ends
use Prim.Native.String.{◌++◌ as str_append}
use callora.Base.{
  ℕ, suc, ◌+◌, min, Bool, true, false, Option, none, some, List, [], ◌∷◌, String, if◌then◌else◌,
  str_eq, lookup, insert, mem, any, map, find, not, ◌&&◌, ◌||◌, is_some, ltb, leb, ◌==◌,
}
use callora.Call.Run.{
  PipelineRun, SlotState, confirmed, Step, collecting, confirming_slot, awaiting_confirmation,
  executing, clear,
}
use callora.Engine.Config.{
  MetaIntent, wait, PipelineConfig, SlotConfig, IntentConfig, ConfirmConfig,
}
use callora.Engine.Speech.{Directive, has_none, caller}
use callora.Engine.Out.{Out}
use callora.Engine.Out
use callora.Engine.State.{CallState, Engine}
use callora.Engine.Env.{Env}
use callora.Engine.Say.{pipeline_of, with_state, say_here, say_some, ask, remember, finish}
use callora.Engine.Fill.{with_run}
use callora.Engine.Flow.{advance, finish_run, goodbye, offer_more}
use callora.Engine.Handoff.{handoff, fallback}
use callora.Engine.Silence.{is_active, on_abuse}
use callora.Engine.Understanding.{Understanding, SlotFill, IntentGuess, slot_of}
use callora.Engine.Rules.{Applied, takes_over, goes_on, apply_rules}
use callora.Engine.Meta.{meta}
use callora.Engine.Answer.{Check, new_run, infer_pipeline, has_slot, check_places, apply_fills}

abbrev pub settled : Engine → PipelineRun → Engine
settled e run = with_state e (record (e.state) { run = some run; fallback_level = 0 })

abbrev agree_to : SlotState → SlotState
agree_to s = record s { confirmed = true; provenance = confirmed }

abbrev pub agreed_slot : PipelineRun → String → PipelineRun
agreed_slot run slot = elim (lookup slot run.slots) [
  | none ↦ record run { step = collecting none }
  | some s ↦ record run { slots = insert slot (agree_to s) run.slots; step = collecting none }
]

abbrev agree_all : List (String × SlotState) → List (String × SlotState)
agree_all [] = []
agree_all ((k, s) ∷ m) = (k, record s { confirmed = true }) ∷ agree_all m

abbrev pub agreed : PipelineRun → PipelineRun
agreed run = record run { confirmed = true; slots = agree_all run.slots }

abbrev pub asked_again : PipelineRun → String → PipelineRun
asked_again run slot = record (clear run slot) { step = collecting (some slot) }

abbrev pub doubted : Engine → SlotFill → String → Bool
doubted e f slot = elim (lookup slot e.business.slots) [
  | none ↦ false
  | some cfg ↦ ltb f.confidence cfg.confirm_below
]

abbrev pub corrects : Engine → Understanding → PipelineRun → Bool
corrects e u run = any (λ f. has_slot (pipeline_of e run) f.slot) u.slots

abbrev pub is_yes : Option Bool → Bool
is_yes none = false
is_yes (some b) = b

abbrev pub is_no : Option Bool → Bool
is_no none = false
is_no (some b) = not b

abbrev threshold : IntentConfig → ℕ
threshold i = if is_some i.respond then min i.switch_confidence 600 else i.switch_confidence

abbrev pub switches : Option PipelineRun → IntentConfig → ℕ → Bool
switches none i confidence = true
switches (some run) i confidence = not (str_eq run.intent i.id) && leb (threshold i) confidence

abbrev set_aside : Option PipelineRun → String → List PipelineRun → List PipelineRun
set_aside none p suspended = suspended
set_aside (some run) p suspended =
    if not (str_eq run.pipeline p) && not (has_none run.slots) then run ∷ suspended else suspended

-- The current task gives way to a new one.
abbrev pub switched : Engine → String → String → Engine
switched e p id = with_state e (record (e.state) {
  suspended = set_aside e.state.run p e.state.suspended;
  run = some (new_run e p id);
})

module _ (w : Env) where
  -- A single value being read back, with what was understood of it: doubtful once more, agreed to, or refused.
  abbrev pub read_value :
      Engine → Out → PipelineRun → String → Option SlotFill → Option Bool → Option (Engine × Out)
  read_value e out run slot (some f) affirm =
      if doubted e f slot then some (fallback w (with_run e (asked_again run slot)) out) else none
  read_value e out run slot none none = none
  read_value e out run slot none (some true) =
      some (advance w (settled e (agreed_slot run slot)) out false)
  read_value e out run slot none (some false) =
      some (ask w (settled e (asked_again run slot)) out slot false)

  abbrev pub ask_change : Engine → Out → Option ConfirmConfig → Engine × Out
  ask_change e out none = (e, out)
  ask_change e out (some c) = say_here w e out c.ask_change true

  abbrev pub refused : Engine → Out → PipelineRun → PipelineConfig → Engine × Out
  refused e out run p =
      let (e1, out1) = ask_change (settled e run) out p.confirm in
      if has_none p.slots then finish_run w e1 out1 "declined" none else (
        with_state e1 (record (e1.state) { run = some (record run { step = collecting none }) }),
        out1,
      )

  -- The full read-back: agreed to or refused.
  abbrev pub read_all : Engine → Out → PipelineRun → Option Bool → Option (Engine × Out)
  read_all e out run none = none
  read_all e out run (some true) = some (advance w (settled e (agreed run)) out false)
  read_all e out run (some false) = some (refused e out run (pipeline_of e run))

  abbrev pub reading_at : Engine → Out → Understanding → PipelineRun → Step → Option (Engine × Out)
  reading_at e out u run (confirming_slot slot) =
      read_value e out run slot (slot_of u slot) u.affirm
  reading_at e out u run awaiting_confirmation =
      if corrects e u run then none else read_all e out run u.affirm
  reading_at e out u run (collecting _) = none
  reading_at e out u run (executing _) = none

  abbrev pub reading_of : Engine → Out → Understanding → Option PipelineRun → Option (Engine × Out)
  reading_of e out u none = none
  reading_of e out u (some run) = reading_at e out u run run.step

  -- What an answer to a read-back does; `none` where the utterance is no such answer.
  unfoldable pub reading : Engine → Out → Understanding → Option (Engine × Out)
  unfolding fallback advance finish_run ask clear pipeline_of slot_of
  reading e out u = reading_of e out u e.state.run

  -- The turn is over, or it goes on, with whether something was learnt already.
  pub data Stage : Type 0 where
    over : Engine × Out → Stage
    on : Engine → Bool → Stage

  abbrev pub respond : Engine → Out → String → Engine × Out
  respond e out r =
      let (e1, out1) =
        say_here w (with_state e (record (e.state) { fallback_level = 0 })) out r true in
      if is_some e1.state.run then advance w e1 out1 false else offer_more w e1 out1

  abbrev pub start : Engine → Option String → String → Stage
  start e none id = on e false
  start e (some p) id = on (switched e p id) true

  abbrev pub follow : Engine → Out → IntentConfig → Option String → Stage
  follow e out i (some r) = over (respond e out r)
  follow e out i none = start e i.pipeline i.id

  -- A business intent: a handoff, an answer, a new task, or nothing.
  unfoldable pub intent_given : Engine → Out → IntentGuess → Stage
  unfolding handoff advance offer_more new_run fallback
  intent_given e out guess = elim (find (λ i. str_eq i.id guess.id) e.business.intents) [
    | none ↦ over (fallback w e out)
    | some i ↦
        if switches e.state.run i guess.confidence
        then (if i.handoff
            then over (handoff w e out (str_append "intent:" i.id))
            else follow e out i i.respond)
        else on e false
  ]

  abbrev pub intent_stage : Engine → Out → Option IntentGuess → Stage
  intent_stage e out none = on e false
  intent_stage e out (some guess) = intent_given e out guess

  abbrev pub inferred : Engine → Option (String × String) → Bool → Engine × Bool
  inferred e none progressed = (e, progressed)
  inferred e (some (p, id)) progressed =
      (with_state e (record (e.state) { run = some (new_run e p id) }), true)

  -- Values with no intent yet: the task they belong to.
  unfoldable pub infer : Engine → Understanding → Bool → Engine × Bool
  unfolding infer_pipeline new_run
  infer e u progressed =
      if not (is_some e.state.run) && not (has_none u.slots)
      then inferred e (infer_pipeline e u.slots) progressed
      else (e, progressed)

  unfoldable pub without_task : Engine → Out → Understanding → Bool → Engine × Out
  unfolding goodbye fallback
  without_task e out u offered_more =
      if offered_more && is_no u.affirm
      then goodbye w e out
      else if offered_more && is_yes u.affirm
      then say_here w e out e.business.greeting true
      else fallback w e out

  abbrev pub ruled : Applied w → Bool → Engine × Out
  ruled (takes_over done) acknowledge = done
  ruled (goes_on e out) acknowledge = advance w e out acknowledge

  -- The values are stored, the rules applied, and the task moves on.
  unfoldable pub take_values : Check → Engine → Out → Understanding → Bool → Engine × Out
  unfolding check_places apply_fills apply_rules advance fallback
  take_values check e out u progressed =
      let (e1, fills, noticed) = check_places check e u.slots in
      let (e2, applied) = apply_fills e1 fills in
      if applied == 0 && not (progressed || noticed)
      then fallback w e2 out
      else ruled (apply_rules w (with_state e2 (record (e2.state) { fallback_level = 0 })) out)
          (ltb 0 applied)

  abbrev pub with_task : Check → Out → Understanding → Bool → Engine × Bool → Engine × Out
  with_task check out u offered_more (e, progressed) =
      if is_some e.state.run
      then take_values check e out u progressed
      else without_task e out u offered_more

  abbrev pub after_intent : Check → Out → Understanding → Bool → Stage → Engine × Out
  after_intent check out u offered_more (over done) = done
  after_intent check out u offered_more (on e progressed) =
      with_task check out u offered_more (infer e u progressed)

  unfoldable pub understood : Check → Engine → Out → Understanding → Engine × Out
  unfolding reading intent_given infer without_task take_values
  understood check e out u =
      let e0 = record e { offered_more = false } in
      elim (reading e0 out u) [
        | some done ↦ done
        | none ↦ after_intent check out u e.offered_more (intent_stage e0 out u.intent)
      ]

  abbrev pub waits : MetaIntent → Bool
  waits wait = true
  waits _ = false

  abbrev pub meta_of : Understanding → Option MetaIntent → Option MetaIntent
  meta_of u none = none
  meta_of u (some m) =
      if waits m && (not (has_none u.slots) || is_some u.affirm || is_some u.intent)
      then none
      else some m

  abbrev pub heard : Engine → Understanding → Engine
  heard e u =
      let s = record (e.state) {
        turns = suc e.state.turns;
        silence_reprompts = 0;
        waiting = false;
      } in
      with_state e (remember w s caller u.transcript)

  abbrev pub calmed : Engine → Understanding → Engine
  calmed e u =
      if u.frustrated && mem "calm" e.business.deliveries
      then with_state e (record (e.state) { delivery = some "calm" })
      else e

  abbrev pub answered : Check → Engine → Understanding → Option MetaIntent → Engine × Out
  answered check e u none = understood check e Out.empty u
  answered check e u (some m) = meta w e Out.empty m

  unfoldable pub on_utterance : Check → Engine → Understanding → Engine × List Directive
  unfolding understood meta remember on_abuse finish
  on_utterance check e u =
      if not (is_active e.state.phase) || u.noise
      then (e, [])
      else (let e1 = heard e u in
          if w.is_abusive e1.business u.transcript
          then on_abuse w e1
          else (let (e2, out2) = answered check (calmed e1 u) u (meta_of u u.meta) in
              finish w e2 out2))
