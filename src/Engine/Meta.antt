-- ===== src/Engine/Meta.antt =====
-- crates/callora-core/src/engine.rs: what a caller asks about the conversation itself (`meta`).
use callora.Base.{
  ◌+◌, min, Bool, true, false, Option, none, some, List, [], ◌∷◌, String, if◌then◌else◌, map, mem,
  ◌&&◌,
}
use callora.Call.Run.{PipelineRun, collecting, undo, values_of}
use callora.Engine.Config.{
  MetaIntent, repeat_last, did_not_understand, speak_slower, speak_louder, cancel_current_flow,
  go_back, transfer_human, say_goodbye, wait,
}
use callora.Engine.Speech.{SpeechPlan, SpeechSegment, empty}
use callora.Engine.Out.{Out}
use callora.Engine.Out
use callora.Engine.State.{Engine, CompletedRun}
use callora.Engine.Env.{Env}
use callora.Engine.Say.{with_state, render_ctx, render_plan, say_some, ask, or_else}
use callora.Engine.Fill.{with_run}
use callora.Engine.Flow.{goodbye}
use callora.Engine.Handoff.{handoff}

abbrev pub has_slow : Engine → Bool
has_slow e = mem "slow" e.business.deliveries

abbrev pub is_slower : MetaIntent → Bool
is_slower speak_slower = true
is_slower _ = false

abbrev pub is_louder : MetaIntent → Bool
is_louder speak_louder = true
is_louder _ = false

abbrev pub slows : MetaIntent → Bool
slows did_not_understand = true
slows speak_slower = true
slows _ = false

abbrev pub slowed : MetaIntent → Engine → Engine
slowed m e =
    if is_slower m && has_slow e
    then with_state e (record (e.state) { delivery = some "slow" })
    else e

-- Four decibels more, eight at most.
abbrev pub raised : MetaIntent → Engine → Engine
raised m e =
    if is_louder m
    then with_state e (record (e.state) { gain_db = min (e.state.gain_db + 4) 8 })
    else e

abbrev pub delivered : Bool → Option String → SpeechSegment → SpeechSegment
delivered true d s = record s { delivery = "slow" }
delivered false none s = s
delivered false (some d) s = record s { delivery = d }

abbrev pub close_as : Option PipelineRun → String → List CompletedRun → List CompletedRun
close_as none outcome done = done
close_as (some run) outcome done =
    record {
      pipeline = run.pipeline;
      outcome = outcome;
      slots = values_of run.slots;
      result = none;
    }
    ∷ done

abbrev pub undone : Option PipelineRun → Option (PipelineRun × Option String)
undone none = none
undone (some run) = some (undo run)

module _ (w : Env) where
  -- What was said last, or the greeting.
  abbrev pub last_or_greeting : Engine → SpeechPlan × Engine
  last_or_greeting e = elim e.state.last_plan [
    | some p ↦ (p, e)
    | none ↦
        let (p, e1) = render_plan w e e.business.greeting (render_ctx e) in (or_else p empty, e1)
  ]

  unfoldable pub say_again : Engine → Out → MetaIntent → Engine × Out
  unfolding render_plan empty
  say_again e out m =
      let e1 = raised m (slowed m e) in
      let (e2, out2) = say_some w e1 out (e.business.meta_response m) false in
      let (last, e3) = last_or_greeting e2 in
      let plan = record last {
        segments = map (delivered (slows m && has_slow e) e3.state.delivery) last.segments;
        gain_db = e3.state.gain_db;
      } in
      (e3, Out.speak out2 plan true)

  unfoldable pub cancel_flow : Engine → Out → Engine × Out
  cancel_flow e out =
      let s = record (e.state) {
        run = none;
        completed = close_as e.state.run "cancelled" e.state.completed;
        suspended = [];
      } in
      let (e1, out1) =
        say_some w (with_state e s) out (e.business.meta_response cancel_current_flow) true in
      (record e1 { offered_more = true }, out1)

  abbrev pub say_last : Engine → Out → Option SpeechPlan → Engine × Out
  say_last e out none = (e, out)
  say_last e out (some last) = (e, Out.speak out last true)

  abbrev pub undone_to : Engine → Out → PipelineRun × Option String → Engine × Out
  undone_to e out (run, none) = say_last (with_run e run) out e.state.last_plan
  undone_to e out (run, some slot) =
      let (e1, out1) =
        say_some w (with_run e (record run { step = collecting (some slot) })) out
          (e.business.meta_response go_back) false in
      ask w e1 out1 slot false

  unfoldable pub back : Engine → Out → Engine × Out
  unfolding undo ask
  back e out = elim (undone e.state.run) [
    | none ↦ say_last e out e.state.last_plan
    | some r ↦ undone_to e out r
  ]

  unfoldable pub waits : Engine → Out → Engine × Out
  waits e out =
      let (e1, out1) = say_some w e out (e.business.meta_response wait) false in
      (with_state e1 (record (e1.state) { waiting = true }), out1)

  unfoldable pub meta : Engine → Out → MetaIntent → Engine × Out
  unfolding say_again cancel_flow back waits goodbye handoff
  meta e out cancel_current_flow = cancel_flow e out
  meta e out go_back = back e out
  meta e out transfer_human = handoff w e out "caller_requested"
  meta e out say_goodbye = goodbye w e out
  meta e out wait = waits e out
  meta e out repeat_last = say_again e out repeat_last
  meta e out did_not_understand = say_again e out did_not_understand
  meta e out speak_slower = say_again e out speak_slower
  meta e out speak_louder = say_again e out speak_louder
