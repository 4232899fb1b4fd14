-- ===== src/Engine/Handoff.antt =====
-- crates/callora-core/src/engine.rs: handing the call to a person, and the ladder of fallbacks.
use callora.Base.{
  ◌-◌, suc, Bool, true, false, Option, none, some, String, if◌then◌else◌, ltb, str_eq, not, ◌&&◌,
  ◌||◌, get_elem?, length, is_some, ◌==◌,
}
use callora.Call.Run.{
  PipelineRun, Step, collecting, confirming_slot, awaiting_confirmation, executing,
}
use callora.Engine.Speech.{hand_off, hangup}
use callora.Engine.Out.{Out}
use callora.Engine.Out
use callora.Engine.State.{Engine, Phase, ending, handing_off}
use callora.Engine.Env.{Env}
use callora.Engine.Say.{with_state, say, say_here, say_some}
use callora.Engine.Flow.{advance}
use callora.Engine.Summary.{summary}

unfoldable pub has_desk : Engine → Bool
has_desk e = elim e.desk [ none ↦ is_some e.business.handoff_number | some available ↦ available ]

abbrev pub with_phase : Engine → Phase → Engine
with_phase e phase = with_state e (record (e.state) { phase = phase })

abbrev pub is_executing : Step → Bool
is_executing (executing _) = true
is_executing (collecting _) = false
is_executing (confirming_slot _) = false
is_executing awaiting_confirmation = false

abbrev pub executes : Option PipelineRun → Bool
executes none = false
executes (some run) = is_executing run.step

abbrev pub answerable : Option PipelineRun → Bool
answerable none = false
answerable (some run) = not (is_executing run.step)

abbrev pub restart_once : Engine → String → Option String
restart_once e reason =
    if str_eq reason "not_understood" && e.state.fallback_restarts == 0
    then e.business.restart
    else none

module _ (w : Env) where
  abbrev pub to_desk : Engine → Out → String → Engine × Out
  to_desk e out reason =
      let (e1, out1) = say_here w e out e.business.handoff_response true in
      let e2 = with_phase e1 handing_off in (e2, Out.push out1 (hand_off (summary w e2 reason)))

  abbrev pub without_desk : Engine → Out → String → Engine × Out
  without_desk e out reason =
      let (e1, out1) = say_here w e out e.business.unavailable_response true in
      if str_eq reason "not_understood" || str_eq reason "action_failed"
      then (with_phase e1 ending, Out.push out1 hangup)
      else if is_some e1.state.run
      then advance w e1 out1 false
      else (e1, out1)

  unfoldable pub handoff : Engine → Out → String → Engine × Out
  unfolding has_desk say advance
  handoff e out reason = if has_desk e then to_desk e out reason else elim (restart_once e reason) [
    | some restart ↦
        let s = record (e.state) {
          fallback_restarts = suc e.state.fallback_restarts;
          fallback_level = 0;
        } in
        say_here w (with_state e s) out restart true
    | none ↦ without_desk e out reason
  ]

  -- `level` is at least 1 and at most the ladder's length when the ladder is read.
  unfoldable pub fallback : Engine → Out → Engine × Out
  unfolding handoff say advance
  fallback e out =
      let level = suc e.state.fallback_level in
      let e1 = with_state e (record (e.state) { fallback_level = level }) in
      if ltb (length e1.business.ladder) level
      then handoff e1 out "not_understood"
      else if answerable e1.state.run
      then (let (e2, out2) = say_some w e1 out (get_elem? e1.business.ladder 0) false in
          advance w e2 out2 false)
      else say_some w e1 out (get_elem? e1.business.ladder (level - 1)) true
