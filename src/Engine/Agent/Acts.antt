-- ===== src/Engine/Agent/Acts.antt =====
-- crates/callora-core/src/engine.rs: what each action of the model does, once its question is in order.
use Prim.Native.String.{◌++◌ as str_append}
use callora.Base.{
  Bool, true, false, Option, none, some, List, [], ◌∷◌, String, if◌then◌else◌, str_eq, lookup,
  contains_key, is_some, all, not, ◌&&◌, ◌||◌,
}
use callora.Call.Run.{PipelineRun, SlotState, confirmed}
use callora.Engine.Config.{PipelineConfig, ConfirmConfig}
use callora.Engine.Speech.{Turn, hangup, has_none}
use callora.Engine.Out.{Out}
use callora.Engine.Out
use callora.Engine.State.{Engine, ending}
use callora.Engine.Env.{Env}
use callora.Engine.Say.{pipeline_of, with_state, has_response, has_prefix, say, say_here, is_agent}
use callora.Engine.Fill.{with_run}
use callora.Engine.Flow.{advance, goodbye}
use callora.Engine.Handoff.{with_phase, handoff}
use callora.Engine.Agent.{
  AgentAction, talk, read_back, submit, transfer, end_call, AgentTurn, Hearing, is_awaiting,
  is_collecting, expected_slot, ask_again, read_back_task, agent_say,
}
use callora.Engine.Agent.Choice.{Choice}

-- Every required detail is given, or has a default.
abbrev has_all : PipelineConfig → PipelineRun → Bool
has_all p run =
    all (λ ps. not ps.required || is_some ps.default || contains_key ps.slot run.slots) p.slots

unfoldable pub runs_without_read_back : Engine → Bool
unfolding pipeline_of
runs_without_read_back e = elim e.state.run [
  | none ↦ false
  | some run ↦
      let p = pipeline_of e run in
      is_collecting run.step && not (is_some p.confirm) && is_some p.action && has_all p run
]

abbrev confirm_all : List (String × SlotState) → List (String × SlotState)
confirm_all [] = []
confirm_all ((k, s) ∷ m) =
    (k, record s { confirmed = true; provenance = confirmed }) ∷ confirm_all m

abbrev pub confirmed_run : PipelineRun → PipelineRun
confirmed_run run = record run { confirmed = true; slots = confirm_all run.slots }

abbrev pub confirm_run : Engine → Option PipelineRun → Engine
confirm_run e none = e
confirm_run e (some run) = with_run e (confirmed_run run)

-- The read-back opens with an acknowledgement of its own.
abbrev acknowledges : Engine → PipelineConfig → Option ConfirmConfig → Bool
acknowledges e p none = false
acknowledges e p (some c) = has_prefix e c.response

unfoldable pub read_back_acks : Engine → Bool
unfolding pipeline_of
read_back_acks e = elim e.state.run [
  | none ↦ false
  | some run ↦ let p = pipeline_of e run in has_all p run && acknowledges e p p.confirm
]

unfoldable pub action_fills : Engine → Bool
unfolding pipeline_of
action_fills e = elim e.state.run [ none ↦ false | some run ↦ is_some (pipeline_of e run).filler ]

abbrev in_details : Option PipelineRun → Bool
in_details none = false
in_details (some run) = is_collecting run.step && not (has_none run.slots)

abbrev pub awaits : Option PipelineRun → Bool
awaits none = false
awaits (some run) = is_awaiting run.step

abbrev pub is_submit : AgentAction → Bool
is_submit submit = true
is_submit _ = false

abbrev is_read_back : AgentAction → Bool
is_read_back read_back = true
is_read_back _ = false

module _ (w : Env) (h : Hearing) where
  abbrev last_asked : List Turn → Bool → Bool
  last_asked [] found = found
  last_asked (t ∷ ts) found = last_asked ts (if is_agent t.speaker then w.asks t.text else found)

  -- A goodbye of a word or two while details are collected and a question waits for its answer.
  unfoldable pub goodbye_mid_task : Engine → String → Bool
  goodbye_mid_task e transcript =
      not e.state.goodbye_doubted
      && not e.offered_more
      && in_details e.state.run
      && last_asked e.state.history false
      && h.is_short e.business transcript

  abbrev phrase_asks : Engine → Option String → Bool
  phrase_asks e none = false
  phrase_asks e (some id) = elim (lookup id e.business.responses) [
    | none ↦ false
    | some r ↦ elim r.variants [ [] ↦ false | v ∷ vs ↦ w.asks v ]
  ]

  abbrev pub ask_expected : Engine → Out → Option String → Engine × Out
  ask_expected e out none = read_back_task w e out true
  ask_expected e out (some slot) = ask_again w e out slot

  abbrev pub say_if : Bool → Engine → Out → String → Engine × Out
  say_if true e out response = say_here w e out response true
  say_if false e out response = (e, out)

  unfoldable pub doubt_goodbye : Engine → Out → String → Engine × Out
  unfolding agent_say say expected_slot ask_again read_back_task
  doubt_goodbye e out spoken =
      let e1 = with_state e (record (e.state) { goodbye_doubted = true }) in
      let (e2, out2) = agent_say w h e1 out none "" spoken in
      let (e3, out3) = say_if (has_response e2 "did_not_catch") e2 out2 "did_not_catch" in
      ask_expected e3 out3 (expected_slot w e3)

  unfoldable pub leave : Engine → Out → AgentTurn → String → Engine × Out
  unfolding goodbye agent_say
  leave e out t spoken =
      if str_eq spoken "" && str_eq t.words "" && not (is_some t.phrase)
      then goodbye w e out
      else (let (e1, out1) = agent_say w h e out t.phrase t.words spoken in
          (with_phase e1 ending, Out.push out1 hangup))

  abbrev pub keep_talking : Engine → Out → Engine × Out
  keep_talking e out =
      if is_some e.state.run
      then read_back_task w e out true
      else (let next =
            if has_none e.state.completed then "small_talk_answer" else "anything_else" in
          say_if (has_response e next) e out next)

  -- Its goodbye is held back: the call goes on.
  unfoldable pub stay : Engine → Out → String → Engine × Out
  unfolding agent_say read_back_task
  stay e out spoken = let (e1, out1) = agent_say w h e out none "" spoken in keep_talking e1 out1

  unfoldable pub end_of_call : Engine → Out → String → AgentTurn → String → Bool → Engine × Out
  unfolding goodbye_mid_task doubt_goodbye leave stay
  end_of_call e out transcript t spoken offered_more =
      if goodbye_mid_task e transcript
      then doubt_goodbye e out spoken
      else if h.says_goodbye e.business transcript
          || (offered_more && h.only_fillers e.business transcript)
      then leave e out t spoken
      else stay e out spoken

  -- The model's own question or lead-in is not said before a read-back, nor before an action's filler.
  abbrev pub is_quiet : Engine → AgentAction → AgentTurn → Bool
  is_quiet e action t =
      (is_read_back action && (w.asks t.words || phrase_asks e t.phrase || read_back_acks e))
      || (is_submit action && action_fills e)

  -- A yes that the caller said to the read-back of what nothing has changed since.
  abbrev pub confirmed_now : Engine → AgentAction → String → Bool → Bool
  confirmed_now e action transcript changed =
      is_submit action && not changed && h.says_yes e.business transcript && awaits e.state.run

  abbrev pub asked_already : Engine → Option String → String → String → Bool
  asked_already e phrase words spoken =
      w.asks (str_append spoken (str_append " " words)) || (str_eq words "" && phrase_asks e phrase)

  abbrev pub read_or_send : Engine → Out → Bool → Bool → Engine × Out
  read_or_send e out true asked = advance w (confirm_run e e.state.run) out false
  read_or_send e out false asked = read_back_task w e out (not asked)

  unfoldable pub read_or_submit :
      Engine → Out → String → AgentAction → AgentTurn → String → Bool → Engine × Out
  unfolding agent_say read_back_acks action_fills advance read_back_task
  read_or_submit e out transcript action t spoken changed =
      let now = confirmed_now e action transcript changed in
      let quiet = is_quiet e action t in
      let phrase = if quiet then none else t.phrase in
      let words = if quiet then "" else t.words in
      let (e1, out1) = agent_say w h e out phrase words spoken in
      read_or_send e1 out1 now (asked_already e1 phrase words spoken)

  abbrev pub talks : Engine → Out → Choice → String → Engine × Out
  talks e out c spoken =
      if c.decided || runs_without_read_back e
      then (let (e1, out1) = agent_say w h e out none "" spoken in advance w e1 out1 false)
      else agent_say w h e out c.turn.phrase c.turn.words spoken

  -- What the caller said, the action, the choice, what was spoken of it, whether a value changed, and whether
  -- "anything else?" was the last question.
  unfoldable pub act :
      Engine → Out → String → AgentAction → Choice → String → Bool → Bool → Engine × Out
  unfolding agent_say advance handoff runs_without_read_back end_of_call read_or_submit
  act e out transcript talk c spoken changed offered_more = talks e out c spoken
  act e out transcript transfer c spoken changed offered_more =
      let (e1, out1) = agent_say w h e out c.turn.phrase c.turn.words spoken in
      handoff w e1 out1 "caller_requested"
  act e out transcript end_call c spoken changed offered_more =
      end_of_call e out transcript c.turn spoken offered_more
  act e out transcript read_back c spoken changed offered_more =
      read_or_submit e out transcript read_back c.turn spoken changed
  act e out transcript submit c spoken changed offered_more =
      read_or_submit e out transcript submit c.turn spoken changed
