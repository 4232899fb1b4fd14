-- ===== src/Engine/Agent.antt =====
-- crates/callora-core/src/agent.rs and engine.rs: a decision of the language model for the caller's last words, and
-- the questions of a task that the engine asks in its place. What text.rs, understanding.rs, hebrew.rs and
-- gazetteer.rs make of the words is left open (`Hearing`).
pub mod Fields
pub mod Choice
pub mod Steps
pub mod Kept
pub mod Parts
pub mod Closed
pub mod Ends
pub mod Starts
pub mod Consent
pub mod Tests
pub mod Acts
pub mod Whole
use Prim.Native.String.{◌++◌ as str_append}
use callora.Base.{
  ℕ, zero, suc, Bool, true, false, Option, none, some, List, [], ◌∷◌, ◌++◌, String, if◌then◌else◌,
  mem, str_eq, lookup, contains_key, is_some, any, all, find, retain, not, ◌&&◌, ◌||◌, add_new, map,
}
use callora.Call.Run.{
  PipelineRun, SlotValue, Step, collecting, confirming_slot, awaiting_confirmation, executing,
}
use callora.Engine.Config.{Business, PipelineConfig, PipelineSlot, ResponseConfig}
use callora.Engine.Speech.{SpeechPlan, Turn, caller, agent, dynamic}
use callora.Engine.Out.{Out}
use callora.Engine.Out
use callora.Engine.State.{CallState, Engine}
use callora.Engine.Env.{Env}
use callora.Engine.Say.{
  pipeline_of, with_state, has_response, render_ctx, render_plan, say, say_here, say_some, ask,
  or_else, bind, open_questions, note_asked, specific_ask, asking_ctx, again_of, is_agent,
}
use callora.Engine.Fill.{fill_defaults, customer_gives, is_name}
use callora.Engine.Flow.{advance, first_missing, with_step}
use callora.Engine.Silence.{free_segment, last_question}

pub data AgentAction : Type 0 where
  talk read_back submit transfer end_call : AgentAction

pub record AgentTurn : Type 0 where
  pub phrase : Option String
  pub words : String
  pub action : AgentAction
  pub task : Option String
  pub fields : List (String × String)
  pub asks : List String

-- What the words of a caller or of the model say. `shape` is what the readings of the transcript make of
-- the model's fields (the street answered, prepositions, patterns, the detail asked about, cues, a corrected
-- city), and `in_same_city` the reading of both places in one town.
pub record Hearing : Type 0 where
  pub leaves_shortly : Business → String → Bool
  pub says_goodbye : Business → String → Bool
  pub says_yes : Business → String → Bool
  pub says_nothing : Business → String → Bool
  pub says_no : Business → String → Bool
  pub only_fillers : Business → String → Bool
  pub only_hesitation : Business → String → Bool
  pub says_hello : Business → String → Bool
  pub is_short : Business → String → Bool
  pub decides : Business → String → String → Bool
  pub intent_heard : Engine → String → Option String
  pub announces_transfer : Business → String → Bool
  pub has_question : String → Bool
  pub last_sentence : String → String
  pub asks_in : Engine → String → List String
  pub above_max : Engine → String → List (String × String) → Bool
  pub lone_city : Engine → String → List (String × String) → Option String
  pub misplaced : Engine → String → Option String
  pub shape : Engine → String → AgentTurn → List (String × String)
  pub in_same_city : Engine → String → List (String × String) → List (String × String)
  pub says_same_city : Engine → String → Bool
  pub said_instead : Engine → String → String → String
  pub unheard : Engine → String → Bool
  pub parse : Engine → String → String → Option (SlotValue × ℕ)

abbrev pub given_in : Option PipelineRun → String → Bool
given_in none slot = false
given_in (some run) slot = contains_key slot run.slots

abbrev pub is_collecting : Step → Bool
is_collecting (collecting _) = true
is_collecting (confirming_slot _) = false
is_collecting awaiting_confirmation = false
is_collecting (executing _) = false

abbrev pub is_awaiting : Step → Bool
is_awaiting awaiting_confirmation = true
is_awaiting (collecting _) = false
is_awaiting (confirming_slot _) = false
is_awaiting (executing _) = false

abbrev pub open_step : Step → Bool
open_step (collecting _) = true
open_step (confirming_slot _) = true
open_step awaiting_confirmation = false
open_step (executing _) = false

abbrev asks_for : String → Option String → Bool
asks_for phrase none = false
asks_for phrase (some a) =
    mem phrase (a ∷ str_append a "_street" ∷ str_append a "_city" ∷ str_append a "_number" ∷ [])

-- The detail that a recorded phrase asks for.
unfoldable pub slot_asked_by : Engine → String → Option String
unfolding pipeline_of
slot_asked_by e phrase = bind e.state.run (λ run.
    bind (find (λ ps. asks_for phrase ps.ask) (pipeline_of e run).slots) (λ ps. some ps.slot))

-- Part of a place is known: its city, its street, or a street that waits for its number.
abbrev pub partly_known : Engine → String → Bool
partly_known e slot =
    contains_key slot e.state.place_cities
    || (contains_key slot e.state.place_numbers || contains_key slot e.state.place_streets)

abbrev before_slot : String → List PipelineSlot → List PipelineSlot
before_slot slot [] = []
before_slot slot (ps ∷ pss) = if str_eq ps.slot slot then [] else ps ∷ before_slot slot pss

unfoldable pub partial_place_before : Engine → String → Option String
unfolding pipeline_of
partial_place_before e slot = bind e.state.run (λ run.
    bind
      (find (λ ps. ps.required && not (contains_key ps.slot run.slots) && partly_known e ps.slot)
        (before_slot slot (pipeline_of e run).slots))
      (λ ps. some ps.slot))

abbrev passed_on : Env → List (String × String) → String → Bool
passed_on w fields slot = any (λ f. str_eq f.0 slot && not (w.is_blank f.1)) fields

-- The open detail that a question for others would move on past.
unfoldable pub moves_on : Env → Engine → List (String × String) → List String → Option String
unfolding open_questions
moves_on w e fields [] = none
moves_on w e fields (a ∷ asks) = bind e.state.run (λ run.
    let still = open_questions e.business e.state in
    if not (open_step run.step) || any (λ q. mem q still) (a ∷ asks)
    then none
    else find (λ q. not (passed_on w fields q)) still)

abbrev note_before_confirm : Engine → String → Engine
note_before_confirm e slot =
    with_state e
      (record (e.state) { asked_before_confirm = add_new slot e.state.asked_before_confirm })

abbrev pub note_unless : Bool → Engine → String → Engine
note_unless true e slot = note_before_confirm e slot
note_unless false e slot = e

abbrev names_read : Bool → String → String
names_read true response = str_append response "_with_name"
names_read false response = response

module _ (w : Env) where
  abbrev known_name : Engine → PipelineSlot → Bool
  known_name e ps = is_name ps.from_customer && is_some (customer_gives w e ps)

  abbrev expected : Engine → PipelineRun → PipelineSlot → Bool
  expected e run ps =
      not (contains_key ps.slot run.slots)
      && not (known_name e ps)
      && not (is_some ps.default)
      && (ps.required
          || (is_some ps.ask
              && not (mem ps.slot e.state.asked_slots)
              && not (mem ps.slot e.state.asked_before_confirm)))

  -- The detail that a task with a fixed order asks for next.
  unfoldable pub expected_slot : Engine → Option String
  unfolding pipeline_of customer_gives
  expected_slot e = bind e.state.run (λ run.
      let pipeline = pipeline_of e run in
      if not pipeline.strict_order || not (is_collecting run.step)
      then none
      else bind (find (expected e run) pipeline.slots) (λ ps. some ps.slot))

  unfoldable pub ask_again : Engine → Out → String → Engine × Out
  unfolding ask say note_asked
  ask_again e out slot =
      let again = str_append "ask_again_" slot in
      if not (contains_key slot e.state.place_cities) && has_response e again
      then (let (e1, out1) = say_here w e out again true in (note_asked e1 (slot ∷ []), out1))
      else ask w e out slot false

  abbrev said_by_agent : List Turn → String → Bool
  said_by_agent history v =
      any (λ t. is_agent t.speaker && w.contains (w.normalize t.text) v) history

  abbrev variants_of : Engine → Option String → List String
  variants_of e none = []
  variants_of e (some id) = elim (lookup id e.business.responses) [
    | none ↦ []
    | some r ↦ r.variants
  ]

  -- An optional detail to ask before the read-back that nobody has asked for yet.
  unfoldable pub unasked_before_confirm : Engine → Option String
  unfolding pipeline_of
  unasked_before_confirm e = bind e.state.run (λ run.
      let pipeline = pipeline_of e run in
      if any (λ ps. ps.required && not (is_some ps.default) && not (contains_key ps.slot run.slots))
        pipeline.slots
      then none
      else bind
          (find
            (λ ps.
              ps.ask_before_confirm
              && not (contains_key ps.slot run.slots)
              && not (mem ps.slot e.state.asked_before_confirm)
              && not
                  (any (λ v. said_by_agent e.state.history (w.normalize v)) (variants_of e ps.ask)))
            pipeline.slots)
          (λ ps. some ps.slot))

  abbrev pub named : PipelineConfig → Option PipelineRun → Bool
  named pipeline c = any (λ ps. is_name ps.from_customer && given_in c ps.slot) pipeline.slots

  abbrev pub read_aloud : Engine → Out → PipelineRun → PipelineConfig → String → Engine × Out
  read_aloud e out run pipeline response =
      let e1 = with_step e (record run { confirmed = false }) awaiting_confirmation in
      let longer = str_append response "_with_name" in
      say_here w e1 out
        (if named pipeline e1.state.run && has_response e1 longer then longer else response) true

  abbrev pub read_filled : Engine → Out → PipelineConfig → Bool → Option PipelineRun → Engine × Out
  read_filled e out pipeline ask_if_missing none = (e, out)
  read_filled e out pipeline ask_if_missing (some run) =
      elim (first_missing pipeline.slots run.slots) [
        | some slot ↦ if ask_if_missing then ask w e out slot false else (e, out)
        | none ↦ elim pipeline.confirm [
          | some c ↦ read_aloud e out run pipeline c.response
          | none ↦ advance w e out false
        ]
      ]

  -- The task is read back for a yes or no, or what is missing is asked for.
  unfoldable pub read_back_task : Engine → Out → Bool → Engine × Out
  unfolding fill_defaults pipeline_of ask say advance first_missing
  read_back_task e out ask_if_missing = elim e.state.run [
    | none ↦ (e, out)
    | some run ↦
        let e1 = fill_defaults w e (pipeline_of e run) in
        read_filled e1 out (pipeline_of e run) ask_if_missing e1.state.run
  ]

  abbrev pub still_to_ask : Engine → PipelineConfig → PipelineRun → PipelineSlot → Bool
  still_to_ask e pipeline run ps =
      not (contains_key ps.slot run.slots)
      && not (is_some ps.default)
      && (ps.required || is_some ps.ask)
      && not (ps.ask_before_confirm && mem ps.slot e.state.asked_before_confirm)
      && not (pipeline.strict_order && not ps.required && mem ps.slot e.state.asked_slots)

  abbrev pub next_filled : Engine → Out → PipelineConfig → Option PipelineRun → Engine × Out
  next_filled e out pipeline none = (e, out)
  next_filled e out pipeline (some run) = elim (find (still_to_ask e pipeline run) pipeline.slots) [
    | some ps ↦ ask w (note_unless ps.ask_before_confirm e ps.slot) out ps.slot true
    | none ↦ read_back_task e out true
  ]

  -- The task's next question, or its read-back when nothing is left to ask.
  unfoldable pub next_question : Engine → Out → Engine × Out
  unfolding fill_defaults pipeline_of ask read_back_task
  next_question e out = elim e.state.run [
    | none ↦ (e, out)
    | some run ↦
        let e1 = fill_defaults w e (pipeline_of e run) in
        next_filled e1 out (pipeline_of e run) e1.state.run
  ]

  abbrev pub free_plan : Engine → String → SpeechPlan
  free_plan e text = record {
    segments = free_segment text (or_else e.state.delivery "normal") ∷ [];
    gain_db = e.state.gain_db;
  }

  -- The variants of a response are said once more only in other words, if it has them.
  abbrev pub said_before : Engine → String → Bool
  said_before e id =
      any (λ v. let v' = w.normalize v in not (str_eq v' "") && said_by_agent e.state.history v')
        (variants_of e (some id))

  abbrev pub or_render : String → Option SpeechPlan × Engine → Option SpeechPlan × Engine
  or_render id (some p, e) = (some p, e)
  or_render id (none, e) = render_plan w e id (render_ctx e)

  abbrev pub in_other_words : Engine → String → Option String → Option SpeechPlan × Engine
  in_other_words e id none = render_plan w e id (render_ctx e)
  in_other_words e id (some again) = or_render id (render_plan w e again (render_ctx e))

  abbrev pub as_said : Engine → String → Option SpeechPlan × Engine
  as_said e id = in_other_words e id (if said_before e id then again_of e id else none)

  abbrev pub asked_rest : Engine → String → String → Option String → Option SpeechPlan × Engine
  asked_rest e id slot none = as_said e id
  asked_rest e id slot (some response) =
      if str_eq response id then as_said e id else render_plan w e response (asking_ctx e slot)

  abbrev pub rendered_for : Engine → String → Option String → Option SpeechPlan × Engine
  rendered_for e id none = as_said e id
  rendered_for e id (some slot) = asked_rest e id slot (specific_ask e slot)

  -- A recorded phrase; one that asks for what is known in part asks for the rest instead.
  unfoldable pub render_phrase : Engine → String → Option SpeechPlan × Engine
  unfolding slot_asked_by specific_ask render_plan
  render_phrase e id = rendered_for e id (slot_asked_by e id)

  abbrev pub speak_plan : Out → Option SpeechPlan → Out
  speak_plan out none = out
  speak_plan out (some p) = Out.speak out p true

  abbrev pub say_phrase : Engine → Out → Option String → Engine × Out
  say_phrase e out none = (e, out)
  say_phrase e out (some id) = let (plan, e1) = render_phrase e id in (e1, speak_plan out plan)

  abbrev asks_first : List String → Bool
  asks_first [] = false
  asks_first (v ∷ vs) = w.asks v

  module _ (h : Hearing) where
    -- Whether the model's words are still said after its recorded phrase.
    unfoldable pub say_after_phrase : Engine → String → String → Bool
    say_after_phrase e phrase words = elim (lookup phrase e.business.responses) [
      | none ↦ true
      | some r ↦
          let said = w.normalize words in
          not r.alone
          && not (str_eq said "" || any (λ v. str_eq (w.normalize v) said) r.variants)
          && not (asks_first r.variants && h.has_question words)
    ]

    abbrev pub silenced : Engine → Option String → String → Bool
    silenced e none words = false
    silenced e (some phrase) words = not (say_after_phrase e phrase words)

    -- The model's words: its phrase, then the rest. What was played already is only noted as said.
    unfoldable pub agent_say : Engine → Out → Option String → String → String → Engine × Out
    unfolding render_phrase say_after_phrase
    agent_say e out phrase words spoken =
        if not (str_eq spoken "")
        then (e, record out { recorded = some (Out.joined out.recorded (free_plan e spoken)) })
        else (let (e1, out1) = say_phrase e out phrase in
            if silenced e1 phrase words || w.is_blank words
            then (e1, out1)
            else (e1, Out.speak out1 (free_plan e1 words) true))
