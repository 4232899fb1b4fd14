-- ===== src/Engine/Silence.antt =====
-- crates/callora-core/src/engine.rs: noise on the line, a caller who only checks that it is there, a
-- curse, and silence.
pub mod Ends
use callora.Base.{
  ℕ, ◌+◌, suc, Bool, true, false, Option, none, some, List, [], ◌∷◌, String, if◌then◌else◌, ltb,
  leb, not, str_eq, ◌&&◌, ◌||◌, get_elem?, is_some, mem, map, retain, lookup, ◌==◌,
}
use callora.Call.Run.{PipelineRun}
use callora.Engine.Config.{Business, ResponseConfig, SilenceConfig}
use callora.Engine.Speech.{
  Directive, SpeechPlan, SpeechSegment, dynamic, is_empty, hangup, has_none,
}
use callora.Engine.Out.{Out}
use callora.Engine.Out
use callora.Engine.State.{CallState, Engine, CompletedRun, Phase, active, ending, handing_off}
use callora.Engine.Env.{Env}
use callora.Engine.Say.{with_state, has_response, say, say_here, say_some, finish, bind}
use callora.Engine.Flow.{goodbye}
use callora.Engine.Handoff.{with_phase, executes}

abbrev pub is_active : Phase → Bool
is_active active = true
is_active handing_off = false
is_active ending = false

abbrev last_segment : List SpeechSegment → Option SpeechSegment
last_segment [] = none
last_segment (s ∷ []) = some s
last_segment (s ∷ t ∷ ss) = last_segment (t ∷ ss)

-- Nothing is said while the call is not active or an action runs.
abbrev pub is_busy : Engine → Bool
is_busy e = not (is_active e.state.phase) || executes e.state.run

abbrev pub same_turn : Option ℕ → ℕ → Bool
same_turn none turn = false
same_turn (some t) turn = t == turn

abbrev variants_of : Option ResponseConfig → List String
variants_of none = []
variants_of (some r) = r.variants

abbrev pub succeeded_last : List CompletedRun → Bool
succeeded_last [] = false
succeeded_last (c ∷ cs) = str_eq c.outcome "success"

abbrev pub in_task : Option PipelineRun → Bool
in_task none = false
in_task (some run) = not (has_none run.slots)

unfoldable pub silence_after_ms : Engine → ℕ
silence_after_ms e =
    let s = e.business.silence in
    if e.state.waiting || ltb s.max_reprompts e.state.silence_reprompts
    then s.patient_after_ms
    else s.reprompt_after_ms

abbrev pub patience : Engine → ℕ
patience e =
    if in_task e.state.run && is_some e.business.silence.patient_response
    then e.business.silence.patient_reprompts
    else 0

-- The reprompt, spoken unless it is empty.
abbrev pub speak_filled : Out → Option SpeechPlan → Out
speak_filled out none = out
speak_filled out (some p) = if is_empty p then out else Out.speak out p false

abbrev pub repeat_question : Out → Option SpeechPlan → Out
repeat_question out none = out
repeat_question out (some q) = Out.speak out q false

abbrev pub free_segment : String → String → SpeechSegment
free_segment text delivery = record {
  text = text;
  response_id = "agent";
  delivery = delivery;
  origin = dynamic;
  prefix = false;
}

abbrev response_of : Engine → String → Option ResponseConfig
response_of e id = lookup id e.business.responses

abbrev pub bump : Engine → Engine
bump e = with_state e (record (e.state) { silence_reprompts = suc e.state.silence_reprompts })

module _ (w : Env) where
  -- What follows the last sentence's start, when the segment has more sentences than one.
  abbrev question_alone : SpeechPlan → SpeechSegment → SpeechPlan
  question_alone p last = elim (w.question_tail last.text) [
    | none ↦ record { segments = last ∷ []; gain_db = p.gain_db }
    | some tail ↦ record { segments = free_segment tail last.delivery ∷ []; gain_db = p.gain_db }
  ]

  unfoldable pub last_question : Engine → Option SpeechPlan
  last_question e = bind e.state.last_plan (λ p.
      bind (last_segment p.segments)
        (λ last. if w.asks last.text then some (question_alone p last) else none))

  unfoldable pub without_noise_apology : Engine → SpeechPlan → SpeechPlan
  without_noise_apology e plan =
      let apologies = map w.normalize (variants_of (response_of e "noisy_line")) in
      record plan {
        segments = retain (λ s. not (mem (w.normalize s.text) apologies)) plan.segments;
      }

  abbrev pub apologized : Engine → Out → Bool → Engine × Out
  apologized e out false = (e, out)
  apologized e out true =
      say_here w (with_state e (record (e.state) { noise_apology_turn = some e.state.turns })) out
        "noisy_line" false

  -- The first fallback, under the note that this turn's apology is made.
  abbrev pub say_it_again : Engine → Engine × Out
  say_it_again e =
      say_some w (with_state e (record (e.state) { noise_apology_turn = some e.state.turns }))
        Out.empty (get_elem? e.business.ladder 0) false

  abbrev pub noise_answer : Engine → Bool → Bool → Option SpeechPlan → Engine × List Directive
  noise_answer e interrupted apologize (some plan) =
      if not interrupted && not apologize
      then (e, [])
      else (let (e1, out1) = apologized e Out.empty apologize in
          finish w e1 (Out.speak out1 plan false))
  noise_answer e interrupted apologize none =
      if not interrupted && apologize
      then (let (e1, out1) = say_it_again e in finish w e1 out1)
      else (e, [])

  unfoldable pub on_noise : Engine → Bool → Engine × List Directive
  unfolding say finish last_question
  on_noise e interrupted =
      if is_busy e
      then (e, [])
      else (let apologize =
            not (same_turn e.state.noise_apology_turn e.state.turns)
            && has_response e "noisy_line" in
          noise_answer e interrupted apologize
            (if interrupted then e.state.last_plan else last_question e))

  unfoldable pub on_unheard : Engine → Engine × List Directive
  unfolding on_noise
  on_unheard e = if is_some e.state.run then on_noise e false else (e, [])

  abbrev pub with_question : Engine → Out → Out
  with_question e out = repeat_question out (last_question e)

  unfoldable pub on_hello : Engine → Engine × List Directive
  unfolding on_noise say finish last_question
  on_hello e =
      if is_busy e || not (has_response e "i_hear_you")
      then on_noise e false
      else (let (e1, out1) = say_here w e Out.empty "i_hear_you" false in
          finish w e1 (with_question e1 out1))

  abbrev pub abuse_ends : Engine → Engine × List Directive
  abuse_ends e =
      let (e2, out2) = say_here w e Out.empty "abuse_goodbye" true in
      finish w (with_phase e2 ending) (Out.push out2 hangup)

  abbrev pub warned : Engine → Bool → Engine × Out
  warned e true = say_here w e Out.empty "abuse_warning" false
  warned e false = (e, Out.empty)

  abbrev pub question_again : Engine × Out → Engine × List Directive
  question_again (e, out) = finish w e (with_question e out)

  unfoldable pub on_abuse : Engine → Engine × List Directive
  unfolding say finish last_question
  on_abuse e =
      let e1 = with_state e (record (e.state) { abuse_strikes = suc e.state.abuse_strikes }) in
      if leb 2 e1.state.abuse_strikes && has_response e1 "abuse_goodbye"
      then abuse_ends e1
      else question_again (warned e1 (has_response e1 "abuse_warning"))

  -- The last segment of a plan that asks, alone; no segment when none does.
  abbrev last_asking : List SpeechSegment → List SpeechSegment → List SpeechSegment
  last_asking [] found = found
  last_asking (s ∷ ss) found = last_asking ss (if w.asks s.text then s ∷ [] else found)

  abbrev pub question_only : Engine → Option SpeechPlan → Option SpeechPlan
  question_only e none = none
  question_only e (some plan) =
      let p = without_noise_apology e plan in
      some (record p { segments = last_asking p.segments [] })

  unfoldable pub said_goodbye : Engine → Engine × List Directive
  unfolding goodbye finish
  said_goodbye e = let (e1, out1) = goodbye w e Out.empty in finish w e1 out1

  unfoldable pub reprompt : Engine → Engine × List Directive
  unfolding say finish without_noise_apology
  reprompt e =
      let last = question_only e e.state.last_plan in
      let (e1, out1) = say_some w e Out.empty e.business.silence.response false in
      finish w e1 (speak_filled out1 last)

  abbrev pub patiently : Engine → Option String → Engine × List Directive
  patiently e none = reprompt e
  patiently e (some r) = let (e1, out1) = say_here w e Out.empty r false in finish w e1 out1

  -- A silence that is counted: a goodbye, a patient reprompt, or the question again.
  unfoldable pub counted_silence : Engine → Engine × List Directive
  unfolding said_goodbye reprompt
  counted_silence e =
      let s = e.business.silence in
      if ltb (s.max_reprompts + patience e) e.state.silence_reprompts
      then said_goodbye e
      else if ltb s.max_reprompts e.state.silence_reprompts
      then patiently e s.patient_response
      else reprompt e

  unfoldable pub on_silence : Engine → Engine × List Directive
  unfolding counted_silence
  on_silence e =
      if is_busy e
      then (e, [])
      else (let e1 = with_state e (record (e.state) { waiting = false }) in
          if e1.offered_more && not (is_some e1.state.run) && succeeded_last e1.state.completed
          then said_goodbye e1
          else counted_silence (bump e1))
