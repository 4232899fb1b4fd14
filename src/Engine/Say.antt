-- ===== src/Engine/Say.antt =====
-- crates/callora-core/src/engine.rs: rendering and saying responses, remembering what was said, and
-- asking for a detail.
use Prim.Native.String.{◌++◌ as str_append}
use callora.Base.{
  Bool, true, false, Option, none, some, List, [], ◌∷◌, ◌++◌, String, if◌then◌else◌, mem, str_eq,
  lookup, insert, contains_key, is_some, any, find, retain, not, ◌&&◌, add_new,
}
use callora.Call.Run.{PipelineRun, SlotValue, values_of}
use callora.Engine.Config.{Customer, Business, PipelineConfig, continue}
use callora.Engine.Speech.{SpeechPlan, SpeechSegment, Turn, Speaker, caller, agent, Directive}
use callora.Engine.Out.{Out}
use callora.Engine.Out
use callora.Engine.State.{CallState, Engine, AddressForm, history_limit, keep_last}
use callora.Engine.Env.{Env, Context}

-- The configuration of an id that the business does not have; the source stops there.
abbrev pub no_pipeline : PipelineConfig
no_pipeline = record {
  slots = [];
  confirm = none;
  action = none;
  filler = none;
  on_success = none;
  on_failure = none;
  on_unknown = none;
  on_complete = none;
  after = continue;
  offer = none;
  strict_order = false;
}

abbrev pub or_else {ℓ} : {A : Type ℓ} → Option A → A → A
or_else none d = d
or_else (some a) d = a

unfoldable pub pipeline_of : Engine → PipelineRun → PipelineConfig
pipeline_of e run = or_else (lookup run.pipeline e.business.pipelines) no_pipeline

abbrev pub has_response : Engine → String → Bool
has_response e id = contains_key id e.business.responses

abbrev pub with_state : Engine → CallState → Engine
with_state e s = record e { state = s }

abbrev pub name_of : Option Customer → Option String
name_of none = none
name_of (some c) = c.name

abbrev pub slots_of : Option PipelineRun → List (String × SlotValue)
slots_of none = []
slots_of (some run) = values_of run.slots

abbrev with_name : Option String → List (String × String)
with_name none = []
with_name (some name) = ("customer_name", name) ∷ []

unfoldable pub render_ctx : Engine → Context
render_ctx e = record {
  slots = slots_of e.state.run;
  extra = with_name (name_of e.state.customer);
  result = none;
}

-- The slots that a run of the task must still be given, among those asked for.
unfoldable pub open_questions : Business → CallState → List String
open_questions b s = elim s.run [
  | none ↦ []
  | some run ↦ elim (lookup run.pipeline b.pipelines) [
    | none ↦ []
    | some pipeline ↦
        retain
          (λ q.
            any (λ ps. str_eq ps.slot q && ps.required && not (is_some ps.default)) pipeline.slots
            && not (contains_key q run.slots))
          s.open_questions
  ]
]

abbrev push_new : List String → List String → List String
push_new [] qs = qs
push_new (s ∷ ss) qs = push_new ss (if mem s qs then qs else qs ++ s ∷ [])

abbrev add_all : List String → List String → List String
add_all [] asked = asked
add_all (s ∷ ss) asked = add_all ss (add_new s asked)

unfoldable pub note_asked : Engine → List String → Engine
unfolding open_questions
note_asked e slots =
    let s = record (e.state) {
      last_asks = slots;
      asked_slots = add_all slots e.state.asked_slots;
      open_questions = push_new slots e.state.open_questions;
    } in
    let still = open_questions e.business s in
    with_state e (record s { open_questions = retain (λ q. mem q still) s.open_questions })

join_texts : List SpeechSegment → String
join_texts [] = ""
join_texts (s ∷ []) = s.text
join_texts (s ∷ t ∷ ss) = str_append s.text (str_append " " (join_texts (t ∷ ss)))

unfoldable pub plan_text : SpeechPlan → String
unfolding join_texts
plan_text p = join_texts p.segments

abbrev pub is_agent : Speaker → Bool
is_agent agent = true
is_agent caller = false

abbrev pub bind {ℓ κ} : {A : Type ℓ} {B : Type κ} → Option A → (A → Option B) → Option B
bind none f = none
bind (some a) f = f a

unfoldable pub pipeline_ask : Engine → String → Option String
unfolding pipeline_of
pipeline_ask e slot = elim e.state.run [
  | none ↦ none
  | some run ↦ bind (find (λ ps. str_eq ps.slot slot) (pipeline_of e run).slots) (λ ps. ps.ask)
]

-- The question for what is still missing of a place: its number, its street or its city.
unfoldable pub specific_ask : Engine → String → Option String
unfolding pipeline_ask
specific_ask e slot = elim (pipeline_ask e slot) [
  | none ↦ none
  | some base ↦
      let street = str_append base "_street" in
      let city = str_append base "_city" in
      let number = str_append base "_number" in
      if contains_key slot e.state.place_numbers && has_response e number
      then some number
      else if contains_key slot e.state.place_cities && has_response e street
      then some street
      else if contains_key slot e.state.place_streets && has_response e city
      then some city
      else none
]

abbrev city_extra : Option String → List (String × String) → List (String × String)
city_extra none extra = extra
city_extra (some city) extra = insert "city" city extra

unfoldable pub asking_ctx : Engine → String → Context
unfolding render_ctx
asking_ctx e slot =
    let ctx = render_ctx e in
    record ctx { extra = city_extra (lookup slot e.state.place_cities) ctx.extra }

abbrev pub again_of : Engine → String → Option String
again_of e id = bind (lookup id e.business.responses) (λ r. r.again)

abbrev pub has_prefix : Engine → String → Bool
has_prefix e id = is_some (bind (lookup id e.business.responses) (λ r. r.prefix))

module _ (w : Env) where
  unfoldable pub render_plan : Engine → String → Context → Option SpeechPlan × Engine
  render_plan e response ctx =
      let (plan, seed, last) =
        w.render e.business e.state.delivery e.state.gain_db response ctx e.seed
          e.state.last_variant in
      (plan, record e { state = record (e.state) { last_variant = last }; seed = seed })

  unfoldable pub say : Engine → Out → String → Context → Bool → Engine × Out
  unfolding render_plan
  say e out response ctx recording =
      let (plan, e') = render_plan e response ctx in
      (e', elim plan [ none ↦ out | some p ↦ Out.speak out p recording ])

  abbrev pub say_here : Engine → Out → String → Bool → Engine × Out
  say_here e out response recording = say e out response (render_ctx e) recording

  abbrev pub say_some : Engine → Out → Option String → Bool → Engine × Out
  say_some e out none recording = (e, out)
  say_some e out (some r) recording = say_here e out r recording

  abbrev heard : Speaker → String → AddressForm → AddressForm
  heard agent text form = form
  heard caller text form = or_else (w.detect text) form

  unfoldable pub remember : CallState → Speaker → String → CallState
  unfolding keep_last
  remember s speaker text = if w.is_blank text then s else record s {
    address_form = heard speaker text s.address_form;
    history = keep_last history_limit (s.history ++ record { speaker = speaker; text = text } ∷ []);
  }

  -- The directives of a finished turn; what it said is remembered.
  unfoldable pub finish : Engine → Out → Engine × List Directive
  unfolding remember
  finish e out =
      let flushed = Out.flush out false in
      (
        elim flushed.recorded [
          | none ↦ e
          | some plan ↦
              let s = remember e.state agent (plan_text plan) in
              with_state e (record s { last_plan = some plan })
        ],
        flushed.directives,
      )

  -- Whether the plan that asks is what the agent said last.
  abbrev pub said_again : Option SpeechPlan → Option String → Bool
  said_again none last = false
  said_again (some plan) none = false
  said_again (some plan) (some last) =
      let words = w.normalize (plan_text plan) in not (str_eq words "") && w.contains last words

  unfoldable pub last_said : List Turn → Option String → Option String
  last_said [] found = found
  last_said (t ∷ ts) found =
      last_said ts (if is_agent t.speaker then some (w.normalize t.text) else found)

  -- A question is asked in other words when it would be said twice in a row.
  abbrev pub choose_again : Engine → String → String → Context → String × Engine
  choose_again e slot question ctx = elim (again_of e question) [
    | none ↦ (question, e)
    | some again ↦
        if mem slot e.state.last_asks
        then (let (plan, e') = render_plan e question ctx in
            (if said_again plan (last_said e.state.history none) then again else question, e'))
        else (question, e)
  ]

  abbrev pub acknowledged : Engine → Out → Bool → String → Engine × Out
  acknowledged e out acknowledge question =
      if acknowledge && not (has_prefix e question)
      then say_some e out e.business.acknowledgement true
      else (e, out)

  unfoldable pub ask_with : Engine → Out → String → Bool → String → Engine × Out
  unfolding note_asked say render_plan last_said
  ask_with e out slot acknowledge general =
      let ctx = asking_ctx e slot in
      let (chosen, e1) = choose_again e slot (or_else (specific_ask e slot) general) ctx in
      let (e2, out2) = acknowledged e1 out acknowledge chosen in
      let (e3, out3) = say e2 out2 chosen ctx true in (note_asked e3 (slot ∷ []), out3)

  unfoldable pub ask : Engine → Out → String → Bool → Engine × Out
  unfolding ask_with pipeline_of
  ask e out slot acknowledge = elim (pipeline_ask e slot) [
    | none ↦ (e, out)
    | some general ↦ ask_with e out slot acknowledge general
  ]
