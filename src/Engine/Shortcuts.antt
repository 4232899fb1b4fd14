-- ===== src/Engine/Shortcuts.antt =====
-- crates/callora-core/src/engine.rs: the start of a call, and what the session settles without the language model: an
-- utterance with one certain meaning, a refusal of the last optional detail, a farewell, the last reply again.
use callora.Base.{
  suc, Bool, true, false, Option, none, some, List, [], ◌∷◌, ◌++◌, String, if◌then◌else◌, mem,
  insert, contains_key, is_some, find, not, ◌&&◌, ◌||◌, add_new,
}
use callora.Call.Run.{PipelineRun}
use callora.Engine.Config.{
  Json, number, str, Customer, CustomerLookupConfig, MetaIntent, wait, repeat_last,
  did_not_understand, speak_slower, speak_louder, cancel_current_flow, go_back, transfer_human,
  say_goodbye,
}
use callora.Engine.Speech.{Directive, SpeechPlan, caller, has_none}
use callora.Engine.Out.{Out}
use callora.Engine.Out
use callora.Engine.State.{Engine}
use callora.Engine.Env.{Env, Context}
use callora.Engine.Say.{pipeline_of, with_state, render_plan, finish, remember, bind, name_of}
use callora.Engine.Flow.{goodbye}
use callora.Engine.Silence.{is_active}
use callora.Engine.Understanding.{Understanding}
use callora.Engine.Utterance.{is_yes}
use callora.Engine.Agent.{Hearing, is_collecting, read_back_task}
use callora.Engine.Agent.Choice.{is_confirming}
use callora.Hebrew.Words.{to_string}

abbrev text_of : Json → Option String
text_of (str s) = some s
text_of (number n) = some (to_string n)
text_of _ = none

-- A value of the customer's record, unless there is one under its name.
abbrev or_insert : String → Option String → List (String × String) → List (String × String)
or_insert k none extra = extra
or_insert k (some v) extra = if contains_key k extra then extra else insert k v extra

abbrev with_data : List (String × Json) → List (String × String) → List (String × String)
with_data [] extra = extra
with_data ((k, v) ∷ vs) extra = with_data vs (or_insert k (text_of v) extra)

abbrev name_entry : Option String → List (String × String)
name_entry none = []
name_entry (some name) = ("customer_name", name) ∷ []

abbrev extra_of : Option Customer → List (String × String)
extra_of none = []
extra_of (some c) = with_data c.values (name_entry c.name)

abbrev pub greeting_ctx : Option Customer → Context
greeting_ctx c = record { slots = []; extra = extra_of c; result = none }

abbrev returning : Option Customer → Bool
returning none = false
returning (some c) = contains_key "last_to_city" c.values

abbrev wanted : Option String → Bool → List String
wanted none b = []
wanted (some r) b = if b then r ∷ [] else []

abbrev greetings_for : Option Customer → Option CustomerLookupConfig → List String
greetings_for c none = []
greetings_for c (some l) =
    wanted l.returning_greeting (returning c) ++ wanted l.known_greeting (is_some (name_of c))

-- The greetings to try: that of a caller whose last ride is known, that of a known caller, the plain one.
abbrev pub greetings : Engine → List String
greetings e = greetings_for e.state.customer e.business.customer_lookup ++ e.business.greeting ∷ []

abbrev pub set_customer : Engine → Option Customer → Engine
set_customer e c = with_state e (record (e.state) { customer = c })

abbrev skips_agent : MetaIntent → Bool
skips_agent wait = true
skips_agent repeat_last = true
skips_agent did_not_understand = true
skips_agent speak_slower = true
skips_agent speak_louder = true
skips_agent cancel_current_flow = false
skips_agent go_back = false
skips_agent transfer_human = false
skips_agent say_goodbye = false

-- Whether an utterance skips the language model; `wholly` is whether nearly all of its words were explained.
unfoldable pub fast_lane : Engine → Understanding → Bool → Bool → Bool
fast_lane e u wholly needs_llm =
    if needs_llm || is_some u.intent || not (has_none u.slots) then false else elim u.meta [
      | some m ↦ skips_agent m
      | none ↦ is_yes u.affirm && wholly && is_confirming e.state.run
    ]

-- The optional detail that was asked for last and is not given.
unfoldable pub optional_open : Engine → PipelineRun → Option String
unfolding pipeline_of
optional_open e run =
    bind
      (find
        (λ ps.
          ps.ask_before_confirm
          && mem ps.slot e.state.last_asks
          && not (contains_key ps.slot run.slots))
        (pipeline_of e run).slots)
      (λ ps. some ps.slot)

module _ (w : Env) where
  -- The first greeting that can be said.
  unfoldable pub greet : Engine → Out → Context → List String → Engine × Out
  unfolding render_plan
  greet e out ctx [] = (e, out)
  greet e out ctx (g ∷ gs) =
      let (plan, e1) = render_plan w e g ctx in
      elim plan [ some p ↦ (e1, Out.speak out p true) | none ↦ greet e1 out ctx gs ]

  unfoldable pub start : Engine → Engine × List Directive
  unfolding greet finish
  start e =
      let (e1, out) = greet e Out.empty (greeting_ctx e.state.customer) (greetings e) in
      finish w e1 out

  abbrev pub replayed : Bool → Option SpeechPlan → Out
  replayed true (some last) = Out.speak Out.empty last true
  replayed true none = Out.empty
  replayed false last = Out.empty

  unfoldable pub replay_last : Engine → Engine × List Directive
  unfolding finish
  replay_last e = finish w e (replayed (is_active e.state.phase) e.state.last_plan)

  abbrev pub counted : Engine → String → Engine
  counted e text =
      with_state e (remember w (record (e.state) { turns = suc e.state.turns }) caller text)

  module _ (h : Hearing) where
    abbrev pub answered_no : Engine → String → String → Engine
    answered_no e text slot =
        let s = record (e.state) { turns = suc e.state.turns; silence_reprompts = 0 } in
        let s1 = remember w s caller text in
        with_state e (record s1 {
          asked_before_confirm = add_new slot s1.asked_before_confirm;
          last_asks = [];
        })

    abbrev pub read_back_now : Engine → Engine × List Directive
    read_back_now e = let (e1, out1) = read_back_task w e Out.empty true in finish w e1 out1

    abbrev pub refuses : Engine → String → Option String → Option (Engine × List Directive)
    refuses e text none = none
    refuses e text (some slot) =
        if h.says_no e.business text && h.says_nothing e.business text
        then some (read_back_now (answered_no e text slot))
        else none

    abbrev pub no_in : Engine → String → Option PipelineRun → Option (Engine × List Directive)
    no_in e text none = none
    no_in e text (some run) =
        if is_active e.state.phase && is_collecting run.step
        then refuses e text (optional_open e run)
        else none

    -- "No" to the optional question before the read-back: the details are read back.
    unfoldable pub on_no_to_optional : Engine → String → Option (Engine × List Directive)
    unfolding optional_open remember read_back_task finish
    on_no_to_optional e text = no_in e text e.state.run

    -- Thanks to "anything else?": the call ends with the goodbye.
    unfoldable pub on_closing : Engine → String → Option (Engine × List Directive)
    unfolding remember goodbye finish
    on_closing e text =
        if not (is_active e.state.phase)
          || not e.offered_more
          || not (h.only_fillers e.business text)
          || h.says_hello e.business text
          || h.only_hesitation e.business text
        then none
        else (let e1 = counted (record e { offered_more = false }) text in
            let (e2, out2) = goodbye w e1 Out.empty in some (finish w e2 out2))
