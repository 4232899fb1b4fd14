-- ===== src/Engine/Agent/Whole.antt =====
-- crates/callora-core/src/engine.rs: the turn that a decision of the language model moves (`on_agent_turn`), and
-- the turns that take its place. The notes to the model for its next decision are left out.
use Prim.Native.String.{◌++◌ as str_append}
use callora.Base.{
  ℕ, suc, Bool, true, false, Option, none, some, List, [], ◌∷◌, ◌++◌, String, if◌then◌else◌, mem,
  str_eq, lookup, insert, remove, is_some, any, not, ◌&&◌, ◌||◌, leb,
}
use callora.Engine.Config.{Business, IntentConfig}
use callora.Engine.Speech.{Directive, SpeechPlan, caller, has_none}
use callora.Engine.Out.{Out}
use callora.Engine.Out
use callora.Engine.State.{Engine, Prompt}
use callora.Engine.Env.{Env, Context}
use callora.Engine.Say.{
  with_state, has_response, render_ctx, say, say_here, say_some, ask, finish, remember, bind,
  or_else, note_asked,
}
use callora.Engine.Flow.{goodbye}
use callora.Engine.Handoff.{handoff}
use callora.Engine.Results.{force_handoff}
use callora.Engine.Rules.{Applied, takes_over, goes_on, apply_rules}
use callora.Engine.Silence.{is_active, on_abuse, last_question}
use callora.Engine.Answer.{Check}
use callora.Engine.Agent.{
  AgentAction, AgentTurn, Hearing, slot_asked_by, partly_known, partial_place_before, moves_on,
  expected_slot, ask_again, unasked_before_confirm, next_question, agent_say, given_in, note_unless,
}
use callora.Engine.Agent.Choice.{
  Choice, unsaid, is_talk, is_transfer, reads, intent_of, overruled, same_question_streak,
  fields_eq, is_confirming, action_for,
}
use callora.Engine.Agent.Fields.{apply_agent_fields, take_task, misplaced_city}
use callora.Engine.Agent.Acts.{act}

abbrev Said : Type 0
Said = List (String × String)

-- What a turn has come to before its question is chosen.
pub record Taken : Type 0 where
  pub transcript : String
  pub spoken : String
  pub choice : Choice
  pub action : AgentAction
  pub changed : Bool
  pub rejected : List String
  pub fields : Said
  pub was_confirming : Bool
  pub offered_more : Bool

abbrev pub silent : Taken → Bool
silent c = str_eq c.spoken ""

-- The model just talks, and none of it was played.
abbrev pub may_replace : Taken → Bool
may_replace c = silent c && is_talk c.action

abbrev pub put_all : Said → Said → Said
put_all [] extra = extra
put_all ((k, v) ∷ vs) extra = put_all vs (insert k v extra)

abbrev pub with_values : Context → Said → Context
with_values ctx vs = record ctx { extra = put_all vs ctx.extra }

abbrev phrase_slot : Engine → Option String → Option String
phrase_slot e none = none
phrase_slot e (some p) = slot_asked_by e p

abbrev pub opened : Env → Engine → String → Engine
opened w e transcript =
    let s = record (e.state) {
      turns = suc e.state.turns;
      silence_reprompts = 0;
      fallback_level = 0;
      waiting = false;
    } in
    record (with_state e (remember w s caller transcript)) { offered_more = false }

abbrev pub in_one_city : Engine → Bool → Engine
in_one_city e false = e
in_one_city e true = with_state e (record (e.state) { same_city = true })

abbrev joined_asks : List String → Option String → List String
joined_asks asks none = asks
joined_asks asks (some slot) = asks ++ slot ∷ []

abbrev new_ask : List String → Option String → List String
new_ask asks none = asks
new_ask asks (some slot) = if mem slot asks then asks else asks ++ slot ∷ []

abbrev given_now : Engine → Said → String → Bool
given_now e fields slot =
    any (λ f. str_eq f.0 slot) fields && (given_in e.state.run slot || partly_known e slot)

abbrev answers : Engine → Said → Option String → Bool
answers e fields none = false
answers e fields (some slot) = given_now e fields slot

abbrev pub nothing_out : Out → Bool
nothing_out out = not (is_some out.pending) && has_none out.directives

abbrev count_of : String → List (String × ℕ) → ℕ
count_of slot m = or_else (lookup slot m) 0

abbrev pub undoubted : Engine → String → Engine
undoubted e slot =
    with_state e (record (e.state) { doubt_confirm = remove slot e.state.doubt_confirm })

abbrev pub heard_places : Hearing → Engine → String → Engine
heard_places h e transcript = misplaced_city h e transcript

module _ (w : Env) (h : Hearing) where
  abbrev pub Done : Type 0
  Done = Engine × List Directive

  abbrev pub done : Engine × Out → Done
  done (e, out) = finish w e out

  abbrev pub repeat_or_fallback : Engine → Out → Option SpeechPlan → Engine × Out
  repeat_or_fallback e out (some q) = (e, Out.speak out q false)
  repeat_or_fallback e out none =
      say_some w e out (elim e.business.ladder [ [] ↦ none | r ∷ rs ↦ some r ]) false

  -- The caller is never left in silence.
  abbrev pub not_silent : String → Engine × Out → Engine × Out
  not_silent spoken (e, out) =
      if nothing_out out && str_eq spoken ""
      then repeat_or_fallback e out (last_question w e)
      else (e, out)

  abbrev pub acts : Engine → Out → Taken → Done
  acts e out c = done (
      not_silent c.spoken
        (act w h e out c.transcript c.action c.choice c.spoken c.changed c.offered_more))

  -- The question, noted as asked, and the action.
  abbrev pub asks_and_acts : Engine → Out → Taken → List String → Done
  asks_and_acts e out c asks = acts (note_asked e asks) out c

  abbrev pub instead : Engine → Out → Taken → Done
  instead e out c = done (next_question w e out)

  abbrev pub again_instead : Engine → Out → Taken → String → Done
  again_instead e out c slot =
      let (e1, out1) = agent_say w h e out none "" c.spoken in done (ask_again w e1 out1 slot)

  -- A question that moves on while a detail asked for is missing.
  abbrev pub open_stage : Engine → Out → Taken → Done
  open_stage e out c =
      let asks = new_ask c.choice.turn.asks (phrase_slot e c.choice.turn.phrase) in
      elim (if may_replace c then moves_on w e c.choice.turn.fields asks else none) [
        | some slot ↦ again_instead e out c slot
        | none ↦ asks_and_acts e out c asks
      ]

  -- A recorded question that asks past a place given in part.
  abbrev pub partial_stage : Engine → Out → Taken → Done
  partial_stage e out c =
      if may_replace c
        && is_some (bind (phrase_slot e c.choice.turn.phrase) (partial_place_before e))
      then instead e out c
      else open_stage e out c

  abbrev unexpected : List String → Option String → Bool
  unexpected asks none = false
  unexpected asks (some next) = not (mem next asks)

  abbrev out_of_turn : Engine → Taken → List String → Bool
  out_of_turn e c [] =
      let inferred = h.asks_in e c.choice.turn.words in
      not (has_none inferred) && is_some (moves_on w e c.choice.turn.fields inferred)
  out_of_turn e c (a ∷ asks) = unexpected (a ∷ asks) (expected_slot w e)

  -- A question out of the task's order.
  abbrev pub order_stage : Engine → Out → Taken → Done
  order_stage e out c =
      if may_replace c
        && out_of_turn e c (joined_asks c.choice.turn.asks (phrase_slot e c.choice.turn.phrase))
      then instead e out c
      else partial_stage e out c

  -- A question for what the caller just gave.
  abbrev pub answered_stage : Engine → Out → Taken → Done
  answered_stage e out c =
      if may_replace c && answers e c.choice.turn.fields (phrase_slot e c.choice.turn.phrase)
      then instead e out c
      else order_stage e out c

  abbrev pub say_prompts : Engine → Out → List Prompt → Engine × Out
  say_prompts e out [] = (e, out)
  say_prompts e out (p ∷ ps) =
      let (e1, out1) = say w e out p.response (with_values (render_ctx e) p.values) true in
      say_prompts e1 out1 ps

  abbrev pub ask_anew : Engine → Out → Taken → String → Engine × Out
  ask_anew e out c slot =
      let too_many = str_append "too_many_" slot in
      let again =
        if has_response e too_many && h.above_max e slot c.fields
        then too_many
        else str_append "ask_again_" slot in
      if has_response e again then say_here w e out again true else ask w e out slot false

  abbrev pub asked_unless : Engine → Out → Taken → String → Engine × Out
  asked_unless e out c slot = if w.asks c.spoken then (e, out) else ask_anew e out c slot

  abbrev pub doubted_in : Engine → Out → Taken → String → Option (List Prompt) → Engine × Out
  doubted_in e out c slot none = asked_unless e out c slot
  doubted_in e out c slot (some prompts) =
      if silent c
      then (let (e1, out1) = say_prompts e out prompts in (note_asked e1 (slot ∷ []), out1))
      else asked_unless e out c slot

  -- A detail that was just rejected is asked for; a place missed three times goes to a person.
  abbrev pub refuse : Engine → Out → Taken → String → Done
  refuse e out c slot =
      let (e1, out1) = agent_say w h e out none "" c.spoken in
      if is_some e1.business.handoff_number && leb 3 (count_of slot e1.state.place_rejections)
      then force_handoff w e1 "place_not_understood"
      else done (doubted_in (undoubted e1 slot) out1 c slot (lookup slot e1.state.doubt_confirm))

  abbrev pub rejected_stage : Engine → Out → Taken → Done
  rejected_stage e out c = elim c.rejected [
    | [] ↦ answered_stage e out c
    | slot ∷ slots ↦
        if reads c.action || may_replace c then refuse e out c slot else answered_stage e out c
  ]

  abbrev pub asks_before : Engine → Out → Taken → String → Done
  asks_before e out c slot =
      let (e1, out1) = agent_say w h e out none "" c.spoken in
      let e2 = note_unless true e1 slot in
      done (if w.asks c.spoken then (e2, out1) else ask w e2 out1 slot false)

  abbrev pub optional_asked : Engine → Taken → Option String
  optional_asked e c =
      if reads c.action && not c.was_confirming && has_none c.rejected
      then unasked_before_confirm w e
      else none

  -- Before the first read-back, the optional question that the business wants asked.
  abbrev pub optional_stage : Engine → Out → Taken → Done
  optional_stage e out c = elim (optional_asked e c) [
    | some slot ↦ asks_before e out c slot
    | none ↦ rejected_stage e out c
  ]

  abbrev unannounced : Business → Choice → AgentAction → Choice
  unannounced b c action =
      if not (is_transfer action) && h.announces_transfer b c.turn.words
      then record c { turn = record (c.turn) { words = "" } }
      else c

  abbrev pub took_over : Engine × Out → String → Done
  took_over (e, out) spoken = done (agent_say w h e out none "" spoken)

  -- The action and the words that are left once the values are known.
  abbrev pub settled : Business → Taken → Taken
  settled b c =
      let action = action_for c.choice.turn.action c.changed c.was_confirming in
      record c { action = action; choice = unannounced b c.choice action }

  abbrev pub after_rules : Applied w → Taken → Done
  after_rules (takes_over r) c = took_over r c.spoken
  after_rules (goes_on e out) c = optional_stage e out (settled e.business c)

  module _ (check : String → Check) where
    -- The places that were named, the values, and the business's rules.
    unfoldable pub fields_stage : Engine → String → String → Choice → Bool → Done
    unfolding misplaced_city apply_agent_fields apply_rules act next_question ask_again agent_say
    fields_stage e transcript spoken c offered_more =
        let was = is_confirming e.state.run in
        let e1 = misplaced_city h e transcript in
        let agents = h.shape e1 transcript c.turn in
        let fields = h.in_same_city e1 transcript agents in
        let c1 =
          if fields_eq fields agents then c else record { turn = unsaid c.turn; decided = true } in
        let e2 = in_one_city e1 (h.says_same_city e1 transcript) in
        let (e3, changed, rejected) = apply_agent_fields h check e2 fields in
        after_rules (apply_rules w e3 Out.empty) (record {
          transcript = transcript;
          spoken = spoken;
          choice = c1;
          action = c1.turn.action;
          changed = changed;
          rejected = rejected;
          fields = fields;
          was_confirming = was;
          offered_more = offered_more;
        })

    abbrev pub which_way : Engine → String → String → Done
    which_way e spoken city =
        let (e1, out1) = agent_say w h e Out.empty none "" spoken in
        let (e2, out2) =
          say w e1 out1 "which_way" (with_values (render_ctx e1) (("city", city) ∷ [])) true in
        done (note_asked e2 ("pickup" ∷ []), out2)

    -- A town said alone that could be either place is asked about.
    abbrev pub town_stage : Engine → String → String → Choice → Bool → Done
    town_stage e transcript spoken c offered_more =
        elim (if has_response e "which_way" then h.lone_city e transcript c.turn.fields else none) [
          | some city ↦ which_way e spoken city
          | none ↦ fields_stage e transcript spoken c offered_more
        ]

    abbrev pub hands_over : Engine → AgentTurn → String → String → Done
    hands_over e t spoken id =
        let (e1, out1) = agent_say w h e Out.empty t.phrase t.words spoken in
        done (handoff w e1 out1 (str_append "intent:" id))

    abbrev pub task_stage : Engine → String → String → Choice → Bool → Option IntentConfig → Done
    task_stage e transcript spoken c offered_more none =
        town_stage e transcript spoken c offered_more
    task_stage e transcript spoken c offered_more (some i) =
        if i.handoff
        then hands_over e c.turn spoken i.id
        else town_stage (take_task e i) transcript spoken c offered_more

    abbrev pub decided_stage : Engine → String → String → Choice → Bool → Done
    decided_stage e transcript spoken c offered_more =
        if leb 5 (same_question_streak w h e.state)
        then force_handoff w e "stuck_on_a_question"
        else task_stage e transcript spoken c offered_more (intent_of e.business c.turn.task)

    unfoldable pub on_agent_turn : Engine → String → AgentTurn → String → Done
    unfolding fields_stage force_handoff on_abuse goodbye remember overruled same_question_streak
        take_task handoff
    on_agent_turn e transcript t spoken =
        if not (is_active e.state.phase)
        then (e, [])
        else (let e1 = opened w e transcript in
            if e1.state.goodbye_doubted && h.leaves_shortly e1.business transcript
            then done (goodbye w e1 Out.empty)
            else if w.is_abusive e1.business transcript
            then on_abuse w e1
            else decided_stage e1 transcript spoken (overruled h e1 transcript t) e.offered_more)
