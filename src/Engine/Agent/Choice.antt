-- ===== src/Engine/Agent/Choice.antt =====
-- crates/callora-core/src/engine.rs and state.rs: what the model chose, and what of it the caller's own words
-- overrule.
use callora.Base.{
  ℕ, suc, Bool, true, false, Option, none, some, List, [], ◌∷◌, String, if◌then◌else◌, str_eq,
  lookup, is_some, find, not, ◌&&◌, ◌||◌,
}
use callora.Call.Run.{PipelineRun}
use callora.Engine.Config.{Business, IntentConfig}
use callora.Engine.Speech.{Turn, has_none}
use callora.Engine.State.{CallState, Engine}
use callora.Engine.Env.{Env}
use callora.Engine.Say.{bind, is_agent}
use callora.Engine.Agent.{
  AgentAction, talk, read_back, submit, transfer, end_call, AgentTurn, Hearing, is_awaiting,
}

-- The turn as it stands, with whether the caller's words decided its task.
pub record Choice : Type 0 where
  pub turn : AgentTurn
  pub decided : Bool

abbrev pub is_talk : AgentAction → Bool
is_talk talk = true
is_talk _ = false

abbrev pub is_transfer : AgentAction → Bool
is_transfer transfer = true
is_transfer _ = false

-- A read-back or a submission.
abbrev pub reads : AgentAction → Bool
reads read_back = true
reads submit = true
reads _ = false

-- The words are not said.
abbrev pub unsaid : AgentTurn → AgentTurn
unsaid t = record t { phrase = none; words = "" }

abbrev pub is_alone : Engine → Option String → Bool
is_alone e none = false
is_alone e (some id) = elim (lookup id e.business.responses) [ none ↦ false | some r ↦ r.alone ]

abbrev pub intent_of : Business → Option String → Option IntentConfig
intent_of b none = none
intent_of b (some id) = find (λ i. str_eq i.id id) b.intents

abbrev pub has_task : Business → Option String → Bool
has_task b id = is_some (bind (intent_of b id) (λ i. i.pipeline))

abbrev kept_task : Business → Option String → Option String
kept_task b none = none
kept_task b (some id) = if has_task b (some id) then some id else none

abbrev same_task : Option String → Option String → Bool
same_task none t = false
same_task (some s) none = false
same_task (some s) (some t) = str_eq s t

-- Nothing is read back or talked about once the caller's words decide another task.
abbrev undone : AgentAction → AgentAction
undone read_back = talk
undone talk = talk
undone submit = submit
undone transfer = transfer
undone end_call = end_call

abbrev on_task : AgentTurn → Option String → AgentTurn
on_task t none = t
on_task t (some id) = record (unsaid t) { task = some id }

abbrev decide : AgentTurn → Option String → Choice
decide t none = record { turn = t; decided = false }
decide t (some id) =
    if same_task t.task (some id) then record { turn = t; decided = false } else record {
      turn = record (unsaid t) { task = some id; action = undone t.action };
      decided = true;
    }

module _ (h : Hearing) where
  -- A refusal for words that name one of the business's own tasks: that task.
  unfoldable pub refused_wrongly : Engine → String → Option String → Option String
  refused_wrongly e transcript phrase =
      if is_alone e phrase then kept_task e.business (h.intent_heard e transcript) else none

  unfoldable pub decisive_intent : Engine → String → Option String
  decisive_intent e transcript =
      bind (find (λ i. i.decisive && h.decides e.business i.id transcript) e.business.intents)
        (λ i. some i.id)

  abbrev unrefused : Engine → AgentTurn → AgentTurn
  unrefused e t =
      if is_alone e t.phrase && (has_task e.business t.task || not (has_none t.fields))
      then unsaid t
      else t

  unfoldable pub overruled : Engine → String → AgentTurn → Choice
  unfolding refused_wrongly decisive_intent
  overruled e transcript t =
      decide (unrefused e (on_task t (refused_wrongly e transcript t.phrase)))
        (decisive_intent e transcript)

-- What the agent said, the last first.
abbrev agents_words : List Turn → List String → List String
agents_words [] said = said
agents_words (t ∷ ts) said = agents_words ts (if is_agent t.speaker then t.text ∷ said else said)

abbrev same_first : (String → String) → String → List String → ℕ
same_first f q [] = 0
same_first f q (t ∷ ts) = let n = same_first f q ts in if str_eq (f t) q then suc n else 0

abbrev streak : Env → (String → String) → List String → ℕ
streak w f [] = 0
streak w f (t ∷ ts) = if str_eq (f t) "" || not (w.asks t) then 0 else same_first f (f t) (t ∷ ts)

-- How many times in a row the agent asked the very same question.
unfoldable pub same_question_streak : Env → Hearing → CallState → ℕ
same_question_streak w h s =
    streak w (λ t. w.normalize (h.last_sentence t)) (agents_words s.history [])

abbrev pub fields_eq : List (String × String) → List (String × String) → Bool
fields_eq [] [] = true
fields_eq [] (_ ∷ _) = false
fields_eq (_ ∷ _) [] = false
fields_eq ((s, v) ∷ f) ((t, u) ∷ g) = str_eq s t && str_eq v u && fields_eq f g

abbrev pub is_confirming : Option PipelineRun → Bool
is_confirming none = false
is_confirming (some run) = is_awaiting run.step

-- A detail changed after the read-back is read back again.
abbrev pub action_for : AgentAction → Bool → Bool → AgentAction
action_for talk changed was_confirming = if changed && was_confirming then read_back else talk
action_for read_back changed was_confirming = read_back
action_for submit changed was_confirming = submit
action_for transfer changed was_confirming = transfer
action_for end_call changed was_confirming = end_call
