-- ===== src/Engine/Conversation/Tests.antt =====
-- A call of the taxi business, turn by turn, for the theorems on a conversation.
use callora.Base.{◌+◌, false, none, some, [], ◌∷◌, ◌++◌, ◌≡◌, refl}
use callora.Call.Run.{text, rules, executing}
use callora.Engine.Config.{transfer_human}
use callora.Engine.Out.{Out}
use callora.Engine.Out
use callora.Engine.State.{Engine, ending}
use callora.Engine.State
use callora.Engine.Results.{err, on_action_result}
use callora.Engine.Understanding.{Understanding}
use callora.Engine.Ended.{ends, still}
use callora.Engine.Started.{Started, actions}
use callora.Engine.Utterance.{on_utterance}
use callora.Engine.Utterance.Starts.{given}
use callora.Engine.Utterance.Tests.{as_said}
use callora.Engine.Tests.{plain, ordered, ready}
use callora.Engine.Agent.Tests.{plainly, checked_as_said, send_it}
use callora.Engine.Conversation.{Event, decision, forced, turn, begun, goes_on}
use callora.Engine.Conversation.Ends.{Conversation-ends}
use callora.Engine.Conversation.Starts.{turn-Started}

abbrev yes : Event
yes = decision checked_as_said "yes" send_it ""

-- The engine after the caller's yes.
abbrev sent : Engine
sent = (turn plain plainly ready yes).0

abbrev given_up : Engine
given_up = (turn plain plainly sent (forced "caller_requested")).0

Conversation-ends_example :
    ends (
        ([] ++ (turn plain plainly ready yes).1)
        ++ (turn plain plainly sent (forced "caller_requested")).1)
      + still given_up.state.phase
    ≡ still ready.state.phase
Conversation-ends_example =
    Conversation-ends plain plainly ready given_up
      (([] ++ (turn plain plainly ready yes).1)
        ++ (turn plain plainly sent (forced "caller_requested")).1)
      (goes_on ready ([] ++ (turn plain plainly ready yes).1) sent (forced "caller_requested")
        (goes_on ready [] ready yes (begun ready) tt) tt)

turn-Started_example : let r = turn plain plainly ready yes in Started 1 [] (r.0, given r.1)
unfolding State.new
turn-Started_example = turn-Started plain plainly ready yes refl

abbrev executing_now : Engine
executing_now = record ready {
  state = record (ready.state) {
    run = some (record ordered { step = executing 1; attempts = 1 });
    next_action_run = 2;
  };
}

abbrev says_it_again : Understanding
says_it_again = record {
  transcript = "to the station";
  meta = none;
  intent = none;
  affirm = none;
  slots =
      record { slot = "destination"; value = text "station"; confidence = 900; provenance = rules }
      ∷ [];
  frustrated = false;
  noise = false;
}

-- A caller who repeats a detail while the action runs has it started a second time, under a new run id.
repeats-starts : actions (on_utterance plain as_said executing_now says_it_again).1 ≡ 2 ∷ []
unfolding on_utterance State.new Out.flush callora.Engine.Flow.first_below Out.push Out.has_speech
    Out.empty Out.speak
repeats-starts = refl

-- The call is over, and its action has failed as often as it may.
abbrev failing_late : Engine
failing_late = record executing_now {
  state = record (executing_now.state) {
    phase = ending;
    run = some (record ordered { step = executing 1; attempts = 3 });
    action_failures = 1;
  };
}

-- A failure that comes after the end still hands the call over.
late-hands_over :
    ends
      (on_action_result plain failing_late 1
        (err (record { error = "refused"; outcome_unknown = false }))).1
    ≡ 1
unfolding on_action_result State.new Out.flush callora.Engine.Flow.first_below Out.push
    Out.has_speech Out.empty Out.speak
late-hands_over = refl

-- So does a request for a person while nobody is at the desk.
abbrev asks_for_a_person : Understanding
asks_for_a_person = record says_it_again {
  transcript = "a person";
  meta = some transfer_human;
  slots = [];
}

asks_for_a_person-starts :
    actions
      (on_utterance plain as_said (record executing_now { desk = some false }) asks_for_a_person).1
    ≡ 2 ∷ []
unfolding on_utterance State.new Out.flush callora.Engine.Flow.first_below Out.push Out.has_speech
    Out.empty Out.speak
asks_for_a_person-starts = refl
