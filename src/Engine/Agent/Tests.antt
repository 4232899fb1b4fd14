-- ===== src/Engine/Agent/Tests.antt =====
-- Decisions of the model in a call of the taxi business, for the theorems on the agent's turn.
use callora.Base.{false, none, some, [], ◌∷◌, ◌≡◌, String, refl, str_eq, ◌||◌}
use callora.Call.Run.{text}
use callora.Engine.State
use callora.Engine.Answer.{Check}
use callora.Engine.Started.{actions}
use callora.Engine.Utterance.Tests.{as_said}
use callora.Engine.Tests.{plain, ready}
use callora.Engine.Agent.{AgentTurn, submit, Hearing}
use callora.Engine.Out.{Out}
use callora.Engine.Out
use callora.Engine.Agent.Whole.{on_agent_turn}

-- Every word is heard as it is said.
abbrev pub plainly : Hearing
plainly = record {
  leaves_shortly = λ b t. str_eq t "bye";
  says_goodbye = λ b t. str_eq t "bye";
  says_yes = λ b t. str_eq t "yes";
  says_nothing = λ b t. str_eq t "nothing";
  says_no = λ b t. str_eq t "no" || str_eq t "nothing";
  only_fillers = λ b t. str_eq t "well";
  only_hesitation = λ b t. str_eq t "er";
  says_hello = λ b t. str_eq t "hello";
  is_short = λ b t. str_eq t "bye";
  decides = λ b i t. false;
  intent_heard = λ e t. none;
  announces_transfer = λ b t. false;
  has_question = λ t. str_eq t "where_to";
  last_sentence = λ t. t;
  asks_in = λ e t. [];
  above_max = λ e s f. false;
  lone_city = λ e t f. none;
  misplaced = λ e t. none;
  shape = λ e t turn. turn.fields;
  in_same_city = λ e t f. f;
  says_same_city = λ e t. false;
  said_instead = λ e s raw. raw;
  unheard = λ e raw. false;
  parse = λ e s raw. some (text raw, 900);
}

abbrev pub checked_as_said : String → Check
checked_as_said raw = as_said

abbrev pub send_it : AgentTurn
send_it = record {
  phrase = none;
  words = "sent";
  action = submit;
  task = none;
  fields = [];
  asks = [];
}

yes-sends : actions (on_agent_turn plain plainly checked_as_said ready "yes" send_it "").1 ≡ 1 ∷ []
unfolding on_agent_turn State.new callora.Engine.Out.flush callora.Engine.Flow.first_below
    callora.Engine.Out.push callora.Engine.Out.has_speech callora.Engine.Out.empty
    callora.Engine.Out.speak
yes-sends = refl

well-reads : actions (on_agent_turn plain plainly checked_as_said ready "well" send_it "").1 ≡ []
unfolding on_agent_turn State.new callora.Engine.Out.flush callora.Engine.Out.speak
    callora.Engine.Out.empty
well-reads = refl
