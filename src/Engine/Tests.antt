-- ===== src/Engine/Tests.antt =====
-- A taxi business with one task, for the theorems on crates/callora-core/src/engine.rs.
use callora.Base.{true, false, none, some, [], ◌∷◌, ◌≡◌, refl, arith, str_eq}
use callora.Call.Run.{PipelineRun, text, confirmed, awaiting_confirmation}
use callora.Engine.Config.{Business, PipelineConfig, SlotKind, continue, null}
use callora.Engine.Speech.{template}
use callora.Engine.Out.{Out}
use callora.Engine.Out
use callora.Engine.State.{Engine, CallState, Phase, ending}
use callora.Engine.State
use callora.Engine.Env.{Env}
use callora.Engine.Say.{pipeline_of}
use callora.Engine.Flow.{first_below, advance}
use callora.Engine.Started.{Started, actions}
use callora.Engine.Started.Advance.{advance-Started}
use callora.Engine.Ended.{ends, still}
use callora.Engine.Ended.Turns.{force_handoff-ends}
use callora.Engine.Results.{ActionFailure, ok, err, on_action_result, force_handoff}
use callora.Engine.Results.Once.{on_action_result-once}
use callora.Engine.Results.Retry.{attempt, on_failures, on_failures-retries}
use callora.Engine.Results.Last.{on_action_result-last}
use callora.Engine.Silence.Ends.{silences, silences-end}
use callora.Engine.Fill.{with_run}

-- Every response is its id, spoken.
abbrev pub plain : Env
plain = record {
  render = λ b delivery gain response ctx seed last. (
    some (record {
      segments =
          record {
            text = response;
            response_id = response;
            delivery = "normal";
            origin = template;
            prefix = false;
          }
          ∷ [];
      gain_db = gain;
    }),
    seed,
    last,
  );
  normalize = λ t. t;
  is_abusive = λ b text. str_eq text "curse";
  detect = λ t. none;
  default_value = λ b slot json. none;
  spoken = λ v. "value";
  is_blank = λ t. str_eq t "";
  asks = λ t. str_eq t "where_to";
  contains = λ a b. str_eq a b;
  question_tail = λ t. none;
  failed_key = λ action input. action;
  summary_text = λ reason intent pipeline slots. reason;
}

abbrev pub ride : PipelineConfig
ride = record {
  slots =
      record {
        slot = "destination";
        required = true;
        ask = some "where_to";
        default = none;
        from_customer = none;
        from_slot = none;
        ask_before_confirm = false;
      }
      ∷ [];
  confirm = some (record { response = "shall_i_send"; ask_change = "what_to_change" });
  action = some "send_ride";
  filler = some "one_moment";
  on_success = some "on_its_way";
  on_failure = some "failed";
  on_unknown = none;
  on_complete = none;
  after = continue;
  offer = none;
  strict_order = true;
}

abbrev pub taxi : Business
taxi = record {
  id = "taxi";
  name = "Taxi";
  greeting = "hello";
  goodbye = "bye";
  anything_else = "anything_else";
  confirm_slot = "did_you_say";
  acknowledgement = none;
  pipelines = ("ride", ride) ∷ [];
  slots =
      (
        "destination",
        record {
          kind = SlotKind.text;
          description = "where";
          confirm_below = 600;
          reject_below = 300;
        },
      )
      ∷ [];
  actions =
      ("send_ride", record { requires_confirmation = true; min_confidence = 500; max_attempts = 3 })
      ∷ [];
  responses = [];
  intents = [];
  rules = [];
  ladder = "say_again" ∷ [];
  restart = none;
  handoff_response = "passing_you_on";
  unavailable_response = "nobody_is_free";
  after_action_failures = 2;
  silence = record {
    reprompt_after_ms = 8000;
    max_reprompts = 2;
    response = some "are_you_there";
    patient_after_ms = 20000;
    patient_reprompts = 3;
    patient_response = some "take_your_time";
  };
  deliveries = [];
  meta_response = λ m. none;
  handoff_number = some "+1";
  customer_lookup = none;
}

abbrev pub ordered : PipelineRun
ordered = record {
  pipeline = "ride";
  intent = "order";
  slots =
      (
        "destination",
        record {
          value = text "station";
          confidence = 900;
          provenance = confirmed;
          confirmed = false;
        },
      )
      ∷ [];
  step = awaiting_confirmation;
  journal = [];
  confirmed = true;
  attempts = 0;
  fired_rules = [];
}

abbrev pub calling : Engine
calling = record { business = taxi; state = State.new; seed = 0; offered_more = false; desk = none }

abbrev pub ready : Engine
ready = with_run calling ordered

-- The task is told to go on, and its action is started once, under the first run id.
ready_starts : actions (advance plain ready Out.empty false).1.directives ≡ 1 ∷ []
unfolding advance Out.empty Out.push Out.flush State.new first_below Out.has_speech Out.speak
ready_starts = refl

advance-Started_example : Started 1 [] (advance plain ready Out.empty false)
advance-Started_example = unfold State.new Out.empty in advance-Started plain ready Out.empty false

abbrev sent : Engine
sent = record calling {
  state = record (calling.state) { run = some (attempt ordered 1 1); next_action_run = 2 };
}

abbrev busy : ActionFailure
busy = record { error = "busy"; outcome_unknown = true }

on_action_result-once_example :
    on_action_result plain (on_action_result plain sent 1 (ok null)).0 1 (err busy)
    ≡ ((on_action_result plain sent 1 (ok null)).0, [])
on_action_result-once_example = on_action_result-once plain sent 1 null (err busy) (omega arith)

on_failures-retries_example :
    ((on_failures plain (with_run sent (attempt ordered 1 1)) 1 (busy ∷ busy ∷ [])).0
      ≡ with_run sent (attempt ordered 1 3))
    × (actions (on_failures plain (with_run sent (attempt ordered 1 1)) 1 (busy ∷ busy ∷ [])).1
        ≡ 1 ∷ 1 ∷ [])
on_failures-retries_example =
    on_failures-retries plain sent ordered 1 1 (busy ∷ busy ∷ [])
      (unfold pipeline_of in omega arith)

on_action_result-last_example :
    actions (on_action_result plain (with_run sent (attempt ordered 1 3)) 1 (err busy)).1 ≡ []
on_action_result-last_example =
    on_action_result-last plain sent ordered 1 3 busy (unfold State.new in refl)
      (unfold pipeline_of in omega arith)

-- Two reprompts, three patient ones, and the goodbye.
silences-end_example : (silences plain 6 ready).state.phase ≡ ending
silences-end_example =
    silences-end plain 5 ready (unfold State.new in refl) (unfold State.new in omega arith)

force_handoff-ends_example :
    (ends (force_handoff plain ready "stt_failed").1 ≡ 1)
    × (still (force_handoff plain ready "stt_failed").0.state.phase ≡ 0)
force_handoff-ends_example = force_handoff-ends plain ready "stt_failed" (unfold State.new in refl)
