-- ===== src/Lib.antt =====
-- A model of Callora, a voice agent that answers a business's telephone, and theorems about
-- it.
--
-- The parts and how they interact. A call's audio reaches the voice activity detector and the
-- barge-in rules; what the caller was understood to say moves the conversation engine, which
-- keeps the state of the call and answers with directives: say a plan, start a business
-- action, hand the call over, hang up. What it says is played into the call at the pace of a
-- clock, until the caller interrupts. A call that is handed over becomes a transfer, whose
-- desk numbers are rung. The model has a module for each of these:
--
-- Base: lists, association lists, Boolean tests and texts that the other modules share.
-- Call/Run: `PipelineRun` of crates/callora-core/src/state.rs, the run of one task, with
-- `set`, `clear` and `undo` and the values of values.rs. Its child Undo is about "go back".
-- Desk: crates/callora-runtime/src/desk.rs. `Transfer` is the record of the source, each
-- section under the lock is one function, and `step` gives the one that an event causes; the
-- calls to the telephony are a list of effects. Desk/Table is the table of transfers and the
-- callbacks that look one up, Desk/Dialing the ringing of the desk numbers (`transfer`), with
-- what happens between its sections as data. Once, Told, Winner, Settled and Rings are proofs.
-- Engine: crates/callora-core/src/engine.rs, with config.rs, customer.rs, render.rs and
-- state.rs. `CallState`, `Engine` and `Out` are records as in the source, and a function of
-- the engine takes the engine and the directives built so far and returns both anew.
-- Engine/Say is rendering, saying and asking (`say`, `ask`, `finish`), Fill is
-- `fill_defaults`, Flow is `advance` and `finish_run`, Handoff is `handoff` and `fallback`,
-- Results is `on_action_result` and `force_handoff`, Silence is `on_noise`, `on_hello`,
-- `on_abuse` and `on_silence`. Frame, Started, Ended, Results/Once, Results/Retry,
-- Results/Last and Silence/Ends are proofs.
-- Engine/Utterance: `on_utterance` of the same file, in stages that either finish the turn or
-- go on. Engine/Understanding has what was understood, Rules is `apply_rules`, Meta the things
-- a caller can say about the call itself, Answer the reading of yes and no and `apply_fills`.
-- Its children Steps, Parts, Stages, Values and Whole follow one utterance through the stages
-- for any property that the single steps keep; Ends and Starts apply them, and Answer/Fills is
-- about the details given.
-- Engine/Agent: the same turn when the language model decides it (`on_agent_turn`, with
-- crates/callora-core/src/agent.rs for the decision). Choice is what the caller's words
-- overrule, Fields the values and the task of the decision, Acts its actions, Whole the turn
-- in stages, each of which ends the turn or goes on to the next. Consent is a proof. Steps,
-- Kept, Parts and Closed follow a turn for any property that the single steps keep; Ends and
-- Starts apply them.
-- Engine/Shortcuts: the start of a call and what the session settles without the model.
-- Engine/Conversation: a call as a sequence of these turns in any order, as `Event` lists
-- them; Closed is about the turns on noise, silence and the shortcuts, Ends and Starts are
-- proofs.
-- Hebrew: crates/callora-core/src/hebrew.rs. Words says a number in words, Reading finds the
-- numbers among the words of a text, RoundTrip is a proof. The words stand as escapes of their
-- code points.
-- Audio: Vad is crates/callora-audio/src/vad.rs, Mulaw is crates/callora-audio/src/mulaw.rs,
-- Barge is crates/callora-runtime/src/barge.rs, Bounds is `speech_bounds` of mulaw.rs, and
-- their children are proofs. Playout is crates/callora-audio/src/playout.rs: Playout/Loop is
-- the work between two waits and Playout/Task the task as a step relation, with a clock that
-- only the wait moves. Playout/Burst, Playout/Kept and the children of Playout/Task are
-- proofs.
-- Prices: the list of prices of crates/callora-core/src/price_list.rs. Quote is the look-up,
-- Smallest and Parsed are proofs.
-- Failover: crates/callora-providers/src/stt_failover.rs. The task that watches a session is a
-- recursion over its events with the times they came at; Outage reads the same events without
-- a counter, Out lists what the calls do meanwhile, Watch is a proof.
-- Metrics: the histograms and labelled counters of crates/callora-runtime/src/metrics.rs;
-- Counts is a proof.
-- The modules named Tests run the definitions on small concrete inputs.
--
-- Choices. Numbers are unbounded, where the source has counters and times of 32 or 64 bits
-- that a call does not exhaust; bytes, samples, the lengths in a WAV header, the pads of
-- `speech_bounds` and the counters of Metrics keep their width. A confidence is in thousandths. The maps of the source are
-- association lists in the order of their keys. `advance` and `finish_run` call each other in
-- the source: each finished task resumes a suspended one, so the model recurses on the list of
-- suspended tasks (`finish_with`), which needs no fuel. The inner loop of the playout has as
-- fuel one more than `work`: the frames that may still be sent ahead, and the steps that the
-- queued items and the current one still need; each round lowers it, so a round is never
-- refused. An id that the business does not have reads as a task without slots
-- (`no_pipeline`), where the source stops.
--
-- Parameters. `Env` of Engine/Env stands for the renderer of render.rs, the text functions,
-- the parser of default values, the test for abuse and the wording of a summary; `Check` of
-- Engine/Answer for the gazetteer's answer on a place, which comes with the utterance;
-- `Hearing` of Engine/Agent for what text.rs, understanding.rs and gazetteer.rs make of the
-- words of caller and model; `Limiting` of the playout for the limiter of the samples;
-- `Reader` of Prices for the regular expressions and the words of a line; `Floats` of
-- Audio/Floats for `f32` and `f64`. No law of these is assumed: the theorems hold for every
-- choice of them.
--
-- Not modelled: the gazetteer, how a transcript becomes an understanding, the prompts of the
-- language model with the notes for its next decision and the reading of its reply, times of
-- day, loading and checking a business's file, the session that joins the parts, and
-- everything that is network, storage or user interface.
pub mod Base
pub mod Call
pub mod Desk
pub mod Engine
pub mod Prices
pub mod Audio
pub mod Failover
pub mod Hebrew
pub mod Metrics
