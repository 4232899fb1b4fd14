-- ===== src/Audio/Playout/Tests.antt =====
-- A player of two small items, for the theorems on the playout.
use callora.Base.{◌+◌, ℕ, ◌≤◌, false, none, some, [], ◌∷◌, ◌≡◌, refl, arith, replicate}
use callora.Audio.Tests.{whole}
use callora.Audio.Bounds.{speech_bounds}
use callora.Audio.Bounds.Slice.{speech_bounds-IsSlice}
use callora.Audio.Playout.{clip, stream, Limiting, PlayItem, PlayoutConfig, done}
use callora.Audio.Playout.Loop.{Player, new, rounds, burst}
use callora.Audio.Playout.Burst.{rounds-burst}
use callora.Audio.Playout.Task.{Waits, spawned, woken, cmd, enqueue, cancel_now, tick, turn}
use callora.Audio.Playout.Task.Pace.{sent, ticks, turns-paced}
use callora.Audio.Playout.Task.Ledger.{accounted, Waits-accounted}
use callora.Audio.Playout.Task.Cancels.{cancel-turns, turns, heard}

-- A limiter that does nothing.
abbrev plain : Limiting whole
plain = record { Limiter = ℕ; limiter = λ ceiling. ceiling; process = λ l f gain. (f, l) }

abbrev config : PlayoutConfig whole plain
config = record {
  lead_frames = 3;
  limiter_ceiling_dbfs = 0;
  start_buffer_ms = 250;
  continuation_buffer_ms = 250;
  rebuffer_ms = 250;
  trim = none;
}

abbrev word : PlayItem whole plain
word = record { id = 1; source = clip (7 ∷ 8 ∷ []); gain_db = 0 }

abbrev arriving : PlayItem whole plain
arriving = record { id = 2; source = stream (record { inbox = []; closed = false }); gain_db = 0 }

abbrev clock : ℕ → ℕ
clock n = n

abbrev queued : Player whole plain
queued = record (new whole plain) { queue = word ∷ arriving ∷ [] }

rounds-burst_example :
    rounds whole plain config clock 9 queued ≡ some (burst whole plain config clock queued)
rounds-burst_example =
    rounds-burst whole plain config clock queued 9 (unfold new done in omega arith)

abbrev after_word : Player whole plain
after_word = turn whole plain config clock (new whole plain) (cmd (enqueue word))

asked_word : Waits whole plain config (1 ∷ []) after_word
asked_word = woken clock (cmd (enqueue word)) spawned refl

asked_both :
    Waits whole plain config
      (1 ∷ 2 ∷ [])
      (turn whole plain config clock after_word (cmd (enqueue arriving)))
asked_both = woken clock (cmd (enqueue arriving)) asked_word refl

-- The word's frames fill the lead; a tick lets one more go.
turns-paced_example :
    sent (turns whole plain config after_word ((clock, tick) ∷ (clock, tick) ∷ [])).out
      + after_word.ahead
    ≤ sent after_word.out
      + ticks whole plain ((clock, tick) ∷ (clock, tick) ∷ [])
      + config.lead_frames
turns-paced_example =
    turns-paced whole plain config after_word ((clock, tick) ∷ (clock, tick) ∷ []) asked_word

Waits-accounted_example :
    accounted whole plain 2 (turn whole plain config clock after_word (cmd (enqueue arriving))) ≡ 1
Waits-accounted_example =
    Waits-accounted whole plain 2 config
      (turn whole plain config clock after_word (cmd (enqueue arriving))) asked_both

cancel-turns_example :
    heard
      (turns whole plain config
        (turn whole plain config clock after_word (cmd cancel_now))
        ((clock, tick) ∷ (clock, tick) ∷ [])).out
    ≡ heard after_word.out
cancel-turns_example =
    cancel-turns whole plain config clock ((clock, tick) ∷ (clock, tick) ∷ []) after_word refl

speech_bounds-IsSlice_example : (0 ≤ 90) × (90 ≤ 90)
speech_bounds-IsSlice_example =
    speech_bounds-IsSlice whole (replicate 90 7) 3 5 5 0 90 (omega arith)
      (unfold speech_bounds in refl)
