-- ===== src/Audio/Playout/Task.antt =====
-- crates/callora-audio/src/playout.rs: what wakes `run`, and its turns from one wait to the next. The task
-- ends when the callers drop their handles or the receiver of the frames; the model is of the turns before
-- that.
pub mod Bounds
pub mod Ledger
pub mod Cancels
pub mod Pace
use callora.Base.{
  ℕ, ◌+◌, ◌-◌, ◌<◌, Bool, true, false, Option, none, some, List, [], ◌∷◌, ◌++◌, map, ltb, ◌==◌,
  if◌then◌else◌, ◌&&◌, ◌||◌, not, ◌≡◌,
}
use callora.Audio.Floats.{Floats}
use callora.Audio.Playout.{
  Source, clip, stream, Chunk, bytes, error, Channel, Limiting, PlayItem, PlayoutConfig, Active,
  waiting_on_stream,
}
use callora.Audio.Playout.Loop.{Player, new, burst, settle, cancel}

abbrev nothing : List Chunk → Bool
nothing [] = true
nothing (_ ∷ _) = false

-- Data is there for a stream: a chunk, or the news that no more will come.
abbrev arrived : Source → Bool
arrived (clip _) = false
arrived (stream ch) = not (nothing ch.inbox) || ch.closed

-- What a provider does with the channel of a stream.
pub data Delivery : Type 0 where
  sends : Chunk → Delivery
  closes : Delivery

abbrev pub delivered : Delivery → Source → Source
delivered d (clip c) = clip c
delivered (sends c) (stream ch) = stream (record ch { inbox = ch.inbox ++ c ∷ [] })
delivered closes (stream ch) = stream (record ch { closed = true })

module _ (fl : Floats) (lim : Limiting fl) where
  pub data Cmd : Type 0 where
    enqueue : PlayItem fl lim → Cmd
    cancel_now : Cmd
    cancel_soft : ℕ → Cmd

  pub data Wake : Type 0 where
    cmd : Cmd → Wake
    data_ready : Wake
    tick : Wake

  abbrev pub receive : Active fl lim → Bool → List Chunk → Active fl lim
  receive a closed [] = record a { stream_done = true }
  receive a closed (bytes b ∷ cs) = record a {
    source = stream (record { inbox = cs; closed = closed });
    pending = a.pending ++ b;
  }
  receive a closed (error ∷ cs) = record a {
    source = stream (record { inbox = cs; closed = closed });
    stream_done = true;
  }

  abbrev pub receive_of : Active fl lim → Source → Active fl lim
  receive_of a (clip _) = a
  receive_of a (stream ch) = if a.stream_done then a else receive a ch.closed ch.inbox

  -- What waiting for data does once data has arrived.
  unfoldable pub wait_for_data : Active fl lim → Active fl lim
  wait_for_data a = receive_of a a.source

  abbrev pub current_data : Option (Active fl lim) → Option (Active fl lim)
  current_data none = none
  current_data (some a) = some (wait_for_data a)

  abbrev pub handle : Player fl lim → Wake → Player fl lim
  handle p (cmd (enqueue item)) = record p { queue = p.queue ++ item ∷ [] }
  handle p (cmd cancel_now) = cancel fl lim p none
  handle p (cmd (cancel_soft protect_ms)) = cancel fl lim p (some protect_ms)
  handle p data_ready = record p { current = current_data p.current }
  handle p tick = record p { ahead = p.ahead - 1 }

  -- From one wait to the next.
  unfoldable pub turn : PlayoutConfig fl lim → (ℕ → ℕ) → Player fl lim → Wake → Player fl lim
  unfolding settle burst cancel wait_for_data
  turn cfg clock p w = settle fl lim (burst fl lim cfg clock (handle p w))

  abbrev waits : PlayoutConfig fl lim → Player fl lim → Option (Active fl lim) → Bool
  waits cfg p none = false
  waits cfg p (some a) =
      waiting_on_stream fl lim a && ltb p.ahead cfg.lead_frames && arrived a.source

  -- Whether the select can be woken this way.
  abbrev pub can_wake : PlayoutConfig fl lim → Player fl lim → Wake → Bool
  can_wake cfg p data_ready = waits cfg p p.current
  can_wake cfg p _ = true

  abbrev pub deliver_item : ℕ → Delivery → PlayItem fl lim → PlayItem fl lim
  deliver_item id d i = if i.id == id then record i { source = delivered d i.source } else i

  abbrev pub deliver_current : ℕ → Delivery → Option (Active fl lim) → Option (Active fl lim)
  deliver_current id d none = none
  deliver_current id d (some a) =
      some (if a.id == id then record a { source = delivered d a.source } else a)

  -- A provider reaches the channel of an item, which is being played, in the queue, or dropped.
  unfoldable pub deliver : ℕ → Delivery → Player fl lim → Player fl lim
  deliver id d p = record p {
    queue = map (deliver_item id d) p.queue;
    current = deliver_current id d p.current;
  }

  abbrev pub asked_by : Wake → List ℕ
  asked_by (cmd (enqueue item)) = item.id ∷ []
  asked_by _ = []

  -- The task waits as this player, after it was asked to play these items.
  pub data Waits (cfg : PlayoutConfig fl lim) : List ℕ → Player fl lim → Type 0 where
    spawned : Waits cfg [] (new fl lim)
    woken :
        {asked : List ℕ} {p : Player fl lim} (clock : ℕ → ℕ) (w : Wake)
        → Waits cfg asked p
        → can_wake cfg p w ≡ true
        → Waits cfg (asked ++ asked_by w) (turn cfg clock p w)
    reached :
        {asked : List ℕ} {p : Player fl lim} (id : ℕ) (d : Delivery)
        → Waits cfg asked p
        → Waits cfg asked (deliver id d p)
