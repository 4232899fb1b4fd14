-- ===== src/Audio/Playout.antt =====
-- crates/callora-audio/src/playout.rs: an item that is being played (`Active`).
pub mod Loop
pub mod Task
mod Tests
pub mod Burst
pub mod Kept
use callora.Base.{
  ℕ, ◌+◌, ◌-◌, ◌*◌, ◌/◌, min, max, Bool, true, false, Option, none, some, List, [], ◌∷◌, ◌++◌, take,
  drop, length, replicate, ltb, leb, if◌then◌else◌, not, ◌&&◌, ◌||◌, is_some,
}
use callora.Audio.Floats.{Floats}
use callora.Audio.Bounds.{speech_bounds}

abbrev pub frame_bytes : ℕ
frame_bytes = 160

abbrev pub silence : ℕ
silence = 255

abbrev pub bytes_per_ms : ℕ
bytes_per_ms = 8

-- What a provider sent of a stream.
pub data Chunk : Type 0 where
  bytes : List ℕ → Chunk
  error : Chunk

-- The channel of a stream: what has arrived and was not received yet, and whether its sender is
-- gone.
pub record Channel : Type 0 where
  pub inbox : List Chunk
  pub closed : Bool

pub data Source : Type 0 where
  clip : List ℕ → Source
  stream : Channel → Source

abbrev pub is_stream : Source → Bool
is_stream (clip _) = false
is_stream (stream _) = true

-- The limiter of crates/callora-audio/src/mulaw.rs, which turns frames louder.
pub record Limiting (fl : Floats) : Type 1 where
  pub Limiter : Type 0
  pub limiter : fl.F → Limiter
  pub process : Limiter → List ℕ → fl.F → List ℕ × Limiter

abbrev pub padded : List ℕ → List ℕ
padded f = f ++ replicate (frame_bytes - length f) silence

module _ (fl : Floats) (lim : Limiting fl) where
  pub record PlayItem : Type 0 where
    pub id : ℕ
    pub source : Source
    pub gain_db : fl.F

  pub record TrimConfig : Type 0 where
    pub threshold_rms : fl.F
    pub pad_ms : ℕ
    pub tail_pad_ms : ℕ

  pub record PlayoutConfig : Type 0 where
    pub lead_frames : ℕ
    pub limiter_ceiling_dbfs : fl.F
    pub start_buffer_ms : ℕ
    pub continuation_buffer_ms : ℕ
    pub rebuffer_ms : ℕ
    pub trim : Option TrimConfig

  pub record Active : Type 0 where
    pub id : ℕ
    pub source : Source
    pub offset : ℕ
    pub pending : List ℕ
    pub gain_db : fl.F
    pub limiter : lim.Limiter
    pub started : Bool
    pub stream_done : Bool
    pub buffer_to : ℕ
    pub rebuffer_bytes : ℕ
    pub trim : Option TrimConfig
    pub head_trimmed : Bool
    pub tail_trimmed : Bool

  abbrev cut : List ℕ → Option (ℕ × ℕ) → List ℕ
  cut xs none = xs
  cut xs (some (a, b)) = drop a (take b xs)

  abbrev bounds_by : TrimConfig → List ℕ → Option (ℕ × ℕ)
  bounds_by t xs = speech_bounds fl xs t.threshold_rms t.pad_ms t.tail_pad_ms

  abbrev trimmed_source : Option TrimConfig → Source → Source
  trimmed_source none s = s
  trimmed_source (some t) (clip c) = clip (cut c (bounds_by t c))
  trimmed_source (some t) (stream ch) = stream ch

  unfoldable pub new : PlayItem → PlayoutConfig → Bool → Active
  unfolding speech_bounds
  new item cfg continuation =
      let start_ms = if continuation then cfg.continuation_buffer_ms else cfg.start_buffer_ms in
      record {
        id = item.id;
        source = trimmed_source cfg.trim item.source;
        offset = 0;
        pending = [];
        gain_db = item.gain_db;
        limiter = lim.limiter cfg.limiter_ceiling_dbfs;
        started = false;
        stream_done = false;
        buffer_to = if is_stream item.source then start_ms * bytes_per_ms else 0;
        rebuffer_bytes = cfg.rebuffer_ms * bytes_per_ms;
        trim = cfg.trim;
        head_trimmed = not (is_some cfg.trim) || not (is_stream item.source);
        tail_trimmed = false;
      }

  -- The loop of `drain` over what is in the channel: `none` for `up_to` stands for `usize::MAX`.
  abbrev pub below : ℕ → Option ℕ → Bool
  below n none = true
  below n (some up_to) = ltb n up_to

  unfoldable pub drained : Active → Option ℕ → Bool → List Chunk → Active
  drained a up_to closed [] = record a {
    source = stream (record { inbox = []; closed = closed });
    stream_done = a.stream_done || (below (length a.pending) up_to && closed);
  }
  drained a up_to closed (c ∷ cs) = elim (below (length a.pending) up_to && not a.stream_done) [
    | false ↦ record a { source = stream (record { inbox = c ∷ cs; closed = closed }) }
    | true ↦ elim c [
      | bytes b ↦ drained (record a { pending = a.pending ++ b }) up_to closed cs
      | error ↦ record a {
        source = stream (record { inbox = cs; closed = closed });
        stream_done = true;
      }
    ]
  ]

  abbrev pub drain_source : Active → Option ℕ → Source → Active
  drain_source a up_to (clip c) = a
  drain_source a up_to (stream ch) = drained a up_to ch.closed ch.inbox

  unfoldable pub drain : Active → Option ℕ → Active
  unfolding drained
  drain a up_to = drain_source a up_to a.source

  -- Still silent: only the pad is kept.
  abbrev only_pad : Active → TrimConfig → Active
  only_pad a t = record a {
    pending = drop (length a.pending - min (t.pad_ms * bytes_per_ms) (length a.pending)) a.pending;
  }

  abbrev trim_head_by : Active → TrimConfig → Option (ℕ × ℕ) → Active
  trim_head_by a t (some (start, _)) = record a {
    pending = drop start a.pending;
    head_trimmed = true;
  }
  trim_head_by a t none = if a.stream_done then record a { head_trimmed = true } else only_pad a t

  unfoldable pub trim_head : Active → Active
  unfolding speech_bounds
  trim_head a = elim a.trim [
    | none ↦ a
    | some t ↦
        if a.head_trimmed || leb (length a.pending) 0
        then a
        else trim_head_by a t (bounds_by t a.pending)
  ]

  abbrev trim_tail_by : Active → Option (ℕ × ℕ) → Active
  trim_tail_by a none = record a { tail_trimmed = true }
  trim_tail_by a (some (_, end)) = record a { pending = take end a.pending; tail_trimmed = true }

  unfoldable pub trim_tail : Active → Active
  unfolding speech_bounds
  trim_tail a = elim a.trim [
    | none ↦ a
    | some t ↦
        if a.tail_trimmed || not a.stream_done then a else trim_tail_by a (bounds_by t a.pending)
  ]

  abbrev pub left_in : Active → Source → Active × ℕ × Bool
  left_in a (clip c) = (a, length c - a.offset, true)
  left_in a (stream ch) =
      let a1 = drained a none ch.closed ch.inbox in (a1, length a1.pending, a1.stream_done)

  -- What is left to play, in bytes, and whether that is all of it.
  unfoldable pub remaining : Active → Active × ℕ × Bool
  unfolding drained
  remaining a = left_in a a.source

  abbrev done_source : Active → Source → Bool
  done_source a (clip c) = leb (length c) a.offset
  done_source a (stream ch) = a.stream_done && leb (length a.pending) 0

  unfoldable pub done : Active → Bool
  done a = done_source a a.source

  -- Taking the frame of a clip.
  abbrev pub clip_frame : Active → List ℕ → Active × Option (List ℕ)
  clip_frame a c =
      if leb (length c) a.offset
      then (a, none)
      else (let end = min (a.offset + frame_bytes) (length c) in
          (record a { offset = end }, some (padded (drop a.offset (take end c)))))

  -- A frame of what is pending; a stream that ran dry buffers again.
  abbrev pub pending_frame : Active → Active × Option (List ℕ)
  pending_frame a =
      if leb frame_bytes (length a.pending)
      then (record a { pending = drop frame_bytes a.pending }, some (take frame_bytes a.pending))
      else if a.stream_done && ltb 0 (length a.pending)
      then (record a { pending = [] }, some (padded a.pending))
      else (
        if a.started && not a.stream_done then record a { buffer_to = a.rebuffer_bytes } else a,
        none,
      )

  abbrev pub trimmed_stream : Active → Active
  trimmed_stream a = trim_tail (
      if not a.head_trimmed
        && (leb (max a.buffer_to frame_bytes) (length a.pending) || a.stream_done)
      then trim_head a
      else a)

  abbrev pub buffering : Active → Bool
  buffering a =
      ltb 0 a.buffer_to
      && (ltb (length a.pending) a.buffer_to || not a.head_trimmed)
      && not a.stream_done

  abbrev pub stream_frame : Active → Active × Option (List ℕ)
  stream_frame a =
      let a1 = trimmed_stream (drain a (some (max a.buffer_to frame_bytes))) in
      if buffering a1 then (a1, none) else pending_frame (record a1 { buffer_to = 0 })

  abbrev pub frame_of : Active → Source → Active × Option (List ℕ)
  frame_of a (clip c) = clip_frame a c
  frame_of a (stream ch) = stream_frame a

  abbrev pub limited : Active × Option (List ℕ) → Active × Option (List ℕ)
  limited (a, none) = (a, none)
  limited (a, some f) =
      let (f1, l) = lim.process a.limiter f a.gain_db in (record a { limiter = l }, some f1)

  unfoldable pub next_frame : Active → Active × Option (List ℕ)
  unfolding trim_head trim_tail drain
  next_frame a = limited (frame_of a a.source)

  unfoldable pub waiting_on_stream : Active → Bool
  waiting_on_stream a =
      is_stream a.source
      && not a.stream_done
      && (ltb (length a.pending) (max a.buffer_to frame_bytes) || not a.head_trimmed)
