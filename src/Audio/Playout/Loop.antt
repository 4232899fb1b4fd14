-- ===== src/Audio/Playout/Loop.antt =====
-- crates/callora-audio/src/playout.rs: the task that plays the queue (`run`). A reading of the clock is
-- in nanoseconds; in a burst the frame sent as the n-th ahead of real time reads `clock n`. What the
-- receivers of the two channels do with what they are sent is not part of this, and they stay.
use callora.Base.{
  ℕ, zero, suc, ◌+◌, ◌-◌, ◌*◌, ◌/◌, max, Bool, true, false, Option, none, some, List, [], ◌∷◌, ◌++◌,
  length, map, ltb, leb, ◌==◌, if◌then◌else◌, not, ◌&&◌, is_some,
}
use callora.Audio.Floats.{Floats}
use callora.Audio.Playout.{
  Source, clip, stream, Chunk, bytes, error, Channel, Limiting, PlayItem, PlayoutConfig, Active,
  next_frame, done, remaining, waiting_on_stream, bytes_per_ms,
}
use callora.Audio.Playout

abbrev pub frame_ms : ℕ
frame_ms = 20

-- A millisecond of the clock.
abbrev pub ms : ℕ
ms = 1_000_000

pub data OutFrame : Type 0 where
  audio : List ℕ → OutFrame
  clear : OutFrame

pub data PlayoutEvent : Type 0 where
  started : ℕ → ℕ → PlayoutEvent
  finished : ℕ → PlayoutEvent
  idle : PlayoutEvent
  cancelled : List ℕ → ℕ → PlayoutEvent
  protected : ℕ → ℕ → PlayoutEvent
  gap : ℕ → ℕ → Bool → PlayoutEvent

abbrev pub or_else : Option ℕ → ℕ → ℕ
or_else none d = d
or_else (some a) d = a

abbrev is_item : Option ℕ → ℕ → Bool
is_item none id = false
is_item (some p) id = p == id

module _ (fl : Floats) (lim : Limiting fl) where
  pub record Player : Type 0 where
    pub queue : List (PlayItem fl lim)
    pub current : Option (Active fl lim)
    pub ahead : ℕ
    pub idle_reported : Bool
    pub play_end : Option ℕ
    pub protected_id : Option ℕ
    pub out : List OutFrame
    pub events : List PlayoutEvent

  unfoldable pub new : Player
  new = record {
    queue = [];
    current = none;
    ahead = 0;
    idle_reported = true;
    play_end = none;
    protected_id = none;
    out = [];
    events = [];
  }

  -- A player whose current item is given.
  abbrev pub at : Player → Option (Active fl lim) → Player
  at p c = record p { current = c }

  abbrev pub tell : Player → PlayoutEvent → Player
  tell p e = record p { events = p.events ++ e ∷ [] }

  abbrev pub idle_or_done : Option (Active fl lim) → Bool
  idle_or_done none = true
  idle_or_done (some a) = done fl lim a

  abbrev pub is_done : Option (Active fl lim) → Bool
  is_done none = false
  is_done (some a) = done fl lim a

  -- The current item is over: it is reported and left.
  abbrev pub finish : Player → Option (Active fl lim) → Player
  finish p none = p
  finish p (some a) = tell (record p { current = none }) (finished a.id)

  -- The silence since the end of what was sent, when there was one.
  abbrev pub gap_since : Player → Active fl lim → ℕ → Option ℕ → Player
  gap_since p a now none = p
  gap_since p a now (some end) =
      if ltb (end + ms) now then tell p (gap a.id ((now - end) / ms) (not a.started)) else p

  abbrev pub first_frame : Player → Active fl lim → ℕ → Player
  first_frame p a now = if a.started then p else tell p (started a.id now)

  abbrev longer : Option ℕ → ℕ → ℕ
  longer none now = now + frame_ms * ms
  longer (some end) now = max end now + frame_ms * ms

  -- A frame of the current item leaves.
  unfoldable pub send : Player → Active fl lim → ℕ → List ℕ → Player
  send p a now frame =
      let p1 = first_frame (gap_since p a now p.play_end) a now in
      record p1 {
        current = some (record a { started = true });
        play_end = some (longer p.play_end now);
        out = p.out ++ audio frame ∷ [];
        ahead = suc p.ahead;
        idle_reported = false;
      }

  abbrev pub next_item : PlayoutConfig fl lim → Player → List (PlayItem fl lim) → Player
  next_item cfg p [] = p
  next_item cfg p (item ∷ items) = record p {
    queue = items;
    current = some (Playout.new fl lim item cfg (not p.idle_reported));
  }

  -- When nothing is being played, or only what is over, the next item is begun.
  unfoldable pub begin : PlayoutConfig fl lim → Player → Player
  unfolding done Playout.new
  begin cfg p = if idle_or_done p.current then next_item cfg (finish p p.current) p.queue else p

  -- A round of the inner loop: another one follows, or the loop is left.
  pub data Round : Type 0 where
    again : Player → Round
    leave : Player → Round

  abbrev pub framed : (ℕ → ℕ) → Player → Active fl lim → Option (List ℕ) → Round
  framed clock p a (some frame) = again (send p a (clock p.ahead) frame)
  framed clock p a none =
      let p1 = record p { current = some a } in if done fl lim a then again p1 else leave p1

  abbrev pub play : (ℕ → ℕ) → Player → Option (Active fl lim) → Round
  play clock p none = leave p
  play clock p (some a) = let (a1, f) = next_frame fl lim a in framed clock p a1 f

  unfoldable pub round : PlayoutConfig fl lim → (ℕ → ℕ) → Player → Round
  unfolding begin send next_frame
  round cfg clock p = let p1 = begin cfg p in play clock p1 p1.current

  -- The inner loop; `none` stands for fuel that ran out.
  unfoldable pub rounds : PlayoutConfig fl lim → (ℕ → ℕ) → ℕ → Player → Option Player
  unfolding round
  rounds cfg clock zero p = none
  rounds cfg clock (suc n) p = elim (leb cfg.lead_frames p.ahead) [
    | true ↦ some p
    | false ↦ elim (round cfg clock p) [ again q ↦ rounds cfg clock n q | leave q ↦ some q ]
  ]

  abbrev pub pending_item : Option (Active fl lim) → ℕ
  pending_item none = 0
  pending_item (some a) = if done fl lim a then 0 else 1

  -- Every round sends a frame, begins an item or ends one.
  abbrev pub work : PlayoutConfig fl lim → Player → ℕ
  work cfg p = (cfg.lead_frames - p.ahead) + 2 * length p.queue + pending_item p.current

  abbrev pub or_same : Player → Option Player → Player
  or_same p none = p
  or_same p (some q) = q

  unfoldable pub burst : PlayoutConfig fl lim → (ℕ → ℕ) → Player → Player
  unfolding rounds done
  burst cfg clock p = or_same p (rounds cfg clock (suc (work cfg p)) p)

  abbrev pub has_none : List (PlayItem fl lim) → Bool
  has_none [] = true
  has_none (_ ∷ _) = false

  abbrev pub unprotected : Player → Player
  unprotected p = if is_some p.current then p else record p { protected_id = none }

  abbrev pub report_idle : Player → Player
  report_idle p =
      if not (is_some p.current) && has_none p.queue && p.ahead == 0 && not p.idle_reported
      then tell (record p { idle_reported = true }) idle
      else p

  abbrev pub finish_done : Player → Option (Active fl lim) → Player
  finish_done p c = if is_done c then finish p c else p

  -- What follows the inner loop, up to the wait.
  unfoldable pub settle : Player → Player
  unfolding done
  settle p = report_idle (unprotected (finish_done p p.current))

  abbrev queued_source : Source → ℕ
  queued_source (clip c) = length c / bytes_per_ms
  queued_source (stream _) = 0

  abbrev pub queued_ms : List (PlayItem fl lim) → ℕ
  queued_ms [] = 0
  queued_ms (i ∷ is) = queued_source i.source + queued_ms is

  abbrev pub current_ids : Option (Active fl lim) → List ℕ
  current_ids none = []
  current_ids (some a) = a.id ∷ []

  abbrev pub queue_ids : List (PlayItem fl lim) → List ℕ
  queue_ids is = map (λ i. i.id) is

  abbrev pub tell_cancelled : Player → List ℕ → ℕ → Player
  tell_cancelled p [] left = p
  tell_cancelled p (id ∷ ids) left = tell p (cancelled (id ∷ ids) left)

  abbrev pub had_audio : Player → List ℕ → Bool
  had_audio p [] = ltb 0 p.ahead
  had_audio p (_ ∷ _) = true

  abbrev pub emptied : Player → ℕ → List ℕ → Player
  emptied p left ids =
      tell_cancelled
        (record p {
          queue = [];
          current = none;
          ahead = 0;
          play_end = none;
          protected_id = none;
          out = if had_audio p ids then p.out ++ clear ∷ [] else p.out;
        })
        ids left

  abbrev pub idle_now : Player → Player
  idle_now p = if p.idle_reported then p else tell (record p { idle_reported = true }) idle

  -- Everything is dropped.
  unfoldable pub cancel_all : Player → ℕ → Player
  cancel_all p left = idle_now (emptied p left (current_ids p.current ++ queue_ids p.queue))

  abbrev pub protect : Player → ℕ → Option (Active fl lim) → Player
  protect p left none = p
  protect p left (some a) =
      if is_item p.protected_id a.id
      then p
      else tell (record p { protected_id = some a.id }) (protected a.id left)

  -- The current item is let finish; the queue is dropped.
  unfoldable pub cancel_queue : Player → ℕ → ℕ → Player
  cancel_queue p left queued =
      tell_cancelled (record (protect p left p.current) { queue = [] }) (queue_ids p.queue) queued

  abbrev pub measured : Option (Active fl lim) → Option (Active fl lim) × ℕ × Bool
  measured none = (none, 0, true)
  measured (some a) = let (a1, b, exact) = remaining fl lim a in (some a1, b / bytes_per_ms, exact)

  abbrev pub soft_enough : Option ℕ → ℕ → Bool → Bool
  soft_enough none left exact = false
  soft_enough (some protect_ms) left exact = exact && leb left protect_ms

  abbrev pub cancelled_at : Player → Option ℕ → ℕ → Bool → ℕ → Player
  cancelled_at p soft left exact queued =
      if soft_enough soft left exact
      then cancel_queue p left queued
      else cancel_all p (left + queued)

  -- `Cancel`, and `CancelSoft` with its limit.
  unfoldable pub cancel : Player → Option ℕ → Player
  unfolding remaining cancel_all cancel_queue
  cancel p soft =
      let (c, left, exact) = measured p.current in
      cancelled_at (at p c) soft (left + p.ahead * frame_ms) exact (queued_ms p.queue)
