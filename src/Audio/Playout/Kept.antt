-- ===== src/Audio/Playout/Kept.antt =====
-- crates/callora-audio/src/playout.rs: a property that the parts of a round keep is kept by the inner loop
-- of `run`; and the parts keep the id of the item.
use callora.Base.{
  ℕ, ◌+◌, ◌<◌, Bool, Option, none, some, List, [], ◌∷◌, ◌++◌, if◌then◌else◌, ◌≡◌, refl, ◌∙◌, arith,
  Bool-cases, inl, inr, is_some, max,
}
use callora.Audio.Floats.{Floats}
use callora.Audio.Playout.{
  Source, clip, stream, Chunk, bytes, error, Limiting, PlayItem, PlayoutConfig, Active, done,
  drained, drain, trim_head, trim_tail, next_frame, frame_of, frame_bytes, pending_frame,
  trimmed_stream, buffering, remaining, left_in, drain_source, limited,
}
use callora.Audio.Playout.Loop.{
  Player, round, begin, play, framed, send, next_item, finish, burst, at, finish_done, unprotected,
  report_idle, settle, cancel, cancel_all, cancel_queue, cancelled_at, soft_enough, measured,
}
use callora.Audio.Playout.Burst.{Then, burst-keep}

module _ (fl : Floats) (lim : Limiting fl) where
  drained_id :
      (a : Active fl lim) (up_to : Option ℕ) (closed : Bool) (cs : List Chunk)
      → (drained fl lim a up_to closed cs).id ≡ a.id
  unfolding drained
  drained_id a up_to closed [] = refl
  drained_id a up_to closed (bytes b ∷ cs) =
      ground (arith, drained_id (record a { pending = a.pending ++ b }) up_to closed cs)
  drained_id a up_to closed (error ∷ cs) = ground arith

  drain_source_id :
      (a : Active fl lim) (up_to : Option ℕ) (s : Source)
      → (drain_source fl lim a up_to s).id ≡ a.id
  drain_source_id a up_to (clip c) = refl
  drain_source_id a up_to (stream ch) = drained_id a up_to ch.closed ch.inbox

  drain_id : (a : Active fl lim) (up_to : Option ℕ) → (drain fl lim a up_to).id ≡ a.id
  unfolding drain
  drain_id a up_to = drain_source_id a up_to a.source

  trim_head_id : (a : Active fl lim) → (trim_head fl lim a).id ≡ a.id
  unfolding trim_head
  trim_head_id a = ground arith

  trim_tail_id : (a : Active fl lim) → (trim_tail fl lim a).id ≡ a.id
  unfolding trim_tail
  trim_tail_id a = ground arith

  trimmed_stream_id : (a : Active fl lim) → (trimmed_stream fl lim a).id ≡ a.id
  trimmed_stream_id a = trim_tail_id _ ∙ ground (arith, trim_head_id a)

  pending_frame_id : (a : Active fl lim) → (pending_frame fl lim a).0.id ≡ a.id
  pending_frame_id a = ground arith

  buffered_id :
      (a : Active fl lim)
      → (if buffering fl lim a
          then (a, none)
          else pending_frame fl lim (record a { buffer_to = 0 })).0.id
        ≡ a.id
  buffered_id a = elim (Bool-cases (buffering fl lim a)) [
    | inl b ↦ rw b refl
    | inr b ↦ rw b (pending_frame_id (record a { buffer_to = 0 }))
  ]

  frame_of_id : (a : Active fl lim) (s : Source) → (frame_of fl lim a s).0.id ≡ a.id
  frame_of_id a (clip c) = ground arith
  frame_of_id a (stream ch) =
      let a0 = drain fl lim a (some (max a.buffer_to frame_bytes)) in
      buffered_id (trimmed_stream fl lim a0)
      ∙ trimmed_stream_id a0
      ∙ drain_id a (some (max a.buffer_to frame_bytes))

  limited_id : (r : Active fl lim × Option (List ℕ)) → (limited fl lim r).0.id ≡ r.0.id
  limited_id (a, none) = refl
  limited_id (a, some f) = refl

  next_frame_id : (a : Active fl lim) → (next_frame fl lim a).0.id ≡ a.id
  unfolding next_frame
  next_frame_id a = limited_id (frame_of fl lim a a.source) ∙ frame_of_id a a.source

  left_in_id : (a : Active fl lim) (s : Source) → (left_in fl lim a s).0.id ≡ a.id
  left_in_id a (clip c) = refl
  left_in_id a (stream ch) = drained_id a none ch.closed ch.inbox

  pub remaining_id : (a : Active fl lim) → (remaining fl lim a).0.id ≡ a.id
  unfolding remaining
  remaining_id a = left_in_id a a.source

  -- What the parts of a round keep.
  pub record Parts (cfg : PlayoutConfig fl lim) (P : Player fl lim → Type 0) : Type 0 where
    pub ends :
        (p : Player fl lim) (a : Active fl lim)
        → P (at fl lim p (some a))
        → P (finish fl lim p (some a))
    pub begins :
        (p : Player fl lim) (item : PlayItem fl lim) (items : List (PlayItem fl lim))
        → P (record p { queue = item ∷ items; current = none })
        → P (next_item fl lim cfg p (item ∷ items))
    pub moves :
        (p : Player fl lim) (a b : Active fl lim)
        → b.id ≡ a.id
        → P (at fl lim p (some a))
        → P (at fl lim p (some b))
    pub sends :
        (p : Player fl lim) (a b : Active fl lim) (now : ℕ) (f : List ℕ)
        → p.ahead < cfg.lead_frames
        → b.id ≡ a.id
        → P (at fl lim p (some a))
        → P (send fl lim p b now f)

  module _ (cfg : PlayoutConfig fl lim) (clock : ℕ → ℕ) (P : Player fl lim → Type 0)
      (parts : Parts cfg P) where
    framed-keep :
        (p : Player fl lim) (a b : Active fl lim) (f : Option (List ℕ))
        → p.ahead < cfg.lead_frames
        → b.id ≡ a.id
        → P (at fl lim p (some a))
        → Then fl lim cfg clock P (framed fl lim clock p b f)
    framed-keep p a b (some f) l e h = parts.sends p a b (clock p.ahead) f l e h
    framed-keep p a b none l e h = elim (Bool-cases (done fl lim b)) [
      | inl d ↦ rw d (parts.moves p a b e h)
      | inr d ↦ rw d (parts.moves p a b e h)
    ]

    play-keep :
        (p : Player fl lim) (c : Option (Active fl lim))
        → p.ahead < cfg.lead_frames
        → P (at fl lim p c)
        → Then fl lim cfg clock P (play fl lim clock (at fl lim p c) c)
    play-keep p none l h = h
    play-keep p (some a) l h =
        framed-keep (at fl lim p (some a)) a (next_frame fl lim a).0 (next_frame fl lim a).1 l
          (next_frame_id a) h

    item-keep :
        (p : Player fl lim) (items : List (PlayItem fl lim))
        → p.ahead < cfg.lead_frames
        → P (record p { queue = items; current = none })
        → let q = next_item fl lim cfg (record p { queue = items; current = none }) items in
          Then fl lim cfg clock P (play fl lim clock q q.current)
    item-keep p [] l h = h
    item-keep p (item ∷ items) l h =
        let q = next_item fl lim cfg (at fl lim p none) (item ∷ items) in
        play-keep q q.current l (parts.begins (at fl lim p none) item items h)

    current-keep :
        (p : Player fl lim) (c : Option (Active fl lim))
        → p.ahead < cfg.lead_frames
        → P (at fl lim p c)
        → Then fl lim cfg clock P (round fl lim cfg clock (at fl lim p c))
    unfolding round begin
    current-keep p none l h = item-keep p p.queue l h
    current-keep p (some a) l h = elim (Bool-cases (done fl lim a)) [
      | inl d ↦ rw d (item-keep (finish fl lim p (some a)) p.queue l (parts.ends p a h))
      | inr d ↦ rw d (play-keep p (some a) l h)
    ]

    -- The inner loop keeps what the parts of a round keep.
    pub parts-burst : (p : Player fl lim) → P p → P (burst fl lim cfg clock p)
    parts-burst = burst-keep fl lim cfg clock P (λ p l h. current-keep p p.current l h)

  -- What the rest of a turn keeps.
  pub record Rest (cfg : PlayoutConfig fl lim) (P : Player fl lim → Type 0) : Type 0 where
    pub unprotects : (p : Player fl lim) → P p → P (record p { protected_id = none })
    pub reports : (p : Player fl lim) → P p → P (report_idle fl lim p)
    pub drops : (p : Player fl lim) (left : ℕ) → P p → P (cancel_all fl lim p left)
    pub spares : (p : Player fl lim) (left queued : ℕ) → P p → P (cancel_queue fl lim p left queued)

  module _ (cfg : PlayoutConfig fl lim) (P : Player fl lim → Type 0) (parts : Parts cfg P)
      (rest : Rest cfg P) where
    finish_done-keep :
        (p : Player fl lim) (c : Option (Active fl lim))
        → P (at fl lim p c)
        → P (finish_done fl lim (at fl lim p c) c)
    finish_done-keep p none h = h
    finish_done-keep p (some a) h = elim (Bool-cases (done fl lim a)) [
      | inl d ↦ rw d (parts.ends p a h)
      | inr d ↦ rw d h
    ]

    unprotected-keep : (p : Player fl lim) → P p → P (unprotected fl lim p)
    unprotected-keep p h = elim (Bool-cases (is_some p.current)) [
      | inl d ↦ rw d h
      | inr d ↦ rw d (rest.unprotects p h)
    ]

    settle-keep : (p : Player fl lim) → P p → P (settle fl lim p)
    unfolding settle
    settle-keep p h =
        let q = finish_done fl lim p p.current in
        rest.reports (unprotected fl lim q) (unprotected-keep q (finish_done-keep p p.current h))

    pub turn-keep :
        (clock : ℕ → ℕ) (p : Player fl lim) → P p → P (settle fl lim (burst fl lim cfg clock p))
    turn-keep clock p h = settle-keep (burst fl lim cfg clock p) (parts-burst cfg clock P parts p h)

    cancelled_at-keep :
        (p : Player fl lim) (soft : Option ℕ) (left : ℕ) (exact : Bool) (queued : ℕ)
        → P p
        → P (cancelled_at fl lim p soft left exact queued)
    cancelled_at-keep p soft left exact queued h =
        elim (Bool-cases (soft_enough fl lim soft left exact)) [
          | inl d ↦ rw d (rest.spares p left queued h)
          | inr d ↦ rw d (rest.drops p (left + queued) h)
        ]

    measured-keep :
        (p : Player fl lim) (c : Option (Active fl lim))
        → P (at fl lim p c)
        → P (at fl lim p (measured fl lim c).0)
    measured-keep p none h = h
    measured-keep p (some a) h = parts.moves p a (remaining fl lim a).0 (remaining_id a) h

    pub cancel-keep : (p : Player fl lim) (soft : Option ℕ) → P p → P (cancel fl lim p soft)
    unfolding cancel
    cancel-keep p soft h =
        cancelled_at-keep (at fl lim p (measured fl lim p.current).0) soft _ _ _
          (measured-keep p p.current h)
