-- ===== src/Audio/Vad/Utterance.antt =====
-- crates/callora-audio/src/vad.rs: the utterances of a caller's track.
use callora.Base.{
  ℕ, ◌+◌, ◌*◌, ◌≤◌, ◌<◌, Bool, true, false, Option, none, some, List, [], ◌∷◌, ◌≡◌, refl, arith,
  sym, ◌∙◌, ap, subst,
}
use callora.Audio.Floats.{Floats}
use callora.Audio.Vad.{
  VadEvent, speech_started, speech_ended, frame_ms, Vad, push_with, counted, measured, decide,
  heard,
}

-- Events from a time when the caller is silent (`false`) or speaking (`true`), and what they lead to.
abbrev pub Alternates : Bool → List VadEvent → Bool → Type 0
Alternates b [] c = b ≡ c
Alternates false (speech_started ∷ es) c = Alternates true es c
Alternates true (speech_started ∷ es) c = ⊥
Alternates true (speech_ended ∷ es) c = Alternates false es c
Alternates false (speech_ended ∷ es) c = ⊥

abbrev put : Option VadEvent → List VadEvent → List VadEvent
put none es = es
put (some e) es = e ∷ es

put-Alternates :
    (b m c : Bool) (o : Option VadEvent) (es : List VadEvent)
    → Alternates b (put o []) m
    → Alternates m es c
    → Alternates b (put o es) c
put-Alternates b m c none es h k = subst (λ x. Alternates x es c) (sym h) k
put-Alternates false m c (some speech_started) es h k = subst (λ x. Alternates x es c) (sym h) k
put-Alternates true m c (some speech_started) es h k = elim h [ ]
put-Alternates true m c (some speech_ended) es h k = subst (λ x. Alternates x es c) (sym h) k
put-Alternates false m c (some speech_ended) es h k = elim h [ ]

put_nothing : (o : Option VadEvent) (es : List VadEvent) → put o es ≡ [] → (o ≡ none) × (es ≡ [])
put_nothing none es h = (refl, h)
put_nothing (some e) es h = ground (arith, h)

module _ (fl : Floats) where
  abbrev Frame : Type 0
  Frame = List ℕ × Option fl.F

  abbrev pub run : Vad fl → List Frame → Vad fl × List VadEvent
  run v [] = (v, [])
  run v (f ∷ fs) =
      let (v1, e) = push_with fl v f.0 f.1 in let (v2, es) = run v1 fs in (v2, put e es)

  abbrev pub total_ms : List Frame → ℕ
  total_ms [] = 0
  total_ms (f ∷ fs) = frame_ms f.0 + total_ms fs

  -- What measuring and counting a frame leave alone.
  abbrev prepared : Vad fl → List ℕ → Bool → Vad fl
  prepared v frame b = counted fl (measured fl v frame) (frame_ms frame) b

  prepared-same :
      (v : Vad fl) (frame : List ℕ) (b : Bool)
      → ((prepared v frame b).speaking ≡ v.speaking)
        × ((prepared v frame b).speaking_ms ≡ v.speaking_ms)
        × ((prepared v frame b).cfg ≡ v.cfg)
  prepared-same v frame true = (refl, refl, refl)
  prepared-same v frame false = (refl, refl, refl)

  decide-Alternates :
      (v : Vad fl) (ms : ℕ)
      → Alternates v.speaking (put (decide fl v ms).1 []) (decide fl v ms).0.speaking
  decide-Alternates v ms = ground arith

  push_with-Alternates :
      (v : Vad fl) (frame : List ℕ) (voice : Option fl.F)
      → Alternates v.speaking
          (put (push_with fl v frame voice).1 [])
          (push_with fl v frame voice).0.speaking
  unfolding push_with
  push_with-Alternates v frame voice =
      let b = heard fl v frame voice in
      subst
        (λ s.
          Alternates s (put (push_with fl v frame voice).1 [])
            (push_with fl v frame voice).0.speaking)
        (prepared-same v frame b).0 (decide-Alternates (prepared v frame b) (frame_ms frame))

  -- Over any frames, whatever their level, speech starts and ends in turn, beginning with a start
  -- when the caller was silent and with an end otherwise, and the last event says whether the caller speaks.
  pub run-Alternates :
      (v : Vad fl) (fs : List Frame) → Alternates v.speaking (run v fs).1 (run v fs).0.speaking
  run-Alternates v [] = refl
  run-Alternates v (f ∷ fs) =
      let r = push_with fl v f.0 f.1 in
      put-Alternates v.speaking r.0.speaking (run r.0 fs).0.speaking r.1 (run r.0 fs).1
        (push_with-Alternates v f.0 f.1) (run-Alternates r.0 fs)

  -- A frame of an utterance that goes on.
  decide-on :
      (v : Vad fl) (ms : ℕ)
      → v.speaking ≡ true
      → (decide fl v ms).1 ≡ none
      → ((decide fl v ms).0.speaking ≡ true)
        × ((decide fl v ms).0.speaking_ms ≡ v.speaking_ms + ms)
        × ((decide fl v ms).0.cfg ≡ v.cfg)
        × (v.speaking_ms + ms < v.cfg.max_speech_ms)
  decide-on v ms s n = ground (arith, s, n)

  push_with-on :
      (v : Vad fl) (f : Frame)
      → v.speaking ≡ true
      → (push_with fl v f.0 f.1).1 ≡ none
      → ((push_with fl v f.0 f.1).0.speaking ≡ true)
        × ((push_with fl v f.0 f.1).0.speaking_ms ≡ v.speaking_ms + frame_ms f.0)
        × ((push_with fl v f.0 f.1).0.cfg ≡ v.cfg)
        × (v.speaking_ms + frame_ms f.0 < v.cfg.max_speech_ms)
  unfolding push_with
  push_with-on v f s n =
      let b = heard fl v f.0 f.1 in
      let (same, ms, cfg) = prepared-same v f.0 b in
      let (on, more, kept, short) = decide-on (prepared v f.0 b) (frame_ms f.0) (same ∙ s) n in
      (
        on,
        more ∙ ap (λ n. n + frame_ms f.0) ms,
        kept ∙ cfg,
        omega (arith, short, ms, ap (λ c. c.max_speech_ms) cfg),
      )

  -- No utterance goes on for ever: while the caller speaks, for less than the configured limit
  -- so far, frames in which neither a start nor an end is reported keep the utterance below that
  -- limit, whatever they hold.
  pub run-bounded :
      (v : Vad fl) (fs : List Frame)
      → v.speaking ≡ true
      → v.speaking_ms < v.cfg.max_speech_ms
      → (run v fs).1 ≡ []
      → v.speaking_ms + total_ms fs < v.cfg.max_speech_ms
  run-bounded v [] s h n = omega (arith, h)
  run-bounded v (f ∷ fs) s h n =
      let r = push_with fl v f.0 f.1 in
      let (quiet, after) = put_nothing r.1 (run r.0 fs).1 n in
      let (on, more, kept, short) = push_with-on v f s quiet in
      let limit = ap (λ c. c.max_speech_ms) kept in
      omega (arith, run-bounded r.0 fs on (omega (arith, more, limit, short)) after, more, limit)

  decide-speech_ms :
      (v : Vad fl) (ms : ℕ)
      → ((decide fl v ms).0.speech_ms ≤ v.speech_ms) × ((decide fl v ms).0.cfg ≡ v.cfg)
  decide-speech_ms v ms = ground arith

  prepared-speech_ms :
      (v : Vad fl) (frame : List ℕ) (b : Bool)
      → v.speech_ms ≤ 2 * v.cfg.trigger_ms
      → (prepared v frame b).speech_ms ≤ 2 * v.cfg.trigger_ms
  prepared-speech_ms v frame true h = omega arith
  prepared-speech_ms v frame false h = omega (arith, h)

  push_with-speech_ms :
      (v : Vad fl) (f : Frame)
      → v.speech_ms ≤ 2 * v.cfg.trigger_ms
      → (push_with fl v f.0 f.1).0.speech_ms ≤ 2 * (push_with fl v f.0 f.1).0.cfg.trigger_ms
  unfolding push_with
  push_with-speech_ms v f h =
      let b = heard fl v f.0 f.1 in
      let (less, kept) = decide-speech_ms (prepared v f.0 b) (frame_ms f.0) in
      omega (
        arith,
        less,
        prepared-speech_ms v f.0 b h,
        ap (λ c. c.trigger_ms) (kept ∙ (prepared-same v f.0 b).2),
      )

  -- The counter of speech stays at or below twice the trigger, over any frames, once it is
  -- there.
  pub run-speech_ms :
      (v : Vad fl) (fs : List Frame)
      → v.speech_ms ≤ 2 * v.cfg.trigger_ms
      → (run v fs).0.speech_ms ≤ 2 * (run v fs).0.cfg.trigger_ms
  run-speech_ms v [] h = h
  run-speech_ms v (f ∷ fs) h =
      run-speech_ms (push_with fl v f.0 f.1).0 fs (push_with-speech_ms v f h)
