-- ===== src/Audio/Vad.antt =====
-- crates/callora-audio/src/vad.rs: voice activity on the caller's track. The times are unbounded numbers:
-- the sums of the source's `u64`s do not wrap within a call.
pub mod Utterance
use callora.Base.{
  ℕ, ◌+◌, ◌-◌, ◌*◌, ◌/◌, Bool, true, false, Option, none, some, List, [], ◌∷◌, if◌then◌else◌, leb,
  min, max, length, not, ◌&&◌,
}
use callora.Audio.Floats.{Floats}

pub data VadEvent : Type 0 where
  speech_started speech_ended : VadEvent

abbrev pub frame_ms : List ℕ → ℕ
frame_ms frame = length frame * 1000 / 8000

module _ (fl : Floats) where
  pub record VadConfig : Type 0 where
    pub threshold_rms : fl.F
    pub trigger_ms : ℕ
    pub endpoint_ms : ℕ
    pub max_speech_ms : ℕ
    pub noise_floor_ratio : fl.F
    pub voice_start : Option fl.F
    pub voice_hold : fl.F

  pub record Vad : Type 0 where
    pub cfg : VadConfig
    pub speech_ms : ℕ
    pub silence_ms : ℕ
    pub speaking : Bool
    pub last_rms : fl.F
    pub threshold : fl.F
    pub speaking_ms : ℕ
    pub loudness : fl.Wide
    pub peak : fl.F
    pub endpoint_ms : ℕ
    pub floor : fl.F

  unfoldable pub new : VadConfig → Vad
  new cfg = record {
    cfg = cfg;
    speech_ms = 0;
    silence_ms = 0;
    speaking = false;
    last_rms = fl.zero;
    threshold = cfg.threshold_rms;
    speaking_ms = 0;
    loudness = fl.no_loudness;
    peak = fl.zero;
    endpoint_ms = cfg.endpoint_ms;
    floor = fl.initial_floor;
  }

  unfoldable pub set_endpoint_ms : Vad → ℕ → Vad
  set_endpoint_ms v ms = record v { endpoint_ms = max ms 60 }

  unfoldable pub mean_rms : Vad → fl.F
  mean_rms v = if leb v.speaking_ms 0 then fl.zero else fl.mean v.loudness v.speaking_ms

  unfoldable pub threshold_now : Vad → fl.F
  threshold_now v =
      if fl.positive v.cfg.noise_floor_ratio
      then fl.larger v.threshold (fl.times v.floor v.cfg.noise_floor_ratio)
      else v.threshold

  -- How sure a voice must be, when the probability is used.
  abbrev sure_of : Vad → fl.F → fl.F
  sure_of v start = if v.speaking then v.cfg.voice_hold else start

  abbrev is_voiced : Vad → Option fl.F → Option fl.F → Bool
  is_voiced v none p = true
  is_voiced v (some start) none = true
  is_voiced v (some start) (some p) = fl.at_least p (sure_of v start)

  abbrev pub measured : Vad → List ℕ → Vad
  measured v frame =
      let rms = fl.level frame in
      record v { last_rms = rms; floor = fl.decay (fl.less rms v.floor) v.floor rms }

  abbrev pub counted : Vad → ℕ → Bool → Vad
  counted v ms true = record v {
    speech_ms = min (v.speech_ms + ms) (2 * v.cfg.trigger_ms);
    silence_ms = 0;
  }
  counted v ms false = record v { speech_ms = v.speech_ms - 2 * ms; silence_ms = v.silence_ms + ms }

  abbrev pub started : Vad → Vad
  started v = record v {
    speaking = true;
    speaking_ms = 0;
    loudness = fl.no_loudness;
    peak = fl.zero;
  }

  abbrev pub went_on : Vad → ℕ → Vad
  went_on v ms = record v {
    speaking_ms = v.speaking_ms + ms;
    loudness = fl.louder v.loudness v.last_rms ms;
    peak = fl.larger v.peak v.last_rms;
  }

  abbrev pub too_long : Vad → Vad
  too_long v = record v {
    threshold = fl.larger v.threshold (fl.raise (fl.mean v.loudness v.speaking_ms));
    speaking = false;
    speech_ms = 0;
    silence_ms = 0;
  }

  abbrev pub ended : Vad → Vad
  ended v = record v { speaking = false; speech_ms = 0 }

  -- A frame of an utterance.
  abbrev pub speaking_step : Vad → ℕ → Vad × Option VadEvent
  speaking_step v ms =
      let v1 = went_on v ms in
      if leb v1.cfg.max_speech_ms v1.speaking_ms
      then (too_long v1, some speech_ended)
      else if leb v1.endpoint_ms v1.silence_ms
      then (ended v1, some speech_ended)
      else (v1, none)

  abbrev pub decide : Vad → ℕ → Vad × Option VadEvent
  decide v ms =
      if v.speaking
      then speaking_step v ms
      else if leb v.cfg.trigger_ms v.speech_ms
      then (started v, some speech_started)
      else (v, none)

  abbrev pub heard : Vad → List ℕ → Option fl.F → Bool
  heard v frame voice =
      fl.at_least (fl.level frame) (threshold_now v) && is_voiced v v.cfg.voice_start voice

  unfoldable pub push_with : Vad → List ℕ → Option fl.F → Vad × Option VadEvent
  unfolding threshold_now
  push_with v frame voice =
      decide (counted (measured v frame) (frame_ms frame) (heard v frame voice)) (frame_ms frame)

  unfoldable pub push : Vad → List ℕ → Vad × Option VadEvent
  unfolding push_with
  push v frame = push_with v frame none

  unfoldable pub reset : Vad → Vad
  reset v = record v { speech_ms = 0; silence_ms = 0; speaking = false }
