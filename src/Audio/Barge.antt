-- ===== src/Audio/Barge.antt =====
-- crates/callora-runtime/src/barge.rs: whether a voice over the agent stops it.
pub mod Rules
use callora.Base.{
  ℕ, ◌≤◌, ◌<◌, Bool, true, false, Option, none, some, String, if◌then◌else◌, ltb, leb, ◌==◌, not,
  ◌&&◌, max, is_some, ◌≡◌, refl, arith, Bool-cases, inl, inr,
}
use callora.Audio.Floats.{Floats}

pub data Phase : Type 0 where
  normal greeting read_back : Phase

pub data BargeReason : Type 0 where
  words voiced loud final answer : BargeReason

unfoldable pub as_str : BargeReason → String
as_str words = "words"
as_str voiced = "voiced_duration"
as_str loud = "loud_sustained"
as_str final = "final_transcript"
as_str answer = "yes_over_readback"

abbrev pub is_greeting : Phase → Bool
is_greeting greeting = true
is_greeting normal = false
is_greeting read_back = false

module _ (fl : Floats) where
  pub record BargeConfig : Type 0 where
    pub confirm_ms : ℕ
    pub confirm_greeting_ms : ℕ
    pub confirm_read_back_ms : ℕ
    pub min_voiced_ms : ℕ
    pub min_words : ℕ
    pub single_word_ms : ℕ
    pub strong_ms : ℕ
    pub strong_rms_ratio : fl.F
    pub strong_min_rms : fl.F
    pub final_min_voiced_ms : ℕ

  -- The two levels are `f32`s of the default configuration.
  abbrev pub default : fl.F → fl.F → BargeConfig
  default ratio least = record {
    confirm_ms = 900;
    confirm_greeting_ms = 1500;
    confirm_read_back_ms = 1200;
    min_voiced_ms = 300;
    min_words = 2;
    single_word_ms = 500;
    strong_ms = 500;
    strong_rms_ratio = ratio;
    strong_min_rms = least;
    final_min_voiced_ms = 200;
  }

  abbrev pub legacy : fl.F → fl.F → BargeConfig
  legacy ratio least = record (default ratio least) {
    min_voiced_ms = 0;
    min_words = 1;
    single_word_ms = 0;
    strong_ms = 0;
    final_min_voiced_ms = 0;
  }

  pub record BargeInput : Type 0 where
    pub voiced_ms : ℕ
    pub real_words : ℕ
    pub listening_only : Bool
    pub mean_rms : fl.F
    pub threshold : fl.F
    pub phase : Phase

  unfoldable pub confirm_for : BargeConfig → Phase → ℕ
  confirm_for c normal = c.confirm_ms
  confirm_for c greeting = c.confirm_greeting_ms
  confirm_for c read_back = c.confirm_read_back_ms

  unfoldable pub is_loud : BargeConfig → BargeInput → Bool
  is_loud c i =
      fl.at_least i.mean_rms (fl.larger (fl.times i.threshold c.strong_rms_ratio) c.strong_min_rms)

  unfoldable pub classify : BargeConfig → BargeInput → Option BargeReason
  unfolding confirm_for is_loud
  classify c i =
      if leb (confirm_for c i.phase) i.voiced_ms
      then some voiced
      else if i.listening_only
      then none
      else if leb (max c.min_words 1) i.real_words && leb c.min_voiced_ms i.voiced_ms
      then some words
      else if leb 1 i.real_words && leb c.single_word_ms i.voiced_ms
      then some words
      else if ltb 0 c.strong_ms
          && not (is_greeting i.phase)
          && leb c.strong_ms i.voiced_ms
          && is_loud c i
      then some loud
      else none

  unfoldable pub classify_final : BargeConfig → BargeInput → Option BargeReason
  unfolding classify
  classify_final c i = elim (classify c i) [
    | some reason ↦ some reason
    | none ↦
        if not i.listening_only && leb 1 i.real_words && leb c.final_min_voiced_ms i.voiced_ms
        then some final
        else none
  ]

unfoldable pub suppressed_label : Bool → ℕ → String
suppressed_label listening_only real_words =
    if listening_only then "backchannel" else if real_words == 0 then "noise" else "short"
