-- ===== src/Audio/Tests.antt =====
-- Small voices and frames, for the theorems on the caller's audio.
use callora.Base.{
  ℕ, ◌+◌, ◌*◌, ◌≤◌, ◌<◌, leb, ltb, max, true, false, none, List, [], ◌∷◌, ◌≡◌, refl, arith, is_some,
  replicate, Option,
}
use callora.Call.Run.{negsuc}
use callora.Audio.Floats.{Floats}
use callora.Audio.Barge.{BargeConfig, BargeInput, normal, read_back, default, classify, confirm_for}
use callora.Audio.Barge.Rules.{longer, classify-longer}
use callora.Audio.Vad.{Vad, VadConfig, new, push_with}
use callora.Audio.Vad.Utterance.{Alternates, run, total_ms, run-Alternates, run-bounded}
use callora.Audio.Mulaw.{encode, decode}
use callora.Audio.Mulaw.Codec.{size, decode-encode, encode-decode}

-- Whole numbers in place of floating-point ones; a frame is as loud as its first byte.
abbrev pub first : List ℕ → ℕ
first [] = 0
first (b ∷ bs) = b

abbrev pub whole : Floats
whole = record {
  F = ℕ;
  Wide = ℕ;
  no_loudness = 0;
  less = ltb;
  zero = 0;
  initial_floor = 300;
  at_least = λ a b. leb b a;
  positive = λ a. ltb 0 a;
  times = λ a b. a * b;
  raise = λ a. a;
  larger = max;
  decay = λ down old latest. old;
  level = first;
  louder = λ sum level ms. sum + level * ms;
  mean = λ sum ms. sum;
}

abbrev config : BargeConfig whole
config = default whole 2 2250

abbrev heard : BargeInput whole
heard = record {
  voiced_ms = 500;
  real_words = 1;
  listening_only = false;
  mean_rms = 700;
  threshold = 600;
  phase = normal;
}

classify-longer_example : is_some (classify whole config (longer whole heard 600 3)) ≡ true
classify-longer_example =
    classify-longer whole config heard 600 3 (omega arith) (omega arith)
      (unfold classify confirm_for in refl)

abbrev yes : BargeInput whole
yes = record heard { voiced_ms = 1300; listening_only = true; phase = read_back }

abbrev vad_config : VadConfig whole
vad_config = record {
  threshold_rms = 600;
  trigger_ms = 100;
  endpoint_ms = 500;
  max_speech_ms = 15000;
  noise_floor_ratio = 0;
  voice_start = none;
  voice_hold = 0;
}

abbrev frame : List ℕ × Option ℕ
frame = (700 ∷ replicate 159 0, none)

abbrev voice : Vad whole
voice = record (new whole vad_config) { speaking = true; speech_ms = 200 }

run-Alternates_example :
    Alternates false
      (run whole (new whole vad_config) (replicate 6 frame)).1
      (run whole (new whole vad_config) (replicate 6 frame)).0.speaking
run-Alternates_example =
    unfold new in run-Alternates whole (new whole vad_config) (replicate 6 frame)

run-bounded_example : 0 + total_ms whole (frame ∷ frame ∷ []) < 15000
run-bounded_example =
    unfold new in
    run-bounded whole voice (frame ∷ frame ∷ []) refl (omega arith) (unfold push_with in refl)

encode-decode_example : encode (decode 31) ≡ 31
encode-decode_example = encode-decode 31 (omega arith) (omega arith)

decode-encode_example :
    (32 * size (decode (encode (negsuc 999))) ≤ 33132)
    × (31000 ≤ 32 * size (decode (encode (negsuc 999))) + 132)
decode-encode_example = decode-encode (negsuc 999) (omega arith)
