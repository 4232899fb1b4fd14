-- ===== src/Audio/Mulaw.antt =====
-- crates/callora-audio/src/mulaw.rs: the bytes of G.711 μ-law. A byte is a number below 256; shifts and
-- masks are written as divisions and remainders.
pub mod Codec
use callora.Base.{
  ℕ, zero, suc, ◌+◌, ◌-◌, ◌*◌, ◌/◌, ◌%◌, ◌^◌, min, Bool, true, false, List, [], ◌∷◌, ◌++◌,
  if◌then◌else◌, ◌==◌, length, map,
}
use callora.Call.Run.{ℤ, pos, negsuc}

abbrev pub bias : ℕ
bias = 132

abbrev pub clip : ℕ
clip = 32635

abbrev pub negated : ℕ → ℤ
negated zero = pos 0
negated (suc n) = negsuc n

-- The sample's size and the byte's sign bit.
unfoldable pub magnitude : ℕ → ℕ
magnitude byte = let value = 255 - byte in (value % 16 * 8 + bias) * 2 ^ (value / 16 % 8) - bias

unfoldable pub decode : ℕ → ℤ
unfolding magnitude
decode byte = if (255 - byte) / 128 % 2 == 0 then pos (magnitude byte) else negated (magnitude byte)

-- The loop's mask is `2 ^ (exponent + 7)`.
unfoldable pub find_exponent : ℕ → ℕ → ℕ
find_exponent s zero = zero
find_exponent s (suc e) =
    let rest = find_exponent s e in if s / 2 ^ (suc e + 7) % 2 == 0 then rest else suc e

unfoldable pub encode_from : ℕ → ℕ → ℕ
unfolding find_exponent
encode_from sign size =
    let s = min size clip + bias in
    let exponent = find_exponent s 7 in
    let mantissa = s / 2 ^ (exponent + 3) % 16 in 255 - (sign + exponent * 16 + mantissa)

unfoldable pub encode : ℤ → ℕ
unfolding encode_from
encode (pos n) = encode_from 0 n
encode (negsuc n) = encode_from 128 (suc n)

-- An integer's bytes, the lowest first.
abbrev pub to_le_bytes : ℕ → ℕ → List ℕ
to_le_bytes zero n = []
to_le_bytes (suc k) n = n % 256 ∷ to_le_bytes k (n / 256)

-- A sample of 16 bits in two's complement.
abbrev pub sample_bits : ℤ → ℕ
sample_bits (pos n) = n % 2 ^ 16
sample_bits (negsuc n) = 2 ^ 16 - suc n

abbrev pub samples : List ℕ → List ℕ
samples [] = []
samples (b ∷ bs) = to_le_bytes 2 (sample_bits (decode b)) ++ samples bs

-- The data's length is a `u32`.
unfoldable pub to_wav : List ℕ → List ℕ
unfolding decode
to_wav mulaw =
    let data_len = length mulaw * 2 % 2 ^ 32 in
    (82 ∷ 73 ∷ 70 ∷ 70 ∷ [])
    ++ to_le_bytes 4 ((36 + data_len) % 2 ^ 32)
    ++ (87 ∷ 65 ∷ 86 ∷ 69 ∷ 102 ∷ 109 ∷ 116 ∷ 32 ∷ [])
    ++ to_le_bytes 4 16
    ++ to_le_bytes 2 1
    ++ to_le_bytes 2 1
    ++ to_le_bytes 4 8000
    ++ to_le_bytes 4 16000
    ++ to_le_bytes 2 2
    ++ to_le_bytes 2 16
    ++ (100 ∷ 97 ∷ 116 ∷ 97 ∷ [])
    ++ to_le_bytes 4 data_len
    ++ samples mulaw
