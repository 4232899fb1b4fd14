-- ===== src/Audio/Mulaw/Codec.antt =====
-- crates/callora-audio/src/mulaw.rs: decoding and encoding undo each other as far as they can.
use callora.Base.{
  ℕ, zero, suc, ◌+◌, ◌*◌, ◌<◌, Bool, true, List, [], ◌∷◌, ◌==◌, ◌&&◌, ◌||◌, length, ◌≡◌, ◌≢◌, refl,
  arith, ==_iff,
}
use callora.Base.{◌⊎◌, ◌≤◌, ◌-◌, ◌+◌, ◌*◌, ◌/◌, ◌%◌, ◌^◌, min, inl, inr, Bool-cases}
use callora.Call.Run.{ℤ, pos, negsuc}
use callora.Audio.Mulaw.{
  negated, find_exponent, magnitude, encode_from, clip, decode, encode, to_wav, samples,
}

-- Whether the round trip holds at every byte below the bound but 127.
abbrev checked : ℕ → Bool
checked zero = true
checked (suc b) = let rest = checked b in (b == 127 || encode (decode b) == b) && rest

checked_all : checked 256 ≡ true
unfolding encode decode
checked_all = refl

checked_at : (n b : ℕ) → checked n ≡ true → b < n → (b == 127 || encode (decode b) == b) ≡ true
checked_at zero b h l = grind (arith, l)
checked_at (suc n) b h l = grind (arith, h, l, checked_at n b)

-- Every byte is the code of the sample that it stands for, except 127, the second code of zero.
pub encode-decode : (b : ℕ) → b < 256 → b ≢ 127 → encode (decode b) ≡ b
encode-decode b l n =
    grind (arith, checked_at 256 b checked_all l, n, ==_iff (encode (decode b)) b, ==_iff b 127)

length-samples : (mulaw : List ℕ) → length (samples mulaw) ≡ 2 * length mulaw
length-samples [] = refl
length-samples (b ∷ bs) = omega (arith, length-samples bs)

-- The WAV file of a recording is a header of 44 bytes and two bytes for each sample.
pub length-to_wav : (mulaw : List ℕ) → length (to_wav mulaw) ≡ 44 + 2 * length mulaw
unfolding to_wav
length-to_wav mulaw = omega (arith, length-samples mulaw)

-- The loop stops at the highest bit of the biased sample.
exponent-Highest :
    (s : ℕ)
    → 128 ≤ s
    → s < 32768
    → (find_exponent s 7 ≡ 7) × (16384 ≤ s)
      ⊎ (find_exponent s 7 ≡ 6) × (8192 ≤ s) × (s < 16384)
      ⊎ (find_exponent s 7 ≡ 5) × (4096 ≤ s) × (s < 8192)
      ⊎ (find_exponent s 7 ≡ 4) × (2048 ≤ s) × (s < 4096)
      ⊎ (find_exponent s 7 ≡ 3) × (1024 ≤ s) × (s < 2048)
      ⊎ (find_exponent s 7 ≡ 2) × (512 ≤ s) × (s < 1024)
      ⊎ (find_exponent s 7 ≡ 1) × (256 ≤ s) × (s < 512)
      ⊎ (find_exponent s 7 ≡ 0) × (s < 256)
unfolding find_exponent
exponent-Highest s h l = ground arith

-- The size of the sample that a byte stands for, against the size that was encoded.
abbrev pub Near : ℕ → ℕ → Type 0
Near n b = (32 * magnitude b ≤ 33 * n + 132) × (31 * n ≤ 32 * magnitude b + 132)

magnitude-code :
    (sign e m : ℕ)
    → (sign ≡ 0) ⊎ (sign ≡ 128)
    → e ≤ 7
    → m ≤ 15
    → magnitude (255 - (sign + e * 16 + m)) ≡ (m * 8 + 132) * 2 ^ e - 132
unfolding magnitude
magnitude-code sign e m z le lm =
    let v = sign + e * 16 + m in
    let whole : 255 - (255 - v) ≡ v = omega (arith, z, le, lm) in
    let low : v % 16 ≡ m = omega (arith, z, lm) in
    let high : v / 16 % 8 ≡ e = omega (arith, z, le, lm) in rw (whole, low, high) refl

-- The bits that are kept give the sample back to within half of the step at its exponent.
Kept : ℕ → ℕ → Type 0
Kept n e =
    let back = ((n + 132) / 2 ^ (e + 3) % 16 * 8 + 132) * 2 ^ e - 132 in
    (32 * back ≤ 33 * n + 132) × (31 * n ≤ 32 * back + 132)

exponent-Kept :
    (n : ℕ) → n ≤ 32635 → (find_exponent (n + 132) 7 ≤ 7) × Kept n (find_exponent (n + 132) 7)
unfolding Kept
exponent-Kept n h = elim (exponent-Highest (n + 132) (omega arith) (omega arith)) [
  | inl (e, low) ↦ rw e (omega (arith, low, h))
  | inr (inl (e, low, high)) ↦ rw e (omega (arith, low, high))
  | inr (inr (inl (e, low, high))) ↦ rw e (omega (arith, low, high))
  | inr (inr (inr (inl (e, low, high)))) ↦ rw e (omega (arith, low, high))
  | inr (inr (inr (inr (inl (e, low, high))))) ↦ rw e (omega (arith, low, high))
  | inr (inr (inr (inr (inr (inl (e, low, high)))))) ↦ rw e (omega (arith, low, high))
  | inr (inr (inr (inr (inr (inr (inl (e, low, high))))))) ↦ rw e (omega (arith, low, high))
  | inr (inr (inr (inr (inr (inr (inr (e, high))))))) ↦ rw e (omega (arith, high))
]

encode_from-Near :
    (sign n : ℕ) → (sign ≡ 0) ⊎ (sign ≡ 128) → n ≤ 32635 → Near n (encode_from sign n)
unfolding encode_from Kept
encode_from-Near sign n z h =
    let whole : min n clip ≡ n = omega (arith, h) in
    let e = find_exponent (n + 132) 7 in
    let (le, k) = exponent-Kept n h in
    rw (encode_from, whole, magnitude-code sign e ((n + 132) / 2 ^ (e + 3) % 16) z le (omega arith))
      k

abbrev pub size : ℤ → ℕ
size (pos n) = n
size (negsuc n) = suc n

size-negated : (n : ℕ) → size (negated n) ≡ n
size-negated zero = refl
size-negated (suc n) = refl

size-decode : (b : ℕ) → size (decode b) ≡ magnitude b
unfolding decode
size-decode b = elim (Bool-cases ((255 - b) / 128 % 2 == 0)) [
  | inl h ↦ rw (decode, h) refl
  | inr h ↦ rw (decode, h) (size-negated (magnitude b))
]

sized-Near : (s : ℤ) → size s ≤ 32635 → Near (size s) (encode s)
unfolding encode
sized-Near (pos n) h = encode_from-Near 0 n (inl refl) h
sized-Near (negsuc n) h = encode_from-Near 128 (suc n) (inr refl) h

-- Encoding a sample that is not clipped and decoding its byte changes its size by at most a
-- 32nd of the sum of that size and the codec's bias of 132.
pub decode-encode :
    (s : ℤ)
    → size s ≤ 32635
    → (32 * size (decode (encode s)) ≤ 33 * size s + 132)
      × (31 * size s ≤ 32 * size (decode (encode s)) + 132)
decode-encode s h =
    let k = sized-Near s h in
    (omega (arith, k.0, size-decode (encode s)), omega (arith, k.1, size-decode (encode s)))
