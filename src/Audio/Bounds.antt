-- ===== src/Audio/Bounds.antt =====
-- crates/callora-audio/src/mulaw.rs: where speech starts and ends in a buffer of bytes.
pub mod Slice
use callora.Base.{
  ℕ, zero, suc, ◌+◌, ◌-◌, ◌*◌, ◌%◌, ◌^◌, min, Bool, Option, none, some, List, [], ◌∷◌, take, drop,
  length, if◌then◌else◌,
}
use callora.Audio.Floats.{Floats}

-- The products and the sum of the pads wrap around as they do in a release build; the other numbers are
-- below twice the length of a buffer. The windows of 10 ms, the last one shorter; there are at most as many as bytes.
abbrev pub window : ℕ
window = 80

unfoldable pub chunks : ℕ → List ℕ → List (List ℕ)
chunks zero xs = []
chunks (suc n) [] = []
chunks (suc n) (x ∷ xs) = take window (x ∷ xs) ∷ chunks n (drop window (x ∷ xs))

abbrev pub next {ℓ} : {A : Type ℓ} → Option A → (A → A) → Option A
next none f = none
next (some a) f = some (f a)

-- Rust's `position` and `rposition`.
unfoldable pub position {ℓ} : {A : Type ℓ} → (A → Bool) → List A → Option ℕ
position p [] = none
position p (x ∷ xs) = let rest = next (position p xs) suc in if p x then some 0 else rest

abbrev pub or_here : Bool → Option ℕ → Option ℕ
or_here b (some i) = some (suc i)
or_here b none = if b then some 0 else none

unfoldable pub rposition {ℓ} : {A : Type ℓ} → (A → Bool) → List A → Option ℕ
rposition p [] = none
rposition p (x ∷ xs) = or_here (p x) (rposition p xs)

module _ (fl : Floats) where
  abbrev pub loud : fl.F → List ℕ → Bool
  loud threshold w = fl.at_least (fl.level w) threshold

  abbrev pub bounds : List ℕ → ℕ → ℕ → Option ℕ → Option ℕ → Option (ℕ × ℕ)
  bounds audio head_pad_ms tail_pad_ms none last = none
  bounds audio head_pad_ms tail_pad_ms (some first) none = none
  bounds audio head_pad_ms tail_pad_ms (some first) (some last) = some (
    first * window - (head_pad_ms * 8) % 2 ^ 64,
    min (((last + 1) * window + (tail_pad_ms * 8) % 2 ^ 64) % 2 ^ 64) (length audio),
  )

  unfoldable pub speech_bounds : List ℕ → fl.F → ℕ → ℕ → Option (ℕ × ℕ)
  unfolding chunks position rposition
  speech_bounds audio threshold head_pad_ms tail_pad_ms =
      let ws = chunks (length audio) audio in
      bounds audio head_pad_ms tail_pad_ms (position (loud threshold) ws)
        (rposition (loud threshold) ws)
