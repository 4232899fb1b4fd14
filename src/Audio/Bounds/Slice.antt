-- ===== src/Audio/Bounds/Slice.antt =====
-- crates/callora-audio/src/mulaw.rs: the bounds of speech lie in order within the buffer.
use callora.Base.{
  ℕ, zero, suc, ◌+◌, ◌*◌, ◌%◌, ◌^◌, ◌≤◌, ◌<◌, Bool, Option, none, some, List, [], ◌∷◌, drop, length,
  length-drop, ◌≡◌, refl, arith, Option-cases, inl, inr,
}
use callora.Audio.Floats.{Floats}
use callora.Audio.Bounds.{window, chunks, position, rposition, loud, bounds, speech_bounds}

-- A number of windows that is reached starts before the end of the bytes.
length-chunks : (n : ℕ) (xs : List ℕ) (j : ℕ) → j < length (chunks n xs) → j * 80 < length xs
unfolding chunks
length-chunks zero xs j h = absurd (omega arith)
length-chunks (suc n) [] j h = absurd (omega arith)
length-chunks (suc n) (x ∷ xs) zero h = omega arith
length-chunks (suc n) (x ∷ xs) (suc j) h =
    omega
      (arith, length-chunks n (drop window (x ∷ xs)) j (omega arith), length-drop window (x ∷ xs))

module _ {ℓ} {A : Type ℓ} (p : A → Bool) where
  position-none : (xs : List A) → rposition p xs ≡ none → position p xs ≡ none
  unfolding position rposition
  position-none [] h = refl
  position-none (x ∷ xs) h = ground (arith, position-none xs)

  last_within : (xs : List A) (j : ℕ) → rposition p xs ≡ some j → j < length xs
  unfolding rposition
  last_within [] j h = cc
  last_within (x ∷ xs) j h = elim (Option-cases (rposition p xs)) [
    | inl e ↦ ground arith
    | inr (j', e) ↦ ground (arith, last_within xs j' e)
  ]

  positions :
      (xs : List A) (i j : ℕ)
      → position p xs ≡ some i
      → rposition p xs ≡ some j
      → (i ≤ j) × (j < length xs)
  unfolding position rposition
  positions [] i j h k = cc
  positions (x ∷ xs) i j h k = elim (Option-cases (rposition p xs)) [
    | inl e ↦ ground (arith, position-none xs e)
    | inr (j', e) ↦ elim (Option-cases (position p xs)) [
      | inl n ↦ ground (arith, last_within xs j' e)
      | inr (i', s) ↦ ground (arith, positions xs i' j' s e)
    ]
  ]

-- The end does not wrap around where it fits.
fits :
    (i j t n : ℕ)
    → n + 80 + t * 8 < 2 ^ 64
    → i ≤ j
    → j * 80 < n
    → i * 80 ≤ ((j + 1) * 80 + (t * 8) % 2 ^ 64) % 2 ^ 64
fits i j t n f l h = omega arith

module _ (fl : Floats) where
  in_order :
      (audio : List ℕ) (head_pad_ms tail_pad_ms : ℕ) (first last : Option ℕ) (a b : ℕ)
      → length audio + 80 + tail_pad_ms * 8 < 2 ^ 64
      → ((i j : ℕ) → first ≡ some i → last ≡ some j → (i ≤ j) × (j * 80 < length audio))
      → bounds fl audio head_pad_ms tail_pad_ms first last ≡ some (a, b)
      → (a ≤ b) × (b ≤ length audio)
  in_order audio head_pad_ms tail_pad_ms none last a b f h e = cc
  in_order audio head_pad_ms tail_pad_ms (some i) none a b f h e = cc
  in_order audio head_pad_ms tail_pad_ms (some i) (some j) a b f h e =
      let (le, within) = h i j refl refl in
      ground (arith, fits i j tail_pad_ms (length audio) f le within)

  -- Where speech is found in a buffer, its start does not lie behind its end, nor its end behind the
  -- buffer's, so that the slice that the playout takes exists: whatever the pad at the head, and as long as
  -- the buffer with one more window and the pad at the tail fits in 64 bits.
  pub speech_bounds-IsSlice :
      (audio : List ℕ) (threshold : fl.F) (head_pad_ms tail_pad_ms a b : ℕ)
      → length audio + 80 + tail_pad_ms * 8 < 2 ^ 64
      → speech_bounds fl audio threshold head_pad_ms tail_pad_ms ≡ some (a, b)
      → (a ≤ b) × (b ≤ length audio)
  unfolding speech_bounds
  speech_bounds-IsSlice audio threshold head_pad_ms tail_pad_ms a b f e =
      in_order audio head_pad_ms tail_pad_ms _ _ a b f
        (λ i j h k.
          let (le, within) = positions (loud fl threshold) (chunks (length audio) audio) i j h k in
          (le, length-chunks (length audio) audio j within))
        e
