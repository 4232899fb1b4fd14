-- ===== src/Audio/Barge/Rules.antt =====
-- crates/callora-runtime/src/barge.rs: what a longer voice, more words and listening sounds do.
use callora.Base.{
  ℕ, ◌≤◌, Bool, true, false, some, ltb, leb, not, ◌&&◌, max, is_some, ◌≡◌, arith, ◌||◌, sym, ◌∙◌,
}
use callora.Audio.Floats.{Floats}
use callora.Audio.Barge.{
  BargeReason, voiced, BargeConfig, BargeInput, legacy, is_greeting, is_loud, confirm_for, classify,
  classify_final,
}

grows : (a b b' : ℕ) → b ≤ b' → leb a b ≡ true → leb a b' ≡ true
grows a b b' h k = ground arith

-- One of the rules applies; only the first one to listening sounds.
abbrev stops : Bool → Bool → Bool → Bool → Bool → Bool
stops long listening several single loud = long || (not listening && (several || (single || loud)))

stops-more :
    (l a a' b b' c c' d d' : Bool)
    → (a ≡ true → a' ≡ true)
    → (b ≡ true → b' ≡ true)
    → (c ≡ true → c' ≡ true)
    → (d ≡ true → d' ≡ true)
    → stops a l b c d ≡ true
    → stops a' l b' c' d' ≡ true
stops-more l a a' b b' c c' d d' ha hb hc hd h = ground arith

both_grow :
    (m n n' p : ℕ) (q q' : ℕ)
    → n ≤ n'
    → q ≤ q'
    → leb m n && leb p q ≡ true
    → leb m n' && leb p q' ≡ true
both_grow m n n' p q q' h k s = ground arith

module _ (fl : Floats) where
  abbrev loud_rule : BargeConfig fl → BargeInput fl → Bool
  loud_rule c i =
      ltb 0 c.strong_ms
      && not (is_greeting i.phase)
      && leb c.strong_ms i.voiced_ms
      && is_loud fl c i

  classify-stops :
      (c : BargeConfig fl) (i : BargeInput fl)
      → is_some (classify fl c i)
        ≡ stops
            (leb (confirm_for fl c i.phase) i.voiced_ms)
            i.listening_only
            (leb (max c.min_words 1) i.real_words && leb c.min_voiced_ms i.voiced_ms)
            (leb 1 i.real_words && leb c.single_word_ms i.voiced_ms)
            (loud_rule c i)
  unfolding classify
  classify-stops c i = ground arith

  loud_rule-longer :
      (c : BargeConfig fl) (i : BargeInput fl) (more new : ℕ)
      → i.voiced_ms ≤ more
      → loud_rule c i ≡ true
      → loud_rule c (record i { voiced_ms = more; real_words = new }) ≡ true
  unfolding is_loud
  loud_rule-longer c i more new h s = ground arith

  -- The same voice, heard for longer, with no fewer words.
  abbrev pub longer : BargeInput fl → ℕ → ℕ → BargeInput fl
  longer i more new = record i { voiced_ms = more; real_words = new }

  -- A voice that stops the agent still stops it when it has gone on for longer and more words were
  -- heard, all else being the same: its loudness, the phase, and whether it is only listening sounds.
  pub classify-longer :
      (c : BargeConfig fl) (i : BargeInput fl) (more new : ℕ)
      → i.voiced_ms ≤ more
      → i.real_words ≤ new
      → is_some (classify fl c i) ≡ true
      → is_some (classify fl c (longer i more new)) ≡ true
  classify-longer c i more new h k s =
      classify-stops c (longer i more new)
      ∙ stops-more i.listening_only _ _ _ _ _ _ _ _
          (grows (confirm_for fl c i.phase) i.voiced_ms more h)
          (both_grow (max c.min_words 1) i.real_words new c.min_voiced_ms i.voiced_ms more k h)
          (both_grow 1 i.real_words new c.single_word_ms i.voiced_ms more k h)
          (loud_rule-longer c i more new h) (sym (classify-stops c i) ∙ s)

  -- Listening sounds alone stop the agent for one reason only, at a final transcript too: the
  -- voice went on for as long as the phase asks.
  pub classify_final-listening :
      (c : BargeConfig fl) (i : BargeInput fl) (r : BargeReason)
      → i.listening_only ≡ true
      → classify_final fl c i ≡ some r
      → (r ≡ voiced) × (confirm_for fl c i.phase ≤ i.voiced_ms)
  unfolding classify_final classify
  classify_final-listening c i r l s = ground arith

  -- In the old configuration a real word that is more than listening sounds stops the agent at
  -- once.
  pub classify-legacy :
      (ratio least : fl.F) (i : BargeInput fl)
      → 1 ≤ i.real_words
      → i.listening_only ≡ false
      → is_some (classify fl (legacy fl ratio least) i) ≡ true
  unfolding classify
  classify-legacy ratio least i h l = ground arith
