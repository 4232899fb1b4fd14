-- ===== src/Failover/Watch.antt =====
-- crates/callora-providers/src/stt_failover.rs: when the watched primary is taken out, and what the call gets.
use mathlib.Core.Bool.{true≢false}
use callora.Base.{
  ℕ, zero, suc, ◌≤◌, ◌<◌, true, false, ◌||◌, List, [], ◌∷◌, ◌++◌, ◌≡◌, ◌↔◌, ◌⊎◌, inl, inr, refl,
  arith, ◌∙◌, ap, sym, Bool-cases, length,
}
use callora.Failover.{
  SttEvent, partial, unsure, final, error, closed, SttFailover, take_down, Heard, Watched, counted,
  failing, watch,
}
use callora.Failover.Outage.{ErrorFirst, Fails, events}

-- After failures in a row: the events show an outage, or the next error does.
abbrev Late : ℕ → List SttEvent → Type 0
Late n es = Fails es ⊎ ((1 ≤ n) × ErrorFirst es)

counted-Late :
    (n : ℕ) (x : SttEvent) (es : List SttEvent)
    → ((failing (counted n x) x ≡ true) ⊎ Late (counted n x) es) ↔ Late n (x ∷ es)
counted-Late n (error e) es = ground arith
counted-Late n (final _) es = ground arith
counted-Late n (partial _) es = ground arith
counted-Late n (unsure _) es = ground arith
counted-Late n closed es = ground arith

watch-closes :
    (f : SttFailover) (n k : ℕ) (h : Heard) (hs : List Heard)
    → (watch f n (suc k) (h ∷ hs)).closes
      ≡ (failing (counted n h.event) h.event || (watch f (counted n h.event) k hs).closes)
unfolding watch
watch-closes f n k h hs = ground arith

watch-Late :
    (f : SttFailover) (n k : ℕ) (hs : List Heard)
    → length hs < k
    → ((watch f n k hs).closes ≡ true) ↔ Late n (events hs)
unfolding watch
watch-Late f n k [] l = ground arith
watch-Late f n zero (h ∷ hs) l = absurd (omega (arith, l))
watch-Late f n (suc k) (h ∷ hs) l =
    let e = watch-closes f n k h hs in
    let rest = watch-Late f (counted n h.event) k hs (omega (arith, l)) in
    let here = counted-Late n h.event (events hs) in ground arith

-- The primary is out from the time of an event `last` on, and the call has the events before it, which
-- are not `Bad` yet, and then the end of its session, whose other end is told to close.
pub record TakesOver (Bad : List SttEvent → Type 0) (f : SttFailover) (hs : List Heard)
    (w : Watched) : Type 0 where
  pub earlier : List Heard
  pub last : Heard
  pub later : List Heard
  pub split : hs ≡ earlier ++ last ∷ later
  pub calm : ¬ Bad (events earlier)
  pub failover : w.failover ≡ take_down f last.at
  pub forwarded : w.forwarded ≡ events earlier ++ closed ∷ []
  pub closes : w.closes ≡ true

calm_on :
    (n : ℕ) (x : SttEvent) (es : List SttEvent)
    → failing (counted n x) x ≡ false
    → ¬ Late (counted n x) es
    → ¬ Late n (x ∷ es)
calm_on n x es t c b = elim ((counted-Late n x es).1 b) [
  | inl u ↦ true≢false (sym u ∙ t)
  | inr u ↦ c u
]

closes-TakesOver :
    (f : SttFailover) (n k : ℕ) (hs : List Heard)
    → length hs < k
    → (watch f n k hs).closes ≡ true
    → TakesOver (Late n) f hs (watch f n k hs)
unfolding watch
closes-TakesOver f n k [] l c = absurd (ground arith)
closes-TakesOver f n zero (h ∷ hs) l c = absurd (omega (arith, l))
closes-TakesOver f n (suc k) (h ∷ hs) l c =
    elim (Bool-cases (failing (counted n h.event) h.event)) [
      | inl t ↦ rw t (record {
        earlier = [];
        last = h;
        later = hs;
        split = refl;
        calm = λ b. ground arith;
        failover = refl;
        forwarded = refl;
        closes = refl;
      })
      | inr t ↦
          let go = closes-TakesOver f (counted n h.event) k hs (omega (arith, l)) (ground arith) in
          rw t (record {
            earlier = h ∷ go.earlier;
            last = go.last;
            later = go.later;
            split = ap (◌∷◌ h) go.split;
            calm = λ b. calm_on n h.event (events go.earlier) t go.calm b;
            failover = go.failover;
            forwarded = ap (◌∷◌ h.event) go.forwarded;
            closes = go.closes;
          })
    ]

-- A call that goes on receiving is moved off the primary exactly when the events of its session show an
-- outage: an error that says so, or two errors with no final transcript between. It then has what came
-- before some event, which did not show one yet, and the end of its session; the primary is out from the
-- time of that event on, for the cool-down, and its session is told to close.
pub watch-TakesOver :
    (f : SttFailover) (k : ℕ) (hs : List Heard)
    → length hs < k
    → Fails (events hs) ↔ TakesOver Fails f hs (watch f 0 k hs)
watch-TakesOver f k hs l =
    let late = watch-Late f 0 k hs l in
    (
      λ fails.
          let t = closes-TakesOver f 0 k hs l (late.1 (inl fails)) in
          record {
            earlier = t.earlier;
            last = t.last;
            later = t.later;
            split = t.split;
            calm = λ b. t.calm (inl b);
            failover = t.failover;
            forwarded = t.forwarded;
            closes = t.closes;
          },
      λ t. elim (late.0 t.closes) [ inl fails ↦ fails | inr (p, q) ↦ absurd (omega (arith, p)) ],
    )
