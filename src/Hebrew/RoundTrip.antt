-- ===== src/Hebrew/RoundTrip.antt =====
-- crates/callora-core/src/hebrew.rs: a number that was said, and what is read back.
use Prim.Native.Char.{code}
use Prim.Native.String.{◌++◌ as str_append}
use callora.Base.{
  ℕ, zero, suc, ◌<◌, ◌≤◌, Bool, true, false, ◌&&◌, ◌||◌, List, [], ◌∷◌, String, ◌≡◌, refl, arith,
  subst, ◌-◌, if◌then◌else◌, ◌==◌, length,
}
use native.Mathlib.Decide.{dec_lt}
use callora.Call.Run.{ℤ, pos, negsuc}
use callora.Hebrew.Words.{Gender, masculine, feminine, number_words}
use callora.Hebrew.Reading.{FoundNumber, find_numbers}

abbrev in_front : String → List String → List String
in_front s [] = s ∷ []
in_front s (w ∷ ws) = str_append s w ∷ ws

-- `split(' ')`.
unfoldable pub split : String → List String
split String.[] = "" ∷ []
split (String.◌∷◌ c s) =
    if code c == 32 then "" ∷ split s else in_front (String.◌∷◌ c String.[]) (split s)

abbrev pub spoken : Gender → ℕ → List String
spoken g n = split (number_words (pos n) g)

abbrev is_pos : ℤ → ℕ → Bool
is_pos (pos m) n = m == n
is_pos (negsuc m) n = false

abbrev reads : List FoundNumber → ℕ → ℕ → Bool
reads [] n len = false
reads (x ∷ []) n len = is_pos x.value n && x.start == 0 && x.end == len
reads (x ∷ y ∷ xs) n len = false

both : (a b : Bool) → (a && b) ≡ true → (a ≡ true) × (b ≡ true)
both true b h = (refl, h)
both false b h = cc

value-pos : (v : ℤ) (n : ℕ) → is_pos v n ≡ true → v ≡ pos n
value-pos (pos m) n h = ground arith
value-pos (negsuc m) n h = ground arith

reads_sound :
    (xs : List FoundNumber) (n len : ℕ)
    → reads xs n len ≡ true
    → xs ≡ record { value = pos n; start = 0; end = len } ∷ []
reads_sound [] n len h = ground arith
reads_sound (x ∷ []) n len h = ground (arith, value-pos x.value n)
reads_sound (x ∷ y ∷ xs) n len h = ground arith

abbrev pub loses_ten : ℕ → Bool
loses_ten n = n == 110 || n == 210

abbrev pub value_heard : ℕ → ℕ
value_heard n = if loses_ten n then n - 10 else n

abbrev pub words_heard : Gender → ℕ → ℕ
words_heard g n = if loses_ten n then 1 else length (spoken g n)

holds : Gender → ℕ → Bool
unfolding split find_numbers number_words
holds g n = n == 0 || reads (find_numbers (spoken g n)) (value_heard n) (words_heard g n)

checked : Gender → ℕ → Bool
unfolding holds
checked g zero = true
checked g (suc n) = holds g n && checked g n

checked_all : (g : Gender) → checked g 1000 ≡ true
unfolding checked
checked_all masculine = refl
checked_all feminine = refl

checked_at : (g : Gender) (m n : ℕ) → checked g m ≡ true → n < m → holds g n ≡ true
unfolding checked
checked_at g zero n c l = absurd (omega (arith, l))
checked_at g (suc m) n c l = elim (dec_lt n m) [
  | yes q ↦ checked_at g m n (both (holds g m) (checked g m) c).1 q
  | no q ↦
      let e : m ≡ n = omega (arith, l, q) in
      subst (λ k. holds g k ≡ true) e (both (holds g m) (checked g m) c).0
]

not_zero : (n : ℕ) (b : Bool) → 1 ≤ n → (n == 0 || b) ≡ true → b ≡ true
not_zero n b p h = ground arith

holds-reads :
    (g : Gender) (n : ℕ)
    → 1 ≤ n
    → holds g n ≡ true
    → reads (find_numbers (spoken g n)) (value_heard n) (words_heard g n) ≡ true
holds-reads g n p h =
    not_zero n (reads (find_numbers (spoken g n)) (value_heard n) (words_heard g n)) p
      (unfold holds in h)

-- A number from 1 to 999 that is said in words, in either gender, is read back from all of its words as the
-- same number, except 110 and 210: of these only the hundreds are read, and the ten is lost.
pub find_numbers-number_words :
    (g : Gender) (n : ℕ)
    → 1 ≤ n
    → n < 1000
    → find_numbers (split (number_words (pos n) g))
      ≡ record { value = pos (value_heard n); start = 0; end = words_heard g n } ∷ []
find_numbers-number_words g n p l =
    reads_sound (find_numbers (spoken g n)) (value_heard n) (words_heard g n)
      (holds-reads g n p (checked_at g 1000 n (checked_all g) l))
