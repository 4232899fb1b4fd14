-- ===== src/Hebrew/Reading.antt =====
-- crates/callora-core/src/hebrew.rs: the numbers in a list of words.
use Prim.Native.Char.{code}
use callora.Base.{
  ℕ, zero, suc, ◌+◌, ◌-◌, ◌*◌, ◌%◌, ◌^◌, Bool, true, false, ◌&&◌, not, Option, none, some, List, [],
  ◌∷◌, String, str_eq, mem, if◌then◌else◌, ltb, leb, ◌==◌,
}
use callora.Call.Run.{ℤ, pos, negsuc}
use callora.Hebrew.Words.{tens}

abbrev is_digit : ℕ → Bool
is_digit c = leb 48 c && leb c 57

-- `str::parse::<i64>`: digits after an optional sign, in range.
digits : ℕ → String → Option ℕ
digits n String.[] = some n
digits n (String.◌∷◌ c s) = elim (is_digit (code c)) [
  | true ↦ digits (n * 10 + (code c - 48)) s
  | false ↦ none
]

some_digits : String → Option ℕ
unfolding digits
some_digits String.[] = none
some_digits (String.◌∷◌ c s) = digits 0 (String.◌∷◌ c s)

abbrev positive : Option ℕ → Option ℤ
positive none = none
positive (some n) = if ltb n (2 ^ 63) then some (pos n) else none

abbrev negative : Option ℕ → Option ℤ
negative none = none
negative (some zero) = some (pos zero)
negative (some (suc n)) = if ltb n (2 ^ 63) then some (negsuc n) else none

unfoldable pub parse_i64 : String → Option ℤ
unfolding some_digits
parse_i64 String.[] = none
parse_i64 (String.◌∷◌ c s) =
    if code c == 43
    then positive (some_digits s)
    else if code c == 45
    then negative (some_digits s)
    else positive (some_digits (String.◌∷◌ c s))

-- The words for 1 to 9, a list for each.
abbrev unit_words : List (ℕ × List String)
unit_words =
    (1, "\u{5d0}\u{5d7}\u{5d3}" ∷ "\u{5d0}\u{5d7}\u{5ea}" ∷ [])
    ∷ (
      2,
      "\u{5e9}\u{5e0}\u{5d9}\u{5d9}\u{5dd}" ∷ "\u{5e9}\u{5ea}\u{5d9}\u{5d9}\u{5dd}"
          ∷ "\u{5e9}\u{5e0}\u{5d9}" ∷ "\u{5e9}\u{5ea}\u{5d9}" ∷ "\u{5e9}\u{5ea}\u{5d9}\u{5dd}"
          ∷ "\u{5e9}\u{5e0}\u{5d9}\u{5dd}" ∷ "\u{5e9}\u{5e0}ַ\u{5d9}ִ\u{5dd}" ∷ [],
    )
    ∷ (
      3,
      "\u{5e9}\u{5dc}\u{5d5}\u{5e9}" ∷ "\u{5e9}\u{5dc}\u{5d5}\u{5e9}\u{5d4}"
          ∷ "\u{5e9}\u{5dc}\u{5d5}\u{5e9}\u{5ea}" ∷ "\u{5e9}\u{5dc}\u{5e9}" ∷ [],
    )
    ∷ (
      4,
      "\u{5d0}\u{5e8}\u{5d1}\u{5e2}" ∷ "\u{5d0}\u{5e8}\u{5d1}\u{5e2}\u{5d4}"
          ∷ "\u{5d0}\u{5e8}\u{5d1}\u{5e2}\u{5ea}" ∷ [],
    )
    ∷ (
      5,
      "\u{5d7}\u{5de}\u{5e9}" ∷ "\u{5d7}\u{5de}\u{5d9}\u{5e9}\u{5d4}"
          ∷ "\u{5d7}\u{5de}\u{5e9}\u{5ea}" ∷ "\u{5d7}\u{5de}\u{5e9}\u{5d4}" ∷ [],
    )
    ∷ (
      6,
      "\u{5e9}\u{5e9}" ∷ "\u{5e9}\u{5d9}\u{5e9}\u{5d4}" ∷ "\u{5e9}\u{5e9}\u{5ea}"
          ∷ "\u{5e9}\u{5e9}\u{5d4}" ∷ [],
    )
    ∷ (
      7,
      "\u{5e9}\u{5d1}\u{5e2}" ∷ "\u{5e9}\u{5d1}\u{5e2}\u{5d4}" ∷ "\u{5e9}\u{5d1}\u{5e2}\u{5ea}"
          ∷ [],
    )
    ∷ (8, "\u{5e9}\u{5de}\u{5d5}\u{5e0}\u{5d4}" ∷ "\u{5e9}\u{5de}\u{5d5}\u{5e0}\u{5ea}" ∷ [])
    ∷ (
      9,
      "\u{5ea}\u{5e9}\u{5e2}" ∷ "\u{5ea}\u{5e9}\u{5e2}\u{5d4}" ∷ "\u{5ea}\u{5e9}\u{5e2}\u{5ea}"
          ∷ [],
    )
    ∷ []

abbrev value_in : String → List (ℕ × List String) → Option ℕ
value_in word [] = none
value_in word ((n, ws) ∷ rest) = if mem word ws then some n else value_in word rest

unfoldable pub unit_value : String → Option ℕ
unit_value word = value_in word unit_words

abbrev position : String → ℕ → List String → Option ℕ
position word i [] = none
position word i (t ∷ ts) =
    if not (str_eq t "") && str_eq t word then some (i * 10) else position word (suc i) ts

unfoldable pub tens_value : String → Option ℕ
tens_value word = position word 0 tens

pub data Piece : Type 0 where
  unit tenfold hundred : ℕ → Piece
  ten hundreds : Piece
  literal : ℤ → Piece

abbrev named : String → Option Piece
named word =
    if str_eq word "\u{5de}\u{5d0}\u{5d4}"
    then some (hundred 100)
    else if str_eq word "\u{5de}\u{5d0}\u{5ea}\u{5d9}\u{5d9}\u{5dd}"
    then some (hundred 200)
    else if str_eq word "\u{5de}\u{5d0}\u{5d5}\u{5ea}"
    then some hundreds
    else none

unfoldable pub piece : String → Option Piece
unfolding parse_i64 unit_value tens_value
piece word = elim (parse_i64 word) [
  | some v ↦ some (literal v)
  | none ↦ elim (unit_value word) [
    | some u ↦ some (unit u)
    | none ↦
        if mem word (
          "\u{5e2}\u{5e9}\u{5e8}" ∷ "\u{5e2}\u{5e9}\u{5e8}\u{5d4}" ∷ "\u{5e2}\u{5e9}\u{5e8}\u{5ea}"
          ∷ [])
        then some ten
        else elim (tens_value word) [ some t ↦ some (tenfold t) | none ↦ named word ]
  ]
]

-- The word without a "(vav)" before it.
abbrev without_vav : String → Option String
without_vav String.[] = none
without_vav (String.◌∷◌ c s) = if code c == 1493 then some s else none

abbrev piece_of : Option String → Option Piece
piece_of none = none
piece_of (some s) = piece s

abbrev joined : Bool → String → Option Piece
joined true word = piece word
joined false word = elim (piece word) [ some p ↦ some p | none ↦ piece_of (without_vav word) ]

-- One more word of a compound number: the thousands' total and what is added up, or its end.
unfoldable pub add_piece : ℕ → ℕ → Option Piece → Option (ℕ × ℕ)
add_piece total current none = none
add_piece total current (some (unit u)) =
    if current % 10 == 0 then some (total, current + u) else none
add_piece total current (some ten) =
    if leb 1 (current % 100) && leb (current % 100) 9
    then some (total, current + 10)
    else if current == 0
    then some (total, 10)
    else none
add_piece total current (some (tenfold t)) =
    if current % 100 == 0 then some (total, current + t) else none
add_piece total current (some (hundred h)) = if current == 0 then some (total, h) else none
add_piece total current (some hundreds) =
    if leb 1 current && leb current 9 then some (total + current * 100, 0) else none
add_piece total current (some (literal _)) = none

-- The value of a compound number and how many words it has.
unfoldable pub compound : Bool → ℕ → ℕ → List String → ℕ × ℕ
unfolding add_piece piece
compound first total current [] = (total + current, 0)
compound first total current (t ∷ ts) = elim (add_piece total current (joined first t)) [
  | none ↦ (total + current, 0)
  | some (total', current') ↦ let (v, n) = compound false total' current' ts in (v, suc n)
]

pub record FoundNumber : Type 0 where
  pub value : ℤ
  pub start : ℕ
  pub end : ℕ

-- What starts at a word: the number there, and the words after it that are part of it.
abbrev found_at : ℕ → List String → Option Piece → Option FoundNumber × ℕ
found_at i ts none = (none, 0)
found_at i ts (some (literal v)) = (some (record { value = v; start = i; end = suc i }), 0)
found_at i ts (some hundreds) = (none, 0)
found_at i ts (some _) =
    let (v, n) = compound true 0 0 ts in
    if n == 0 then (none, 0) else (some (record { value = pos v; start = i; end = i + n }), n - 1)

abbrev put : Option FoundNumber → List FoundNumber → List FoundNumber
put none found = found
put (some n) found = n ∷ found

-- `skip` words are part of the number before.
unfoldable pub find_from : ℕ → ℕ → List String → List FoundNumber
unfolding compound piece
find_from i skip [] = []
find_from i (suc skip) (t ∷ ts) = find_from (suc i) skip ts
find_from i zero (t ∷ ts) =
    let (n, skip) = found_at i (t ∷ ts) (piece t) in put n (find_from (suc i) skip ts)

unfoldable pub find_numbers : List String → List FoundNumber
unfolding find_from
find_numbers tokens = find_from 0 0 tokens
