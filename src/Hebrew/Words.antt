-- ===== src/Hebrew/Words.antt =====
-- crates/callora-core/src/hebrew.rs: saying numbers, counted nouns and times of day.
use Prim.Native.String.{◌++◌ as str_append}
use callora.Base.{
  ℕ, zero, suc, ◌-◌, ◌/◌, ◌%◌, Bool, true, false, not, none, some, List, [], ◌∷◌, ◌++◌, String,
  if◌then◌else◌, ltb, leb, ◌==◌, get_elem?,
}
use callora.Call.Run.{ℤ, pos, negsuc}

pub data Gender : Type 0 where
  masculine feminine : Gender

abbrev pub nth : List String → ℕ → String
nth xs i = elim (get_elem? xs i) [ none ↦ "" | some x ↦ x ]

abbrev pub units : Gender → List String
units masculine =
    "\u{5d0}\u{5e4}\u{5e1}" ∷ "\u{5d0}\u{5d7}\u{5d3}" ∷ "\u{5e9}\u{5e0}\u{5d9}\u{5d9}\u{5dd}"
    ∷ "\u{5e9}\u{5dc}\u{5d5}\u{5e9}\u{5d4}" ∷ "\u{5d0}\u{5e8}\u{5d1}\u{5e2}\u{5d4}"
    ∷ "\u{5d7}\u{5de}\u{5d9}\u{5e9}\u{5d4}" ∷ "\u{5e9}\u{5d9}\u{5e9}\u{5d4}"
    ∷ "\u{5e9}\u{5d1}\u{5e2}\u{5d4}" ∷ "\u{5e9}\u{5de}\u{5d5}\u{5e0}\u{5d4}"
    ∷ "\u{5ea}\u{5e9}\u{5e2}\u{5d4}" ∷ []
units feminine =
    "\u{5d0}\u{5e4}\u{5e1}" ∷ "\u{5d0}\u{5d7}\u{5ea}" ∷ "\u{5e9}\u{5ea}\u{5d9}\u{5d9}\u{5dd}"
    ∷ "\u{5e9}\u{5dc}\u{5d5}\u{5e9}" ∷ "\u{5d0}\u{5e8}\u{5d1}\u{5e2}" ∷ "\u{5d7}\u{5de}\u{5e9}"
    ∷ "\u{5e9}\u{5e9}" ∷ "\u{5e9}\u{5d1}\u{5e2}" ∷ "\u{5e9}\u{5de}\u{5d5}\u{5e0}\u{5d4}"
    ∷ "\u{5ea}\u{5e9}\u{5e2}" ∷ []

abbrev pub teens : Gender → List String
teens masculine =
    "\u{5e2}\u{5e9}\u{5e8}\u{5d4}" ∷ "\u{5d0}\u{5d7}\u{5d3} \u{5e2}\u{5e9}\u{5e8}"
    ∷ "\u{5e9}\u{5e0}\u{5d9}\u{5dd} \u{5e2}\u{5e9}\u{5e8}"
    ∷ "\u{5e9}\u{5dc}\u{5d5}\u{5e9}\u{5d4} \u{5e2}\u{5e9}\u{5e8}"
    ∷ "\u{5d0}\u{5e8}\u{5d1}\u{5e2}\u{5d4} \u{5e2}\u{5e9}\u{5e8}"
    ∷ "\u{5d7}\u{5de}\u{5d9}\u{5e9}\u{5d4} \u{5e2}\u{5e9}\u{5e8}"
    ∷ "\u{5e9}\u{5d9}\u{5e9}\u{5d4} \u{5e2}\u{5e9}\u{5e8}"
    ∷ "\u{5e9}\u{5d1}\u{5e2}\u{5d4} \u{5e2}\u{5e9}\u{5e8}"
    ∷ "\u{5e9}\u{5de}\u{5d5}\u{5e0}\u{5d4} \u{5e2}\u{5e9}\u{5e8}"
    ∷ "\u{5ea}\u{5e9}\u{5e2}\u{5d4} \u{5e2}\u{5e9}\u{5e8}" ∷ []
teens feminine =
    "\u{5e2}\u{5e9}\u{5e8}" ∷ "\u{5d0}\u{5d7}\u{5ea} \u{5e2}\u{5e9}\u{5e8}\u{5d4}"
    ∷ "\u{5e9}\u{5ea}\u{5d9}\u{5dd} \u{5e2}\u{5e9}\u{5e8}\u{5d4}"
    ∷ "\u{5e9}\u{5dc}\u{5d5}\u{5e9} \u{5e2}\u{5e9}\u{5e8}\u{5d4}"
    ∷ "\u{5d0}\u{5e8}\u{5d1}\u{5e2} \u{5e2}\u{5e9}\u{5e8}\u{5d4}"
    ∷ "\u{5d7}\u{5de}\u{5e9} \u{5e2}\u{5e9}\u{5e8}\u{5d4}"
    ∷ "\u{5e9}\u{5e9} \u{5e2}\u{5e9}\u{5e8}\u{5d4}"
    ∷ "\u{5e9}\u{5d1}\u{5e2} \u{5e2}\u{5e9}\u{5e8}\u{5d4}"
    ∷ "\u{5e9}\u{5de}\u{5d5}\u{5e0}\u{5d4} \u{5e2}\u{5e9}\u{5e8}\u{5d4}"
    ∷ "\u{5ea}\u{5e9}\u{5e2} \u{5e2}\u{5e9}\u{5e8}\u{5d4}" ∷ []

abbrev pub tens : List String
tens =
    "" ∷ "" ∷ "\u{5e2}\u{5e9}\u{5e8}\u{5d9}\u{5dd}" ∷ "\u{5e9}\u{5dc}\u{5d5}\u{5e9}\u{5d9}\u{5dd}"
    ∷ "\u{5d0}\u{5e8}\u{5d1}\u{5e2}\u{5d9}\u{5dd}" ∷ "\u{5d7}\u{5de}\u{5d9}\u{5e9}\u{5d9}\u{5dd}"
    ∷ "\u{5e9}\u{5d9}\u{5e9}\u{5d9}\u{5dd}" ∷ "\u{5e9}\u{5d1}\u{5e2}\u{5d9}\u{5dd}"
    ∷ "\u{5e9}\u{5de}\u{5d5}\u{5e0}\u{5d9}\u{5dd}" ∷ "\u{5ea}\u{5e9}\u{5e2}\u{5d9}\u{5dd}" ∷ []

abbrev pub hundreds : List String
hundreds =
    "" ∷ "\u{5de}\u{5d0}\u{5d4}" ∷ "\u{5de}\u{5d0}\u{5ea}\u{5d9}\u{5d9}\u{5dd}"
    ∷ "\u{5e9}\u{5dc}\u{5d5}\u{5e9} \u{5de}\u{5d0}\u{5d5}\u{5ea}"
    ∷ "\u{5d0}\u{5e8}\u{5d1}\u{5e2} \u{5de}\u{5d0}\u{5d5}\u{5ea}"
    ∷ "\u{5d7}\u{5de}\u{5e9} \u{5de}\u{5d0}\u{5d5}\u{5ea}"
    ∷ "\u{5e9}\u{5e9} \u{5de}\u{5d0}\u{5d5}\u{5ea}"
    ∷ "\u{5e9}\u{5d1}\u{5e2} \u{5de}\u{5d0}\u{5d5}\u{5ea}"
    ∷ "\u{5e9}\u{5de}\u{5d5}\u{5e0}\u{5d4} \u{5de}\u{5d0}\u{5d5}\u{5ea}"
    ∷ "\u{5ea}\u{5e9}\u{5e2} \u{5de}\u{5d0}\u{5d5}\u{5ea}" ∷ []

abbrev pub thousands : List String
thousands =
    "" ∷ "\u{5d0}\u{5dc}\u{5e3}" ∷ "\u{5d0}\u{5dc}\u{5e4}\u{5d9}\u{5d9}\u{5dd}"
    ∷ "\u{5e9}\u{5dc}\u{5d5}\u{5e9}\u{5ea} \u{5d0}\u{5dc}\u{5e4}\u{5d9}\u{5dd}"
    ∷ "\u{5d0}\u{5e8}\u{5d1}\u{5e2}\u{5ea} \u{5d0}\u{5dc}\u{5e4}\u{5d9}\u{5dd}"
    ∷ "\u{5d7}\u{5de}\u{5e9}\u{5ea} \u{5d0}\u{5dc}\u{5e4}\u{5d9}\u{5dd}"
    ∷ "\u{5e9}\u{5e9}\u{5ea} \u{5d0}\u{5dc}\u{5e4}\u{5d9}\u{5dd}"
    ∷ "\u{5e9}\u{5d1}\u{5e2}\u{5ea} \u{5d0}\u{5dc}\u{5e4}\u{5d9}\u{5dd}"
    ∷ "\u{5e9}\u{5de}\u{5d5}\u{5e0}\u{5ea} \u{5d0}\u{5dc}\u{5e4}\u{5d9}\u{5dd}"
    ∷ "\u{5ea}\u{5e9}\u{5e2}\u{5ea} \u{5d0}\u{5dc}\u{5e4}\u{5d9}\u{5dd}" ∷ []

-- An `i64` in digits; twenty suffice.
abbrev digit : ℕ → String
digit d = nth ("0" ∷ "1" ∷ "2" ∷ "3" ∷ "4" ∷ "5" ∷ "6" ∷ "7" ∷ "8" ∷ "9" ∷ []) d

decimal : ℕ → ℕ → String
decimal zero n = digit n
decimal (suc f) n = elim (ltb n 10) [
  | true ↦ digit n
  | false ↦ str_append (decimal f (n / 10)) (digit (n % 10))
]

unfoldable pub to_string : ℤ → String
unfolding decimal
to_string (pos n) = decimal 19 n
to_string (negsuc n) = str_append "-" (decimal 19 (suc n))

abbrev when : Bool → String → List String
when true s = s ∷ []
when false s = []

abbrev below_hundred : Gender → ℕ → List String
below_hundred g n =
    if leb 20 n
    then nth tens (n / 10) ∷ when (not (n % 10 == 0)) (nth (units g) (n % 10))
    else if leb 10 n
    then nth (teens g) (n - 10) ∷ []
    else when (ltb 0 n) (nth (units g) n)

unfoldable pub parts : Gender → ℕ → List String
parts g n =
    when (leb 1000 n) (nth thousands (n / 1000))
    ++ when (leb 100 (n % 1000)) (nth hundreds (n % 1000 / 100))
    ++ below_hundred g (n % 1000 % 100)

-- `join(" ")`, with the last of several parts joined on by "(vav)".
unfoldable pub join_rest : List String → String
join_rest [] = ""
join_rest (p ∷ []) = str_append " \u{5d5}" p
join_rest (p ∷ q ∷ ps) = str_append " " (str_append p (join_rest (q ∷ ps)))

abbrev pub join_parts : List String → String
join_parts [] = ""
join_parts (p ∷ ps) = str_append p (join_rest ps)

abbrev words_of : ℕ → Gender → String
words_of zero g = "\u{5d0}\u{5e4}\u{5e1}"
words_of (suc n) g =
    if ltb 9999 (suc n) then to_string (pos (suc n)) else join_parts (parts g (suc n))

-- A number in words, up to 9999; others in digits.
unfoldable pub number_words : ℤ → Gender → String
unfolding to_string parts join_rest
number_words (pos n) g = words_of n g
number_words (negsuc n) g = to_string (negsuc n)

abbrev pair : Gender → String
pair masculine = "\u{5e9}\u{5e0}\u{5d9} "
pair feminine = "\u{5e9}\u{5ea}\u{5d9} "

unfoldable pub count_phrase : ℤ → Gender → String → String → String
unfolding number_words
count_phrase (pos n) g singular plural =
    if n == 1
    then singular
    else if n == 2
    then str_append (pair g) plural
    else str_append (number_words (pos n) g) (str_append " " plural)
count_phrase (negsuc n) g singular plural =
    str_append (number_words (negsuc n) g) (str_append " " plural)

abbrev twelve_hour : ℕ → ℕ
twelve_hour hour = if hour % 12 == 0 then 12 else hour % 12

unfoldable pub clock_words : ℕ → ℕ → String
unfolding number_words
clock_words hour minute =
    let h = number_words (pos (twelve_hour hour)) feminine in
    if minute == 0
    then h
    else if minute == 15
    then str_append h " \u{5d5}\u{5e8}\u{5d1}\u{5e2}"
    else if minute == 30
    then str_append h " \u{5d5}\u{5d7}\u{5e6}\u{5d9}"
    else str_append h (str_append " \u{5d5}" (number_words (pos minute) feminine))
