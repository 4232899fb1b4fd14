-- ===== src/Hebrew/Tests.antt =====
-- Numbers of the size that callers say.
use callora.Base.{◌∷◌, [], ◌≡◌, refl, arith}
use callora.Call.Run.{pos}
use callora.Hebrew.Words.{masculine, feminine, number_words, clock_words, count_phrase}
use callora.Hebrew.Reading.{find_numbers}
use callora.Hebrew.RoundTrip.{split, find_numbers-number_words}

find_numbers-number_words_example :
    find_numbers (split (number_words (pos 125) masculine))
    ≡ record { value = pos 125; start = 0; end = 3 } ∷ []
unfolding split number_words
find_numbers-number_words_example =
    find_numbers-number_words masculine 125 (omega arith) (omega arith)

clock_morning :
    clock_words 7 40 ≡ "\u{5e9}\u{5d1}\u{5e2} \u{5d5}\u{5d0}\u{5e8}\u{5d1}\u{5e2}\u{5d9}\u{5dd}"
unfolding clock_words
clock_morning = refl

pair_feminine :
    count_phrase (pos 2) feminine "\u{5d3}\u{5e7}\u{5d4}" "\u{5d3}\u{5e7}\u{5d5}\u{5ea}"
    ≡ "\u{5e9}\u{5ea}\u{5d9} \u{5d3}\u{5e7}\u{5d5}\u{5ea}"
unfolding count_phrase
pair_feminine = refl

of_forty_seven :
    find_numbers (split "\u{5e8}\u{5d7}\u{5d5}\u{5d1} \u{5d7}\u{5d9}\u{5e4}\u{5d4} 47")
    ≡ record { value = pos 47; start = 2; end = 3 } ∷ []
unfolding find_numbers split
of_forty_seven = refl
