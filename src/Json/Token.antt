-- ===== src/Json/Token.antt =====
-- src/json_validation.h: the grammar of a number token, and the blanks around a document.
use ir_assignment.Prelude.{
  ℕ, Bool, true, false, ◌&&◌, ◌||◌, List, [], ◌∷◌, ltb, leb, ◌==◌, if◌then◌else◌,
}

abbrev pub is_json_digit : ℕ → Bool
is_json_digit c = leb b'0' c && leb c b'9'

-- `while (index < token.size() && is_json_digit(token[index])) ++index`: what is left of the token.
unfoldable pub skip_digits : List ℕ → List ℕ
skip_digits [] = []
skip_digits (c ∷ token) =
    let rest = skip_digits token in if is_json_digit c then rest else c ∷ token

abbrev pub starts_with_digit : List ℕ → Bool
starts_with_digit [] = false
starts_with_digit (c ∷ token) = is_json_digit c

abbrev pub is_done : List ℕ → Bool
is_done [] = true
is_done (c ∷ token) = false

-- Behind `e`: a sign at most, and digits up to the end.
abbrev exponent_digits : List ℕ → Bool
exponent_digits token = starts_with_digit token && is_done (skip_digits token)

abbrev after_exponent_sign : List ℕ → Bool
after_exponent_sign [] = false
after_exponent_sign (c ∷ token) =
    if c == b'+' || c == b'-' then exponent_digits token else exponent_digits (c ∷ token)

abbrev from_exponent : List ℕ → Bool
from_exponent [] = true
from_exponent (c ∷ token) = if c == b'e' || c == b'E' then after_exponent_sign token else false

abbrev from_point : List ℕ → Bool
from_point [] = true
from_point (c ∷ token) =
    if c == b'.'
    then starts_with_digit token && from_exponent (skip_digits token)
    else from_exponent (c ∷ token)

-- Behind the sign: 0 alone, or a digit that is not 0 and more digits.
abbrev from_whole : List ℕ → Bool
from_whole [] = false
from_whole (c ∷ token) =
    if c == b'0'
    then if starts_with_digit token then false else from_point token
    else if ltb c b'1' || ltb b'9' c
    then false
    else from_point (skip_digits token)

unfoldable pub is_valid_json_number_token : List ℕ → Bool
unfolding skip_digits
is_valid_json_number_token [] = false
is_valid_json_number_token (c ∷ token) =
    if c == b'-' then from_whole token else from_whole (c ∷ token)

abbrev pub is_whitespace : ℕ → Bool
is_whitespace c = c == b' ' || c == b'\t' || c == b'\n' || c == b'\r'

unfoldable pub trim_front : List ℕ → List ℕ
trim_front [] = []
trim_front (c ∷ input) = let rest = trim_front input in if is_whitespace c then rest else c ∷ input

-- A blank goes only where nothing but blanks is behind it.
abbrev keep_unless_blank : ℕ → List ℕ → List ℕ
keep_unless_blank c [] = if is_whitespace c then [] else c ∷ []
keep_unless_blank c (d ∷ rest) = c ∷ d ∷ rest

unfoldable pub trim_back : List ℕ → List ℕ
trim_back [] = []
trim_back (c ∷ input) = keep_unless_blank c (trim_back input)

unfoldable pub trim_json_whitespace : List ℕ → List ℕ
unfolding trim_front trim_back
trim_json_whitespace input = trim_back (trim_front input)
