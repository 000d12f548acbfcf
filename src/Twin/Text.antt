-- ===== src/Twin/Text.antt =====
-- The functions on text that crates/systemrs-twin/src/journal.rs uses of the standard library. A text is
-- the list of its code points.
pub mod Decimal
pub mod Words
use systemrs.Base.{
  ℕ, zero, suc, ◌+◌, ◌-◌, ◌*◌, ◌/◌, ◌%◌, List, [], ◌∷◌, ◌++◌, Bool, true, false, Option, none, some,
  ◌&&◌, ◌||◌, ◌==◌, ltb, leb, if◌then◌else◌, is_cons, u64_max,
}

-- `{}` of a `u64`, of which no value has more than 20 digits.
unfoldable pub decimal_from : ℕ → ℕ → List ℕ
decimal_from zero n = []
decimal_from (suc f) n =
    let rest = decimal_from f (n / 10) in
    if ltb n 10 then (48 + n) ∷ [] else rest ++ (48 + n % 10) ∷ []

unfoldable pub decimal : ℕ → List ℕ
unfolding decimal_from
decimal n = decimal_from 20 n

-- `str::parse::<u64>`: an optional plus sign, at least one digit, and no overflow.
abbrev pub is_digit : ℕ → Bool
is_digit c = leb 48 c && leb c 57

unfoldable pub parse_digits : ℕ → List ℕ → Option ℕ
parse_digits acc [] = some acc
parse_digits acc (c ∷ cs) =
    let rest = parse_digits (acc * 10 + (c - 48)) cs in
    if is_digit c && leb (acc * 10 + (c - 48)) u64_max then rest else none

unfoldable pub parse_u64 : List ℕ → Option ℕ
unfolding parse_digits
parse_u64 [] = none
parse_u64 (c ∷ cs) =
    if c == 43 then (if is_cons cs then parse_digits 0 cs else none) else parse_digits 0 (c ∷ cs)

-- `char::is_whitespace`
unfoldable pub is_whitespace : ℕ → Bool
is_whitespace c =
    leb 9 c && leb c 13
    || c == 32
    || c == 0x85
    || c == 0xa0
    || c == 0x1680
    || leb 0x2000 c && leb c 0x200a
    || c == 0x2028
    || c == 0x2029
    || c == 0x202f
    || c == 0x205f
    || c == 0x3000

-- `str::lines`, within a line of which `cur` has been read; a carriage return before the line feed goes
-- with it.
abbrev pub strip_cr : List ℕ → List ℕ
strip_cr [] = []
strip_cr (c ∷ []) = if c == 13 then [] else c ∷ []
strip_cr (c ∷ d ∷ cs) = c ∷ strip_cr (d ∷ cs)

unfoldable pub lines_from : List ℕ → List ℕ → List (List ℕ)
lines_from [] [] = []
lines_from (c ∷ cur) [] = (c ∷ cur) ∷ []
lines_from cur (c ∷ cs) = elim (c == 10) [
  | true ↦ strip_cr cur ∷ lines_from [] cs
  | false ↦ lines_from (cur ++ c ∷ []) cs
]

unfoldable pub lines : List ℕ → List (List ℕ)
unfolding lines_from
lines text = lines_from [] text

-- `str::split_whitespace`, within a word of which `cur` has been read.
abbrev pub emit : List ℕ → List (List ℕ) → List (List ℕ)
emit [] words = words
emit (c ∷ cs) words = (c ∷ cs) ∷ words

unfoldable pub words_from : List ℕ → List ℕ → List (List ℕ)
unfolding is_whitespace
words_from cur [] = emit cur []
words_from cur (c ∷ cs) = elim (is_whitespace c) [
  | true ↦ emit cur (words_from [] cs)
  | false ↦ words_from (cur ++ c ∷ []) cs
]

unfoldable pub split_whitespace : List ℕ → List (List ℕ)
unfolding words_from
split_whitespace line = words_from [] line

-- `line.trim().is_empty()`
unfoldable pub is_blank : List ℕ → Bool
unfolding is_whitespace
is_blank [] = true
is_blank (c ∷ cs) = is_whitespace c && is_blank cs

-- `str::strip_prefix`
unfoldable pub strip_prefix : List ℕ → List ℕ → Option (List ℕ)
strip_prefix [] text = some text
strip_prefix (p ∷ ps) [] = none
strip_prefix (p ∷ ps) (c ∷ cs) = if p == c then strip_prefix ps cs else none
