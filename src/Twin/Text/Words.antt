-- ===== src/Twin/Text/Words.antt =====
-- Words and lines of the texts of crates/systemrs-twin/src/journal.rs.
use systemrs.Base.{ℕ, ◌≤◌, List, [], ◌∷◌, ◌++◌, false, ◌==◌, ◌≡◌, refl, arith, ap, ◌∙◌, All}
use mathlib.Core.List.{append-nil}
use systemrs.Twin.Text.{is_whitespace, lines_from, strip_cr, emit, words_from, split_whitespace}
use systemrs.Twin.Text.Decimal.{IsDigit}

-- A character of a word.
abbrev pub IsInk : ℕ → Type 0
IsInk c = is_whitespace c ≡ false

-- A character that ends no line.
abbrev pub IsPlain : ℕ → Type 0
IsPlain c = 32 ≤ c

pub IsDigit-IsInk : (c : ℕ) → IsDigit c → IsInk c
unfolding is_whitespace
IsDigit-IsInk c (low, high) = ground (arith, low, high)

snoc_append : (cur : List ℕ) (c : ℕ) (xs : List ℕ) → (cur ++ c ∷ []) ++ xs ≡ cur ++ c ∷ xs
snoc_append [] c xs = refl
snoc_append (d ∷ cur) c xs = ap (λ t. d ∷ t) (snoc_append cur c xs)

words_from-space :
    (cur xs ys : List ℕ)
    → All IsInk xs
    → words_from cur (xs ++ 32 ∷ ys) ≡ emit (cur ++ xs) (words_from [] ys)
unfolding words_from is_whitespace
words_from-space cur [] ys h = rw (append-nil cur) refl
words_from-space cur (c ∷ xs) ys (p, h) =
    rw (p, words_from)
      (words_from-space (cur ++ c ∷ []) xs ys h
        ∙ ap (λ t. emit t (words_from [] ys)) (snoc_append cur c xs))

words_from-end : (cur xs : List ℕ) → All IsInk xs → words_from cur xs ≡ emit (cur ++ xs) []
unfolding words_from
words_from-end cur [] h = rw (append-nil cur) refl
words_from-end cur (c ∷ xs) (p, h) =
    rw (p, words_from)
      (words_from-end (cur ++ c ∷ []) xs h ∙ ap (λ t. emit t []) (snoc_append cur c xs))

strip_cr-plain : (xs : List ℕ) → All IsPlain xs → strip_cr xs ≡ xs
strip_cr-plain [] h = refl
strip_cr-plain (c ∷ []) (p, h) = let other : (c == 13) ≡ false = ground (arith, p) in rw other refl
strip_cr-plain (c ∷ d ∷ xs) (p, h) = ap (λ t. c ∷ t) (strip_cr-plain (d ∷ xs) h)

lines_from-read :
    (cur xs ys : List ℕ)
    → All IsPlain xs
    → lines_from cur (xs ++ 10 ∷ ys) ≡ strip_cr (cur ++ xs) ∷ lines_from [] ys
unfolding lines_from
lines_from-read cur [] ys h = rw (append-nil cur) refl
lines_from-read cur (c ∷ xs) ys (p, h) =
    let other : (c == 10) ≡ false = ground (arith, p) in
    rw (other, lines_from)
      (lines_from-read (cur ++ c ∷ []) xs ys h
        ∙ ap (λ t. strip_cr t ∷ lines_from [] ys) (snoc_append cur c xs))

-- A line that ends is read as it is.
pub lines_from-line :
    (xs ys : List ℕ) → All IsPlain xs → lines_from [] (xs ++ 10 ∷ ys) ≡ xs ∷ lines_from [] ys
lines_from-line xs ys h =
    lines_from-read [] xs ys h ∙ ap (λ t. t ∷ lines_from [] ys) (strip_cr-plain xs h)

-- Four words with spaces between them.
pub split_whitespace-four :
    (a b c d : List ℕ)
    → All IsInk a × All IsInk b × All IsInk c × All IsInk d
    → split_whitespace (a ++ 32 ∷ (b ++ 32 ∷ (c ++ 32 ∷ d))) ≡ emit a (emit b (emit c (emit d [])))
unfolding split_whitespace
split_whitespace-four a b c d (ha, hb, hc, hd) =
    words_from-space [] a (b ++ 32 ∷ (c ++ 32 ∷ d)) ha
    ∙ ap (emit a) (
        words_from-space [] b (c ++ 32 ∷ d) hb
        ∙ ap (emit b) (words_from-space [] c d hc ∙ ap (emit c) (words_from-end [] d hd)))
