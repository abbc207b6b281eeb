-- ===== src/Text.antt =====
-- Python's `str` as a list of code points: what validate_submission.py, output/submission_writer.py
-- and services/jobs.py use of it.
use Prim.Native.Char.{code}
use Prim.Native.String.{String}
use mathlib.Core.List.{reverse}
use provenancerank.Prelude.{
  ℕ, zero, suc, ◌+◌, ◌/◌, ◌%◌, Bool, true, false, ◌&&◌, ◌||◌, Option, none, some, ◌-◌, ◌*◌, List,
  [], ◌∷◌, ◌++◌, leb, ltb, ◌==◌, if◌then◌else◌,
}
pub mod Spaces
pub mod Order
pub mod Decimal

abbrev pub Text : Type 0
Text = List ℕ

-- The code points of a literal.
abbrev pub codes : String → Text
codes String.[] = []
codes (String.◌∷◌ c s) = code c ∷ codes s

-- `str.isspace` of one character
unfoldable pub is_space : ℕ → Bool
is_space c =
    (leb 9 c && leb c 13)
    || (leb 28 c && leb c 32)
    || c == 133
    || c == 160
    || c == 5760
    || (leb 8192 c && leb c 8202)
    || c == 8232
    || c == 8233
    || c == 8239
    || c == 8287
    || c == 12288

-- `s.lstrip()`
unfoldable pub lstrip : Text → Text
unfolding is_space
lstrip [] = []
lstrip (c ∷ s) = if is_space c then lstrip s else c ∷ s

-- `s.strip()`
unfoldable pub strip : Text → Text
unfolding lstrip
strip s = reverse (lstrip (reverse (lstrip s)))

-- `" ".join(s.split())`: the state says whether a word has begun and whether a space is due
unfoldable pub squeeze : Bool → Bool → Text → Text
unfolding is_space
squeeze started due [] = []
squeeze started due (c ∷ s) =
    let rest = squeeze started true s in
    let word = squeeze true false s in
    if is_space c then rest else if started && due then 32 ∷ c ∷ word else c ∷ word

-- `s < t`, by code points
unfoldable pub text_ltb : Text → Text → Bool
text_ltb [] [] = false
text_ltb [] (d ∷ t) = true
text_ltb (c ∷ s) [] = false
text_ltb (c ∷ s) (d ∷ t) =
    let rest = text_ltb s t in if ltb c d then true else if c == d then rest else false

-- `s == t`
unfoldable pub text_eqb : Text → Text → Bool
text_eqb [] [] = true
text_eqb [] (d ∷ t) = false
text_eqb (c ∷ s) [] = false
text_eqb (c ∷ s) (d ∷ t) = c == d && text_eqb s t

unfoldable pub is_digit : ℕ → Bool
is_digit c = leb b'0' c && leb c b'9'

-- The decimal digits of a number, most significant first, with more fuel than digits.
unfoldable pub digits_from : ℕ → ℕ → Text
digits_from zero n = []
digits_from (suc f) n =
    let front = digits_from f (n / 10) in
    if ltb n 10 then (b'0' + n) ∷ [] else front ++ (b'0' + n % 10) ∷ []

-- `str(n)`
unfoldable pub decimal : ℕ → Text
unfolding digits_from
decimal n = digits_from (suc n) n

-- `f"{x:.4f}"` of the number of ten-thousandths
unfoldable pub format4 : ℕ → Text
unfolding decimal
format4 u =
    decimal (u / 10000)
    ++ b'.'
      ∷ (b'0' + (u / 1000) % 10)
      ∷ (b'0' + (u / 100) % 10)
      ∷ (b'0' + (u / 10) % 10)
      ∷ (b'0' + u % 10)
      ∷ []

-- `s.lower()`, on the letters of ASCII
unfoldable pub lower : Text → Text
lower [] = []
lower (c ∷ s) = (if leb b'A' c && leb c b'Z' then c + 32 else c) ∷ lower s

-- `s.startswith(prefix)`, with what follows the prefix
unfoldable pub after_prefix : Text → Text → Option Text
after_prefix [] s = some s
after_prefix (c ∷ p) [] = none
after_prefix (c ∷ p) (d ∷ s) = let rest = after_prefix p s in if c == d then rest else none

unfoldable pub all_digits : Text → Bool
unfolding is_digit
all_digits [] = true
all_digits (c ∷ s) = is_digit c && all_digits s

-- The number that the digits of a text stand for; a point is passed over.
unfoldable pub read_digits : ℕ → Text → ℕ
read_digits acc [] = acc
read_digits acc (c ∷ s) = read_digits (if c == b'.' then acc else acc * 10 + (c - b'0')) s

-- `prefix` begins the text
unfoldable pub starts_with : Text → Text → Bool
starts_with [] s = true
starts_with (c ∷ p) [] = false
starts_with (c ∷ p) (d ∷ s) = c == d && starts_with p s

-- `part in s`
unfoldable pub contains : Text → Text → Bool
unfolding starts_with
contains part [] = starts_with part []
contains part (c ∷ s) = starts_with part (c ∷ s) || contains part s

-- `len(s.split())`: the flag says whether a word has begun
unfoldable pub words_from : Bool → Text → ℕ
unfolding is_space
words_from inside [] = 0
words_from inside (c ∷ s) =
    let outside = words_from false s in
    let within = words_from true s in
    if is_space c then outside else if inside then within else suc within

unfoldable pub word_count : Text → ℕ
word_count = words_from false

-- `glue.join(parts)`
unfoldable pub join : Text → List Text → Text
join glue [] = []
join glue (s ∷ []) = s
join glue (s ∷ t ∷ rest) = s ++ (glue ++ join glue (t ∷ rest))

-- `s in xs`, of a list or a set of strings
unfoldable pub member_text : Text → List Text → Bool
unfolding text_eqb
member_text s [] = false
member_text s (t ∷ ts) = if text_eqb s t then true else member_text s ts

-- `len(set(xs))`
unfoldable pub distinct_count : List Text → ℕ
unfolding member_text
distinct_count [] = 0
distinct_count (s ∷ ts) = (if member_text s ts then 0 else 1) + distinct_count ts
