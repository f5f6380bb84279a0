-- ===== src/Lvm2/Text.antt =====
-- osbuild/util/lvm2.py: the text of LVM2 metadata: the substitutions of `decode_data`, `split`, and
-- decimal numbers as Python's `str` and `int` have them (of other scripts' digits, `int` is not
-- modelled, nor its limit on their number). A text is the list of its code points.
pub mod Lexing
pub mod Spelling
pub mod Parts
pub mod Decimal
use osbuild.Prelude.{
  ℕ, zero, suc, ◌+◌, ◌-◌, ◌*◌, ◌<◌, Bool, true, false, not, ◌&&◌, ◌||◌, Option, none, some, List,
  [], ◌∷◌, ◌++◌, if◌then◌else◌, ltb, leb, same_number,
}
use osbuild.Prelude.Int.{ℤ, pos, negsuc}
use Prim.Native.Nat.{◌/◌, ◌%◌}

abbrev pub Text : Type 0
Text = List ℕ

abbrev pub within : ℕ → ℕ → ℕ → Bool
within lo hi c = leb lo c && leb c hi

-- `str.isspace` of a character, which is also `\s`.
unfoldable pub is_space : ℕ → Bool
is_space c =
    within 9 13 c
    || within 28 32 c
    || same_number c 0x85
    || same_number c 0xa0
    || same_number c 0x1680
    || within 0x2000 0x200a c
    || within 0x2028 0x2029 c
    || same_number c 0x202f
    || same_number c 0x205f
    || same_number c 0x3000

abbrev pub has_line_end : Text → Bool
has_line_end [] = false
has_line_end (c ∷ rest) = if same_number c b'\n' then true else has_line_end rest

-- `re.sub(r"#.*\n", "", text)`: a comment goes with its line's end, and stays if the line has none. The
-- flag says whether a comment is being left out.
unfoldable pub drop_comments : Bool → Text → Text
drop_comments inside [] = []
drop_comments true (c ∷ rest) = drop_comments (not (same_number c b'\n')) rest
drop_comments false (c ∷ rest) =
    let left_out = drop_comments true rest in
    let kept = c ∷ drop_comments false rest in
    if same_number c b'#' && has_line_end rest then left_out else kept

-- `re.sub` of single characters.
unfoldable pub replace : (ℕ → Text) → Text → Text
replace by [] = []
replace by (c ∷ rest) = by c ++ replace by rest

abbrev pub open_bracket : ℕ → Text
open_bracket c = if same_number c b'[' then b'[' ∷ b' ' ∷ [] else c ∷ []

abbrev pub close_bracket : ℕ → Text
close_bracket c = if same_number c b']' then b' ' ∷ b']' ∷ [] else c ∷ []

abbrev pub quote : ℕ → Text
quote c = if same_number c b'"' then b' ' ∷ b'"' ∷ b' ' ∷ [] else c ∷ []

abbrev pub separator : ℕ → Text
separator c = if same_number c b'=' || same_number c b',' then [] else c ∷ []

-- `re.sub(r"\s+", " ", text)`; the flag says whether the character before was a space.
unfoldable pub collapse : Bool → Text → Text
collapse after [] = []
collapse after (c ∷ rest) =
    let more = collapse true rest in
    let word = c ∷ collapse false rest in
    if is_space c then (if after then more else b' ' ∷ more) else word

-- `re.sub(r"\0$", "", text)`: `$` is also before a last line end.
unfoldable pub drop_nul : Text → Text
drop_nul [] = []
drop_nul (c ∷ []) = if same_number c 0 then [] else c ∷ []
drop_nul (c ∷ d ∷ []) =
    if same_number c 0 && same_number d b'\n'
    then d ∷ []
    else c ∷ (if same_number d 0 then [] else d ∷ [])
drop_nul (c ∷ d ∷ e ∷ rest) = c ∷ drop_nul (d ∷ e ∷ rest)

unfoldable pub substituted : Text → Text
substituted raw = drop_nul (
    collapse false (
      replace separator
        (replace quote (replace close_bracket (replace open_bracket (drop_comments false raw))))))

abbrev pub flushed : Text → List Text
flushed [] = []
flushed (c ∷ word) = (c ∷ word) ∷ []

-- `text.split()`, behind the start of a word.
unfoldable pub split : Text → Text → List Text
split word [] = flushed word
split word (c ∷ rest) =
    let next = flushed word ++ split [] rest in
    let longer = split (word ++ c ∷ []) rest in if is_space c then next else longer

unfoldable pub is_digit : ℕ → Bool
is_digit c = within b'0' b'9' c

-- `str(n)`, with fuel for the digits, in front of those that are written already.
unfoldable pub digits : ℕ → ℕ → Text → Text
digits zero n tail = tail
digits (suc f) n tail =
    let longer = digits f (n / 10) ((b'0' + n % 10) ∷ tail) in
    if ltb n 10 then (b'0' + n) ∷ tail else longer

unfoldable pub str_ℤ : ℤ → Text
unfolding digits
str_ℤ (pos n) = digits (suc n) n []
str_ℤ (negsuc n) = b'-' ∷ digits (suc (suc n)) (suc n) []

-- The digits of an `int`: an underscore may stand between two of them. The flag says whether a digit
-- has to follow.
unfoldable pub digits_value : Bool → ℕ → Text → Option ℕ
digits_value needed n [] = if needed then none else some n
digits_value needed n (c ∷ rest) =
    let further = digits_value false (n * 10 + (c - b'0')) rest in
    let behind = digits_value true n rest in
    if is_digit c then further else (if same_number c b'_' && not needed then behind else none)

abbrev pub as_pos : Option ℕ → Option ℤ
as_pos none = none
as_pos (some n) = some (pos n)

abbrev pub as_neg : Option ℕ → Option ℤ
as_neg none = none
as_neg (some zero) = some (pos zero)
as_neg (some (suc n)) = some (negsuc n)

-- `int(text)` of a text with no spaces; `none` is a ValueError.
unfoldable pub int_of : Text → Option ℤ
unfolding digits_value
int_of [] = none
int_of (c ∷ rest) =
    if same_number c b'-'
    then as_neg (digits_value true 0 rest)
    else (if same_number c b'+'
        then as_pos (digits_value true 0 rest)
        else as_pos (digits_value true 0 (c ∷ rest)))
