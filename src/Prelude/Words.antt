-- ===== src/Prelude/Words.antt =====
-- Python's `str` methods that search, split and sort texts.
use Prim.Native.Nat.{ℕ, zero, suc, ◌-◌}
use Prim.Native.Char.{Char, code}
use Prim.Native.String.{String}
use mathlib.Core.List.{List, [], ◌∷◌}
use mathlib.Core.Bool.{Bool, true, false, ◌&&◌, ◌||◌}
use mathlib.Core.Option.{Option, none, some}
use qaestro.Prelude.Tests.{leb, ltb, eqb, if◌then◌else◌}
use qaestro.Prelude.Text.{is_space, is_empty, is_set, replace_char, ◌⋈◌}

-- `text.startswith(prefix)`, the prefix first.
unfoldable pub starts_with : String → String → Bool
starts_with String.[] s = true
starts_with (String.◌∷◌ c p) String.[] = false
starts_with (String.◌∷◌ c p) (String.◌∷◌ d s) = eqb (code c) (code d) && starts_with p s

-- `part in text`
unfoldable pub occurs : String → String → Bool
unfolding starts_with
occurs part String.[] = starts_with part String.[]
occurs part (String.◌∷◌ c s) = starts_with part (String.◌∷◌ c s) || occurs part s

unfoldable pub text_length : String → ℕ
text_length String.[] = 0
text_length (String.◌∷◌ c s) = suc (text_length s)

-- `text[n:]`
unfoldable pub text_drop : ℕ → String → String
text_drop zero s = s
text_drop (suc n) String.[] = String.[]
text_drop (suc n) (String.◌∷◌ c s) = text_drop n s

unfoldable pub upper : String → String
unfolding replace_char
upper String.[] = String.[]
upper (String.◌∷◌ c s) =
    String.◌∷◌ (replace_char c "abcdefghijklmnopqrstuvwxyz" "ABCDEFGHIJKLMNOPQRSTUVWXYZ") (upper s)

-- `c in chars`
unfoldable pub is_among : Char → String → Bool
is_among c String.[] = false
is_among c (String.◌∷◌ d s) = eqb (code c) (code d) || is_among c s

-- `text.lstrip(chars)`, `text.rstrip(chars)` and `text.strip(chars)`
unfoldable pub lstrip_chars : String → String → String
unfolding is_among
lstrip_chars chars String.[] = String.[]
lstrip_chars chars (String.◌∷◌ c s) =
    if is_among c chars then lstrip_chars chars s else String.◌∷◌ c s

unfoldable pub rstrip_chars : String → String → String
unfolding is_among is_empty
rstrip_chars chars String.[] = String.[]
rstrip_chars chars (String.◌∷◌ c s) =
    let rest = rstrip_chars chars s in
    if is_among c chars && is_empty rest then String.[] else String.◌∷◌ c rest

unfoldable pub strip_chars : String → String → String
unfolding lstrip_chars rstrip_chars
strip_chars chars s = rstrip_chars chars (lstrip_chars chars s)

-- The character `c` in front of the first text.
unfoldable pub push_char : Char → List String → List String
push_char c [] = String.◌∷◌ c String.[] ∷ []
push_char c (w ∷ ws) = String.◌∷◌ c w ∷ ws

-- `text.split(sep)` for a separator of one character, or of any of several.
unfoldable pub split_at_chars : String → String → List String
unfolding is_among push_char
split_at_chars seps String.[] = "" ∷ []
split_at_chars seps (String.◌∷◌ c s) =
    let rest = split_at_chars seps s in if is_among c seps then "" ∷ rest else push_char c rest

-- `text.split()`: the maximal parts without white space.
unfoldable pub set_only : List String → List String
unfolding is_set
set_only [] = []
set_only (w ∷ ws) = let rest = set_only ws in if is_set w then w ∷ rest else rest

unfoldable pub split_spaces : String → List String
unfolding is_space push_char
split_spaces String.[] = "" ∷ []
split_spaces (String.◌∷◌ c s) =
    let rest = split_spaces s in if is_space c then "" ∷ rest else push_char c rest

unfoldable pub words : String → List String
unfolding set_only split_spaces
words s = set_only (split_spaces s)

-- What stands before the first place of `sep`, and after it.
unfoldable pub split_once : String → String → Option (String × String)
unfolding starts_with text_drop text_length
split_once sep String.[] = none
split_once sep (String.◌∷◌ c s) =
    let rest = split_once sep s in
    if starts_with sep (String.◌∷◌ c s)
    then some ("", text_drop (text_length sep) (String.◌∷◌ c s))
    else elim rest [ none ↦ none | some (before, after) ↦ some (String.◌∷◌ c before, after) ]

-- `text.split(sep, maxsplit=1)[0]`
unfoldable pub before_first : String → String → String
unfolding split_once
before_first sep s = elim (split_once sep s) [ none ↦ s | some (before, after) ↦ before ]

-- The characters that `splitlines` ends a line at; `\r\n` is one end.
unfoldable pub is_line_end : Char → Bool
is_line_end c =
    let n = code c in
    leb 10 n && leb n 13 || leb 28 n && leb n 30 || eqb n 133 || eqb n 8232 || eqb n 8233

unfoldable pub starts_newline : String → Bool
starts_newline String.[] = false
starts_newline (String.◌∷◌ c s) = eqb (code c) 10

-- The lines, an empty one after the last end included.
unfoldable pub split_lines : String → List String
unfolding is_line_end push_char starts_newline
split_lines String.[] = "" ∷ []
split_lines (String.◌∷◌ c s) =
    let rest = split_lines s in
    if eqb (code c) 13 && starts_newline s
    then rest
    else if is_line_end c
    then "" ∷ rest
    else push_char c rest

-- The last line is none if it is empty.
unfoldable pub without_empty_end : List String → List String
unfolding is_set
without_empty_end [] = []
without_empty_end (w ∷ []) = if is_set w then w ∷ [] else []
without_empty_end (w ∷ (v ∷ ws)) = w ∷ without_empty_end (v ∷ ws)

-- `text.splitlines()`
unfoldable pub splitlines : String → List String
unfolding split_lines without_empty_end
splitlines s = without_empty_end (split_lines s)

-- `text.replace("\n", " ")`
unfoldable pub spaces_for_newlines : String → String
unfolding replace_char
spaces_for_newlines String.[] = String.[]
spaces_for_newlines (String.◌∷◌ c s) = String.◌∷◌ (replace_char c "\n" " ") (spaces_for_newlines s)

-- `a <= b` of texts, by their code points.
unfoldable pub text_leb : String → String → Bool
text_leb String.[] t = true
text_leb (String.◌∷◌ c s) String.[] = false
text_leb (String.◌∷◌ c s) (String.◌∷◌ d t) =
    ltb (code c) (code d) || eqb (code c) (code d) && text_leb s t

-- Each character of `from` replaced by the one at its place in `to`.
unfoldable pub replace_chars : String → String → String → String
unfolding replace_char
replace_chars from to String.[] = String.[]
replace_chars from to (String.◌∷◌ c s) =
    String.◌∷◌ (replace_char c from to) (replace_chars from to s)

-- A backslash in front of each character of `chars`.
unfoldable pub escape_chars : String → String → String
unfolding is_among
escape_chars chars String.[] = String.[]
escape_chars chars (String.◌∷◌ c s) =
    let rest = escape_chars chars s in
    if is_among c chars then "\\" ⋈ String.◌∷◌ c rest else String.◌∷◌ c rest

-- `text.endswith(c)` for a text of one character.
unfoldable pub ends_with_char : String → String → Bool
unfolding is_among is_empty
ends_with_char chars String.[] = false
ends_with_char chars (String.◌∷◌ c s) =
    let rest = ends_with_char chars s in if is_empty s then is_among c chars else rest

-- `text * n`
unfoldable pub repeat : String → ℕ → String
repeat s zero = ""
repeat s (suc n) = s ⋈ repeat s n

-- `text.split(maxsplit=1)` of a text without white space at its ends, where this has two parts; the
-- second keeps the white space that it begins with.
unfoldable pub split_word : String → Option (String × String)
unfolding is_space
split_word String.[] = none
split_word (String.◌∷◌ c s) =
    let rest = split_word s in
    if is_space c
    then some ("", s)
    else elim rest [ none ↦ none | some (first, after) ↦ some (String.◌∷◌ c first, after) ]

-- `text.replace(old, new)`, where `old` is not empty; `skip` counts what is left of a match.
unfoldable pub replace_from : ℕ → String → String → String → String
unfolding starts_with text_length
replace_from skip old new String.[] = String.[]
replace_from (suc skip) old new (String.◌∷◌ c s) = replace_from skip old new s
replace_from zero old new (String.◌∷◌ c s) = elim (starts_with old (String.◌∷◌ c s)) [
  | true ↦ new ⋈ replace_from (text_length old - 1) old new s
  | false ↦ String.◌∷◌ c (replace_from zero old new s)
]
