-- ===== src/Prelude/Text.antt =====
-- The methods of Python's `str` that the program calls. `lower` maps the ASCII capitals and keeps
-- every other character; `strip` drops what Python counts as white space.
use Prim.Native.Nat.{ℕ, zero, suc, ◌/◌, ◌%◌}
use Prim.Native.Char.{Char, code}
use qaestro.Prelude.Int.{ℤ, pos, negsuc}
use Prim.Native.String.{String, ◌++◌ as text_append}
use mathlib.Core.List.{List, [], ◌∷◌}
use mathlib.Core.Bool.{Bool, true, false, ◌&&◌, ◌||◌}
use qaestro.Prelude.Tests.{leb, eqb, if◌then◌else◌}

-- The character that stands at the place of `c` in `from`, taken out of `to`.
unfoldable pub replace_char : Char → String → String → Char
replace_char c (String.◌∷◌ x from) (String.◌∷◌ y to) =
    if eqb (code c) (code x) then y else replace_char c from to
replace_char c _ _ = c

unfoldable pub lower : String → String
unfolding replace_char
lower String.[] = String.[]
lower (String.◌∷◌ c s) =
    String.◌∷◌ (replace_char c "ABCDEFGHIJKLMNOPQRSTUVWXYZ" "abcdefghijklmnopqrstuvwxyz") (lower s)

unfoldable pub in_range : ℕ → ℕ → ℕ → Bool
in_range lo hi c = leb lo c && leb c hi

unfoldable pub is_space : Char → Bool
unfolding in_range
is_space c =
    let n = code c in
    in_range 9 13 n
    || in_range 28 32 n
    || eqb n 133
    || eqb n 160
    || eqb n 5760
    || in_range 8192 8202 n
    || in_range 8232 8233 n
    || eqb n 8239
    || eqb n 8287
    || eqb n 12288

unfoldable pub is_empty : String → Bool
is_empty String.[] = true
is_empty (String.◌∷◌ c s) = false

unfoldable pub lstrip : String → String
unfolding is_space
lstrip String.[] = String.[]
lstrip (String.◌∷◌ c s) = if is_space c then lstrip s else String.◌∷◌ c s

unfoldable pub rstrip : String → String
unfolding is_space is_empty
rstrip String.[] = String.[]
rstrip (String.◌∷◌ c s) =
    let rest = rstrip s in if is_space c && is_empty rest then String.[] else String.◌∷◌ c rest

unfoldable pub strip : String → String
unfolding lstrip rstrip
strip s = rstrip (lstrip s)

-- The truth value of a text: `if text`.
unfoldable pub is_set : String → Bool
is_set String.[] = false
is_set (String.◌∷◌ c s) = true

-- `a or b`
unfoldable pub text_or : String → String → String
text_or String.[] b = b
text_or (String.◌∷◌ c s) b = String.◌∷◌ c s

-- The first `n` characters of a text: `text[:n]`.
unfoldable pub text_take : ℕ → String → String
text_take zero s = String.[]
text_take (suc n) String.[] = String.[]
text_take (suc n) (String.◌∷◌ c s) = String.◌∷◌ c (text_take n s)

infixl 65 ◌⋈◌
-- Concatenation of texts.
abbrev pub ◌⋈◌ : String → String → String
s ⋈ t = text_append s t

-- `sep.join(texts)`
unfoldable pub join : String → List String → String
join sep [] = ""
join sep (s ∷ []) = s
join sep (s ∷ (t ∷ ts)) = s ⋈ (sep ⋈ join sep (t ∷ ts))

-- `text.replace("/", "-")`
unfoldable pub dashes_for_slashes : String → String
dashes_for_slashes String.[] = String.[]
dashes_for_slashes (String.◌∷◌ c s) = String.◌∷◌ (replace_char c "/" "-") (dashes_for_slashes s)

text_drop : ℕ → String → String
text_drop zero s = s
text_drop (suc n) String.[] = String.[]
text_drop (suc n) (String.◌∷◌ c s) = text_drop n s

-- The decimal digits of a number, before `after`; the fuel bounds how many there are.
unfoldable pub decimal_digits : ℕ → ℕ → String → String
unfolding text_drop
decimal_digits zero n after = after
decimal_digits (suc fuel) n after =
    let here = text_take 1 (text_drop (n % 10) "0123456789") ⋈ after in
    let rest = decimal_digits fuel (n / 10) here in if leb n 9 then here else rest

-- `str(n)` of a natural number, which has at most as many digits as it counts, and one.
unfoldable pub decimal : ℕ → String
decimal n = decimal_digits (suc n) n ""

-- `str(n)`
unfoldable pub int_text : ℤ → String
int_text (pos n) = decimal n
int_text (negsuc n) = "-" ⋈ decimal (suc n)
