-- ===== src/Renderer/Markdown.antt =====
-- Code spans and escapes of src/adapters/renderers/pr_comment.py.
use qaestro.Prelude.{
  ℕ, suc, String, ◌||◌, if◌then◌else◌, leb, ◌⋈◌, is_among, starts_with, ends_with_char,
  escape_chars, repeat,
}

abbrev pub max_of : ℕ → ℕ → ℕ
max_of a b = if leb a b then b else a

-- The loop of `_longest_backtick_run`.
unfoldable pub backtick_loop : ℕ → ℕ → String → ℕ
backtick_loop longest current String.[] = longest
backtick_loop longest current (String.◌∷◌ c s) =
    let inside = backtick_loop (max_of longest (suc current)) (suc current) s in
    let outside = backtick_loop longest 0 s in if is_among c "`" then inside else outside

unfoldable pub longest_backtick_run : String → ℕ
unfolding backtick_loop
longest_backtick_run text = backtick_loop 0 0 text

abbrev pub delimiter_of : String → String
delimiter_of text = repeat "`" (suc (longest_backtick_run text))

unfoldable pub inline_code_span : String → String
inline_code_span text =
    let delimiter = delimiter_of text in
    if starts_with "`" text || ends_with_char "`" text
    then delimiter ⋈ " " ⋈ text ⋈ " " ⋈ delimiter
    else delimiter ⋈ text ⋈ delimiter

-- `_markdown_text`: its three replacements are of different characters, and none is of a backslash.
unfoldable pub markdown_text : String → String
markdown_text text = escape_chars "[*_" text
